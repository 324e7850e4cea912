-- ===== src/Asar/Tests.antt =====
-- Runs of the archive modules at a small header.
use Prim.Native.Char.{Char, code}
use mathlib.Core.Path.{subst}
use atom_shell.Common.{
  ℕ, ◌+◌, ◌-◌, ◌<◌, ◌≡◌, ◌≢◌, ◌⊎◌, inl, inr, refl, sym, ap, ◌∙◌, Bool, true, false, ◌&&◌,
  Bool-cases, Option, none, some, List, [], ◌∷◌, String, str_eq, eq_iff, ltb, ◌==◌, if◌then◌else◌,
  arith,
}
use atom_shell.Common.Int.{pos}
use atom_shell.Common.Dictionary.{string_key, insert}
use atom_shell.Asar.Header.{
  string_value, integer_value, boolean_value, dictionary_value, Dictionary, no_entries, entry,
  get_node_from_path, walk, get_child_node, get_files_node,
}
use atom_shell.Asar.Archive.{
  FileInfo, file, Archive, fill_file_info_with_node, get_file_info, stat, realpath, copy_file_out,
}
use atom_shell.Asar.Links.{AllLinks, LinksIn, Returns, get_node_from_path-Returns}
use atom_shell.Asar.Depth.{get_node_from_path-cycle}
use atom_shell.Asar.Copies.{copy_file_out-again}
use atom_shell.Asar.Job.{bytes, Job, start, read_raw_data, did_read}
use atom_shell.Asar.Steps.{Event, reads, finishes}
use atom_shell.Asar.Reading.{AreAllowed, run, run-total}
use atom_shell.Asar.Locate.{Files}
use atom_shell.Asar.Search.{Nearest, top, up, Shortens}

abbrev slash : Char → Bool
slash c = code c == 47

-- A number of one digit.
abbrev digit : String → Option ℕ
digit (String.◌∷◌ c String.[]) =
    if ltb 47 (code c) && ltb (code c) 58 then some (code c - 48) else none
digit _ = none

abbrev packed : Dictionary
packed = entry "offset" (string_value "7") (entry "size" (integer_value (pos 5)) no_entries)

abbrev unpacked_file : Dictionary
unpacked_file =
    entry "size" (integer_value (pos 9)) (entry "unpacked" (boolean_value true) no_entries)

abbrev link_to : String → Dictionary
link_to path = entry "link" (string_value path) no_entries

-- The files a and u, the link l to u, and the directory d that is a link into itself.
abbrev root : Dictionary
root =
    entry "files"
      (dictionary_value (
        entry "a" (dictionary_value packed) (
          entry "l" (dictionary_value (link_to "u"))
            (entry "u" (dictionary_value unpacked_file) no_entries))))
      no_entries

abbrev looping : Dictionary
looping =
    entry "files" (dictionary_value (entry "d" (dictionary_value (link_to "d/x")) no_entries))
      no_entries

abbrev archive : Archive
archive = record { path = "/app.asar"; header = root; header_size = 100; external_files = [] }

abbrev join : String → String → String
join p q = "/app.asar.unpacked/l"

abbrev copy : FileInfo → Option String
copy info = some "/tmp/copy"

at_u : get_node_from_path slash root 1 "u" ≡ some (some unpacked_file)
unfolding get_node_from_path walk get_child_node get_files_node
at_u = refl

at_a : get_node_from_path slash root 1 "a" ≡ some (some packed)
unfolding get_node_from_path walk get_child_node get_files_node
at_a = refl

no_link : (l : String) → none ≡ some l → Returns (get_node_from_path slash root 1 l)
no_link l e = ground (arith, e)

u_link : (l : String) → some "u" ≡ some l → Returns (get_node_from_path slash root 1 l)
u_link l e =
    subst (λ x. Returns (get_node_from_path slash root 1 x))
      (ap (λ (o : Option String). elim o [ none ↦ "u" | some x ↦ x ]) e)
      (λ q. ground (arith, sym at_u ∙ q))

root-links : AllLinks (λ l. Returns (get_node_from_path slash root 1 l)) root
unfolding LinksIn
root-links = (
  no_link,
  (
    (
      no_link,
      (
        (no_link, (record {}, (record {}, record {}))),
        (
          (u_link, (record {}, record {})),
          ((no_link, (record {}, (record {}, record {}))), record {}),
        ),
      ),
    ),
    record {},
  ),
)

get_node_from_path-Returns_example : Returns (get_node_from_path slash root 2 "l/x")
get_node_from_path-Returns_example = get_node_from_path-Returns slash root 1 root-links "l/x"

get_node_from_path-cycle_example : get_node_from_path slash looping 9 "d/x" ≡ none
get_node_from_path-cycle_example =
    get_node_from_path-cycle slash looping "d/x" "d" "x" []
      (entry "d" (dictionary_value (link_to "d/x")) no_entries) (link_to "d/x") refl refl refl refl
      refl refl 9

differs : (p q : String) → str_eq p q ≡ false → p ≢ q
differs p q h e = ground (arith, h, eq_iff p q, e)

packed_info :
    fill_file_info_with_node digit 100 packed
    ≡ some (record { unpacked = false; size = 5; offset = 107 })
unfolding fill_file_info_with_node
packed_info = refl

a_stat :
    stat digit slash archive 1 "a"
    ≡ some (some (file (record { unpacked = false; size = 5; offset = 107 })))
unfolding stat fill_file_info_with_node get_node_from_path walk get_child_node get_files_node
a_stat = refl

l_path : realpath slash archive 2 "l" ≡ some (some "u")
unfolding realpath get_node_from_path walk get_child_node get_files_node
l_path = refl

u_info :
    get_file_info digit slash archive 1 "u"
    ≡ some (some (record { unpacked = true; size = 9; offset = 0 }))
unfolding get_file_info fill_file_info_with_node get_node_from_path walk get_child_node
    get_files_node
u_info = refl

a_info :
    get_file_info digit slash archive 1 "a"
    ≡ some (some (record { unpacked = false; size = 5; offset = 107 }))
unfolding get_file_info fill_file_info_with_node get_node_from_path walk get_child_node
    get_files_node
a_info = refl

abbrev with_copy : Archive
with_copy = record archive { external_files = ("a", "/tmp/copy") ∷ [] }

a_copy : copy_file_out digit slash archive join join copy 1 "a" ≡ some (some "/tmp/copy", with_copy)
unfolding copy_file_out insert get_file_info fill_file_info_with_node get_node_from_path walk
    get_child_node get_files_node
a_copy = refl

copy_file_out-again_example :
    copy_file_out digit slash with_copy join join copy 0 "a" ≡ some (some "/tmp/copy", with_copy)
copy_file_out-again_example =
    copy_file_out-again digit slash archive join join copy 1 0 "a" "/tmp/copy"
      (record { unpacked = false; size = 5; offset = 107 }) with_copy a_info refl a_copy

abbrev info : FileInfo
info = record { unpacked = false; size = 5; offset = 107 }

-- Three bytes at once, the other two later.
abbrev events : List Event
events = reads 3 (some (bytes 3)) ∷ reads 8 none ∷ finishes (bytes 2) ∷ []

events-allowed : AreAllowed events (start info)
unfolding start read_raw_data did_read
events-allowed = ((refl, omega arith), ((refl, record {}), (omega arith, record {})))

run-total_example :
    (r : ℕ × Job) × ((run events (start info) ≡ some r) × (r.0 + r.1.remaining_bytes ≡ 5))
run-total_example = run-total info events events-allowed

abbrev above : String → String
above p = if str_eq p "/app.asar/a" then "/app.asar" else if str_eq p "/app.asar" then "/" else p

abbrev depth : String → ℕ
depth p = if str_eq p "/app.asar/a" then 2 else if str_eq p "/app.asar" then 1 else 0

abbrev files : Files
files = record {
  dir_name = above;
  matches_asar = λ p. str_eq p "/app.asar";
  append_relative = λ p q. some "a";
  append = join;
  add_extension = join;
  string_to_uint64 = digit;
  is_separator = slash;
  init = λ p. some archive;
  copy = λ p. copy;
}

abbrev no_archives : Files
no_archives = record files { matches_asar = λ p. false }

abbrev Shorter : String → Type 0
Shorter p = (above p ≡ p) ⊎ (depth (above p) < depth p)

files-Shortens : Shortens files depth
files-Shortens p = elim (Bool-cases (str_eq p "/app.asar/a")) [
  | inl e ↦ subst Shorter (sym ((eq_iff p "/app.asar/a").0 e)) (inr (omega arith))
  | inr e ↦ elim (Bool-cases (str_eq p "/app.asar")) [
    | inl f ↦ subst Shorter (sym ((eq_iff p "/app.asar").0 f)) (inr (omega arith))
    | inr f ↦ inl (simp (e, f) refl)
  ]
]

no-Nearest : Nearest no_archives "/app.asar/a" none
no-Nearest = up refl (up refl (top refl refl))
