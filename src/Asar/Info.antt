-- ===== src/Asar/Info.antt =====
-- What the queries of an archive promise (atom/common/asar/archive.cc).
use Prim.Native.Char.{Char}
use mathlib.Core.Path.{subst}
use atom_shell.Common.{
  ℕ, suc, ◌+◌, ◌^◌, ◌<◌, ◌≡◌, refl, ◌≢◌, ap, Bool, true, false, Option, none, some, String,
  if◌then◌else◌, arith,
}
use atom_shell.Common.Int.{ℤ, pos, negsuc}
use atom_shell.Common.Dictionary.{string_key}
use atom_shell.Asar.Header.{
  Dictionary, no_entries, entry, get, as_string, as_integer, as_boolean, has_key, Result, then_do,
}
use atom_shell.Asar.Archive.{
  FileInfo, file, directory, link, Archive, to_uint32, wrapped, offset_of, with_offset, is_unpacked,
  fill_sized, fill_file_info_with_node, node, get_file_info, file_stats, stat, realpath,
}

has_key-get : (key : String) (d : Dictionary) → has_key key d ≡ false → get key d ≡ none
has_key-get key no_entries h = refl
has_key-get key (entry k v rest) h = ground (arith, h, has_key-get key rest)

to_uint32-bound : (n : ℤ) → to_uint32 n < 2 ^ 32
to_uint32-bound (pos n) = omega arith
to_uint32-bound (negsuc n) = omega arith

plain_file :
    (c c' : Bool) (o : Option String) (f : Option FileInfo) (g : String → Result FileInfo)
    (info : FileInfo)
    → (c ≡ false → o ≡ none)
    → (if c then some (some link) else if c' then some (some directory) else some (file_stats f))
      ≡ some (some (file info))
    → (elim o [ none ↦ some f | some l ↦ g l ]) ≡ some (some info)
plain_file true c' o f g info k e = ground (arith, e)
plain_file false true o f g info k e = ground (arith, e)
plain_file false false o none g info k e = ground (arith, e)
plain_file false false o (some i) g info k e = rw (k refl) (ground (arith, e))

plain_result :
    (r : Result Dictionary) (fill : Dictionary → Option FileInfo) (g : String → Result FileInfo)
    (info : FileInfo)
    → then_do r (λ d.
      if has_key "link" d
      then some (some link)
      else if has_key "files" d
      then some (some directory)
      else some (file_stats (fill d)))
      ≡ some (some (file info))
    → then_do r (λ d. elim (as_string (get "link" d)) [ none ↦ some (fill d) | some l ↦ g l ])
      ≡ some (some info)
plain_result none fill g info e = ground (arith, e)
plain_result (some none) fill g info e = ground (arith, e)
plain_result (some (some d)) fill g info e =
    plain_file (has_key "link" d) (has_key "files" d) (as_string (get "link" d)) (fill d) g info
      (λ h. ap as_string (has_key-get "link" d h)) e

linked_file :
    (o : Option String) (path target : String) (f : Option FileInfo) (g : String → Result FileInfo)
    → (elim o [ none ↦ some (some path) | some l ↦ some (some l) ]) ≡ some (some target)
    → target ≢ path
    → (elim o [ none ↦ some f | some l ↦ g l ]) ≡ g target
linked_file none path target f g e h = absurd (h (ground (arith, e)))
linked_file (some l) path target f g e h = ap g (ground (arith, e))

linked_result :
    (r : Result Dictionary) (path target : String) (fill : Dictionary → Option FileInfo)
    (g : String → Result FileInfo)
    → then_do r
        (λ d. elim (as_string (get "link" d)) [ none ↦ some (some path) | some l ↦ some (some l) ])
      ≡ some (some target)
    → target ≢ path
    → then_do r (λ d. elim (as_string (get "link" d)) [ none ↦ some (fill d) | some l ↦ g l ])
      ≡ g target
linked_result none path target fill g e h = ground (arith, e)
linked_result (some none) path target fill g e h = ground (arith, e)
linked_result (some (some d)) path target fill g e h =
    linked_file (as_string (get "link" d)) path target (fill d) g e h

abbrev IsBounded : FileInfo → Type 0
IsBounded info = (info.size < 2 ^ 32) × (info.offset < 2 ^ 64)

IsBounded-some : (i info : FileInfo) → some i ≡ some info → IsBounded i → IsBounded info
IsBounded-some i info e h =
    subst IsBounded (ap (λ (o : Option FileInfo). elim o [ none ↦ i | some x ↦ x ]) e) h

IsBounded-if :
    (c : Bool) (i info : FileInfo) (o : Option FileInfo)
    → (if c then some i else o) ≡ some info
    → IsBounded i
    → (o ≡ some info → IsBounded info)
    → IsBounded info
IsBounded-if true i info o e h k = IsBounded-some i info e h
IsBounded-if false i info o e h k = k e

module _ (string_to_uint64 : String → Option ℕ) where
  offset-bounds :
      (header_size : ℕ) (n : ℤ) (o : Option ℕ) (info : FileInfo)
      → with_offset string_to_uint64 header_size (to_uint32 n) o ≡ some info
      → (info.size < 2 ^ 32) × (info.offset < 2 ^ 64)
  offset-bounds header_size n none info e = ground (arith, e)
  offset-bounds header_size n (some k) info e =
      IsBounded-some
        (record { unpacked = false; size = to_uint32 n; offset = wrapped (k + header_size) }) info e
        (to_uint32-bound n, omega arith)

  sized-bounds :
      (header_size : ℕ) (d : Dictionary) (o : Option ℤ) (info : FileInfo)
      → fill_sized string_to_uint64 o header_size d ≡ some info
      → (info.size < 2 ^ 32) × (info.offset < 2 ^ 64)
  sized-bounds header_size d none info e = ground (arith, e)
  sized-bounds header_size d (some n) info e =
      IsBounded-if (is_unpacked (as_boolean (get "unpacked" d)))
        (record { unpacked = true; size = to_uint32 n; offset = 0 }) info
        (with_offset string_to_uint64 header_size (to_uint32 n)
          (offset_of string_to_uint64 (as_string (get "offset" d))))
        e (to_uint32-bound n, omega arith)
        (offset-bounds header_size n (offset_of string_to_uint64 (as_string (get "offset" d))) info)

  -- Whatever numbers a node has, a file's size fits 32 bits and its offset 64 bits.
  pub fill_file_info_with_node-bounds :
      (header_size : ℕ) (d : Dictionary) (info : FileInfo)
      → fill_file_info_with_node string_to_uint64 header_size d ≡ some info
      → (info.size < 2 ^ 32) × (info.offset < 2 ^ 64)
  unfolding fill_file_info_with_node
  fill_file_info_with_node-bounds header_size d info e =
      sized-bounds header_size d (as_integer (get "size" d)) info e

  module _ (is_separator : Char → Bool) (archive : Archive) where
    -- What Stat says of a file is what GetFileInfo says of it.
    pub stat-get_file_info :
        (n : ℕ) (path : String) (info : FileInfo)
        → stat string_to_uint64 is_separator archive (suc n) path ≡ some (some (file info))
        → get_file_info string_to_uint64 is_separator archive (suc n) path ≡ some (some info)
    unfolding stat get_file_info
    stat-get_file_info n path info e =
        plain_result (node is_separator archive (suc n) path)
          (fill_file_info_with_node string_to_uint64 archive.header_size)
          (get_file_info string_to_uint64 is_separator archive n) info e

    -- If Realpath gives another path, then GetFileInfo gives for the path, with one level more of the stack,
    -- what it gives for that one.
    pub realpath-get_file_info :
        (n : ℕ) (path target : String)
        → realpath is_separator archive (suc n) path ≡ some (some target)
        → target ≢ path
        → get_file_info string_to_uint64 is_separator archive (suc n) path
          ≡ get_file_info string_to_uint64 is_separator archive n target
    unfolding realpath get_file_info
    realpath-get_file_info n path target e h =
        linked_result (node is_separator archive (suc n) path) path target
          (fill_file_info_with_node string_to_uint64 archive.header_size)
          (get_file_info string_to_uint64 is_separator archive n) e h
