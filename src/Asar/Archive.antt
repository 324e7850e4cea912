-- ===== src/Asar/Archive.antt =====
-- asar::Archive (atom/common/asar/archive.cc) after Init. The text of an offset is read by
-- base::StringToUint64, an argument, as is the temporary file that a copy creates.
use Prim.Native.Char.{Char}
use atom_shell.Common.{
  ℕ, zero, suc, ◌+◌, ◌-◌, ◌%◌, ◌^◌, Bool, true, false, Option, none, some, List, String,
  if◌then◌else◌,
}
use atom_shell.Common.Int.{ℤ, pos, negsuc}
use atom_shell.Common.Dictionary.{string_key, lookup, contains, insert}
use atom_shell.Asar.Header.{
  Dictionary, get, as_string, as_integer, as_boolean, has_key, keys, Result, then_do,
  get_files_node, get_node_from_path,
}

pub record FileInfo : Type 0 where
  pub unpacked : Bool
  pub size : ℕ
  pub offset : ℕ

-- Stats: a link and a directory leave the size and the offset alone.
pub data Stats : Type 0 where
  file : FileInfo → Stats
  directory : Stats
  link : Stats

-- header_ is set; external_files_ has the path of each temporary file.
pub record Archive : Type 0 where
  pub path : String
  pub header : Dictionary
  pub header_size : ℕ
  pub external_files : List (String × String)

-- static_cast<uint32>(int).
abbrev pub to_uint32 : ℤ → ℕ
to_uint32 (pos n) = n % 2 ^ 32
to_uint32 (negsuc n) = (2 ^ 32 - (suc n % 2 ^ 32)) % 2 ^ 32

abbrev pub wrapped : ℕ → ℕ
wrapped n = n % 2 ^ 64

abbrev pub file_stats : Option FileInfo → Option Stats
file_stats none = none
file_stats (some info) = some (file info)

abbrev pub is_unpacked : Option Bool → Bool
is_unpacked none = false
is_unpacked (some b) = b

module _ (is_separator : Char → Bool) (archive : Archive) where
  abbrev pub node : ℕ → String → Result Dictionary
  node = get_node_from_path is_separator archive.header

  unfoldable pub readdir : ℕ → String → Result (List String)
  readdir n path =
      then_do (node n path)
        (λ d. then_do (get_files_node (node n) d) (λ files. some (some (keys files))))

  unfoldable pub realpath : ℕ → String → Result String
  realpath n path =
      then_do (node n path)
        (λ d. elim (as_string (get "link" d)) [ none ↦ some (some path) | some l ↦ some (some l) ])

module _ (string_to_uint64 : String → Option ℕ) where
  abbrev pub offset_of : Option String → Option ℕ
  offset_of none = none
  offset_of (some text) = string_to_uint64 text

  abbrev pub with_offset : ℕ → ℕ → Option ℕ → Option FileInfo
  with_offset header_size size none = none
  with_offset header_size size (some n) =
      some (record { unpacked = false; size = size; offset = wrapped (n + header_size) })

  abbrev pub fill_sized : Option ℤ → ℕ → Dictionary → Option FileInfo
  fill_sized none header_size node = none
  fill_sized (some n) header_size node =
      if is_unpacked (as_boolean (get "unpacked" node))
      then some (record { unpacked = true; size = to_uint32 n; offset = 0 })
      else with_offset header_size (to_uint32 n) (offset_of (as_string (get "offset" node)))

  unfoldable pub fill_file_info_with_node : ℕ → Dictionary → Option FileInfo
  fill_file_info_with_node header_size node =
      fill_sized (as_integer (get "size" node)) header_size node

  module _ (is_separator : Char → Bool) (archive : Archive) where
    -- GetFileInfo, which calls itself on a link.
    unfoldable pub get_file_info : ℕ → String → Result FileInfo
    unfolding fill_file_info_with_node
    get_file_info zero path = none
    get_file_info (suc n) path = then_do (node is_separator archive (suc n) path) (λ d.
        elim (as_string (get "link" d)) [
          | none ↦ some (fill_file_info_with_node archive.header_size d)
          | some l ↦ get_file_info n l
        ])

    unfoldable pub stat : ℕ → String → Result Stats
    unfolding fill_file_info_with_node
    stat n path = then_do (node is_separator archive n path) (λ d.
        if has_key "link" d
        then some (some link)
        else if has_key "files" d
        then some (some directory)
        else some (file_stats (fill_file_info_with_node archive.header_size d)))

    -- append joins paths, add_extension is FilePath::AddExtension, and copy is InitFromFile of a new
    -- temporary file, with its path.
    module _ (append add_extension : String → String → String)
        (copy : FileInfo → Option String) where
      abbrev pub keep_copy : String → Option String → Option String × Archive
      keep_copy path none = (none, archive)
      keep_copy path (some temporary) = (
        some temporary,
        record archive { external_files = insert path temporary archive.external_files },
      )

      abbrev pub copy_info : String → Option FileInfo → Option String × Archive
      copy_info path none = (none, archive)
      copy_info path (some info) =
          if info.unpacked
          then (some (append (add_extension archive.path "unpacked") path), archive)
          else keep_copy path (copy info)

      abbrev pub copy_result : String → Result FileInfo → Option (Option String × Archive)
      copy_result path none = none
      copy_result path (some r) = some (copy_info path r)

      unfoldable pub copy_file_out : ℕ → String → Option (Option String × Archive)
      unfolding get_file_info
      copy_file_out n path =
          if contains path archive.external_files
          then some (lookup path archive.external_files, archive)
          else copy_result path (get_file_info n path)
