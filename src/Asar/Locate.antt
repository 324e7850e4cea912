-- ===== src/Asar/Locate.antt =====
-- Which archive a path lies in, and which job serves it (atom/common/asar/asar_util.cc,
-- atom/browser/net/asar/asar_protocol_handler.cc). The paths of base and Archive::Init are parameters.
use Prim.Native.Char.{Char}
use atom_shell.Common.{ℕ, zero, suc, Bool, Option, none, some, List, String, str_eq, if◌then◌else◌}
use atom_shell.Common.Dictionary.{string_key, lookup, contains, insert}
use atom_shell.Asar.Header.{Result}
use atom_shell.Asar.Archive.{FileInfo, Archive, get_file_info, copy_file_out}

-- FilePath::DirName, MatchesExtension for .asar, AppendRelativePath, Append and AddExtension,
-- StringToUint64, the separators of paths, Archive::Init of a new archive, and the copy of a file of an
-- archive into a new temporary file.
pub record Files : Type 0 where
  pub dir_name : String → String
  pub matches_asar : String → Bool
  pub append_relative : String → String → Option String
  pub append : String → String → String
  pub add_extension : String → String → String
  pub string_to_uint64 : String → Option ℕ
  pub is_separator : Char → Bool
  pub init : String → Option Archive
  pub copy : String → FileInfo → Option String

-- g_archive_map.
abbrev pub ArchiveMap : Type 0
ArchiveMap = List (String × Archive)

-- The job that is created.
pub data Choice : Type 0 where
  file_job : String → Choice
  error_job : Choice
  asar_job : String → String → FileInfo → Choice

module _ (b : Files) where
  open b use {
    dir_name, matches_asar, append_relative, append, add_extension, string_to_uint64, is_separator,
    init, copy,
  }

  -- The loop of GetAsarArchivePath, on fuel.
  unfoldable pub find_asar : ℕ → String → Result String
  find_asar zero iter = none
  find_asar (suc n) iter =
      let above = find_asar n (dir_name iter) in
      if matches_asar iter
      then some (some iter)
      else if str_eq iter (dir_name iter)
      then some none
      else above

  abbrev pub relative_to : String → Option String → Option (String × String)
  relative_to full_path none = none
  relative_to full_path (some asar_path) = elim (append_relative asar_path full_path) [
    | none ↦ none
    | some tail ↦ some (asar_path, tail)
  ]

  unfoldable pub get_asar_archive_path : ℕ → String → Result (String × String)
  get_asar_archive_path n full_path = elim (find_asar n full_path) [
    | none ↦ none
    | some r ↦ some (relative_to full_path r)
  ]

  abbrev pub add_archive : String → Option Archive → ArchiveMap → Option Archive × ArchiveMap
  add_archive path none archives = (none, archives)
  add_archive path (some archive) archives = (some archive, insert path archive archives)

  unfoldable pub get_or_create_asar_archive : String → ArchiveMap → Option Archive × ArchiveMap
  get_or_create_asar_archive path archives =
      if contains path archives
      then (lookup path archives, archives)
      else add_archive path (init path) archives

  abbrev pub or_empty : Option String → String
  or_empty none = ""
  or_empty (some path) = path

  abbrev pub served_info :
      ℕ → String → String → Archive → ArchiveMap → Option FileInfo → Option (Choice × ArchiveMap)
  served_info n asar_path relative_path archive archives none = some (error_job, archives)
  served_info n asar_path relative_path archive archives (some info) =
      if info.unpacked
      then elim (copy_file_out string_to_uint64 is_separator archive append add_extension
          (copy asar_path) n relative_path) [
            | none ↦ none
            | some r ↦ some (file_job (or_empty r.0), insert asar_path r.1 archives)
          ]
      else some (asar_job asar_path relative_path info, archives)

  abbrev pub served_archive :
      ℕ → String → String → Option Archive × ArchiveMap → Option (Choice × ArchiveMap)
  served_archive n asar_path relative_path (none, archives) = some (error_job, archives)
  served_archive n asar_path relative_path (some archive, archives) =
      elim (get_file_info string_to_uint64 is_separator archive n relative_path) [
        | none ↦ none
        | some info ↦ served_info n asar_path relative_path archive archives info
      ]

  -- CreateJobFromPath; `none` is too little fuel.
  unfoldable pub create_job_from_path : ℕ → String → ArchiveMap → Option (Choice × ArchiveMap)
  create_job_from_path n full_path archives = elim (get_asar_archive_path n full_path) [
    | none ↦ none
    | some none ↦ some (file_job full_path, archives)
    | some (some (asar_path, relative_path)) ↦
        served_archive n asar_path relative_path (get_or_create_asar_archive asar_path archives)
  ]
