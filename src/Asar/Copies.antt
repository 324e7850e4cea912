-- ===== src/Asar/Copies.antt =====
-- Copying a file out of an archive (atom/common/asar/archive.cc).
use Prim.Native.Char.{Char}
use mathlib.Core.Path.{subst}
use atom_shell.Common.{
  ℕ, suc, ◌≡◌, refl, ◌≢◌, sym, ap, ◌∙◌, Bool, true, false, Option, none, some, String,
  if◌then◌else◌, arith,
}
use atom_shell.Common.Dictionary.{
  string_key, lookup, contains, lookup-insert, contains-insert, same_refl,
}
use atom_shell.Asar.Archive.{FileInfo, Archive, get_file_info, realpath, keep_copy, copy_file_out}
use atom_shell.Asar.Info.{realpath-get_file_info}

module _ (string_to_uint64 : String → Option ℕ) (is_separator : Char → Bool)
    (archive : Archive) where
  module _ (append add_extension : String → String → String) (copy : FileInfo → Option String) where
    abbrev Kept : String → String → Archive → Type 0
    Kept path out a =
        (contains path a.external_files ≡ true) × (lookup path a.external_files ≡ some out)

    abbrev archive_of : Option (Option String × Archive) → Archive
    archive_of none = archive
    archive_of (some r) = r.1

    abbrev path_of : Option (Option String × Archive) → Option String
    path_of none = none
    path_of (some r) = r.0

    Kept-after :
        (c : Bool) (t : Option String) (path out : String) (after : Archive)
        → contains path archive.external_files ≡ c
        → (if c
            then some (lookup path archive.external_files, archive)
            else some
                (keep_copy string_to_uint64 is_separator archive append add_extension copy path t))
          ≡ some (some out, after)
        → Kept path out after
    Kept-after true t path out after h e = subst (Kept path out) (ap archive_of e) (h, ap path_of e)
    Kept-after false none path out after h e = ground (arith, ap path_of e)
    Kept-after false (some temporary) path out after h e = subst (Kept path out) (ap archive_of e) (
      contains-insert path path temporary archive.external_files ∙ rw (same_refl path) refl,
      lookup-insert path path temporary archive.external_files ∙ rw (same_refl path) (ap path_of e),
    )

    first_copy :
        (n : ℕ) (path : String) (info : FileInfo)
        → get_file_info string_to_uint64 is_separator archive n path ≡ some (some info)
        → info.unpacked ≡ false
        → copy_file_out string_to_uint64 is_separator archive append add_extension copy n path ≡ (
            if contains path archive.external_files
            then some (lookup path archive.external_files, archive)
            else some (
                keep_copy string_to_uint64 is_separator archive append add_extension copy path
                  (copy info)))
    unfolding copy_file_out
    first_copy n path info hi hu = simp (hi, hu) refl

    -- An unpacked file that is reached through a link, and for whose path no copy was made before, is
    -- looked for under the path of the link and not under that of the file.
    pub copy_file_out-unpacked :
        (n : ℕ) (path target : String) (info : FileInfo)
        → realpath is_separator archive (suc n) path ≡ some (some target)
        → target ≢ path
        → get_file_info string_to_uint64 is_separator archive n target ≡ some (some info)
        → info.unpacked ≡ true
        → contains path archive.external_files ≡ false
        → copy_file_out string_to_uint64 is_separator archive append add_extension copy (suc n) path
          ≡ some (some (append (add_extension archive.path "unpacked") path), archive)
    unfolding copy_file_out
    copy_file_out-unpacked n path target info hr hd hi hu hc =
        simp
          (
            hc,
            realpath-get_file_info string_to_uint64 is_separator archive n path target hr hd,
            hi,
            hu,
          )
          refl

    -- A file that is not unpacked, and that was copied out, is not copied again: the next call gives the
    -- same path and changes nothing.
    pub copy_file_out-again :
        (n m : ℕ) (path out : String) (info : FileInfo) (after : Archive)
        → get_file_info string_to_uint64 is_separator archive n path ≡ some (some info)
        → info.unpacked ≡ false
        → copy_file_out string_to_uint64 is_separator archive append add_extension copy n path
          ≡ some (some out, after)
        → copy_file_out string_to_uint64 is_separator after append add_extension copy m path
          ≡ some (some out, after)
    unfolding copy_file_out
    copy_file_out-again n m path out info after hi hu e =
        let k =
          Kept-after (contains path archive.external_files) (copy info) path out after refl
            (sym (first_copy n path info hi hu) ∙ e) in
        simp (k.0, k.1) refl
