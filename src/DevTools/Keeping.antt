-- ===== src/DevTools/Keeping.antt =====
-- The file of a URL of the developer tools (atom/browser/native_window.cc), and that what is put at one path of the disk
-- keeps it.
use atom_shell.Common.{
  ◌≡◌, refl, ap, sym, ◌∙◌, Bool, true, false, Option, none, some, List, [], ◌∷◌, ◌++◌, String,
  str_eq, eq_iff, if◌then◌else◌, Bool-cases, inl, inr, arith,
}
use mathlib.Core.Path.{subst}
use mathlib.Core.Option.{some-injective}
use atom_shell.Common.Dictionary.{string_key, lookup, insert, lookup-insert}
use atom_shell.DevTools.Files.{Bytes, Request, save, append}

-- A path and what is there.
abbrev pub File : Type 0
File = String × Bytes

-- A dialog for the URL is answered with one of its own paths, and a dialog for another URL with another path.
abbrev pub IsApart : (String → Bool) → String → Request → Type 0
IsApart own url (save answer u content save_as) =
    (path : String) → answer ≡ some path → own path ≡ str_eq u url
IsApart own url (append u content) = Unit

abbrev pub saved_file : Option String → Bool → Option File → Bytes → Option File
saved_file none save_as none content = none
saved_file (some path) save_as none content = some (path, content)
saved_file none true (some file) content = some file
saved_file (some path) true (some file) content = some (path, content)
saved_file answer false (some file) content = some (file.0, content)

abbrev pub appended_file : Option File → Bytes → Option File
appended_file none content = none
appended_file (some file) content = some (file.0, file.1 ++ content)

-- The file of a URL after a request, from what it was before.
abbrev pub file_after : String → Request → Option File → Option File
file_after url (save answer u content save_as) file =
    if str_eq u url then saved_file answer save_as file content else file
file_after url (append u content) file = if str_eq u url then appended_file file content else file

abbrev pub file_after_all : String → List Request → Option File → Option File
file_after_all url [] file = file
file_after_all url (r ∷ rest) file = file_after_all url rest (file_after url r file)

abbrev pub path_in : Option File → Option String
path_in none = none
path_in (some file) = some file.0

abbrev pub IsOnDisk : Option File → List (String × Bytes) → Type 0
IsOnDisk none disk = Unit
IsOnDisk (some file) disk = lookup file.0 disk ≡ some file.1

abbrev pub HasOwnPath : (String → Bool) → Option File → Type 0
HasOwnPath own none = Unit
HasOwnPath own (some file) = own file.0 ≡ true

pub record Keeps (own : String → Bool) (url : String) (file : Option File)
    (saved_files : List (String × String)) (disk : List (String × Bytes)) : Type 0 where
  pub saved : lookup url saved_files ≡ path_in file
  pub written : IsOnDisk file disk
  pub ours : HasOwnPath own file
  pub others :
      (v path : String) → str_eq v url ≡ false → lookup v saved_files ≡ some path → own path ≡ false

pub same_url : (u url : String) → str_eq u url ≡ true → u ≡ url
same_url u url e = (eq_iff u url).0 e

pub str_eq_refl : (u : String) → str_eq u u ≡ true
str_eq_refl u = (eq_iff u u).1 refl

-- A path that is not ours is another one than that of the file.
pub insert-IsOnDisk :
    (own : String → Bool) (file : Option File) (path : String) (content : Bytes)
    (disk : List (String × Bytes))
    → own path ≡ false
    → HasOwnPath own file
    → IsOnDisk file disk
    → IsOnDisk file (insert path content disk)
insert-IsOnDisk own none path content disk e ours h = tt
insert-IsOnDisk own (some file) path content disk e ours h =
    elim (Bool-cases (str_eq path file.0)) [
      | inl same ↦ ground (arith, e, ours, ap own (same_url path file.0 same))
      | inr other ↦
          lookup-insert path file.0 content disk
          ∙ ap (λ b. if b then some content else lookup file.0 disk) other
          ∙ h
    ]

module _ (own : String → Bool) (url : String) where
  -- The path that is recorded for a URL is the URL's own, or else not.
  pub recorded_own :
      (u path : String) (file : Option File) (saved_files : List (String × String))
      (disk : List (String × Bytes))
      → Keeps own url file saved_files disk
      → lookup u saved_files ≡ some path
      → own path ≡ str_eq u url
  recorded_own u path file saved_files disk h e = elim (Bool-cases (str_eq u url)) [
    | inr other ↦ h.others u path other e ∙ sym other
    | inl same ↦
        ours file h.saved h.ours (ap (λ v. lookup v saved_files) (sym (same_url u url same)) ∙ e)
        ∙ sym same
  ]
    where
      ours :
          (file : Option File)
          → lookup url saved_files ≡ path_in file
          → HasOwnPath own file
          → lookup url saved_files ≡ some path
          → own path ≡ true
      ours none saved mine found = ground (arith, sym saved ∙ found)
      ours (some file) saved mine found =
          subst (λ q. own q ≡ true) (some-injective file.0 path (sym saved ∙ found)) mine

  put-others :
      (u path : String) (file : Option File) (saved_files : List (String × String))
      (disk : List (String × Bytes))
      → own path ≡ str_eq u url
      → Keeps own url file saved_files disk
      → (v q : String) → str_eq v url ≡ false
      → lookup v (insert u path saved_files) ≡ some q
      → own q ≡ false
  put-others u path file saved_files disk e h v q apart found = elim (Bool-cases (str_eq u v)) [
    | inl same ↦
        subst (λ q. own q ≡ false)
          (some-injective path q (
            sym (
              lookup-insert u v path saved_files
              ∙ ap (λ b. if b then some path else lookup v saved_files) same)
            ∙ found))
          (e ∙ ap (λ x. str_eq x url) (same_url u v same) ∙ apart)
    | inr other ↦ h.others v q apart (
        sym (
          lookup-insert u v path saved_files
          ∙ ap (λ b. if b then some path else lookup v saved_files) other)
        ∙ found)
  ]

  pub put-Keeps :
      (u path : String) (content : Bytes) (file : Option File)
      (saved_files : List (String × String)) (disk : List (String × Bytes))
      → own path ≡ str_eq u url
      → Keeps own url file saved_files disk
      → Keeps own url
          (if str_eq u url then some (path, content) else file)
          (insert u path saved_files)
          (insert path content disk)
  put-Keeps u path content file saved_files disk e h = elim (Bool-cases (str_eq u url)) [
    | inl same ↦ rw same (record {
      saved =
          lookup-insert u url path saved_files
          ∙ ap (λ b. if b then some path else lookup url saved_files) same;
      written =
          lookup-insert path path content disk
          ∙ ap (λ b. if b then some content else lookup path disk) (str_eq_refl path);
      ours = e ∙ same;
      others = put-others u path file saved_files disk e h;
    })
    | inr other ↦ rw other (record {
      saved =
          lookup-insert u url path saved_files
          ∙ ap (λ b. if b then some path else lookup url saved_files) other
          ∙ h.saved;
      written = insert-IsOnDisk own file path content disk (e ∙ other) h.ours h.written;
      ours = h.ours;
      others = put-others u path file saved_files disk e h;
    })
  ]
