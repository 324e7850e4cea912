-- ===== src/DevTools/Contents.antt =====
-- What the files of the developer tools (atom/browser/native_window.cc) hold.
use atom_shell.Common.{
  ◌≡◌, refl, ap, sym, ◌∙◌, Bool, true, false, Option, none, some, List, [], ◌∷◌, ◌++◌, String,
  str_eq, if◌then◌else◌, Bool-cases, inl, inr, ◌⊎◌, All, arith,
}
use mathlib.Core.Path.{subst}
use mathlib.Core.Option.{some-injective}
use atom_shell.Common.Dictionary.{string_key, lookup, lookup-insert}
use atom_shell.DevTools.Files.{
  Bytes, DevToolsFiles, no_files, path_or_dialog, save_at, append_to_file, append_at,
  call_devtools_function, dev_tools_save_to_file, dev_tools_append_to_file, Request, save, append,
  handle_request, handle_requests,
}
use atom_shell.DevTools.Keeping.{
  File, IsApart, saved_file, appended_file, file_after, file_after_all, path_in, IsOnDisk, Keeps,
  same_url, str_eq_refl, insert-IsOnDisk, recorded_own, put-Keeps,
}

module _ (own : String → Bool) (url : String) where
  -- What a save puts, by the path that it writes to.
  abbrev placed : Option String → Bytes → Option File → Option File
  placed none content file = file
  placed (some path) content file = some (path, content)

  saved_file-placed :
      (answer : Option String) (save_as : Bool) (file : Option File) (content : Bytes)
      → placed (path_or_dialog save_as (path_in file) answer) content file
        ≡ saved_file answer save_as file content
  saved_file-placed none true none content = refl
  saved_file-placed none false none content = refl
  saved_file-placed (some path) true none content = refl
  saved_file-placed (some path) false none content = refl
  saved_file-placed none true (some file) content = refl
  saved_file-placed (some path) true (some file) content = refl
  saved_file-placed none false (some file) content = refl
  saved_file-placed (some path) false (some file) content = refl

  path-own :
      (u : String) (answer recorded : Option String) (save_as : Bool)
      → ((path : String) → answer ≡ some path → own path ≡ str_eq u url)
      → ((path : String) → recorded ≡ some path → own path ≡ str_eq u url)
      → (path : String) → path_or_dialog save_as recorded answer ≡ some path
      → own path ≡ str_eq u url
  path-own u answer none save_as asked known path e = asked path e
  path-own u answer (some q) true asked known path e = asked path e
  path-own u answer (some q) false asked known path e = known path e

  module _ (to_json : String → String) where
    abbrev KeepsIn : Option File → DevToolsFiles → Type 0
    KeepsIn file s = Keeps own url file s.saved_files s.disk

    save_at-Keeps :
        (o : Option String) (u : String) (content : Bytes) (file : Option File) (s : DevToolsFiles)
        → ((path : String) → o ≡ some path → own path ≡ str_eq u url)
        → KeepsIn file s
        → KeepsIn
            (if str_eq u url then placed o content file else file)
            (save_at to_json o u content s)
    unfolding call_devtools_function
    save_at-Keeps none u content file s e h = subst (λ f. KeepsIn f s) (both (str_eq u url)) h
      where
        both : (b : Bool) → file ≡ (if b then file else file)
        both true = refl
        both false = refl
    save_at-Keeps (some path) u content file s e h =
        put-Keeps own url u path content file s.saved_files s.disk (e path refl) h

    save-Keeps :
        (answer : Option String) (u : String) (content : Bytes) (save_as : Bool)
        (file : Option File) (s : DevToolsFiles)
        → ((path : String) → answer ≡ some path → own path ≡ str_eq u url)
        → KeepsIn file s
        → KeepsIn
            (file_after url (save answer u content save_as) file)
            (dev_tools_save_to_file to_json answer u content save_as s)
    unfolding dev_tools_save_to_file
    save-Keeps answer u content save_as file s e h =
        subst (λ f. KeepsIn f (save_at to_json written_to u content s))
          (by_url (Bool-cases (str_eq u url)))
          (save_at-Keeps written_to u content file s
            (path-own u answer (lookup u s.saved_files) save_as e
              (λ path found. recorded_own own url u path file s.saved_files s.disk h found))
            h)
      where
        written_to : Option String
        written_to = path_or_dialog save_as (lookup u s.saved_files) answer

        by_url :
            (str_eq u url ≡ true) ⊎ (str_eq u url ≡ false)
            → (if str_eq u url then placed written_to content file else file)
              ≡ file_after url (save answer u content save_as) file
        by_url (inr other) = rw other refl
        by_url (inl same) = rw same (
            ap (λ recorded. placed (path_or_dialog save_as recorded answer) content file)
              (ap (λ v. lookup v s.saved_files) (same_url u url same) ∙ h.saved)
            ∙ saved_file-placed answer save_as file content)

    append-ours :
        (path : String) (bytes content : Bytes) (s : DevToolsFiles)
        → KeepsIn (some (path, bytes)) s
        → KeepsIn
            (some (path, bytes ++ content))
            (append_to_file to_json (lookup path s.disk) path content s)
    append-ours path bytes content s h = rw h.written (record {
      saved = h.saved;
      written =
          lookup-insert path path (bytes ++ content) s.disk
          ∙ ap (λ b. if b then some (bytes ++ content) else lookup path s.disk) (str_eq_refl path);
      ours = h.ours;
      others = h.others;
    })

    append-others :
        (old : Option Bytes) (path : String) (content : Bytes) (file : Option File)
        (s : DevToolsFiles)
        → own path ≡ false
        → KeepsIn file s
        → KeepsIn file (append_to_file to_json old path content s)
    append-others none path content file s e h = h
    append-others (some old) path content file s e h = record {
      saved = h.saved;
      written = insert-IsOnDisk own file path (old ++ content) s.disk e h.ours h.written;
      ours = h.ours;
      others = h.others;
    }

    extend-Keeps :
        (o : Option String) (u : String) (content : Bytes) (file : Option File) (s : DevToolsFiles)
        → lookup u s.saved_files ≡ o
        → KeepsIn file s
        → KeepsIn (file_after url (append u content) file) (append_at to_json o u content s)
    unfolding call_devtools_function
    extend-Keeps none u content file s e h =
        subst (λ f. KeepsIn f s) (by_url (Bool-cases (str_eq u url)) file h.saved) h
      where
        by_url :
            (str_eq u url ≡ true) ⊎ (str_eq u url ≡ false)
            → (file : Option File) → lookup url s.saved_files ≡ path_in file
            → file ≡ file_after url (append u content) file
        by_url (inr other) file saved = rw other refl
        by_url (inl same) none saved = rw same refl
        by_url (inl same) (some file) saved =
            ground
              (arith, sym saved ∙ ap (λ v. lookup v s.saved_files) (sym (same_url u url same)) ∙ e)
    extend-Keeps (some path) u content file s e h = elim (Bool-cases (str_eq u url)) [
      | inl same ↦
          rw same
            (extended file h (ap (λ v. lookup v s.saved_files) (sym (same_url u url same)) ∙ e))
      | inr other ↦ rw other (
          append-others (lookup path s.disk) path content file s
            (recorded_own own url u path file s.saved_files s.disk h e ∙ other) h)
    ]
      where
        extended :
            (file : Option File)
            → KeepsIn file s
            → lookup url s.saved_files ≡ some path
            → KeepsIn
                (appended_file file content)
                (append_to_file to_json (lookup path s.disk) path content s)
        extended none h found = ground (arith, sym h.saved ∙ found)
        extended (some (q, bytes)) h found =
            subst
              (λ path.
                KeepsIn (some (q, bytes ++ content))
                  (append_to_file to_json (lookup path s.disk) path content s))
              (some-injective q path (sym h.saved ∙ found)) (append-ours q bytes content s h)

    handle-Keeps :
        (r : Request) (file : Option File) (s : DevToolsFiles)
        → IsApart own url r
        → KeepsIn file s
        → KeepsIn (file_after url r file) (handle_request to_json r s)
    unfolding handle_request dev_tools_append_to_file
    handle-Keeps (save answer u content save_as) file s apart h =
        save-Keeps answer u content save_as file s apart h
    handle-Keeps (append u content) file s apart h =
        extend-Keeps (lookup u s.saved_files) u content file s refl h

    handle_each-Keeps :
        (rs : List Request) (file : Option File) (s : DevToolsFiles)
        → All (IsApart own url) rs
        → KeepsIn file s
        → KeepsIn (file_after_all url rs file) (handle_requests to_json rs s)
    unfolding handle_requests
    handle_each-Keeps [] file s apart h = h
    handle_each-Keeps (r ∷ rest) file s apart h =
        handle_each-Keeps rest (file_after url r file) (handle_request to_json r s) apart.1
          (handle-Keeps r file s apart.0 h)

-- For one URL, when its save dialogs are answered only with paths of a set, and those of other URLs with none of it:
-- after any saves, cancelled dialogs and appends of any URLs, the URL is recorded with the path where it was first
-- saved, or saved as last, and that path holds the bytes of the last save and of the appends since, in order. If it was
-- not saved, no path is recorded.
pub handle_requests-files :
    (to_json : String → String) (own : String → Bool) (rs : List Request) (url : String)
    → All (IsApart own url) rs
    → (lookup url (handle_requests to_json rs no_files).saved_files
        ≡ path_in (file_after_all url rs none))
      × IsOnDisk (file_after_all url rs none) (handle_requests to_json rs no_files).disk
handle_requests-files to_json own rs url apart =
    let h : Keeps own url (file_after_all url rs none)
        (handle_requests to_json rs no_files).saved_files
        (handle_requests to_json rs no_files).disk =
      handle_each-Keeps own url to_json rs none no_files apart (record {
        saved = refl;
        written = tt;
        ours = tt;
        others = λ v path other found. ground (arith, found);
      }) in
    (h.saved, h.written)
