-- ===== src/DevTools/Tests.antt =====
-- Saves and appends of two URLs; one of them is saved as a second file.
use atom_shell.Common.{
  ◌≡◌, refl, Bool, true, false, ◌||◌, none, some, List, [], ◌∷◌, String, str_eq, arith,
}
use mathlib.Core.Path.{subst}
use mathlib.Core.Option.{some-injective}
use atom_shell.Common.Dictionary.{string_key, lookup}
use atom_shell.DevTools.Files.{no_files, Request, save, append, handle_requests}
use atom_shell.DevTools.Keeping.{path_in, IsOnDisk, file_after_all}
use atom_shell.DevTools.Contents.{handle_requests-files}

abbrev requests : List Request
requests =
    append "a" (9 ∷ [])
    ∷ save (some "first") "a" (1 ∷ []) false
    ∷ append "a" (2 ∷ [])
    ∷ save none "b" (3 ∷ []) true
    ∷ save (some "second") "a" (5 ∷ []) true
    ∷ append "a" (4 ∷ [])
    ∷ save none "a" (6 ∷ []) true
    ∷ []

abbrev own : String → Bool
own path = str_eq path "first" || str_eq path "second"

file_after_all-requests : file_after_all "a" requests none ≡ some ("second", 5 ∷ 4 ∷ [])
file_after_all-requests = refl

answered :
    (answer : String)
    → own answer ≡ true
    → (path : String) → some answer ≡ some path
    → own path ≡ true
answered answer e path found = subst (λ p. own p ≡ true) (some-injective answer path found) e

handle_requests-files_example :
    (lookup "a" (handle_requests (λ url. url) requests no_files).saved_files
      ≡ path_in (file_after_all "a" requests none))
    × IsOnDisk
        (file_after_all "a" requests none)
        (handle_requests (λ url. url) requests no_files).disk
handle_requests-files_example =
    handle_requests-files (λ url. url) own requests "a"
      (
        tt,
        (
          answered "first" refl,
          (
            tt,
            (
              λ path found. ground (arith, found),
              (answered "second" refl, (tt, (λ path found. ground (arith, found), tt))),
            ),
          ),
        ),
      )
