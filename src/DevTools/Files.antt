-- ===== src/DevTools/Files.antt =====
-- DevToolsSaveToFile and DevToolsAppendToFile of atom/browser/native_window.cc. The disk is a map from paths to
-- bytes that nobody else changes; writing succeeds, and appending where there is a file.
use Prim.Native.String.{◌++◌ as append_text}
use atom_shell.Common.{ℕ, Bool, Option, none, some, List, [], ◌∷◌, ◌++◌, String, if◌then◌else◌}
use atom_shell.Common.Dictionary.{string_key, lookup, insert}

abbrev pub Bytes : Type 0
Bytes = List ℕ

-- `scripts` are the scripts that the page of the developer tools was given, newest first.
pub record DevToolsFiles : Type 0 where
  pub saved_files : List (String × String)
  pub disk : List (String × Bytes)
  pub scripts : List String

abbrev pub no_files : DevToolsFiles
no_files = record { saved_files = []; disk = []; scripts = [] }

-- The arguments of CallDevToolsFunction, as JSON, with commas between them.
abbrev pub params : List String → String
params [] = ""
params (arg ∷ []) = arg
params (arg ∷ rest) = append_text arg (append_text ", " (params rest))

unfoldable pub call_devtools_function : String → List String → DevToolsFiles → DevToolsFiles
call_devtools_function function_name args s = record s {
  scripts =
      append_text function_name (append_text "(" (append_text (params args) ");")) ∷ s.scripts;
}

-- The path in saved_files_, if it is to be used, or the answer of ShowSaveDialog.
abbrev pub path_or_dialog : Bool → Option String → Option String → Option String
path_or_dialog save_as none answer = answer
path_or_dialog save_as (some path) answer = if save_as then answer else some path

module _ (to_json : String → String) where
  abbrev pub save_at : Option String → String → Bytes → DevToolsFiles → DevToolsFiles
  save_at none url content s =
      call_devtools_function "DevToolsAPI.canceledSaveURL" (to_json url ∷ []) s
  save_at (some path) url content s =
      call_devtools_function "DevToolsAPI.savedURL" (to_json url ∷ []) (record s {
        saved_files = insert url path s.saved_files;
        disk = insert path content s.disk;
      })

  unfoldable pub dev_tools_save_to_file :
      Option String → String → Bytes → Bool → DevToolsFiles → DevToolsFiles
  dev_tools_save_to_file answer url content save_as s =
      save_at (path_or_dialog save_as (lookup url s.saved_files) answer) url content s

  abbrev pub append_to_file : Option Bytes → String → Bytes → DevToolsFiles → DevToolsFiles
  append_to_file none path content s = s
  append_to_file (some old) path content s = record s { disk = insert path (old ++ content) s.disk }

  abbrev pub append_at : Option String → String → Bytes → DevToolsFiles → DevToolsFiles
  append_at none url content s = s
  append_at (some path) url content s =
      call_devtools_function "DevToolsAPI.appendedToURL" (to_json url ∷ [])
        (append_to_file (lookup path s.disk) path content s)

  unfoldable pub dev_tools_append_to_file : String → Bytes → DevToolsFiles → DevToolsFiles
  dev_tools_append_to_file url content s = append_at (lookup url s.saved_files) url content s

-- A save, with what the dialog answers if it is shown, or an append.
pub data Request : Type 0 where
  save : Option String → String → Bytes → Bool → Request
  append : String → Bytes → Request

unfoldable pub handle_request : (String → String) → Request → DevToolsFiles → DevToolsFiles
handle_request to_json (save answer url content save_as) s =
    dev_tools_save_to_file to_json answer url content save_as s
handle_request to_json (append url content) s = dev_tools_append_to_file to_json url content s

unfoldable pub handle_requests : (String → String) → List Request → DevToolsFiles → DevToolsFiles
handle_requests to_json [] s = s
handle_requests to_json (r ∷ rest) s = handle_requests to_json rest (handle_request to_json r s)
