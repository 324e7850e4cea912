-- ===== src/Asar/Header.antt =====
-- The header of an archive and its nodes (atom/common/asar/archive.cc). Links can lead anywhere, also
-- to themselves: the functions that follow them run on fuel, the depth of the stack, and their
-- outer `none` says that it was not enough.
use Prim.Native.Char.{Char}
use atom_shell.Common.{
  ℕ, zero, suc, Bool, true, false, Option, none, some, List, [], ◌∷◌, String, str_eq, if◌then◌else◌,
}
use atom_shell.Common.Int.{ℤ}

-- base::Value, and base::DictionaryValue as its entries.
mutual
  pub data Value : Type 0 where
    string_value : String → Value
    integer_value : ℤ → Value
    boolean_value : Bool → Value
    dictionary_value : Dictionary → Value
    other_value : Value

  pub data Dictionary : Type 0 where
    no_entries : Dictionary
    entry : String → Value → Dictionary → Dictionary

abbrev pub get : String → Dictionary → Option Value
get key no_entries = none
get key (entry k v rest) = if str_eq k key then some v else get key rest

abbrev pub as_string : Option Value → Option String
as_string (some (string_value s)) = some s
as_string _ = none

abbrev pub as_integer : Option Value → Option ℤ
as_integer (some (integer_value n)) = some n
as_integer _ = none

abbrev pub as_boolean : Option Value → Option Bool
as_boolean (some (boolean_value b)) = some b
as_boolean _ = none

abbrev pub as_dictionary : Option Value → Option Dictionary
as_dictionary (some (dictionary_value d)) = some d
as_dictionary _ = none

abbrev pub has_key : String → Dictionary → Bool
has_key key no_entries = false
has_key key (entry k v rest) = if str_eq k key then true else has_key key rest

abbrev pub keys : Dictionary → List String
keys no_entries = []
keys (entry k v rest) = k ∷ keys rest

-- The inner `none` is `return false`.
abbrev pub Result {ℓ} : Type ℓ → Type ℓ
Result A = Option (Option A)

abbrev pub then_do {ℓ κ} : {A : Type ℓ} {B : Type κ} → Result A → (A → Result B) → Result B
then_do none f = none
then_do (some none) f = some none
then_do (some (some a)) f = f a

abbrev pub linked : (String → Result Dictionary) → Option String → Dictionary → Result Dictionary
linked resolve none dir = some (some dir)
linked resolve (some link) dir = resolve link

-- GetFilesNode; resolve is GetNodeFromPath from the root.
unfoldable pub get_files_node : (String → Result Dictionary) → Dictionary → Result Dictionary
get_files_node resolve dir =
    then_do (linked resolve (as_string (get "link" dir)) dir)
      (λ d. some (as_dictionary (get "files" d)))

unfoldable pub get_child_node :
    (String → Result Dictionary) → String → Dictionary → Result Dictionary
unfolding get_files_node
get_child_node resolve name dir =
    then_do (get_files_node resolve dir) (λ files. some (as_dictionary (get name files)))

abbrev pub push : Char → List String → List String
push c [] = (String.◌∷◌ c "") ∷ []
push c (w ∷ ws) = String.◌∷◌ c w ∷ ws

-- The texts that find_first_of and erase cut off a path one by one, and what is left at last.
abbrev pub segments : (Char → Bool) → String → List String
segments is_separator String.[] = "" ∷ []
segments is_separator (String.◌∷◌ c rest) =
    let ws = segments is_separator rest in if is_separator c then "" ∷ ws else push c ws

-- The loop of GetNodeFromPath and its last step.
unfoldable pub walk : (String → Result Dictionary) → List String → Dictionary → Result Dictionary
unfolding get_child_node
walk resolve [] dir = some (some dir)
walk resolve (name ∷ rest) dir = then_do (get_child_node resolve name dir) (walk resolve rest)

module _ (is_separator : Char → Bool) (root : Dictionary) where
  unfoldable pub get_node_from_path : ℕ → String → Result Dictionary
  unfolding walk
  get_node_from_path zero path = none
  get_node_from_path (suc n) path =
      if str_eq path ""
      then some (some root)
      else walk (get_node_from_path n) (segments is_separator path) root
