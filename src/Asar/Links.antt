-- ===== src/Asar/Links.antt =====
-- When following the links of a header comes to an end (atom/common/asar/archive.cc).
use Prim.Native.Char.{Char}
use atom_shell.Common.{
  ℕ, zero, suc, ◌≡◌, refl, ◌≢◌, Bool, true, false, Option, none, some, List, [], ◌∷◌, String,
  str_eq, if◌then◌else◌, arith,
}
use atom_shell.Asar.Header.{
  Value, string_value, integer_value, boolean_value, dictionary_value, other_value, Dictionary,
  no_entries, entry, get, as_string, as_dictionary, Result, then_do, linked, get_files_node,
  get_child_node, segments, walk, get_node_from_path,
}

-- P holds of every link of the value and of what it contains.
unfoldable mutual
  pub LinksIn : (String → Type 0) → Value → Type 0
  LinksIn P (dictionary_value d) =
      ((l : String) → as_string (get "link" d) ≡ some l → P l) × EntriesIn P d
  LinksIn P (string_value s) = Unit
  LinksIn P (integer_value n) = Unit
  LinksIn P (boolean_value b) = Unit
  LinksIn P other_value = Unit

  pub EntriesIn : (String → Type 0) → Dictionary → Type 0
  EntriesIn P no_entries = Unit
  EntriesIn P (entry k v rest) = LinksIn P v × EntriesIn P rest

abbrev pub AllLinks : (String → Type 0) → Dictionary → Type 0
AllLinks P d = LinksIn P (dictionary_value d)

-- The node of a result has only such links; N is asked where the fuel is not enough.
abbrev Within : Type 0 → (String → Type 0) → Result Dictionary → Type 0
Within N P none = N
Within N P (some none) = Unit
Within N P (some (some d)) = AllLinks P d

module _ (N : Type 0) (P : String → Type 0) where
  then_do-Within :
      (r : Result Dictionary) (f : Dictionary → Result Dictionary)
      → Within N P r
      → ((d : Dictionary) → AllLinks P d → Within N P (f d))
      → Within N P (then_do r f)
  then_do-Within none f h k = h
  then_do-Within (some none) f h k = record {}
  then_do-Within (some (some d)) f h k = k d h

  get-Within :
      (key : String) (d : Dictionary)
      → EntriesIn P d
      → Within N P (some (as_dictionary (get key d)))
  unfolding EntriesIn
  get-Within key no_entries h = record {}
  get-Within key (entry k v rest) h = entry_found (str_eq k key) v rest h (get-Within key rest h.1)
    where
      entry_found :
          (c : Bool) (v : Value) (rest : Dictionary)
          → EntriesIn P (entry k v rest)
          → Within N P (some (as_dictionary (get key rest)))
          → Within N P (some (as_dictionary (if c then some v else get key rest)))
      entry_found false v rest h ih = ih
      entry_found true (dictionary_value d) rest h ih = h.0
      entry_found true (string_value s) rest h ih = record {}
      entry_found true (integer_value n) rest h ih = record {}
      entry_found true (boolean_value b) rest h ih = record {}
      entry_found true other_value rest h ih = record {}

  module _ (resolve : String → Result Dictionary)
      (known : (l : String) → P l → Within N P (resolve l)) where
    linked-Within :
        (o : Option String) (d : Dictionary)
        → ((l : String) → o ≡ some l → P l)
        → AllLinks P d
        → Within N P (linked resolve o d)
    linked-Within none d k h = h
    linked-Within (some l) d k h = known l (k l refl)

    child-Within :
        (name : String) (d : Dictionary) → AllLinks P d → Within N P (get_child_node resolve name d)
    unfolding get_child_node get_files_node LinksIn
    child-Within name d h =
        then_do-Within
          (then_do (linked resolve (as_string (get "link" d)) d)
            (λ e. some (as_dictionary (get "files" e))))
          (λ files. some (as_dictionary (get name files)))
          (then_do-Within (linked resolve (as_string (get "link" d)) d)
            (λ e. some (as_dictionary (get "files" e)))
            (linked-Within (as_string (get "link" d)) d h.0 h) (λ e k. get-Within "files" e k.1))
          (λ files k. get-Within name files k.1)

    walk-Within :
        (names : List String) (d : Dictionary) → AllLinks P d → Within N P (walk resolve names d)
    unfolding walk
    walk-Within [] d h = h
    walk-Within (name ∷ rest) d h =
        then_do-Within (get_child_node resolve name d) (walk resolve rest) (child-Within name d h)
          (λ e k. walk-Within rest e k)

abbrev pub Returns {ℓ} : {A : Type ℓ} → Result A → Type ℓ
Returns r = r ≢ none

Returns-of : (P : String → Type 0) (r : Result Dictionary) → Within ⊥ P r → Returns r
Returns-of P none h = absurd h
Returns-of P (some x) h = λ e. ground (arith, e)

Within-of :
    (P : String → Type 0) (r : Result Dictionary) → Returns r → Within Unit P r → Within ⊥ P r
Within-of P none h k = absurd (h refl)
Within-of P (some none) h k = k
Within-of P (some (some d)) h k = k

module _ (is_separator : Char → Bool) (root : Dictionary) where
  abbrev node : ℕ → String → Result Dictionary
  node = get_node_from_path is_separator root

  node-Within :
      (N : Type 0) (P : String → Type 0)
      → AllLinks P root
      → (n : ℕ) → ((l : String) → P l → Within N P (node n l))
      → (path : String) → Within N P (node (suc n) path)
  unfolding get_node_from_path
  node-Within N P h n k path = chosen (str_eq path "")
    where
      chosen :
          (c : Bool)
          → Within N P
              (if c then some (some root) else walk (node n) (segments is_separator path) root)
      chosen true = h
      chosen false = walk-Within N P (node n) k (segments is_separator path) root h

  node-inside :
      (P : String → Type 0)
      → AllLinks P root
      → (n : ℕ) (path : String) → Within Unit P (node n path)
  unfolding get_node_from_path
  node-inside P h zero path = record {}
  node-inside P h (suc n) path = node-Within Unit P h n (λ l p. node-inside P h n l) path

  -- If each link of the header can be followed on some depth of the stack, then every path can be followed
  -- with one level more.
  pub get_node_from_path-Returns :
      (n : ℕ)
      → AllLinks (λ l. Returns (get_node_from_path is_separator root n l)) root
      → (path : String) → Returns (get_node_from_path is_separator root (suc n) path)
  get_node_from_path-Returns n h path =
      let P = λ (l : String). Returns (node n l) in
      Returns-of P (node (suc n) path)
        (node-Within ⊥ P h n (λ l r. Within-of P (node n l) r (node-inside P h n l)) path)
