-- ===== src/Asar/Depth.antt =====
-- More stack changes no answer, and a link to itself has none (atom/common/asar/archive.cc).
use Prim.Native.Char.{Char}
use atom_shell.Common.{
  ℕ, zero, suc, ◌≡◌, refl, Bool, true, false, Option, none, some, List, [], ◌∷◌, String, str_eq,
  if◌then◌else◌, arith,
}
use atom_shell.Asar.Header.{
  Dictionary, get, as_string, as_dictionary, Result, then_do, linked, get_files_node,
  get_child_node, segments, walk, get_node_from_path,
}

-- Every answer of r is that of s.
abbrev pub Below : Result Dictionary → Result Dictionary → Type 0
Below r s = (x : Option Dictionary) → r ≡ some x → s ≡ some x

then_do-Below :
    (r s : Result Dictionary) (f g : Dictionary → Result Dictionary)
    → Below r s
    → ((d : Dictionary) → Below (f d) (g d))
    → Below (then_do r f) (then_do s g)
then_do-Below none s f g h k x e = ground (arith, e)
then_do-Below (some none) s f g h k x e = rw (h none refl) e
then_do-Below (some (some d)) s f g h k x e = rw (h (some d) refl) (k d x e)

if-Below :
    (c : Bool) (t r s : Result Dictionary)
    → Below r s
    → Below (if c then t else r) (if c then t else s)
if-Below true t r s h x e = e
if-Below false t r s h x e = h x e

module _ (resolve more : String → Result Dictionary)
    (h : (l : String) → Below (resolve l) (more l)) where
  linked-Below : (o : Option String) (d : Dictionary) → Below (linked resolve o d) (linked more o d)
  linked-Below none d x e = e
  linked-Below (some l) d x e = h l x e

  child-Below :
      (name : String) (d : Dictionary)
      → Below (get_child_node resolve name d) (get_child_node more name d)
  unfolding get_child_node get_files_node
  child-Below name d =
      then_do-Below
        (then_do (linked resolve (as_string (get "link" d)) d)
          (λ e. some (as_dictionary (get "files" e))))
        (then_do (linked more (as_string (get "link" d)) d)
          (λ e. some (as_dictionary (get "files" e))))
        (λ files. some (as_dictionary (get name files)))
        (λ files. some (as_dictionary (get name files)))
        (then_do-Below (linked resolve (as_string (get "link" d)) d)
          (linked more (as_string (get "link" d)) d) (λ e. some (as_dictionary (get "files" e)))
          (λ e. some (as_dictionary (get "files" e))) (linked-Below (as_string (get "link" d)) d)
          (λ e x k. k))
        (λ files x k. k)

  walk-Below :
      (names : List String) (d : Dictionary) → Below (walk resolve names d) (walk more names d)
  unfolding walk
  walk-Below [] d = λ x e. e
  walk-Below (name ∷ rest) d =
      then_do-Below (get_child_node resolve name d) (get_child_node more name d) (walk resolve rest)
        (walk more rest) (child-Below name d) (λ e. walk-Below rest e)

module _ (is_separator : Char → Bool) (root : Dictionary) where
  -- A path that some depth of the stack answers has the same answer one level deeper.
  pub get_node_from_path-Below :
      (n : ℕ) (path : String) (x : Option Dictionary)
      → get_node_from_path is_separator root n path ≡ some x
      → get_node_from_path is_separator root (suc n) path ≡ some x
  unfolding get_node_from_path
  get_node_from_path-Below zero path x e = ground (arith, e)
  get_node_from_path-Below (suc n) path x e =
      if-Below (str_eq path "") (some (some root))
        (walk (get_node_from_path is_separator root n) (segments is_separator path) root)
        (walk (get_node_from_path is_separator root (suc n)) (segments is_separator path) root)
        (walk-Below (get_node_from_path is_separator root n)
          (get_node_from_path is_separator root (suc n)) (λ l. get_node_from_path-Below n l)
          (segments is_separator path) root)
        x e

  child-linked :
      (resolve : String → Result Dictionary) (name path : String) (d : Dictionary)
      → as_string (get "link" d) ≡ some path
      → resolve path ≡ none
      → get_child_node resolve name d ≡ none
  unfolding get_child_node get_files_node
  child-linked resolve name path d h k = simp (h, k) refl

  child-plain :
      (resolve : String → Result Dictionary) (name : String) (d files : Dictionary)
      → as_string (get "link" d) ≡ none
      → as_dictionary (get "files" d) ≡ some files
      → get_child_node resolve name d ≡ some (as_dictionary (get name files))
  unfolding get_child_node get_files_node
  child-plain resolve name d files h k = simp (h, k) refl

  -- A directory below the root that is a link to a path through itself is followed without end: no depth
  -- of the stack is enough.
  pub get_node_from_path-cycle :
      (path first second : String) (rest : List String) (files d : Dictionary)
      → str_eq path "" ≡ false
      → segments is_separator path ≡ first ∷ second ∷ rest
      → as_string (get "link" root) ≡ none
      → as_dictionary (get "files" root) ≡ some files
      → as_dictionary (get first files) ≡ some d
      → as_string (get "link" d) ≡ some path
      → (n : ℕ) → get_node_from_path is_separator root n path ≡ none
  unfolding get_node_from_path walk
  get_node_from_path-cycle path first second rest files d hp hs hl hf hd hk zero = refl
  get_node_from_path-cycle path first second rest files d hp hs hl hf hd hk (suc n) =
      let resolve = get_node_from_path is_separator root n in
      simp
        (
          hp,
          hs,
          child-plain resolve first root files hl hf,
          hd,
          child-linked resolve second path d hk
              (get_node_from_path-cycle path first second rest files d hp hs hl hf hd hk n),
        )
        refl
