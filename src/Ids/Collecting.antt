-- ===== src/Ids/Collecting.antt =====
-- What collecting an object leaves in an IDWeakMap (atom/common/api/atom_api_id_weak_map.cc).
use atom_shell.Common.{
  ℕ, ◌≡◌, refl, ap, ◌∙◌, Bool, true, false, ◌||◌, ◌&&◌, Option, none, some, List, [], ◌∷◌, ◌==◌,
  ==_iff, if◌then◌else◌, arith, Bool-cases, inl, inr,
}
use atom_shell.Common.Dictionary.{nat_key, lookup, contains, lookup-erase, contains-lookup}
use atom_shell.Ids.WeakMap.{
  Object, IdWeakMap, Realm, has, remove, weak_callback, callbacks, int32_value,
}

pub lookup-remove :
    (k j : ℕ) (m : IdWeakMap)
    → lookup j (remove k m).map ≡ (if k == j then none else lookup j m.map)
unfolding remove has
lookup-remove k j m = elim (Bool-cases (contains k m.map)) [
  | inl there ↦ simp there (lookup-erase k j m.map)
  | inr absent ↦ simp absent (ground (arith, ==_iff k j, (contains-lookup k m.map).0 absent))
]

abbrev pub any_with : Object → List (ℕ × Object) → Bool
any_with o [] = false
any_with o ((k, p) ∷ rest) = (p == o) || any_with o rest

pub any_with-lookup :
    (k : ℕ) (o : Object) (entries : List (ℕ × Object))
    → lookup k entries ≡ some o
    → any_with o entries ≡ true
any_with-lookup k o [] h = ground (arith, h)
any_with-lookup k o ((j, p) ∷ rest) h = ground (arith, ==_iff p o, any_with-lookup k o rest)

pub callbacks-hidden :
    (o : Object) (entries : List (ℕ × Object)) (r : Realm)
    → (callbacks o entries r).hidden ≡ r.hidden
unfolding callbacks weak_callback
callbacks-hidden o [] r = refl
callbacks-hidden o ((k, p) ∷ rest) r = elim (Bool-cases (p == o)) [
  | inl e ↦ simp e (callbacks-hidden o rest r)
  | inr e ↦ simp e (callbacks-hidden o rest r)
]

pub callbacks-collected :
    (o : Object) (entries : List (ℕ × Object)) (r : Realm)
    → (callbacks o entries r).collected ≡ r.collected
unfolding callbacks weak_callback
callbacks-collected o [] r = refl
callbacks-collected o ((k, p) ∷ rest) r = elim (Bool-cases (p == o)) [
  | inl e ↦ simp e (callbacks-collected o rest r)
  | inr e ↦ simp e (callbacks-collected o rest r)
]

pub remove-next_id : (k : ℕ) (m : IdWeakMap) → (remove k m).next_id ≡ m.next_id
unfolding remove
remove-next_id k m = elim (Bool-cases (has k m)) [ inl e ↦ simp e refl | inr e ↦ simp e refl ]

pub callbacks-next_id :
    (o : Object) (entries : List (ℕ × Object)) (r : Realm)
    → (callbacks o entries r).ids.next_id ≡ r.ids.next_id
unfolding callbacks weak_callback
callbacks-next_id o [] r = refl
callbacks-next_id o ((k, p) ∷ rest) r = elim (Bool-cases (p == o)) [
  | inl e ↦ simp e (remove-next_id _ _ ∙ callbacks-next_id o rest r)
  | inr e ↦ simp e (callbacks-next_id o rest r)
]

-- The key that the weak callback of an object removes.
abbrev pub hidden_key : Object → Realm → ℕ
hidden_key o r = int32_value (lookup o r.hidden)

pub lookup-weak_callback :
    (j : ℕ) (o : Object) (r : Realm)
    → lookup j (weak_callback o r).ids.map
      ≡ (if hidden_key o r == j then none else lookup j r.ids.map)
unfolding weak_callback
lookup-weak_callback j o r = lookup-remove (hidden_key o r) j r.ids

pub lookup-callbacks :
    (j : ℕ) (o : Object) (entries : List (ℕ × Object)) (r : Realm)
    → lookup j (callbacks o entries r).ids.map
      ≡ (if any_with o entries && (hidden_key o r == j) then none else lookup j r.ids.map)
unfolding callbacks
lookup-callbacks j o [] r = refl
lookup-callbacks j o ((k, p) ∷ rest) r = elim (Bool-cases (p == o)) [
  | inl e ↦ simp e (
      lookup-weak_callback j o (callbacks o rest r)
      ∙ ap
          (λ h.
            if int32_value (lookup o h) == j then none else lookup j (callbacks o rest r).ids.map)
          (callbacks-hidden o rest r)
      ∙ twice (any_with o rest) (hidden_key o r == j) _ _ (lookup-callbacks j o rest r))
  | inr e ↦ simp e (lookup-callbacks j o rest r)
]
  where
    twice :
        (any same : Bool) (a b : Option Object)
        → a ≡ (if any && same then none else b)
        → (if same then none else a) ≡ (if same then none else b)
    twice any true a b h = refl
    twice true false a b h = h
    twice false false a b h = h
