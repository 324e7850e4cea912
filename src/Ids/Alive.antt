-- ===== src/Ids/Alive.antt =====
-- The entries of an IDWeakMap (atom/common/api/atom_api_id_weak_map.cc) are the live objects.
use atom_shell.Common.{
  ℕ, ◌+◌, ◌≤◌, ◌<◌, ◌%◌, ◌^◌, ◌≡◌, refl, ap, sym, ◌∙◌, Bool, true, false, not, ◌&&◌, Option, none,
  some, List, [], ◌∷◌, ◌==◌, ==_iff, if◌then◌else◌, arith, Bool-cases, Option-cases, inl, inr, ◌||◌,
  ◌⊎◌,
}
use mathlib.Core.Path.{subst}
use atom_shell.Common.Dictionary.{nat_key, lookup, contains, insert, lookup-insert, contains-lookup}
use atom_shell.Ids.WeakMap.{
  Object, IdWeakMap, new_id_weak_map, Realm, get_next_id, has, add, get, remove, callbacks, collect,
  int32_value,
}
use atom_shell.Ids.Collecting.{
  lookup-remove, any_with, any_with-lookup, callbacks-hidden, callbacks-collected,
  callbacks-next_id, hidden_key, lookup-callbacks, remove-next_id,
}

abbrev pub is_in : Object → List Object → Bool
is_in o [] = false
is_in o (p ∷ rest) = (p == o) || is_in o rest

abbrev pub new_realm : Realm
new_realm = record { ids = new_id_weak_map; hidden = []; collected = [] }

abbrev pub max_int : ℕ
max_int = 2147483647

-- An object is added to one map only, and once, while it is alive, and the keys do not pass INT32_MAX. What another
-- map adds only sets the hidden value.
pub data Step : Realm → Realm → Type 0 where
  added :
      (r : Realm) (o : Object)
      → contains o r.hidden ≡ false
      → is_in o r.collected ≡ false
      → r.ids.next_id < max_int
      → Step r (add o r).1
  added_elsewhere :
      (r : Realm) (o : Object) (k : ℕ)
      → contains o r.hidden ≡ false
      → Step r (record r { hidden = insert o k r.hidden })
  removed : (r : Realm) (k : ℕ) → Step r (record r { ids = remove k r.ids })
  collected_one : (r : Realm) (o : Object) → Step r (collect o r)

pub data Reachable : Realm → Type 0 where
  start : Reachable new_realm
  next : (r s : Realm) → Reachable r → Step r s → Reachable s

-- An entry's object carries the entry's key, and is not collected.
pub record IsAlive (r : Realm) : Type 0 where
  pub keyed : (k : ℕ) (o : Object) → lookup k r.ids.map ≡ some o → lookup o r.hidden ≡ some k
  pub used : (k : ℕ) (o : Object) → lookup k r.ids.map ≡ some o → k ≤ r.ids.next_id
  pub living : (k : ℕ) (o : Object) → lookup k r.ids.map ≡ some o → is_in o r.collected ≡ false
  pub bounded : r.ids.next_id ≤ max_int

next_id_lem : (n : ℕ) → n < max_int → (n + 1) % 2 ^ 32 ≡ n + 1
next_id_lem n h = omega arith

some-injective : {A : Type 0} (a b : A) → some a ≡ some b → a ≡ b
some-injective a b e = ap (λ o. elim o [ none ↦ a | some x ↦ x ]) e

module _ (r : Realm) (o : Object) (k : ℕ) (fresh : contains o r.hidden ≡ false)
    (h : IsAlive r) where
  hidden-kept :
      (p : Object) (j : ℕ) → lookup p r.hidden ≡ some j → lookup p (insert o k r.hidden) ≡ some j
  hidden-kept p j e = elim (Bool-cases (o == p)) [
    | inl q ↦ ground (
      arith,
      sym e
          ∙ ap (λ x. lookup x r.hidden) (sym ((==_iff o p).0 q))
          ∙ (contains-lookup o r.hidden).0 fresh,
    )
    | inr q ↦ lookup-insert o p k r.hidden ∙ simp q e
  ]

  own_hidden : lookup o (insert o k r.hidden) ≡ some k
  own_hidden = lookup-insert o o k r.hidden ∙ simp ((==_iff o o).1 refl) refl

  added_elsewhere-IsAlive : IsAlive (record r { hidden = insert o k r.hidden })
  added_elsewhere-IsAlive = record {
    keyed = λ j p e. hidden-kept p j (h.keyed j p e);
    used = h.used;
    living = h.living;
    bounded = h.bounded;
  }

  -- An entry after the object is added is its own, or an older one.
  entry-cases :
      (j : ℕ) (p : Object)
      → lookup j (insert k o r.ids.map) ≡ some p
      → ((k ≡ j) × (o ≡ p)) ⊎ (lookup j r.ids.map ≡ some p)
  entry-cases j p e = elim (Bool-cases (k == j)) [
    | inl q ↦
        inl (
          (==_iff k j).0 q,
          some-injective o p (simp q at (sym (lookup-insert k j o r.ids.map) ∙ e)),
        )
    | inr q ↦ inr (simp q at (sym (lookup-insert k j o r.ids.map) ∙ e))
  ]

  added-IsAlive :
      k ≡ r.ids.next_id + 1
      → r.ids.next_id < max_int
      → is_in o r.collected ≡ false
      → IsAlive (record r {
        ids = record { next_id = k; map = insert k o r.ids.map; warnings = r.ids.warnings };
        hidden = insert o k r.hidden;
      })
  added-IsAlive is_next small lives = record {
    keyed = λ j p e. elim (entry-cases j p e) [
      | inl own ↦ ap (λ x. lookup x (insert o k r.hidden)) (sym own.1) ∙ own_hidden ∙ ap some own.0
      | inr old ↦ hidden-kept p j (h.keyed j p old)
    ];
    used = λ j p e. elim (entry-cases j p e) [
      | inl own ↦ omega (arith, own.0)
      | inr old ↦ omega (arith, h.used j p old)
    ];
    living = λ j p e. elim (entry-cases j p e) [
      | inl own ↦ subst (λ x. is_in x r.collected ≡ false) own.1 lives
      | inr old ↦ h.living j p old
    ];
    bounded = omega arith;
  }

some-kept :
    {A : Type 0} (gone : Bool) (a : Option A) (x : A)
    → (if gone then none else a) ≡ some x
    → (gone ≡ false) × (a ≡ some x)
some-kept true a x e = ground (arith, e)
some-kept false a x e = (refl, e)

removed-IsAlive : (r : Realm) (k : ℕ) → IsAlive r → IsAlive (record r { ids = remove k r.ids })
removed-IsAlive r k h = record {
  keyed = λ j p e. h.keyed j p (before j p e);
  used = λ j p e. rw (remove-next_id k r.ids) (h.used j p (before j p e));
  living = λ j p e. h.living j p (before j p e);
  bounded = rw (remove-next_id k r.ids) h.bounded;
}
  where
    before :
        (j : ℕ) (p : Object) → lookup j (remove k r.ids).map ≡ some p → lookup j r.ids.map ≡ some p
    before j p e = (some-kept (k == j) _ p (sym (lookup-remove k j r.ids) ∙ e)).1

module _ (r : Realm) (o : Object) (h : IsAlive r) where
  entry-collected :
      (j : ℕ) (p : Object)
      → lookup j (callbacks o r.ids.map r).ids.map ≡ some p
      → ((any_with o r.ids.map && (hidden_key o r == j)) ≡ false) × (lookup j r.ids.map ≡ some p)
  entry-collected j p e = some-kept _ _ p (sym (lookup-callbacks j o r.ids.map r) ∙ e)

  -- An entry that stays is not one of the collected object.
  other-object :
      (j : ℕ) (p : Object) → lookup j (callbacks o r.ids.map r).ids.map ≡ some p → (o == p) ≡ false
  other-object j p e = elim (Bool-cases (o == p)) [
    | inl same ↦
        let entry =
          subst (λ x. lookup j r.ids.map ≡ some x) (sym ((==_iff o p).0 same))
            (entry-collected j p e).1 in
        ground (
          arith,
          (entry-collected j p e).0,
          any_with-lookup j o r.ids.map entry,
          (==_iff (hidden_key o r) j).1 (ap int32_value (h.keyed j o entry)),
        )
    | inr other ↦ other
  ]

  collected-IsAlive : IsAlive (collect o r)
  unfolding collect
  collected-IsAlive = record {
    keyed = λ j p e.
        ap (lookup p) (callbacks-hidden o r.ids.map r) ∙ h.keyed j p (entry-collected j p e).1;
    used = λ j p e. rw (callbacks-next_id o r.ids.map r) (h.used j p (entry-collected j p e).1);
    living = λ j p e.
        rw (other-object j p e, callbacks-collected o r.ids.map r)
          (h.living j p (entry-collected j p e).1);
    bounded = rw (callbacks-next_id o r.ids.map r) h.bounded;
  }

step-IsAlive : (r s : Realm) → Step r s → IsAlive r → IsAlive s
unfolding add get_next_id
step-IsAlive _ _ (added r o fresh lives small) h =
    added-IsAlive r o (get_next_id r.ids) fresh h (next_id_lem r.ids.next_id small) small lives
step-IsAlive _ _ (added_elsewhere r o k fresh) h = added_elsewhere-IsAlive r o k fresh h
step-IsAlive _ _ (removed r k) h = removed-IsAlive r k h
step-IsAlive _ _ (collected_one r o) h = collected-IsAlive r o h

pub Reachable-IsAlive : (r : Realm) → Reachable r → IsAlive r
unfolding new_id_weak_map
Reachable-IsAlive _ start = record {
  keyed = λ k o e. ground (arith, e);
  used = λ k o e. ground (arith, e);
  living = λ k o e. ground (arith, e);
  bounded = omega arith;
}
Reachable-IsAlive _ (next r s reached step) = step-IsAlive r s step (Reachable-IsAlive r reached)

get-some : (k : ℕ) (o : Object) (m : IdWeakMap) → get k m ≡ some o → lookup k m.map ≡ some o
unfolding get
get-some k o m e = (some-kept (not (has k m)) _ o e).1

-- Let every object be added to one map only, and once, while it is alive, and no key pass INT32_MAX, with removals,
-- additions to other maps and collections in any order. Then get never answers an object that was collected, the key
-- it answers one for is the object's own, and so two keys never answer the same object.
pub get-living :
    (r : Realm) (k j : ℕ) (o : Object)
    → Reachable r
    → get k r.ids ≡ some o
    → (is_in o r.collected ≡ false) × (lookup o r.hidden ≡ some k) × (get j r.ids ≡ some o → j ≡ k)
get-living r k j o reached e = (
  h.living k o here,
  h.keyed k o here,
  λ d. some-injective j k (sym (h.keyed j o (get-some j o r.ids d)) ∙ h.keyed k o here),
)
  where
    h : IsAlive r
    h = Reachable-IsAlive r reached

    here : lookup k r.ids.map ≡ some o
    here = get-some k o r.ids e

get_lem : (k : ℕ) (m : IdWeakMap) → get k m ≡ lookup k m.map
unfolding get has
get_lem k m = elim (Bool-cases (contains k m.map)) [
  | inl there ↦ simp there refl
  | inr absent ↦ simp absent (sym ((contains-lookup k m.map).0 absent))
]

-- After such steps, while the last key is below INT32_MAX, add returns a key that the map does not have; then get
-- answers the object for that key, and what it answered before for every other key.
pub add-get :
    (r : Realm) (o : Object)
    → Reachable r
    → r.ids.next_id < max_int
    → (has (add o r).0 r.ids ≡ false)
      × (get (add o r).0 (add o r).1.ids ≡ some o)
      × ((j : ℕ) → ((add o r).0 == j) ≡ false → get j (add o r).1.ids ≡ get j r.ids)
unfolding add get_next_id has
add-get r o reached small = (
  elim (Option-cases (lookup k r.ids.map)) [
    | inl absent ↦ (contains-lookup k r.ids.map).1 absent
    | inr there ↦ ground (
      arith,
      (Reachable-IsAlive r reached).used k there.0 there.1,
      next_id_lem r.ids.next_id small,
    )
  ],
  get_lem k (add o r).1.ids ∙ lookup-insert k k o r.ids.map ∙ simp ((==_iff k k).1 refl) refl,
  λ j other.
      get_lem j (add o r).1.ids
      ∙ lookup-insert k j o r.ids.map
      ∙ simp other (sym (get_lem j r.ids)),
)
  where
    k : ℕ
    k = (r.ids.next_id + 1) % 2 ^ 32
