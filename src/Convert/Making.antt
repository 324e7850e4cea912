-- ===== src/Convert/Making.antt =====
-- ToV8Value makes objects that stand for the value, at new places
-- (atom/common/native_mate_converters/v8_value_converter.cc).
use atom_shell.Common.{ℕ, suc, ◌≤◌, ◌<◌, ◌≡◌, refl, ◌∙◌, [], arith}
use atom_shell.Common.Int.{ℤ}
use atom_shell.Convert.Values.{
  Value, null_value, boolean_value, integer_value, double_value, string_value, list_value,
  dictionary_value, binary_value, Items, no_items, item, Entries, no_entries, entry, array, plain,
  Object,
}
use atom_shell.Convert.ToV8.{Store, put, allocate, to_v8_value_impl, to_v8_array, to_v8_object}
use atom_shell.Convert.Built.{
  HasNoProto, ItemsHaveNoProto, EntriesHaveNoProto, Built, BuiltItems, BuiltEntries, Built-le,
  Built-Agree, BuiltItems-Agree, BuiltEntries-Agree,
}

-- What is at the places of the old store stays there.
abbrev pub Keeps : {D : Type 0} → Store D → Store D → Type 0
Keeps s t = (o : ℕ) → o < s.next → t.heap o ≡ s.heap o

put-at : {D : Type 0} (o : ℕ) (x : Object D) (s : Store D) → (put o x s).heap o ≡ x
put-at o x s = ground arith

put-other :
    {D : Type 0} (o p : ℕ) (x : Object D) (s : Store D) → suc o ≤ p → (put o x s).heap p ≡ s.heap p
put-other o p x s h = ground arith

put-below :
    {D : Type 0} (o p : ℕ) (x : Object D) (s : Store D) → p < o → (put o x s).heap p ≡ s.heap p
put-below o p x s h = ground arith

mutual
  unfolding to_v8_value_impl Built HasNoProto

  to_v8-Built :
      {D : Type 0} (of_int : ℤ → D) (v : Value D) (s : Store D)
      → HasNoProto v
      → Built of_int
          (to_v8_value_impl of_int v s).1.heap
          v
          (to_v8_value_impl of_int v s).0
          s.next
          (to_v8_value_impl of_int v s).1.next
        × Keeps s (to_v8_value_impl of_int v s).1
  to_v8-Built of_int (list_value xs) s h =
      let r = to_v8_array of_int xs (allocate s) in
      let made = array-Built of_int xs (allocate s) h in
      let x : Object _ = record { kind = array r.0; properties = [] } in
      (
        (
          refl,
          (
            r.0,
            (
              put-at s.next x r.1,
              BuiltItems-Agree of_int r.1.heap (put s.next x r.1).heap xs r.0 (suc s.next) r.1.next
                  (λ o p q. put-other s.next o x r.1 p) (made.0),
            ),
          ),
        ),
        λ o p. put-below s.next o x r.1 p ∙ made.1 o (omega (arith, p)),
      )
  to_v8-Built of_int (dictionary_value es) s h =
      let r = to_v8_object of_int es (allocate s) in
      let made = object-Built of_int es (allocate s) h in
      let x : Object _ = record { kind = plain; properties = r.0 } in
      (
        (
          refl,
          (
            r.0,
            (
              put-at s.next x r.1,
              BuiltEntries-Agree of_int r.1.heap (put s.next x r.1).heap es r.0 (suc s.next)
                  r.1.next (λ o p q. put-other s.next o x r.1 p) (made.0),
            ),
          ),
        ),
        λ o p. put-below s.next o x r.1 p ∙ made.1 o (omega (arith, p)),
      )
  to_v8-Built of_int null_value s h = ((refl, omega arith), λ o p. refl)
  to_v8-Built of_int (boolean_value b) s h = ((refl, omega arith), λ o p. refl)
  to_v8-Built of_int (integer_value n) s h = ((refl, omega arith), λ o p. refl)
  to_v8-Built of_int (double_value d) s h = ((refl, omega arith), λ o p. refl)
  to_v8-Built of_int (string_value t) s h = ((refl, omega arith), λ o p. refl)
  to_v8-Built of_int binary_value s h = ((refl, omega arith), λ o p. refl)

  array-Built :
      {D : Type 0} (of_int : ℤ → D) (xs : Items D) (s : Store D)
      → ItemsHaveNoProto xs
      → BuiltItems of_int
          (to_v8_array of_int xs s).1.heap
          xs
          (to_v8_array of_int xs s).0
          s.next
          (to_v8_array of_int xs s).1.next
        × Keeps s (to_v8_array of_int xs s).1
  array-Built of_int no_items s h = ((refl, omega arith), λ o p. refl)
  array-Built of_int (item v xs) s h =
      let child = to_v8_value_impl of_int v s in
      let first = to_v8-Built of_int v s (h.0) in
      let others = array-Built of_int xs child.1 (h.1) in
      let le = Built-le of_int child.1.heap v child.0 s.next child.1.next (first.0) in
      (
        (
          child.0,
          (
            (to_v8_array of_int xs child.1).0,
            (
              child.1.next,
              (
                refl,
                (
                  Built-Agree of_int child.1.heap (to_v8_array of_int xs child.1).1.heap v child.0
                      s.next child.1.next (λ o p q. others.1 o q) (first.0),
                  others.0,
                ),
              ),
            ),
          ),
        ),
        λ o p. others.1 o (omega (arith, p, le)) ∙ first.1 o p,
      )

  object-Built :
      {D : Type 0} (of_int : ℤ → D) (es : Entries D) (s : Store D)
      → EntriesHaveNoProto es
      → BuiltEntries of_int
          (to_v8_object of_int es s).1.heap
          es
          (to_v8_object of_int es s).0
          s.next
          (to_v8_object of_int es s).1.next
        × Keeps s (to_v8_object of_int es s).1
  object-Built of_int no_entries s h = ((refl, omega arith), λ o p. refl)
  object-Built of_int (entry k v es) s h =
      let child = to_v8_value_impl of_int v s in
      let first = to_v8-Built of_int v s (h.1) in
      let others = object-Built of_int es child.1 (h.2) in
      let le = Built-le of_int child.1.heap v child.0 s.next child.1.next (first.0) in
      (
        (
          child.0,
          (
            (to_v8_object of_int es child.1).0,
            (
              child.1.next,
              (
                rw (h.0) refl,
                (
                  Built-Agree of_int child.1.heap (to_v8_object of_int es child.1).1.heap v child.0
                      s.next child.1.next (λ o p q. others.1 o q) (first.0),
                  others.0,
                ),
              ),
            ),
          ),
        ),
        λ o p. others.1 o (omega (arith, p, le)) ∙ first.1 o p,
      )

-- The new value stands for the given one.
pub to_v8_value_impl-Built :
    {D : Type 0} (of_int : ℤ → D) (v : Value D) (s : Store D)
    → HasNoProto v
    → Built of_int
        (to_v8_value_impl of_int v s).1.heap
        v
        (to_v8_value_impl of_int v s).0
        s.next
        (to_v8_value_impl of_int v s).1.next
to_v8_value_impl-Built of_int v s h = (to_v8-Built of_int v s h).0
