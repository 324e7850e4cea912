-- ===== src/Convert/Built.antt =====
-- The objects that ToV8Value makes (atom/common/native_mate_converters/v8_value_converter.cc).
use atom_shell.Common.{ℕ, suc, ◌≤◌, ◌<◌, ◌≡◌, ◌∙◌, false, List, [], ◌∷◌, str_eq, arith}
use atom_shell.Common.Int.{ℤ}
use atom_shell.Convert.Values.{
  Value, null_value, boolean_value, integer_value, double_value, string_value, list_value,
  dictionary_value, binary_value, Items, no_items, item, Entries, no_entries, entry, JsValue,
  js_null, js_boolean, js_number, js_string, object, gives, Slot, slot, Property, array, plain,
  Heap,
}
use atom_shell.Convert.ToV8.{new_property}

-- No key of a dictionary is `__proto__`.
unfoldable mutual
  pub HasNoProto : {D : Type 0} → Value D → Type 0
  HasNoProto (list_value xs) = ItemsHaveNoProto xs
  HasNoProto (dictionary_value es) = EntriesHaveNoProto es
  HasNoProto _ = Unit

  pub ItemsHaveNoProto : {D : Type 0} → Items D → Type 0
  ItemsHaveNoProto no_items = Unit
  ItemsHaveNoProto (item v xs) = HasNoProto v × ItemsHaveNoProto xs

  pub EntriesHaveNoProto : {D : Type 0} → Entries D → Type 0
  EntriesHaveNoProto no_entries = Unit
  EntriesHaveNoProto (entry k v es) =
      (str_eq k "__proto__" ≡ false) × HasNoProto v × EntriesHaveNoProto es

-- The value w stands for v, with its objects at the places from lo on and below hi, in the order in
-- which a conversion meets them.
unfoldable mutual
  pub Built : {D : Type 0} → (ℤ → D) → Heap D → Value D → JsValue D → ℕ → ℕ → Type 0
  Built of_int heap null_value w lo hi = (w ≡ js_null) × (lo ≤ hi)
  Built of_int heap (boolean_value b) w lo hi = (w ≡ js_boolean b) × (lo ≤ hi)
  Built of_int heap (integer_value n) w lo hi = (w ≡ js_number (of_int n)) × (lo ≤ hi)
  Built of_int heap (double_value d) w lo hi = (w ≡ js_number d) × (lo ≤ hi)
  Built of_int heap (string_value s) w lo hi = (w ≡ js_string s) × (lo ≤ hi)
  Built of_int heap binary_value w lo hi = (w ≡ js_null) × (lo ≤ hi)
  Built {D} of_int heap (list_value xs) w lo hi =
      (w ≡ object lo)
      × ((slots : List (Slot D)) × ((heap lo ≡ record { kind = array slots; properties = [] })
            × BuiltItems of_int heap xs slots (suc lo) hi))
  Built {D} of_int heap (dictionary_value es) w lo hi =
      (w ≡ object lo)
      × ((ps : List (Property D)) × ((heap lo ≡ record { kind = plain; properties = ps })
            × BuiltEntries of_int heap es ps (suc lo) hi))

  pub BuiltItems : {D : Type 0} → (ℤ → D) → Heap D → Items D → List (Slot D) → ℕ → ℕ → Type 0
  BuiltItems of_int heap no_items slots lo hi = (slots ≡ []) × (lo ≤ hi)
  BuiltItems {D} of_int heap (item v xs) slots lo hi =
      (w : JsValue D) × ((rest : List (Slot D)) × ((mid : ℕ) × ((slots ≡ slot (gives w) ∷ rest)
            × (Built of_int heap v w lo mid × BuiltItems of_int heap xs rest mid hi))))

  pub BuiltEntries :
      {D : Type 0} → (ℤ → D) → Heap D → Entries D → List (Property D) → ℕ → ℕ → Type 0
  BuiltEntries of_int heap no_entries ps lo hi = (ps ≡ []) × (lo ≤ hi)
  BuiltEntries {D} of_int heap (entry k v es) ps lo hi =
      (w : JsValue D) × ((rest : List (Property D)) × ((mid : ℕ) × ((ps ≡ new_property k w ∷ rest)
            × (Built of_int heap v w lo mid × BuiltEntries of_int heap es rest mid hi))))

mutual
  unfolding Built

  pub Built-le :
      {D : Type 0} (of_int : ℤ → D) (heap : Heap D) (v : Value D) (w : JsValue D) (lo hi : ℕ)
      → Built of_int heap v w lo hi
      → lo ≤ hi
  Built-le of_int heap (list_value xs) w lo hi h =
      omega (arith, BuiltItems-le of_int heap xs (h.1.0) (suc lo) hi (h.1.1.1))
  Built-le of_int heap (dictionary_value es) w lo hi h =
      omega (arith, BuiltEntries-le of_int heap es (h.1.0) (suc lo) hi (h.1.1.1))
  Built-le of_int heap null_value w lo hi h = h.1
  Built-le of_int heap (boolean_value b) w lo hi h = h.1
  Built-le of_int heap (integer_value n) w lo hi h = h.1
  Built-le of_int heap (double_value d) w lo hi h = h.1
  Built-le of_int heap (string_value s) w lo hi h = h.1
  Built-le of_int heap binary_value w lo hi h = h.1

  pub BuiltItems-le :
      {D : Type 0} (of_int : ℤ → D) (heap : Heap D) (xs : Items D) (slots : List (Slot D))
      (lo hi : ℕ)
      → BuiltItems of_int heap xs slots lo hi
      → lo ≤ hi
  BuiltItems-le of_int heap no_items slots lo hi h = h.1
  BuiltItems-le of_int heap (item v xs) slots lo hi (w, (rest, (mid, (e, (b, r))))) =
      omega (arith, Built-le of_int heap v w lo mid b, BuiltItems-le of_int heap xs rest mid hi r)

  pub BuiltEntries-le :
      {D : Type 0} (of_int : ℤ → D) (heap : Heap D) (es : Entries D) (ps : List (Property D))
      (lo hi : ℕ)
      → BuiltEntries of_int heap es ps lo hi
      → lo ≤ hi
  BuiltEntries-le of_int heap no_entries ps lo hi h = h.1
  BuiltEntries-le of_int heap (entry k v es) ps lo hi (w, (rest, (mid, (e, (b, r))))) =
      omega (arith, Built-le of_int heap v w lo mid b, BuiltEntries-le of_int heap es rest mid hi r)

-- The heaps agree at the places from lo on and below hi.
abbrev pub Agree : {D : Type 0} → Heap D → Heap D → ℕ → ℕ → Type 0
Agree g h lo hi = (o : ℕ) → lo ≤ o → o < hi → h o ≡ g o

mutual
  unfolding Built

  pub Built-Agree :
      {D : Type 0} (of_int : ℤ → D) (g h : Heap D) (v : Value D) (w : JsValue D) (lo hi : ℕ)
      → Agree g h lo hi
      → Built of_int g v w lo hi
      → Built of_int h v w lo hi
  Built-Agree of_int g h (list_value xs) w lo hi a (e, (slots, (c, b))) =
      let le = BuiltItems-le of_int g xs slots (suc lo) hi b in
      (
        e,
        (
          slots,
          (
            a lo (omega arith) (omega (arith, le)) ∙ c,
            BuiltItems-Agree of_int g h xs slots (suc lo) hi (λ o p q. a o (omega (arith, p)) q) b,
          ),
        ),
      )
  Built-Agree of_int g h (dictionary_value es) w lo hi a (e, (ps, (c, b))) =
      let le = BuiltEntries-le of_int g es ps (suc lo) hi b in
      (
        e,
        (
          ps,
          (
            a lo (omega arith) (omega (arith, le)) ∙ c,
            BuiltEntries-Agree of_int g h es ps (suc lo) hi (λ o p q. a o (omega (arith, p)) q) b,
          ),
        ),
      )
  Built-Agree of_int g h null_value w lo hi a b = b
  Built-Agree of_int g h (boolean_value x) w lo hi a b = b
  Built-Agree of_int g h (integer_value n) w lo hi a b = b
  Built-Agree of_int g h (double_value d) w lo hi a b = b
  Built-Agree of_int g h (string_value s) w lo hi a b = b
  Built-Agree of_int g h binary_value w lo hi a b = b

  pub BuiltItems-Agree :
      {D : Type 0} (of_int : ℤ → D) (g h : Heap D) (xs : Items D) (slots : List (Slot D))
      (lo hi : ℕ)
      → Agree g h lo hi
      → BuiltItems of_int g xs slots lo hi
      → BuiltItems of_int h xs slots lo hi
  BuiltItems-Agree of_int g h no_items slots lo hi a b = b
  BuiltItems-Agree of_int g h (item v xs) slots lo hi a (w, (rest, (mid, (e, (b, r))))) =
      let l = Built-le of_int g v w lo mid b in
      let m = BuiltItems-le of_int g xs rest mid hi r in
      (
        w,
        (
          rest,
          (
            mid,
            (
              e,
              (
                Built-Agree of_int g h v w lo mid (λ o p q. a o p (omega (arith, q, m))) b,
                BuiltItems-Agree of_int g h xs rest mid hi (λ o p q. a o (omega (arith, p, l)) q) r,
              ),
            ),
          ),
        ),
      )

  pub BuiltEntries-Agree :
      {D : Type 0} (of_int : ℤ → D) (g h : Heap D) (es : Entries D) (ps : List (Property D))
      (lo hi : ℕ)
      → Agree g h lo hi
      → BuiltEntries of_int g es ps lo hi
      → BuiltEntries of_int h es ps lo hi
  BuiltEntries-Agree of_int g h no_entries ps lo hi a b = b
  BuiltEntries-Agree of_int g h (entry k v es) ps lo hi a (w, (rest, (mid, (e, (b, r))))) =
      let l = Built-le of_int g v w lo mid b in
      let m = BuiltEntries-le of_int g es rest mid hi r in
      (
        w,
        (
          rest,
          (
            mid,
            (
              e,
              (
                Built-Agree of_int g h v w lo mid (λ o p q. a o p (omega (arith, q, m))) b,
                BuiltEntries-Agree of_int g h es rest mid hi (λ o p q. a o (omega (arith, p, l)) q)
                    r,
              ),
            ),
          ),
        ),
      )
