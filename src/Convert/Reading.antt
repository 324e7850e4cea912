-- ===== src/Convert/Reading.antt =====
-- How a conversion reads what another made (atom/common/native_mate_converters/v8_value_converter.cc).
use mathlib.Core.Path.{subst}
use atom_shell.Common.{
  ℕ, suc, ◌≤◌, ◌<◌, ◌≡◌, refl, sym, ap, ◌∙◌, Bool, false, Option, none, some, List, [], ◌∷◌, All,
  String, arith,
}
use atom_shell.Common.Int.{ℤ}
use atom_shell.Convert.Values.{
  Value, null_value, boolean_value, integer_value, string_value, list_value, dictionary_value,
  Items, no_items, item, Entries, no_entries, entry, JsValue, js_null, js_boolean, js_number,
  js_string, object, gives, Slot, slot, Property, array, plain, Heap, set_entry,
}
use atom_shell.Convert.FromV8.{
  Converter, UniqueMap, Converted, has_handle, or_null, convert_slots, keep, convert_properties,
  dictionary_of, list_of, from_v8_object, from_v8_array, number_value, update_and_check_uniqueness,
  from_v8_value_impl,
}
use atom_shell.Convert.ToV8.{new_property}
use atom_shell.Convert.Sendable.{IsInt32, number_or, append}

-- Every object of the map is below lo.
abbrev pub Below : ℕ → UniqueMap → Type 0
Below lo u = All (λ (p : ℕ × ℕ). p.1 < lo) u

pub Below-le : (lo hi : ℕ) (u : UniqueMap) → lo ≤ hi → Below lo u → Below hi u
Below-le lo hi [] h b = record {}
Below-le lo hi ((g, o) ∷ u) h b = (omega (arith, b.0), Below-le lo hi u h (b.1))

has_handle-Below : (hash lo : ℕ) (u : UniqueMap) → Below lo u → has_handle hash lo u ≡ false
has_handle-Below hash lo [] b = refl
has_handle-Below hash lo ((g, o) ∷ u) b = ground (arith, b.0, has_handle-Below hash lo u (b.1))

abbrev pub Reads : {D : Type 0} → Value D → ℕ → Converted D → Type 0
Reads v hi r = (r.0 ≡ some v) × Below hi r.1

abbrev pub ItemsRead : {D : Type 0} → Items D → ℕ → Items D × UniqueMap → Type 0
ItemsRead xs hi r = (r.0 ≡ xs) × Below hi r.1

abbrev pub EntriesRead : {D : Type 0} → Entries D → ℕ → Entries D × UniqueMap → Type 0
EntriesRead es hi r = (r.0 ≡ es) × Below hi r.1

item_eq :
    {D : Type 0} (o : Option (Value D)) (v : Value D) (xs ys : Items D)
    → o ≡ some v
    → xs ≡ ys
    → item (or_null o) xs ≡ item v ys
item_eq o v xs ys p q = rw (p, q) refl

module _ {D : Type 0} (c : Converter D) (of_int : ℤ → D) (heap : Heap D) where
  abbrev pub impl : ℕ → JsValue D → UniqueMap → Converted D
  impl = from_v8_value_impl c heap

  array_lem :
      (m lo : ℕ) (slots : List (Slot D)) (u : UniqueMap)
      → heap lo ≡ record { kind = array slots; properties = [] }
      → Below lo u
      → impl (suc m) (object lo) u
        ≡ list_of c heap (convert_slots (impl m) slots ((c.identity_hash lo, lo) ∷ u))
  unfolding from_v8_value_impl from_v8_array update_and_check_uniqueness
  array_lem m lo slots u e b = simp (e, has_handle-Below (c.identity_hash lo) lo u b) refl

  object_lem :
      (m lo : ℕ) (ps : List (Property D)) (u : UniqueMap)
      → heap lo ≡ record { kind = plain; properties = ps }
      → Below lo u
      → impl (suc m) (object lo) u
        ≡ dictionary_of c heap (
            convert_properties
              (impl m)
              c.strip_null_from_objects
              ps
              no_entries
              ((c.identity_hash lo, lo) ∷ u))
  unfolding from_v8_value_impl from_v8_object update_and_check_uniqueness
  object_lem m lo ps u e b = simp (e, has_handle-Below (c.identity_hash lo) lo u b) refl

  keep_lem :
      (m : ℕ) (strip : Bool) (k : String) (o : Option (Value D)) (v : Value D) (acc : Entries D)
      → strip ≡ false
      → o ≡ some v
      → keep (impl m) strip k o acc ≡ set_entry k v acc
  keep_lem m strip k o v acc h e = rw (h, e) refl

  number_value-number_or : (d : D) (o : Option ℤ) → number_value c heap d o ≡ number_or d o
  number_value-number_or d none = refl
  number_value-number_or d (some n) = refl

  module _ (keeps_null : c.strip_null_from_objects ≡ false)
      (int32 : (n : ℤ) → IsInt32 n → c.as_int32 (of_int n) ≡ some n) where
    pub leaf_lem :
        (m lo hi : ℕ) (w x : JsValue D) (y : Value D) (u : UniqueMap)
        → (w ≡ x) × (lo ≤ hi)
        → impl (suc m) x u ≡ (some y, u)
        → Below lo u
        → Reads y hi (impl (suc m) w u)
    leaf_lem m lo hi w x y u b e l =
        subst (λ z. Reads y hi (impl (suc m) z u)) (sym (b.0))
          (subst (Reads y hi) (sym e) (refl, Below-le lo hi u (b.1) l))

    pub null_lem : (m : ℕ) (u : UniqueMap) → impl (suc m) js_null u ≡ (some null_value, u)
    unfolding from_v8_value_impl
    null_lem m u = refl

    pub boolean_lem :
        (m : ℕ) (x : Bool) (u : UniqueMap)
        → impl (suc m) (js_boolean x) u ≡ (some (boolean_value x), u)
    unfolding from_v8_value_impl
    boolean_lem m x u = refl

    pub string_lem :
        (m : ℕ) (x : String) (u : UniqueMap)
        → impl (suc m) (js_string x) u ≡ (some (string_value x), u)
    unfolding from_v8_value_impl
    string_lem m x u = refl

    pub number_lem :
        (m : ℕ) (x : D) (u : UniqueMap)
        → impl (suc m) (js_number x) u ≡ (some (number_or x (c.as_int32 x)), u)
    unfolding from_v8_value_impl
    number_lem m x u = ap (λ y. (some y, u)) (number_value-number_or x (c.as_int32 x))

    pub integer_lem :
        (m : ℕ) (n : ℤ) (u : UniqueMap)
        → IsInt32 n
        → impl (suc m) (js_number (of_int n)) u ≡ (some (integer_value n), u)
    integer_lem m n u h =
        number_lem m (of_int n) u ∙ ap (λ o. (some (number_or (of_int n) o), u)) (int32 n h)

    pub list_lem :
        (m lo hi : ℕ) (w : JsValue D) (slots : List (Slot D)) (xs : Items D) (u : UniqueMap)
        → w ≡ object lo
        → heap lo ≡ record { kind = array slots; properties = [] }
        → Below lo u
        → ItemsRead xs hi (convert_slots (impl m) slots ((c.identity_hash lo, lo) ∷ u))
        → Reads (list_value xs) hi (impl (suc m) w u)
    list_lem m lo hi w slots xs u e h l r =
        subst (λ z. Reads (list_value xs) hi (impl (suc m) z u)) (sym e)
          (subst (Reads (list_value xs) hi) (sym (array_lem m lo slots u h l))
            (ap (λ ys. some (list_value ys)) (r.0), r.1))

    pub dictionary_lem :
        (m lo hi : ℕ) (w : JsValue D) (ps : List (Property D)) (es : Entries D) (u : UniqueMap)
        → w ≡ object lo
        → heap lo ≡ record { kind = plain; properties = ps }
        → Below lo u
        → EntriesRead es hi (
            convert_properties
              (impl m)
              c.strip_null_from_objects
              ps
              no_entries
              ((c.identity_hash lo, lo) ∷ u))
        → Reads (dictionary_value es) hi (impl (suc m) w u)
    dictionary_lem m lo hi w ps es u e h l r =
        subst (λ z. Reads (dictionary_value es) hi (impl (suc m) z u)) (sym e)
          (subst (Reads (dictionary_value es) hi) (sym (object_lem m lo ps u h l))
            (ap (λ fs. some (dictionary_value fs)) (r.0), r.1))

    pub slots_lem :
        (n hi : ℕ) (w : JsValue D) (rest slots : List (Slot D)) (v : Value D) (xs : Items D)
        (u : UniqueMap)
        → slots ≡ slot (gives w) ∷ rest
        → (impl n w u).0 ≡ some v
        → ItemsRead xs hi (convert_slots (impl n) rest (impl n w u).1)
        → ItemsRead (item v xs) hi (convert_slots (impl n) slots u)
    unfolding convert_slots
    slots_lem n hi w rest slots v xs u e h r =
        subst (λ l. ItemsRead (item v xs) hi (convert_slots (impl n) l u)) (sym e)
          (item_eq (impl n w u).0 v (convert_slots (impl n) rest (impl n w u).1).0 xs h (r.0), r.1)

    pub properties_lem :
        (n hi : ℕ) (k : String) (w : JsValue D) (rest ps : List (Property D)) (v : Value D)
        (acc es : Entries D) (u : UniqueMap)
        → ps ≡ new_property k w ∷ rest
        → (impl n w u).0 ≡ some v
        → EntriesRead es hi (
            convert_properties
              (impl n)
              c.strip_null_from_objects
              rest
              (set_entry k v acc)
              (impl n w u).1)
        → EntriesRead es hi (convert_properties (impl n) c.strip_null_from_objects ps acc u)
    unfolding convert_properties
    properties_lem n hi k w rest ps v acc es u e h r =
        subst
          (λ l. EntriesRead es hi (convert_properties (impl n) c.strip_null_from_objects l acc u))
          (sym e)
          (subst
            (λ a.
              EntriesRead es hi
                (convert_properties (impl n) c.strip_null_from_objects rest a (impl n w u).1))
            (sym (keep_lem n c.strip_null_from_objects k (impl n w u).0 v acc keeps_null h)) r)

    pub no_slots_lem :
        (n lo hi : ℕ) (slots : List (Slot D)) (u : UniqueMap)
        → (slots ≡ []) × (lo ≤ hi)
        → Below lo u
        → ItemsRead no_items hi (convert_slots (impl n) slots u)
    unfolding convert_slots
    no_slots_lem n lo hi slots u b l =
        subst (λ x. ItemsRead no_items hi (convert_slots (impl n) x u)) (sym (b.0))
          (refl, Below-le lo hi u (b.1) l)

    append-nothing : (es : Entries D) → append es no_entries ≡ es
    append-nothing no_entries = refl
    append-nothing (entry k v es) = ap (entry k v) (append-nothing es)

    pub no_properties_lem :
        (n lo hi : ℕ) (ps : List (Property D)) (acc : Entries D) (u : UniqueMap)
        → (ps ≡ []) × (lo ≤ hi)
        → Below lo u
        → EntriesRead
            (append acc no_entries)
            hi
            (convert_properties (impl n) c.strip_null_from_objects ps acc u)
    unfolding convert_properties
    no_properties_lem n lo hi ps acc u b l =
        subst
          (λ x.
            EntriesRead (append acc no_entries) hi
              (convert_properties (impl n) c.strip_null_from_objects x acc u))
          (sym (b.0)) (sym (append-nothing acc), Below-le lo hi u (b.1) l)
