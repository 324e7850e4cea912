-- ===== src/Convert/Depth.antt =====
-- How deep a converted value can be (atom/common/native_mate_converters/v8_value_converter.cc).
use mathlib.Core.Path.{subst}
use atom_shell.Common.Int.{ℤ}
use atom_shell.Common.{
  ℕ, zero, suc, ◌≤◌, ◌≡◌, Bool, true, false, not, Option, none, some, List, [], ◌∷◌, String,
  if◌then◌else◌, arith,
}
use atom_shell.Convert.Values.{
  Value, Entries, no_entries, entry, JsValue, undefined, js_null, js_boolean, js_number, js_string,
  object, symbol, Slot, slot, hole, Property, Kind, date, reg_exp, array, function, plain, Heap,
  depth, depth_items, depth_entries, set_entry, max,
}
use atom_shell.Convert.FromV8.{
  Converter, UniqueMap, Converted, read_or_null, or_null, convert_slots, keep, convert_keyed,
  convert_properties, fill_object, from_v8_object, fill_array, from_v8_array, from_kind,
  number_value, update_and_check_uniqueness, from_v8_value_impl, from_v8_value,
}

abbrev DepthWithin : {D : Type 0} → ℕ → Option (Value D) → Type 0
DepthWithin n none = Unit
DepthWithin n (some v) = depth v ≤ n

set_entry-depth :
    {D : Type 0} (k : String) (v : Value D) (es : Entries D)
    → depth_entries (set_entry k v es) ≤ max (depth v) (depth_entries es)
unfolding depth
set_entry-depth k v no_entries = omega arith
set_entry-depth k v (entry j w es) = ground (arith, set_entry-depth k v es)

max_bound : (a b n : ℕ) → a ≤ n → b ≤ n → max a b ≤ n
max_bound a b n h k = ground arith

module _ {D : Type 0} (convert : JsValue D → UniqueMap → Converted D) (n : ℕ)
    (h : (w : JsValue D) (u : UniqueMap) → DepthWithin (suc n) (convert w u).0) where
  or_null-depth : (o : Option (Value D)) → DepthWithin (suc n) o → depth (or_null o) ≤ suc n
  unfolding depth
  or_null-depth none k = omega arith
  or_null-depth (some v) k = k

  convert_slots-depth :
      (slots : List (Slot D)) (u : UniqueMap)
      → depth_items (convert_slots convert slots u).0 ≤ suc n
  unfolding convert_slots depth
  convert_slots-depth [] u = omega arith
  convert_slots-depth (hole ∷ rest) u = convert_slots-depth rest u
  convert_slots-depth (slot r ∷ rest) u =
      max_bound (depth (or_null (convert (read_or_null r) u).0)) _ (suc n)
        (or_null-depth (convert (read_or_null r) u).0 (h (read_or_null r) u))
        (convert_slots-depth rest (convert (read_or_null r) u).1)

  keep-depth :
      (strip : Bool) (k : String) (o : Option (Value D)) (es : Entries D)
      → DepthWithin (suc n) o
      → depth_entries es ≤ suc n
      → depth_entries (keep convert strip k o es) ≤ suc n
  keep-depth strip k none es a b = b
  keep-depth strip k (some v) es a b = ground (arith, set_entry-depth k v es)

  convert_keyed-depth :
      (strip : Bool) (k : Option String) (callback : Bool) (w : JsValue D) (es : Entries D)
      (u : UniqueMap)
      → depth_entries es ≤ suc n
      → depth_entries (convert_keyed convert strip k callback w es u).0 ≤ suc n
  convert_keyed-depth strip none callback w es u b = b
  convert_keyed-depth strip (some k) true w es u b = b
  convert_keyed-depth strip (some k) false w es u b =
      keep-depth strip k (convert w u).0 es (h w u) b

  convert_properties-depth :
      (strip : Bool) (ps : List (Property D)) (es : Entries D) (u : UniqueMap)
      → depth_entries es ≤ suc n
      → depth_entries (convert_properties convert strip ps es u).0 ≤ suc n
  unfolding convert_properties
  convert_properties-depth strip [] es u b = b
  convert_properties-depth strip (p ∷ rest) es u b =
      let kept = convert_keyed convert strip p.key p.is_callback (read_or_null p.read) es u in
      convert_properties-depth strip rest kept.0 kept.1
        (convert_keyed-depth strip p.key p.is_callback (read_or_null p.read) es u b)

  module _ (c : Converter D) (heap : Heap D) where
    fill_object-depth :
        (ps : List (Property D)) (r : Bool × UniqueMap)
        → DepthWithin (suc (suc n)) (fill_object c heap convert ps r).0
    unfolding depth
    fill_object-depth ps (false, u) = omega arith
    fill_object-depth ps (true, u) =
        omega
          (arith, convert_properties-depth c.strip_null_from_objects ps no_entries u (omega arith))

    fill_array-depth :
        (slots : List (Slot D)) (r : Bool × UniqueMap)
        → DepthWithin (suc (suc n)) (fill_array c heap convert slots r).0
    unfolding depth
    fill_array-depth slots (false, u) = omega arith
    fill_array-depth slots (true, u) = omega (arith, convert_slots-depth slots u)

    if-depth :
        (b : Bool) (r s : Converted D)
        → DepthWithin (suc (suc n)) r.0
        → DepthWithin (suc (suc n)) s.0
        → DepthWithin (suc (suc n)) (if b then r else s).0
    if-depth true r s p q = p
    if-depth false r s p q = q

    object-depth :
        (o : ℕ) (u : UniqueMap) → DepthWithin (suc (suc n)) (from_v8_object c heap convert o u).0
    unfolding from_v8_object
    object-depth o u =
        fill_object-depth (heap o).properties (update_and_check_uniqueness c.identity_hash o u)

    from_kind-depth :
        (k : Kind D) (o : ℕ) (u : UniqueMap)
        → DepthWithin (suc (suc n)) (from_kind c heap convert k o u).0
    unfolding from_v8_array depth
    from_kind-depth (date d) o u =
        if-depth (not c.date_allowed) _ _ (object-depth o u) (omega arith)
    from_kind-depth (reg_exp text) o u =
        if-depth (not c.reg_exp_allowed) _ _ (object-depth o u) (omega arith)
    from_kind-depth (array slots) o u =
        fill_array-depth slots (update_and_check_uniqueness c.identity_hash o u)
    from_kind-depth function o u =
        if-depth (not c.function_allowed) _ _ (record {}) (object-depth o u)
    from_kind-depth plain o u = object-depth o u

impl-depth :
    {D : Type 0} (c : Converter D) (heap : Heap D) (n : ℕ) (w : JsValue D) (u : UniqueMap)
    → DepthWithin (suc n) (from_v8_value_impl c heap n w u).0
unfolding from_v8_value_impl depth
impl-depth c heap zero w u = record {}
impl-depth c heap (suc n) undefined u = record {}
impl-depth c heap (suc n) js_null u = omega arith
impl-depth c heap (suc n) (js_boolean b) u = omega arith
impl-depth c heap (suc n) (js_number d) u = number-depth (c.as_int32 d)
  where
    number-depth : (o : Option ℤ) → depth (number_value c heap d o) ≤ suc (suc n)
    number-depth none = omega arith
    number-depth (some k) = omega arith
impl-depth c heap (suc n) (js_string s) u = omega arith
impl-depth c heap (suc n) symbol u = record {}
impl-depth c heap (suc n) (object o) u =
    from_kind-depth (from_v8_value_impl c heap n) n (λ w u. impl-depth c heap n w u) c heap
      (heap o).kind o u

depth_within :
    {D : Type 0} (o : Option (Value D)) (v : Value D) (n : ℕ)
    → DepthWithin n o
    → o ≡ some v
    → depth v ≤ n
depth_within none v n h e = ground (arith, e)
depth_within (some w) v n h e = subst (λ x. DepthWithin n x) e h

-- However the objects of the heap refer to one another, a converted value is at most 21 deep: the 20
-- levels of the converter, and the nulls in the arrays of the last one.
pub from_v8_value-depth :
    {D : Type 0} (c : Converter D) (heap : Heap D) (w : JsValue D) (v : Value D)
    → from_v8_value c heap w ≡ some v
    → depth v ≤ 21
unfolding from_v8_value
from_v8_value-depth c heap w v e =
    depth_within (from_v8_value_impl c heap 20 w []).0 v 21 (impl-depth c heap 20 w []) e
