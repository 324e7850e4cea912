-- ===== src/Convert/RoundTrip.antt =====
-- From C++ to JavaScript and back (atom/common/native_mate_converters/v8_value_converter.cc).
use mathlib.Core.Path.{subst}
use atom_shell.Common.{ℕ, zero, suc, ◌≤◌, ◌≡◌, false, some, List, [], ◌∷◌, arith}
use atom_shell.Common.Int.{ℤ}
use atom_shell.Convert.Values.{
  Value, null_value, boolean_value, integer_value, double_value, string_value, list_value,
  dictionary_value, binary_value, Items, no_items, item, Entries, no_entries, entry, JsValue,
  js_null, js_boolean, js_number, js_string, Slot, Property, Heap, set_entry, depth, depth_items,
  depth_entries,
}
use atom_shell.Convert.FromV8.{
  Converter, UniqueMap, Converted, convert_slots, convert_properties, from_v8_value_impl,
  from_v8_value,
}
use atom_shell.Convert.ToV8.{Store, to_v8_value_impl}
use atom_shell.Convert.Built.{HasNoProto, Built, BuiltItems, BuiltEntries}
use atom_shell.Convert.Making.{to_v8_value_impl-Built}
use atom_shell.Convert.Sendable.{
  IsInt32, IsSendable, ItemsAreSendable, EntriesAreSendable, number_or, normalized,
  normalized_items, normalized_entries, append, Apart, append-set_entry, Apart-set_entry,
  Apart-no_entries, depth-pos, max-left, max-right,
}
use atom_shell.Convert.Reading.{
  Below, Below-le, Reads, ItemsRead, EntriesRead, leaf_lem, null_lem, boolean_lem, string_lem,
  number_lem, integer_lem, list_lem, dictionary_lem, slots_lem, properties_lem, no_slots_lem,
  no_properties_lem,
}

module _ {D : Type 0} (c : Converter D) (of_int : ℤ → D) (heap : Heap D)
    (keeps_null : c.strip_null_from_objects ≡ false)
    (int32 : (n : ℤ) → IsInt32 n → c.as_int32 (of_int n) ≡ some n) where
  abbrev impl : ℕ → JsValue D → UniqueMap → Converted D
  impl = from_v8_value_impl c heap

  mutual
    unfolding Built IsSendable normalized depth

    impl-Built :
        (v : Value D) (w : JsValue D) (lo hi n : ℕ) (u : UniqueMap)
        → Built of_int heap v w lo hi
        → IsSendable v
        → depth v ≤ n
        → Below lo u
        → Reads (normalized c.as_int32 v) hi (impl n w u)
    impl-Built v w lo hi zero u b s d l = absurd (omega (arith, d, depth-pos v))
    impl-Built (list_value xs) w lo hi (suc m) u (e, (slots, (h, b))) s d l =
        list_lem c of_int heap keeps_null int32 m lo hi w slots (normalized_items c.as_int32 xs) u e
          h l
          (items-Built xs slots (suc lo) hi m ((c.identity_hash lo, lo) ∷ u) b s (omega (arith, d))
            (omega arith, Below-le lo (suc lo) u (omega arith) l))
    impl-Built (dictionary_value es) w lo hi (suc m) u (e, (ps, (h, b))) s d l =
        dictionary_lem c of_int heap keeps_null int32 m lo hi w ps
          (normalized_entries c.as_int32 es) u e h l
          (entries-Built es ps (suc lo) hi m no_entries ((c.identity_hash lo, lo) ∷ u) b s
            (omega (arith, d)) (Apart-no_entries es)
            (omega arith, Below-le lo (suc lo) u (omega arith) l))
    impl-Built null_value w lo hi (suc m) u b s d l =
        leaf_lem c of_int heap keeps_null int32 m lo hi w js_null null_value u b
          (null_lem c of_int heap keeps_null int32 m u) l
    impl-Built (boolean_value x) w lo hi (suc m) u b s d l =
        leaf_lem c of_int heap keeps_null int32 m lo hi w (js_boolean x) (boolean_value x) u b
          (boolean_lem c of_int heap keeps_null int32 m x u) l
    impl-Built (integer_value x) w lo hi (suc m) u b s d l =
        leaf_lem c of_int heap keeps_null int32 m lo hi w (js_number (of_int x)) (integer_value x) u
          b (integer_lem c of_int heap keeps_null int32 m x u s) l
    impl-Built (double_value x) w lo hi (suc m) u b s d l =
        leaf_lem c of_int heap keeps_null int32 m lo hi w (js_number x) (number_or x (c.as_int32 x))
          u b (number_lem c of_int heap keeps_null int32 m x u) l
    impl-Built (string_value x) w lo hi (suc m) u b s d l =
        leaf_lem c of_int heap keeps_null int32 m lo hi w (js_string x) (string_value x) u b
          (string_lem c of_int heap keeps_null int32 m x u) l
    impl-Built binary_value w lo hi (suc m) u b s d l =
        leaf_lem c of_int heap keeps_null int32 m lo hi w js_null null_value u b
          (null_lem c of_int heap keeps_null int32 m u) l

    items-Built :
        (xs : Items D) (slots : List (Slot D)) (lo hi n : ℕ) (u : UniqueMap)
        → BuiltItems of_int heap xs slots lo hi
        → ItemsAreSendable xs
        → depth_items xs ≤ n
        → Below lo u
        → ItemsRead (normalized_items c.as_int32 xs) hi (convert_slots (impl n) slots u)
    items-Built no_items slots lo hi n u b s d l =
        no_slots_lem c of_int heap keeps_null int32 n lo hi slots u b l
    items-Built (item v xs) slots lo hi n u (w, (rest, (mid, (e, (b, r))))) s d l =
        let child = impl-Built v w lo mid n u b (s.0) (max-left (depth v) (depth_items xs) n d) l in
        slots_lem c of_int heap keeps_null int32 n hi w rest slots (normalized c.as_int32 v)
          (normalized_items c.as_int32 xs) u e (child.0)
          (items-Built xs rest mid hi n (impl n w u).1 r (s.1)
            (max-right (depth v) (depth_items xs) n d) (child.1))

    entries-Built :
        (es : Entries D) (ps : List (Property D)) (lo hi n : ℕ) (acc : Entries D) (u : UniqueMap)
        → BuiltEntries of_int heap es ps lo hi
        → EntriesAreSendable es
        → depth_entries es ≤ n
        → Apart acc es
        → Below lo u
        → EntriesRead
            (append acc (normalized_entries c.as_int32 es))
            hi
            (convert_properties (impl n) c.strip_null_from_objects ps acc u)
    entries-Built no_entries ps lo hi n acc u b s d a l =
        no_properties_lem c of_int heap keeps_null int32 n lo hi ps acc u b l
    entries-Built (entry k v es) ps lo hi n acc u (w, (rest, (mid, (e, (b, r))))) s d a l =
        let child =
          impl-Built v w lo mid n u b (s.1) (max-left (depth v) (depth_entries es) n d) l in
        let v' = normalized c.as_int32 v in
        properties_lem c of_int heap keeps_null int32 n hi k w rest ps v' acc
          (append acc (entry k v' (normalized_entries c.as_int32 es))) u e (child.0)
          (subst
            (λ x. EntriesRead x hi (
              convert_properties (impl n) c.strip_null_from_objects rest (set_entry k v' acc)
                (impl n w u).1))
            (append-set_entry k v' acc (normalized_entries c.as_int32 es) (a.0))
            (entries-Built es rest mid hi n (set_entry k v' acc) (impl n w u).1 r (s.2)
              (max-right (depth v) (depth_entries es) n d) (Apart-set_entry k v' acc es (s.0) (a.1))
              (child.1)))

-- A value at most 20 deep that is sent to JavaScript and converted back is the same, except that a double
-- that is an int32 becomes an integer and binary data null. Its integers are int32s, its dictionaries have
-- each key once and not `__proto__`, the converter keeps nulls, and V8 gives back an int32 as it got it.
pub from_v8_value-to_v8_value :
    {D : Type 0} (c : Converter D) (of_int : ℤ → D) (v : Value D) (s : Store D)
    → c.strip_null_from_objects ≡ false
    → ((n : ℤ) → IsInt32 n → c.as_int32 (of_int n) ≡ some n)
    → HasNoProto v
    → IsSendable v
    → depth v ≤ 20
    → from_v8_value c (to_v8_value_impl of_int v s).1.heap (to_v8_value_impl of_int v s).0
      ≡ some (normalized c.as_int32 v)
unfolding from_v8_value
from_v8_value-to_v8_value c of_int v s k i p q d =
    let r = to_v8_value_impl of_int v s in
    (impl-Built c of_int r.1.heap k i v r.0 s.next r.1.next 20 []
      (to_v8_value_impl-Built of_int v s p) q d (record {})).0
