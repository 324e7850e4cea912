-- ===== src/Convert/ToV8.antt =====
-- V8ValueConverter::ToV8Value (atom/common/native_mate_converters/v8_value_converter.cc). New objects
-- take the next free places of the heap. What Set does to a new object: it adds a property, except that
-- a set `__proto__` changes the prototype.
use atom_shell.Common.{ℕ, suc, false, some, List, [], ◌∷◌, String, str_eq, ◌==◌, if◌then◌else◌}
use atom_shell.Common.Int.{ℤ}
use atom_shell.Convert.Values.{
  Value, null_value, boolean_value, integer_value, double_value, string_value, list_value,
  dictionary_value, binary_value, Items, no_items, item, Entries, no_entries, entry, JsValue,
  js_null, js_boolean, js_number, js_string, object, gives, Slot, slot, Property, array, plain,
  Object, Heap,
}

-- The heap and its first free place.
pub record Store (D : Type 0) : Type 0 where
  pub heap : Heap D
  pub next : ℕ

abbrev pub put : {D : Type 0} → ℕ → Object D → Store D → Store D
put o x s = record s { heap = λ p. if o == p then x else s.heap p }

abbrev pub allocate : {D : Type 0} → Store D → Store D
allocate s = record s { next = suc s.next }

abbrev pub new_property : {D : Type 0} → String → JsValue D → Property D
new_property k w = record { key = some k; is_callback = false; read = gives w }

-- result->Set of a property of a new object.
abbrev pub set_property : {D : Type 0} → String → JsValue D → List (Property D) → List (Property D)
set_property k w rest = if str_eq k "__proto__" then rest else new_property k w ∷ rest

-- An array is written when its elements are converted, index by index, as is an object with its
-- properties; nothing else refers to it before.
unfoldable mutual
  pub to_v8_value_impl : {D : Type 0} → (ℤ → D) → Value D → Store D → JsValue D × Store D
  to_v8_value_impl of_int null_value s = (js_null, s)
  to_v8_value_impl of_int (boolean_value b) s = (js_boolean b, s)
  to_v8_value_impl of_int (integer_value n) s = (js_number (of_int n), s)
  to_v8_value_impl of_int (double_value d) s = (js_number d, s)
  to_v8_value_impl of_int (string_value text) s = (js_string text, s)
  to_v8_value_impl of_int (list_value xs) s =
      let filled = to_v8_array of_int xs (allocate s) in
      (object s.next, put s.next (record { kind = array filled.0; properties = [] }) filled.1)
  to_v8_value_impl of_int (dictionary_value es) s =
      let filled = to_v8_object of_int es (allocate s) in
      (object s.next, put s.next (record { kind = plain; properties = filled.0 }) filled.1)
  to_v8_value_impl of_int binary_value s = (js_null, s)

  -- The loop of ToV8Array.
  pub to_v8_array : {D : Type 0} → (ℤ → D) → Items D → Store D → List (Slot D) × Store D
  to_v8_array of_int no_items s = ([], s)
  to_v8_array of_int (item v xs) s =
      let child = to_v8_value_impl of_int v s in
      let others = to_v8_array of_int xs child.1 in (slot (gives child.0) ∷ others.0, others.1)

  -- The loop of ToV8Object.
  pub to_v8_object : {D : Type 0} → (ℤ → D) → Entries D → Store D → List (Property D) × Store D
  to_v8_object of_int no_entries s = ([], s)
  to_v8_object of_int (entry k v es) s =
      let child = to_v8_value_impl of_int v s in
      let others = to_v8_object of_int es child.1 in (set_property k child.0 others.0, others.1)
