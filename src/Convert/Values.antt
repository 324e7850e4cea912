-- ===== src/Convert/Values.antt =====
-- base::Value, and JavaScript values over a heap of objects. D is the type of doubles.
use atom_shell.Common.{ℕ, suc, ◌+◌, Bool, Option, List, String, str_eq, ltb, if◌then◌else◌}
use atom_shell.Common.Int.{ℤ}

-- A dictionary has its entries in the order in which they were set; what is observable is by key.
mutual
  pub data Value (D : Type 0) : Type 0 where
    null_value : Value D
    boolean_value : Bool → Value D
    integer_value : ℤ → Value D
    double_value : D → Value D
    string_value : String → Value D
    list_value : Items D → Value D
    dictionary_value : Entries D → Value D
    binary_value : Value D

  pub data Items (D : Type 0) : Type 0 where
    no_items : Items D
    item : Value D → Items D → Items D

  pub data Entries (D : Type 0) : Type 0 where
    no_entries : Entries D
    entry : String → Value D → Entries D → Entries D

-- A value of JavaScript; an object is its place in the heap.
pub data JsValue (D : Type 0) : Type 0 where
  undefined : JsValue D
  js_null : JsValue D
  js_boolean : Bool → JsValue D
  js_number : D → JsValue D
  js_string : String → JsValue D
  object : ℕ → JsValue D
  symbol : JsValue D

-- What reading a property gives: a value, or an exception of its getter.
pub data Read (D : Type 0) : Type 0 where
  gives : JsValue D → Read D
  throws : Read D

-- An index of an array; only a slot is a real indexed property.
pub data Slot (D : Type 0) : Type 0 where
  slot : Read D → Slot D
  hole : Slot D

-- An own property. The key is `none` if it is neither a string nor a number; is_callback is
-- HasRealNamedCallbackProperty.
pub record Property (D : Type 0) : Type 0 where
  pub key : Option String
  pub is_callback : Bool
  pub read : Read D

-- What the value tests see of an object: a date with its number, a regular expression with its text.
pub data Kind (D : Type 0) : Type 0 where
  date : D → Kind D
  reg_exp : String → Kind D
  array : List (Slot D) → Kind D
  function : Kind D
  plain : Kind D

pub record Object (D : Type 0) : Type 0 where
  pub kind : Kind D
  pub properties : List (Property D)

abbrev pub Heap : Type 0 → Type 0
Heap D = ℕ → Object D

abbrev pub max : ℕ → ℕ → ℕ
max a b = if ltb a b then b else a

unfoldable mutual
  pub depth : {D : Type 0} → Value D → ℕ
  depth (list_value xs) = suc (depth_items xs)
  depth (dictionary_value es) = suc (depth_entries es)
  depth null_value = 1
  depth (boolean_value b) = 1
  depth (integer_value n) = 1
  depth (double_value d) = 1
  depth (string_value s) = 1
  depth binary_value = 1

  pub depth_items : {D : Type 0} → Items D → ℕ
  depth_items no_items = 0
  depth_items (item v xs) = max (depth v) (depth_items xs)

  pub depth_entries : {D : Type 0} → Entries D → ℕ
  depth_entries no_entries = 0
  depth_entries (entry k v es) = max (depth v) (depth_entries es)

-- The lists and dictionaries of a value.
unfoldable mutual
  pub containers : {D : Type 0} → Value D → ℕ
  containers (list_value xs) = suc (containers_items xs)
  containers (dictionary_value es) = suc (containers_entries es)
  containers null_value = 0
  containers (boolean_value b) = 0
  containers (integer_value n) = 0
  containers (double_value d) = 0
  containers (string_value s) = 0
  containers binary_value = 0

  pub containers_items : {D : Type 0} → Items D → ℕ
  containers_items no_items = 0
  containers_items (item v xs) = containers v + containers_items xs

  pub containers_entries : {D : Type 0} → Entries D → ℕ
  containers_entries no_entries = 0
  containers_entries (entry k v es) = containers v + containers_entries es

-- SetWithoutPathExpansion.
abbrev pub set_entry : {D : Type 0} → String → Value D → Entries D → Entries D
set_entry k v no_entries = entry k v no_entries
set_entry k v (entry j w es) = if str_eq j k then entry k v es else entry j w (set_entry k v es)
