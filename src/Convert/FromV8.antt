-- ===== src/Convert/FromV8.antt =====
-- V8ValueConverter::FromV8Value and the converters that use it
-- (atom/common/native_mate_converters/v8_value_converter.cc, value_converter.cc). The heap is that
-- during the conversion: getters are taken to leave it alone.
use atom_shell.Common.{
  ℕ, zero, suc, ◌≡◌, refl, ◌⊎◌, inl, inr, Bool, true, false, not, ◌&&◌, Option, none, some, List,
  [], ◌∷◌, String, ◌==◌, if◌then◌else◌,
}
use atom_shell.Common.Int.{ℤ}
use atom_shell.Convert.Values.{
  Value, null_value, boolean_value, integer_value, double_value, string_value, list_value,
  dictionary_value, Items, no_items, item, Entries, no_entries, JsValue, undefined, js_null,
  js_boolean, js_number, js_string, object, symbol, Read, gives, throws, Slot, slot, hole, Property,
  Kind, date, reg_exp, array, function, plain, Heap, set_entry,
}

-- The settings of the converter, and what V8 and the C++ numbers do: the int32 that a number is, if it
-- is one, the quotient by 1000.0, and GetIdentityHash.
pub record Converter (D : Type 0) : Type 0 where
  pub date_allowed : Bool
  pub reg_exp_allowed : Bool
  pub function_allowed : Bool
  pub strip_null_from_objects : Bool
  pub as_int32 : D → Option ℤ
  pub thousandth : D → D
  pub identity_hash : ℕ → ℕ

-- unique_map_, from hashes to objects.
abbrev pub UniqueMap : Type 0
UniqueMap = List (ℕ × ℕ)

-- The loop over equal_range.
abbrev pub has_handle : ℕ → ℕ → UniqueMap → Bool
has_handle hash o [] = false
has_handle hash o ((h, p) ∷ rest) = if (h == hash) && (p == o) then true else has_handle hash o rest

unfoldable pub update_and_check_uniqueness : (ℕ → ℕ) → ℕ → UniqueMap → Bool × UniqueMap
update_and_check_uniqueness identity_hash o unique =
    if has_handle (identity_hash o) o unique
    then (false, unique)
    else (true, (identity_hash o, o) ∷ unique)

-- A value, or NULL, and the map after it.
abbrev pub Converted : Type 0 → Type 0
Converted D = Option (Value D) × UniqueMap

abbrev pub is_null : {D : Type 0} → Value D → Bool
is_null null_value = true
is_null _ = false

abbrev pub read_or_null : {D : Type 0} → Read D → JsValue D
read_or_null (gives w) = w
read_or_null throws = js_null

abbrev pub or_null : {D : Type 0} → Option (Value D) → Value D
or_null none = null_value
or_null (some v) = v

module _ {D : Type 0} (convert : JsValue D → UniqueMap → Converted D) where
  -- The loop of FromV8Array.
  unfoldable pub convert_slots : List (Slot D) → UniqueMap → Items D × UniqueMap
  convert_slots [] unique = (no_items, unique)
  convert_slots (hole ∷ rest) unique = convert_slots rest unique
  convert_slots (slot r ∷ rest) unique =
      let child = convert (read_or_null r) unique in
      let others = convert_slots rest child.1 in (item (or_null child.0) others.0, others.1)

  abbrev pub keep : Bool → String → Option (Value D) → Entries D → Entries D
  keep strip_null k none result = result
  keep strip_null k (some v) result =
      if strip_null && is_null v then result else set_entry k v result

  abbrev pub convert_keyed :
      Bool → Option String → Bool → JsValue D → Entries D → UniqueMap → Entries D × UniqueMap
  convert_keyed strip_null none is_callback w result unique = (result, unique)
  convert_keyed strip_null (some k) is_callback w result unique =
      if is_callback
      then (result, unique)
      else (keep strip_null k (convert w unique).0 result, (convert w unique).1)

  -- The loop of FromV8Object.
  unfoldable pub convert_properties :
      Bool → List (Property D) → Entries D → UniqueMap → Entries D × UniqueMap
  convert_properties strip_null [] result unique = (result, unique)
  convert_properties strip_null (p ∷ rest) result unique =
      let kept = convert_keyed strip_null p.key p.is_callback (read_or_null p.read) result unique in
      convert_properties strip_null rest kept.0 kept.1

module _ {D : Type 0} (c : Converter D) (heap : Heap D) where
  open c use {
    date_allowed, reg_exp_allowed, function_allowed, strip_null_from_objects, as_int32, thousandth,
    identity_hash,
  }

  abbrev pub dictionary_of : Entries D × UniqueMap → Converted D
  dictionary_of (es, unique) = (some (dictionary_value es), unique)

  abbrev pub list_of : Items D × UniqueMap → Converted D
  list_of (xs, unique) = (some (list_value xs), unique)

  -- The rest of FromV8Object behind the check.
  abbrev pub fill_object :
      (JsValue D → UniqueMap → Converted D) → List (Property D) → Bool × UniqueMap → Converted D
  fill_object convert properties (false, unique) = (some null_value, unique)
  fill_object convert properties (true, unique) =
      dictionary_of
        (convert_properties convert strip_null_from_objects properties no_entries unique)

  unfoldable pub from_v8_object :
      (JsValue D → UniqueMap → Converted D) → ℕ → UniqueMap → Converted D
  from_v8_object convert o unique =
      fill_object convert ((heap o).properties) (update_and_check_uniqueness identity_hash o unique)

  abbrev pub fill_array :
      (JsValue D → UniqueMap → Converted D) → List (Slot D) → Bool × UniqueMap → Converted D
  fill_array convert slots (false, unique) = (some null_value, unique)
  fill_array convert slots (true, unique) = list_of (convert_slots convert slots unique)

  unfoldable pub from_v8_array :
      (JsValue D → UniqueMap → Converted D) → List (Slot D) → ℕ → UniqueMap → Converted D
  from_v8_array convert slots o unique =
      fill_array convert slots (update_and_check_uniqueness identity_hash o unique)

  -- The tests of an object, in the order of the code.
  abbrev pub from_kind :
      (JsValue D → UniqueMap → Converted D) → Kind D → ℕ → UniqueMap → Converted D
  from_kind convert (date d) o unique =
      if not date_allowed
      then from_v8_object convert o unique
      else (some (double_value (thousandth d)), unique)
  from_kind convert (reg_exp text) o unique =
      if not reg_exp_allowed
      then from_v8_object convert o unique
      else (some (string_value text), unique)
  from_kind convert (array slots) o unique = from_v8_array convert slots o unique
  from_kind convert function o unique =
      if not function_allowed then (none, unique) else from_v8_object convert o unique
  from_kind convert plain o unique = from_v8_object convert o unique

  abbrev pub number_value : D → Option ℤ → Value D
  number_value d none = double_value d
  number_value d (some n) = integer_value n

  -- FromV8ValueImpl; the number is max_recursion_depth_ before the call's Level.
  unfoldable pub from_v8_value_impl : ℕ → JsValue D → UniqueMap → Converted D
  from_v8_value_impl zero w unique = (none, unique)
  from_v8_value_impl (suc n) undefined unique = (none, unique)
  from_v8_value_impl (suc n) js_null unique = (some null_value, unique)
  from_v8_value_impl (suc n) (js_boolean b) unique = (some (boolean_value b), unique)
  from_v8_value_impl (suc n) (js_number d) unique = (some (number_value d (as_int32 d)), unique)
  from_v8_value_impl (suc n) (js_string s) unique = (some (string_value s), unique)
  from_v8_value_impl (suc n) symbol unique = (none, unique)
  from_v8_value_impl (suc n) (object o) unique =
      from_kind (from_v8_value_impl n) ((heap o).kind) o unique

  abbrev pub max_recursion_depth : ℕ
  max_recursion_depth = 20

  -- FromV8Value; `none` is NULL.
  unfoldable pub from_v8_value : JsValue D → Option (Value D)
  from_v8_value w = (from_v8_value_impl max_recursion_depth w []).0

-- Converter<base::DictionaryValue>::FromV8, applied to the converted value; `none` is `return false`.
unfoldable pub as_dictionary_value : {D : Type 0} → Option (Value D) → Option (Entries D)
as_dictionary_value (some (dictionary_value es)) = some es
as_dictionary_value _ = none

-- Converter<base::ListValue>::FromV8; the outer `none` is the dereferenced NULL.
unfoldable pub as_list_value : {D : Type 0} → Option (Value D) → Option (Option (Items D))
as_list_value none = none
as_list_value (some (list_value xs)) = some (some xs)
as_list_value _ = some none

-- undefined, and a function that the converter does not allow, crash the converter of lists, while that of
-- dictionaries refuses them.
pub as_list_value-null :
    {D : Type 0} (c : Converter D) (heap : Heap D) (w : JsValue D)
    → (w ≡ undefined)
      ⊎ ((o : ℕ) × ((w ≡ object o) × ((heap o).kind ≡ function) × (c.function_allowed ≡ false)))
    → (as_list_value (from_v8_value c heap w) ≡ none)
      × (as_dictionary_value (from_v8_value c heap w) ≡ none)
unfolding from_v8_value from_v8_value_impl as_list_value as_dictionary_value
as_list_value-null c heap w (inl e) = rw e (refl, refl)
as_list_value-null c heap w (inr (o, (e, k, f))) = rw e (simp (k, f) (refl, refl))
