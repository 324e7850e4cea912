-- ===== src/Convert/Sendable.antt =====
-- The values that survive the way to JavaScript and back, and what becomes of them.
use atom_shell.Common.{
  ℕ, ◌-◌, ◌^◌, ◌≤◌, ◌<◌, ◌≡◌, refl, Bool, true, false, Option, none, some, String, str_eq, eq_iff,
  if◌then◌else◌, arith,
}
use atom_shell.Common.Int.{ℤ, pos, negsuc, ◌≤ℤ◌}
use atom_shell.Convert.Values.{
  Value, null_value, boolean_value, integer_value, double_value, string_value, list_value,
  dictionary_value, binary_value, Items, no_items, item, Entries, no_entries, entry, set_entry,
  depth, max,
}

abbrev pub IsInt32 : ℤ → Type 0
IsInt32 n = (negsuc (2 ^ 31 - 1) ≤ℤ n) × (n ≤ℤ pos (2 ^ 31 - 1))

abbrev pub has_entry : {D : Type 0} → String → Entries D → Bool
has_entry k no_entries = false
has_entry k (entry j v es) = if str_eq j k then true else has_entry k es

-- The integers are those of C++, and no key of a dictionary stands there twice.
unfoldable mutual
  pub IsSendable : {D : Type 0} → Value D → Type 0
  IsSendable (list_value xs) = ItemsAreSendable xs
  IsSendable (dictionary_value es) = EntriesAreSendable es
  IsSendable (integer_value n) = IsInt32 n
  IsSendable null_value = Unit
  IsSendable (boolean_value b) = Unit
  IsSendable (double_value d) = Unit
  IsSendable (string_value s) = Unit
  IsSendable binary_value = Unit

  pub ItemsAreSendable : {D : Type 0} → Items D → Type 0
  ItemsAreSendable no_items = Unit
  ItemsAreSendable (item v xs) = IsSendable v × ItemsAreSendable xs

  pub EntriesAreSendable : {D : Type 0} → Entries D → Type 0
  EntriesAreSendable no_entries = Unit
  EntriesAreSendable (entry k v es) =
      (has_entry k es ≡ false) × IsSendable v × EntriesAreSendable es

abbrev pub number_or : {D : Type 0} → D → Option ℤ → Value D
number_or d none = double_value d
number_or d (some n) = integer_value n

-- A double that is an int32 becomes an integer, and binary data null.
unfoldable mutual
  pub normalized : {D : Type 0} → (D → Option ℤ) → Value D → Value D
  normalized as_int32 (list_value xs) = list_value (normalized_items as_int32 xs)
  normalized as_int32 (dictionary_value es) = dictionary_value (normalized_entries as_int32 es)
  normalized as_int32 (double_value d) = number_or d (as_int32 d)
  normalized as_int32 null_value = null_value
  normalized as_int32 (boolean_value b) = boolean_value b
  normalized as_int32 (integer_value n) = integer_value n
  normalized as_int32 (string_value s) = string_value s
  normalized as_int32 binary_value = null_value

  pub normalized_items : {D : Type 0} → (D → Option ℤ) → Items D → Items D
  normalized_items as_int32 no_items = no_items
  normalized_items as_int32 (item v xs) =
      item (normalized as_int32 v) (normalized_items as_int32 xs)

  pub normalized_entries : {D : Type 0} → (D → Option ℤ) → Entries D → Entries D
  normalized_entries as_int32 no_entries = no_entries
  normalized_entries as_int32 (entry k v es) =
      entry k (normalized as_int32 v) (normalized_entries as_int32 es)

abbrev pub append : {D : Type 0} → Entries D → Entries D → Entries D
append no_entries fs = fs
append (entry k v es) fs = entry k v (append es fs)

-- No key of the second is in the first.
abbrev pub Apart : {D : Type 0} → Entries D → Entries D → Type 0
Apart acc no_entries = Unit
Apart acc (entry k v es) = (has_entry k acc ≡ false) × Apart acc es

pub append-set_entry :
    {D : Type 0} (k : String) (v : Value D) (acc es : Entries D)
    → has_entry k acc ≡ false
    → append (set_entry k v acc) es ≡ append acc (entry k v es)
append-set_entry k v no_entries es h = refl
append-set_entry k v (entry j w acc) es h = ground (arith, append-set_entry k v acc es)

has_entry-set_entry :
    {D : Type 0} (j k : String) (v : Value D) (acc : Entries D)
    → has_entry j (set_entry k v acc) ≡ (if str_eq k j then true else has_entry j acc)
has_entry-set_entry j k v no_entries = refl
has_entry-set_entry j k v (entry i w acc) =
    ground (arith, eq_iff k j, eq_iff i k, eq_iff i j, has_entry-set_entry j k v acc)

pub Apart-set_entry :
    {D : Type 0} (k : String) (v : Value D) (acc es : Entries D)
    → has_entry k es ≡ false
    → Apart acc es
    → Apart (set_entry k v acc) es
Apart-set_entry k v acc no_entries h a = record {}
Apart-set_entry k v acc (entry j w es) h a = (
  ground (arith, h, a.0, eq_iff k j, eq_iff j k, has_entry-set_entry j k v acc),
  Apart-set_entry k v acc es (ground (arith, h)) (a.1),
)

pub Apart-no_entries : {D : Type 0} (es : Entries D) → Apart no_entries es
Apart-no_entries no_entries = record {}
Apart-no_entries (entry k v es) = (refl, Apart-no_entries es)

pub depth-pos : {D : Type 0} (v : Value D) → 0 < depth v
unfolding depth
depth-pos null_value = omega arith
depth-pos _ = omega arith

pub max-left : (a b n : ℕ) → max a b ≤ n → a ≤ n
max-left a b n h = ground arith

pub max-right : (a b n : ℕ) → max a b ≤ n → b ≤ n
max-right a b n h = ground arith

mutual
  unfolding normalized IsSendable

  pub normalized_entries-has_entry :
      {D : Type 0} (as_int32 : D → Option ℤ) (k : String) (es : Entries D)
      → has_entry k (normalized_entries as_int32 es) ≡ has_entry k es
  normalized_entries-has_entry as_int32 k no_entries = refl
  normalized_entries-has_entry as_int32 k (entry j v es) =
      ground (arith, normalized_entries-has_entry as_int32 k es)
