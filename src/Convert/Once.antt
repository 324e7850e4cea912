-- ===== src/Convert/Once.antt =====
-- Each object of the heap is converted at most once
-- (atom/common/native_mate_converters/v8_value_converter.cc).
use atom_shell.Common.{
  ℕ, zero, suc, ◌+◌, ◌≤◌, ◌<◌, ◌≡◌, refl, Bool, true, false, Option, none, some, List, [], ◌∷◌,
  String, ◌==◌, if◌then◌else◌, arith, length, All, Bool-cases, inl, inr,
}
use atom_shell.Convert.Values.{
  Value, Entries, no_entries, entry, JsValue, object, Slot, slot, hole, Property, Kind, array, Heap,
  containers, containers_items, containers_entries, set_entry,
}
use atom_shell.Convert.FromV8.{
  UniqueMap, Converted, has_handle, read_or_null, or_null, convert_slots, keep, convert_keyed,
  convert_properties,
}

abbrev pub is_known : ℕ → UniqueMap → Bool
is_known o [] = false
is_known o ((h, p) ∷ rest) = if p == o then true else is_known o rest

-- Every object is below k, stands under its hash and stands there once.
abbrev pub IsUnique : (ℕ → ℕ) → ℕ → UniqueMap → Type 0
IsUnique hash k [] = Unit
IsUnique hash k ((h, o) ∷ rest) =
    (h ≡ hash o) × (o < k) × (is_known o rest ≡ false) × IsUnique hash k rest

-- Whatever the hashes are, the check finds an object exactly if it is in the map.
pub has_handle-is_known :
    (hash : ℕ → ℕ) (k o : ℕ) (u : UniqueMap)
    → IsUnique hash k u
    → has_handle (hash o) o u ≡ is_known o u
has_handle-is_known hash k o [] h = refl
has_handle-is_known hash k o ((g, p) ∷ rest) h = ground (arith, has_handle-is_known hash k o rest)

abbrev without : ℕ → UniqueMap → UniqueMap
without o [] = []
without o ((h, p) ∷ rest) = if p == o then without o rest else (h, p) ∷ without o rest

is_known-without :
    (o p : ℕ) (u : UniqueMap) → is_known p u ≡ false → is_known p (without o u) ≡ false
is_known-without o p [] h = refl
is_known-without o p ((g, q) ∷ rest) h = ground (arith, is_known-without o p rest)

length-without_absent :
    (o : ℕ) (u : UniqueMap) → is_known o u ≡ false → length (without o u) ≡ length u
length-without_absent o [] h = refl
length-without_absent o ((g, q) ∷ rest) h = ground (arith, length-without_absent o rest)

length-without :
    (hash : ℕ → ℕ) (k o : ℕ) (u : UniqueMap)
    → IsUnique hash k u
    → length u ≤ suc (length (without o u))
length-without hash k o [] h = omega arith
length-without hash k o ((g, q) ∷ rest) h =
    ground (arith, length-without hash k o rest, length-without_absent o rest)

without-IsUnique :
    (hash : ℕ → ℕ) (k : ℕ) (u : UniqueMap) → IsUnique hash (suc k) u → IsUnique hash k (without k u)
without-IsUnique hash k [] h = record {}
without-IsUnique hash k ((g, q) ∷ rest) h = elim (Bool-cases (q == k)) [
  | inl e ↦ rw e (without-IsUnique hash k rest (h.3))
  | inr e ↦ rw e (
    h.0,
    ground (arith, h.1, e),
    is_known-without k q rest (h.2),
    without-IsUnique hash k rest (h.3),
  )
]

pub length-bound : (hash : ℕ → ℕ) (k : ℕ) (u : UniqueMap) → IsUnique hash k u → length u ≤ k
length-bound hash zero [] h = omega arith
length-bound hash zero ((g, q) ∷ rest) h = absurd (omega (arith, h.1))
length-bound hash (suc k) u h = omega (
  arith,
  length-without hash (suc k) k u h,
  length-bound hash k (without k u) (without-IsUnique hash k u h),
)

abbrev pub IsBelow : {D : Type 0} → ℕ → JsValue D → Type 0
IsBelow k (object o) = o < k
IsBelow k _ = Unit

abbrev pub SlotBelow : {D : Type 0} → ℕ → Slot D → Type 0
SlotBelow k hole = Unit
SlotBelow k (slot r) = IsBelow k (read_or_null r)

abbrev pub KindBelow : {D : Type 0} → ℕ → Kind D → Type 0
KindBelow k (array slots) = All (SlotBelow k) slots
KindBelow k _ = Unit

-- The objects below k refer to objects below k only.
pub record IsClosed {D : Type 0} (k : ℕ) (heap : Heap D) : Type 0 where
  pub kinds : (o : ℕ) → o < k → KindBelow k (heap o).kind
  pub properties :
      (o : ℕ)
      → o < k
      → All (λ (p : Property D). IsBelow k (read_or_null p.read)) (heap o).properties

abbrev pub count : {D : Type 0} → Option (Value D) → ℕ
count none = 0
count (some v) = containers v

abbrev pub Grows : {D : Type 0} → (ℕ → ℕ) → ℕ → UniqueMap → Converted D → Type 0
Grows hash k u r = IsUnique hash k r.1 × (count r.0 + length u ≤ length r.1)

set_entry-containers :
    {D : Type 0} (k : String) (v : Value D) (es : Entries D)
    → containers_entries (set_entry k v es) ≤ containers v + containers_entries es
unfolding containers
set_entry-containers k v no_entries = omega arith
set_entry-containers k v (entry j w es) = ground (arith, set_entry-containers k v es)

module _ {D : Type 0} (convert : JsValue D → UniqueMap → Converted D) (hash : ℕ → ℕ) (k : ℕ)
    (h : (w : JsValue D) (u : UniqueMap)
      → IsBelow k w
      → IsUnique hash k u
      → Grows hash k u (convert w u)) where
  or_null-containers : (o : Option (Value D)) → containers (or_null o) ≡ count o
  unfolding containers
  or_null-containers none = refl
  or_null-containers (some v) = refl

  pub convert_slots-Grows :
      (slots : List (Slot D)) (u : UniqueMap)
      → All (SlotBelow k) slots
      → IsUnique hash k u
      → IsUnique hash k (convert_slots convert slots u).1
        × (containers_items (convert_slots convert slots u).0 + length u
            ≤ length (convert_slots convert slots u).1)
  unfolding convert_slots containers
  convert_slots-Grows [] u b i = (i, omega arith)
  convert_slots-Grows (hole ∷ rest) u b i = convert_slots-Grows rest u (b.1) i
  convert_slots-Grows (slot r ∷ rest) u b i =
      let child = h (read_or_null r) u (b.0) i in
      let others = convert_slots-Grows rest (convert (read_or_null r) u).1 (b.1) (child.0) in
      (
        others.0,
        omega (arith, child.1, others.1, or_null-containers (convert (read_or_null r) u).0),
      )

  keep-containers :
      (strip : Bool) (key : String) (o : Option (Value D)) (es : Entries D)
      → containers_entries (keep convert strip key o es) ≤ count o + containers_entries es
  keep-containers strip key none es = omega arith
  keep-containers strip key (some v) es = ground (arith, set_entry-containers key v es)

  abbrev pub EntriesGrow : Entries D → UniqueMap → Entries D × UniqueMap → Type 0
  EntriesGrow es u r =
      IsUnique hash k r.1 × (containers_entries r.0 + length u ≤ containers_entries es + length r.1)

  convert_keyed-Grows :
      (strip : Bool) (key : Option String) (callback : Bool) (w : JsValue D) (es : Entries D)
      (u : UniqueMap)
      → IsBelow k w
      → IsUnique hash k u
      → EntriesGrow es u (convert_keyed convert strip key callback w es u)
  convert_keyed-Grows strip none callback w es u b i = (i, omega arith)
  convert_keyed-Grows strip (some key) true w es u b i = (i, omega arith)
  convert_keyed-Grows strip (some key) false w es u b i =
      let child = h w u b i in
      (child.0, omega (arith, child.1, keep-containers strip key (convert w u).0 es))

  pub convert_properties-Grows :
      (strip : Bool) (ps : List (Property D)) (es : Entries D) (u : UniqueMap)
      → All (λ (p : Property D). IsBelow k (read_or_null p.read)) ps
      → IsUnique hash k u
      → EntriesGrow es u (convert_properties convert strip ps es u)
  unfolding convert_properties
  convert_properties-Grows strip [] es u b i = (i, omega arith)
  convert_properties-Grows strip (p ∷ rest) es u b i =
      let kept = convert_keyed convert strip p.key p.is_callback (read_or_null p.read) es u in
      let first =
        convert_keyed-Grows strip p.key p.is_callback (read_or_null p.read) es u (b.0) i in
      let others = convert_properties-Grows strip rest kept.0 kept.1 (b.1) (first.0) in
      (others.0, omega (arith, first.1, others.1))
