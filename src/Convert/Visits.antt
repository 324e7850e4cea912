-- ===== src/Convert/Visits.antt =====
-- A conversion visits each object at most once
-- (atom/common/native_mate_converters/v8_value_converter.cc).
use atom_shell.Common.{
  ℕ, zero, suc, ◌≤◌, ◌<◌, ◌≡◌, refl, ap, ◌∙◌, Bool, true, false, not, Option, none, some, List, [],
  if◌then◌else◌, arith, length, All, Bool-cases, inl, inr,
}
use atom_shell.Common.Int.{ℤ}
use atom_shell.Convert.Values.{
  Value, no_entries, JsValue, undefined, js_null, js_boolean, js_number, js_string, object, symbol,
  Slot, Property, Kind, date, reg_exp, array, function, plain, Heap, containers,
}
use atom_shell.Convert.FromV8.{
  Converter, UniqueMap, Converted, read_or_null, fill_object, from_v8_object, fill_array,
  from_v8_array, from_kind, number_value, update_and_check_uniqueness, from_v8_value_impl,
  from_v8_value,
}
use atom_shell.Convert.Once.{
  is_known, IsUnique, IsBelow, SlotBelow, KindBelow, count, Grows, has_handle-is_known,
  length-bound, convert_slots-Grows, convert_properties-Grows, IsClosed,
}

-- The outcome of the uniqueness check.
abbrev Checked : (ℕ → ℕ) → ℕ → UniqueMap → Bool × UniqueMap → Type 0
Checked hash k u (false, u') = IsUnique hash k u' × (length u ≤ length u')
Checked hash k u (true, u') = IsUnique hash k u' × (suc (length u) ≤ length u')

update-Checked :
    (hash : ℕ → ℕ) (k o : ℕ) (u : UniqueMap)
    → o < k
    → IsUnique hash k u
    → Checked hash k u (update_and_check_uniqueness hash o u)
unfolding update_and_check_uniqueness
update-Checked hash k o u b i = elim (Bool-cases (is_known o u)) [
  | inl e ↦ simp (has_handle-is_known hash k o u i ∙ e) (i, omega arith)
  | inr e ↦ simp (has_handle-is_known hash k o u i ∙ e) ((refl, b, e, i), omega arith)
]

module _ {D : Type 0} (c : Converter D) (heap : Heap D) (k : ℕ) (closed : IsClosed k heap)
    (convert : JsValue D → UniqueMap → Converted D)
    (h : (w : JsValue D) (u : UniqueMap)
      → IsBelow k w
      → IsUnique c.identity_hash k u
      → Grows c.identity_hash k u (convert w u)) where
  abbrev hash : ℕ → ℕ
  hash = c.identity_hash

  fill_object-Grows :
      (ps : List (Property D)) (u : UniqueMap) (r : Bool × UniqueMap)
      → All (λ (p : Property D). IsBelow k (read_or_null p.read)) ps
      → Checked hash k u r
      → Grows hash k u (fill_object c heap convert ps r)
  unfolding containers
  fill_object-Grows ps u (false, u') b i = (i.0, omega (arith, i.1))
  fill_object-Grows ps u (true, u') b i =
      let filled =
        convert_properties-Grows convert hash k h c.strip_null_from_objects ps no_entries u' b
          (i.0) in
      (filled.0, omega (arith, i.1, filled.1))

  fill_array-Grows :
      (slots : List (Slot D)) (u : UniqueMap) (r : Bool × UniqueMap)
      → All (SlotBelow k) slots
      → Checked hash k u r
      → Grows hash k u (fill_array c heap convert slots r)
  unfolding containers
  fill_array-Grows slots u (false, u') b i = (i.0, omega (arith, i.1))
  fill_array-Grows slots u (true, u') b i =
      let filled = convert_slots-Grows convert hash k h slots u' b (i.0) in
      (filled.0, omega (arith, i.1, filled.1))

  if-Grows :
      (b : Bool) (u : UniqueMap) (r s : Converted D)
      → Grows hash k u r
      → Grows hash k u s
      → Grows hash k u (if b then r else s)
  if-Grows true u r s p q = p
  if-Grows false u r s p q = q

  object-Grows :
      (o : ℕ) (u : UniqueMap)
      → o < k
      → IsUnique hash k u
      → Grows hash k u (from_v8_object c heap convert o u)
  unfolding from_v8_object
  object-Grows o u b i =
      fill_object-Grows (heap o).properties u (update_and_check_uniqueness hash o u)
        (closed.properties o b) (update-Checked hash k o u b i)

  from_kind-Grows :
      (kind : Kind D) (o : ℕ) (u : UniqueMap)
      → KindBelow k kind
      → o < k
      → IsUnique hash k u
      → Grows hash k u (from_kind c heap convert kind o u)
  unfolding from_v8_array containers
  from_kind-Grows (date d) o u a b i =
      if-Grows (not c.date_allowed) u _ _ (object-Grows o u b i) (i, omega arith)
  from_kind-Grows (reg_exp text) o u a b i =
      if-Grows (not c.reg_exp_allowed) u _ _ (object-Grows o u b i) (i, omega arith)
  from_kind-Grows (array slots) o u a b i =
      fill_array-Grows slots u (update_and_check_uniqueness hash o u) a
        (update-Checked hash k o u b i)
  from_kind-Grows function o u a b i =
      if-Grows (not c.function_allowed) u _ _ (i, omega arith) (object-Grows o u b i)
  from_kind-Grows plain o u a b i = object-Grows o u b i

impl-Grows :
    {D : Type 0} (c : Converter D) (heap : Heap D) (k : ℕ)
    → IsClosed k heap
    → (n : ℕ) (w : JsValue D) (u : UniqueMap) → IsBelow k w
    → IsUnique c.identity_hash k u
    → Grows c.identity_hash k u (from_v8_value_impl c heap n w u)
unfolding from_v8_value_impl containers
impl-Grows c heap k closed zero w u b i = (i, omega arith)
impl-Grows c heap k closed (suc n) undefined u b i = (i, omega arith)
impl-Grows c heap k closed (suc n) js_null u b i = (i, omega arith)
impl-Grows c heap k closed (suc n) (js_boolean x) u b i = (i, omega arith)
impl-Grows c heap k closed (suc n) (js_number d) u b i =
    (i, omega (arith, number-containers (c.as_int32 d)))
  where
    number-containers : (o : Option ℤ) → containers (number_value c heap d o) ≡ 0
    number-containers none = refl
    number-containers (some m) = refl
impl-Grows c heap k closed (suc n) (js_string s) u b i = (i, omega arith)
impl-Grows c heap k closed (suc n) symbol u b i = (i, omega arith)
impl-Grows c heap k closed (suc n) (object o) u b i =
    from_kind-Grows c heap k closed (from_v8_value_impl c heap n) (impl-Grows c heap k closed n)
      (heap o).kind o u (closed.kinds o b) b i

-- From a heap of k objects, whatever refers to what, at most k lists and dictionaries are made.
pub from_v8_value-containers :
    {D : Type 0} (c : Converter D) (heap : Heap D) (k : ℕ) (w : JsValue D) (v : Value D)
    → IsClosed k heap
    → IsBelow k w
    → from_v8_value c heap w ≡ some v
    → containers v ≤ k
unfolding from_v8_value
from_v8_value-containers {D} c heap k w v closed b e =
    let r = from_v8_value_impl c heap 20 w [] in
    let g = impl-Grows c heap k closed 20 w [] b (record {}) in
    omega (arith, g.1, length-bound c.identity_hash k r.1 (g.0), ap count e)
