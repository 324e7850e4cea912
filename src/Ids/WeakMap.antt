-- ===== src/Ids/WeakMap.antt =====
-- IDWeakMap (atom/common/api/atom_api_id_weak_map.cc) with the hidden values of the objects. Objects are numbers;
-- which of them are garbage, and when they are collected, is V8's.
use atom_shell.Common.{
  ℕ, ◌+◌, ◌%◌, ◌^◌, Bool, not, Option, none, some, List, [], ◌∷◌, ◌==◌, if◌then◌else◌,
}
use atom_shell.Common.Dictionary.{nat_key, lookup, contains, insert, erase}

abbrev pub Object : Type 0
Object = ℕ

-- `warnings` counts the warnings that an object is collected twice; a key is the bits of an int32_t.
pub record IdWeakMap : Type 0 where
  pub next_id : ℕ
  pub map : List (ℕ × Object)
  pub warnings : ℕ

unfoldable pub new_id_weak_map : IdWeakMap
new_id_weak_map = record { next_id = 0; map = []; warnings = 0 }

-- The map; the hidden value IDWeakMapKey of the objects, which every map sets; and the collected objects.
pub record Realm : Type 0 where
  pub ids : IdWeakMap
  pub hidden : List (Object × ℕ)
  pub collected : List Object

unfoldable pub get_next_id : IdWeakMap → ℕ
get_next_id m = (m.next_id + 1) % 2 ^ 32

unfoldable pub has : ℕ → IdWeakMap → Bool
has key m = contains key m.map

unfoldable pub add : Object → Realm → ℕ × Realm
add o r =
    let k = get_next_id r.ids in
    (
      k,
      record r {
        ids = record { next_id = k; map = insert k o r.ids.map; warnings = r.ids.warnings };
        hidden = insert o k r.hidden;
      },
    )

-- `none` is the exception "Invalid key".
unfoldable pub get : ℕ → IdWeakMap → Option Object
get key m = if not (has key m) then none else lookup key m.map

abbrev pub keys_of : List (ℕ × Object) → List ℕ
keys_of [] = []
keys_of ((k, o) ∷ rest) = k ∷ keys_of rest

unfoldable pub keys : IdWeakMap → List ℕ
keys m = keys_of m.map

unfoldable pub remove : ℕ → IdWeakMap → IdWeakMap
remove key m =
    if has key m then record m { map = erase key m.map } else record m { warnings = m.warnings + 1 }

-- Int32Value of a hidden value that is not set is 0.
abbrev pub int32_value : Option ℕ → ℕ
int32_value none = 0
int32_value (some k) = k

unfoldable pub weak_callback : Object → Realm → Realm
weak_callback o r = record r { ids = remove (int32_value (lookup o r.hidden)) r.ids }

-- V8 collects an object: the weak handle of each entry with it calls back.
unfoldable pub callbacks : Object → List (ℕ × Object) → Realm → Realm
callbacks o [] r = r
callbacks o ((k, p) ∷ rest) r =
    let done = callbacks o rest r in if p == o then weak_callback o done else done

unfoldable pub collect : Object → Realm → Realm
collect o r =
    let called = callbacks o r.ids.map r in record called { collected = o ∷ called.collected }
