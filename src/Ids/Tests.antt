-- ===== src/Ids/Tests.antt =====
-- Runs of an IDWeakMap.
use atom_shell.Common.{ℕ, ◌<◌, ◌≡◌, refl, true, false, some, [], ◌∷◌, arith, ◌==◌}
use atom_shell.Common.Dictionary.{nat_key, lookup, insert, erase}
use atom_shell.Ids.WeakMap.{
  Realm, new_id_weak_map, get_next_id, has, add, get, keys, remove, weak_callback, callbacks,
  collect,
}
use atom_shell.Ids.Alive.{
  is_in, new_realm, added, collected_one, Reachable, start, next, get-living, add-get,
}

abbrev one_object : Realm
one_object = (add 7 new_realm).1

abbrev two_objects : Realm
two_objects = (add 8 one_object).1

abbrev one_collected : Realm
one_collected = collect 7 two_objects

keys-one_collected : keys one_collected.ids ≡ 2 ∷ []
unfolding keys collect callbacks weak_callback remove has add get_next_id new_id_weak_map insert
    erase
keys-one_collected = refl

one_collected-Reachable : Reachable one_collected
unfolding add get_next_id new_id_weak_map insert
one_collected-Reachable =
    next two_objects one_collected
      (next one_object two_objects
        (next new_realm one_object start (added new_realm 7 refl refl (omega arith)))
        (added one_object 8 refl refl (omega arith)))
      (collected_one two_objects 7)

get-8 : get 2 one_collected.ids ≡ some 8
unfolding get collect callbacks weak_callback remove has add get_next_id new_id_weak_map insert
    erase
get-8 = refl

get-living_example :
    (is_in 8 one_collected.collected ≡ false)
    × (lookup 8 one_collected.hidden ≡ some 2)
    × (get 1 one_collected.ids ≡ some 8 → ◌≡◌ {A = ℕ} 1 2)
get-living_example = get-living one_collected 2 1 8 one_collected-Reachable get-8

one_collected-next_id : one_collected.ids.next_id < 2147483647
unfolding collect callbacks weak_callback remove has add get_next_id new_id_weak_map insert erase
one_collected-next_id = omega arith

add-get_example :
    (has (add 9 one_collected).0 one_collected.ids ≡ false)
    × (get (add 9 one_collected).0 (add 9 one_collected).1.ids ≡ some 9)
    × ((j : ℕ)
        → ((add 9 one_collected).0 == j) ≡ false
        → get j (add 9 one_collected).1.ids ≡ get j one_collected.ids)
add-get_example = add-get one_collected 9 one_collected-Reachable one_collected-next_id

-- An object added again keeps its first entry after it is collected.
abbrev added_twice : Realm
added_twice = collect 7 (add 7 one_object).1

get-added_twice : (get 1 added_twice.ids ≡ some 7) × (is_in 7 added_twice.collected ≡ true)
unfolding get collect callbacks weak_callback remove has add get_next_id new_id_weak_map insert
    erase
get-added_twice = (refl, refl)
