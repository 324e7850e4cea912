-- ===== src/Convert/Tests.antt =====
-- Runs of the converters at small heaps. The numbers are integers.
use atom_shell.Common.{◌≤◌, ◌≡◌, refl, false, some, [], ◌∷◌, arith}
use atom_shell.Common.Int.{ℤ, pos, negsuc}
use atom_shell.Convert.Values.{
  Value, integer_value, double_value, string_value, list_value, dictionary_value, null_value,
  binary_value, no_items, item, no_entries, entry, js_number, object, plain, Heap, depth,
  containers,
}
use atom_shell.Convert.FromV8.{
  Converter, update_and_check_uniqueness, convert_properties, from_v8_object, from_v8_value_impl,
  from_v8_value,
}
use atom_shell.Convert.ToV8.{Store, new_property, to_v8_value_impl}
use atom_shell.Convert.Depth.{from_v8_value-depth}
use atom_shell.Convert.Once.{IsClosed}
use atom_shell.Convert.Visits.{from_v8_value-containers}
use atom_shell.Convert.Built.{HasNoProto}
use atom_shell.Convert.Sendable.{IsSendable, normalized}
use atom_shell.Convert.RoundTrip.{from_v8_value-to_v8_value}

-- All objects have the same hash.
abbrev converter : Converter ℤ
converter = record {
  date_allowed = false;
  reg_exp_allowed = false;
  function_allowed = false;
  strip_null_from_objects = false;
  as_int32 = λ n. some n;
  thousandth = λ n. n;
  identity_hash = λ o. 0;
}

-- Every object refers to the object 0 and has a number.
abbrev looping : Heap ℤ
looping o = record {
  kind = plain;
  properties = new_property "self" (object 0) ∷ new_property "n" (js_number (pos 7)) ∷ [];
}

abbrev looped : Value ℤ
looped = dictionary_value (entry "self" null_value (entry "n" (integer_value (pos 7)) no_entries))

from_v8_value-looping : from_v8_value converter looping (object 0) ≡ some looped
unfolding from_v8_value from_v8_value_impl from_v8_object update_and_check_uniqueness
    convert_properties
from_v8_value-looping = refl

from_v8_value-depth_example : depth looped ≤ 21
from_v8_value-depth_example =
    from_v8_value-depth converter looping (object 0) looped from_v8_value-looping

looping-IsClosed : IsClosed 1 looping
looping-IsClosed = record { kinds = λ o h. record {}; properties = λ o h. omega arith }

from_v8_value-containers_example : containers looped ≤ 1
from_v8_value-containers_example =
    from_v8_value-containers converter looping 1 (object 0) looped looping-IsClosed (omega arith)
      from_v8_value-looping

abbrev sent : Value ℤ
sent = list_value (
    item (integer_value (pos 1)) (
      item
        (dictionary_value
          (entry "a" (string_value "x") (entry "b" (double_value (negsuc 4)) no_entries)))
        (item binary_value no_items)))

abbrev store : Store ℤ
store = record { heap = looping; next = 1 }

sent-HasNoProto : HasNoProto sent
unfolding HasNoProto
sent-HasNoProto =
    (record {}, ((refl, record {}, (refl, record {}, record {})), (record {}, record {})))

sent-IsSendable : IsSendable sent
unfolding IsSendable
sent-IsSendable =
    (omega arith, ((refl, record {}, (refl, record {}, record {})), (record {}, record {})))

sent-depth : depth sent ≤ 20
unfolding depth
sent-depth = omega arith

from_v8_value-to_v8_value_example :
    from_v8_value converter
      (to_v8_value_impl (λ n. n) sent store).1.heap
      (to_v8_value_impl (λ n. n) sent store).0
    ≡ some (
        list_value (
          item (integer_value (pos 1)) (
            item
              (dictionary_value
                (entry "a" (string_value "x") (entry "b" (integer_value (negsuc 4)) no_entries)))
              (item null_value no_items))))
unfolding normalized
from_v8_value-to_v8_value_example =
    from_v8_value-to_v8_value converter (λ n. n) sent store refl (λ n h. refl) sent-HasNoProto
      sent-IsSendable sent-depth
