-- ===== src/Core/Equality.antt =====
-- packages/core/src/fold.ts: `jsonEquals`. The first test, `left === right`, only shortens the
-- comparison of two arrays or objects, since equal references have equal contents.
use looms.Prelude.{ℕ, suc, none, some, Bool, true, false, ◌==◌, eqb, ◌&&◌}
use looms.Core.Json.{
  Json, null, bool, num, str, arr, obj, Items, nil, cons, Fields, end, field, field_of,
}

abbrev pub same_bool : Bool → Bool → Bool
same_bool true b = b
same_bool false true = false
same_bool false false = true

-- `Object.keys(fs).length`
abbrev pub count_fields : Fields → ℕ
count_fields end = 0
count_fields (field k v fs) = suc (count_fields fs)

unfoldable mutual
  unfolding field_of

  pub json_equals : Json → Json → Bool
  json_equals null null = true
  json_equals (bool a) (bool b) = same_bool a b
  json_equals (num a) (num b) = eqb a b
  json_equals (str a) (str b) = a == b
  json_equals (arr xs) (arr ys) = equal_items xs ys
  json_equals (obj fs) (obj gs) = eqb (count_fields fs) (count_fields gs) && equal_fields fs gs
  json_equals _ _ = false

  pub equal_items : Items → Items → Bool
  equal_items nil nil = true
  equal_items (cons x xs) (cons y ys) = json_equals x y && equal_items xs ys
  equal_items _ _ = false

  pub equal_fields : Fields → Fields → Bool
  equal_fields end gs = true
  equal_fields (field k v fs) gs =
      elim (field_of k gs) [ none ↦ false | some w ↦ json_equals v w ] && equal_fields fs gs
