-- ===== src/Core/Json.antt =====
-- packages/core/src/types.ts: JSON values, and the readers of fold.ts over them.
-- Numbers are the natural ones: attempts, sequence numbers and epoch milliseconds.
use looms.Prelude.{ℕ, String, Option, none, some, Bool, ◌==◌, if◌then◌else◌}

mutual
  pub data Json : Type 0 where
    null : Json
    bool : Bool → Json
    num : ℕ → Json
    str : String → Json
    arr : Items → Json
    obj : Fields → Json

  pub data Items : Type 0 where
    nil : Items
    cons : Json → Items → Items

  pub data Fields : Type 0 where
    end : Fields
    field : String → Json → Fields → Fields

-- `obj[key]`; none is `undefined`.
unfoldable pub field_of : String → Fields → Option Json
field_of key end = none
field_of key (field k v fs) = if k == key then some v else field_of key fs

abbrev pub as_string : Option Json → Option String
as_string (some (str s)) = some s
as_string _ = none

abbrev pub as_number : Option Json → Option ℕ
as_number (some (num n)) = some n
as_number _ = none

-- `value ?? null`
abbrev pub or_null : Option Json → Json
or_null none = null
or_null (some v) = v

-- `value ?? null`, where the result is `JsonValue | null` and a stored null is none.
abbrev pub non_null : Option Json → Option Json
non_null (some null) = none
non_null o = o

-- `payloadObject`: anything but an object reads as `{}`.
abbrev pub payload_object : Json → Fields
payload_object (obj fs) = fs
payload_object _ = end

unfoldable pub read_string : Fields → String → Option String
unfolding field_of
read_string fs key = as_string (field_of key fs)

abbrev pub count_items : Items → ℕ
count_items nil = 0
count_items (cons v vs) = count_items vs

-- `Predicate.isObject(value) ? value : undefined`
abbrev pub as_object : Option Json → Option Fields
as_object (some (obj fs)) = some fs
as_object _ = none
