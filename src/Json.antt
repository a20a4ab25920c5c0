-- ===== src/Json.antt =====
-- `serde_json::Value`, by what the gateway reads and writes of it. An object is its members, each
-- name once; the order of the members is not modelled.
use chenni_x_api.Prelude.Int.{ℤ, pos, negsuc}
use chenni_x_api.Prelude.Tests.{ltb, if◌then◌else◌}
use chenni_x_api.Prelude.{ℕ, String, str_eq, Bool, Option, none, some}

-- `integer` is a number that fits a `u64`, `negative n` is -(n + 1) where it fits an `i64`, and
-- `other_number` is the text of any other number.
mutual
  pub data Json : Type 0 where
    null : Json
    bool : Bool → Json
    integer : ℕ → Json
    negative : ℕ → Json
    other_number : String → Json
    string : String → Json
    array : Items → Json
    object : Members → Json

  pub data Items : Type 0 where
    no_items : Items
    item : Json → Items → Items

  pub data Members : Type 0 where
    no_members : Members
    member : String → Json → Members → Members

unfoldable pub find_member : String → Members → Option Json
find_member k no_members = none
find_member k (member j v ms) = if str_eq j k then some v else find_member k ms

-- `Value::get` with a name.
unfoldable pub get_field : String → Json → Option Json
unfolding find_member
get_field k (object ms) = find_member k ms
get_field _ _ = none

unfoldable pub as_u64 : Json → Option ℕ
as_u64 (integer n) = some n
as_u64 _ = none

unfoldable pub as_str : Json → Option String
as_str (string s) = some s
as_str _ = none

-- `and_then(|v| v.get(name))`.
unfoldable pub field_of : String → Option Json → Option Json
unfolding get_field
field_of name none = none
field_of name (some v) = get_field name v

-- `and_then(|v| v.as_str())`.
unfoldable pub text_of : Option Json → Option String
unfolding as_str
text_of none = none
text_of (some v) = as_str v

-- `as_i64`.
unfoldable pub as_i64 : Json → Option ℤ
as_i64 (integer n) = if ltb n 9_223_372_036_854_775_808 then some (pos n) else none
as_i64 (negative n) = some (negsuc n)
as_i64 _ = none

unfoldable pub put_member : String → Json → Members → Members
put_member k v no_members = member k v no_members
put_member k v (member j w ms) =
    if str_eq j k then member k v ms else member j w (put_member k v ms)

-- `and_then(|u| u.get(name)).and_then(|t| t.as_u64()).unwrap_or(0)`
unfoldable pub count_at : String → Option Json → ℕ
unfolding get_field as_u64
count_at name none = 0
count_at name (some u) = elim (get_field name u) [
  | none ↦ 0
  | some t ↦ elim (as_u64 t) [ none ↦ 0 | some n ↦ n ]
]
