-- ===== src/Gate/X402.antt =====
-- lib/x402/x402.go: the offered entries of a challenge and their equality as JSON values. A number
-- is the text of its value. The JSON decoder is a parameter, with `none` for an error.
use dcr.Prelude.{ℕ, suc, Bool, true, false, ◌&&◌, ◌||◌, [], Option, none, some, ◌==◌, if◌then◌else◌}
use dcr.Prelude.Int64.{ℤ, leb_ℤ}
use dcr.Prelude.Bytes.{Bytes, str_eq}

mutual
  pub data Json : Type 0 where
    null : Json
    boolean : Bool → Json
    number text : Bytes → Json
    array : Items → Json
    object : Fields → Json

  pub data Items : Type 0 where
    no_items : Items
    item : Json → Items → Items

  pub data Fields : Type 0 where
    no_fields : Fields
    field : Bytes → Json → Fields → Fields

abbrev pub count_items : Items → ℕ
count_items no_items = 0
count_items (item v vs) = suc (count_items vs)

abbrev pub count_fields : Fields → ℕ
count_fields no_fields = 0
count_fields (field k v fs) = suc (count_fields fs)

abbrev pub field_of : Bytes → Fields → Option Json
field_of k no_fields = none
field_of k (field j v fs) = if str_eq j k then some v else field_of k fs

abbrev pub bool_eq : Bool → Bool → Bool
bool_eq true b = b
bool_eq false true = false
bool_eq false false = true

-- `deepEqualJSON`: an object against an object of as many keys, field by field, and a list against
-- a list as long, item by item.
unfoldable mutual
  pub deep_equal : Json → Json → Bool
  deep_equal null null = true
  deep_equal (boolean a) (boolean b) = bool_eq a b
  deep_equal (number a) (number b) = str_eq a b
  deep_equal (text a) (text b) = str_eq a b
  deep_equal (array vs) (array ws) = (count_items vs == count_items ws) && equal_items vs ws
  deep_equal (object fs) (object gs) = (count_fields fs == count_fields gs) && equal_fields fs gs
  deep_equal _ _ = false

  pub equal_items : Items → Items → Bool
  equal_items no_items ws = true
  equal_items (item v vs) no_items = false
  equal_items (item v vs) (item w ws) = deep_equal v w && equal_items vs ws

  pub equal_fields : Fields → Fields → Bool
  equal_fields no_fields gs = true
  equal_fields (field k v fs) gs = elim (field_of k gs) [
    | none ↦ false
    | some w ↦ deep_equal v w && equal_fields fs gs
  ]

-- `PaymentRequirements`; `extra` is the raw JSON text.
pub record Requirements : Type 0 where
  pub scheme : Bytes
  pub network : Bytes
  pub amount : Bytes
  pub asset : Bytes
  pub pay_to : Bytes
  pub max_timeout_seconds : ℤ
  pub extra : Bytes

abbrev pub int_eq : ℤ → ℤ → Bool
int_eq a b = leb_ℤ a b && leb_ℤ b a

abbrev pub both_decoded : Option Json → Option Json → Bool
both_decoded (some a) (some b) = deep_equal a b
both_decoded _ _ = false

unfoldable pub json_value_equal : (Bytes → Option Json) → Bytes → Bytes → Bool
unfolding deep_equal
json_value_equal parse_json a b =
    if str_eq a [] || str_eq b []
    then str_eq a [] && str_eq b []
    else both_decoded (parse_json a) (parse_json b)

unfoldable pub equal_semantic : (Bytes → Option Json) → Requirements → Requirements → Bool
unfolding json_value_equal
equal_semantic parse_json a b =
    str_eq a.scheme b.scheme
    && str_eq a.network b.network
    && str_eq a.amount b.amount
    && str_eq a.asset b.asset
    && str_eq a.pay_to b.pay_to
    && int_eq a.max_timeout_seconds b.max_timeout_seconds
    && json_value_equal parse_json a.extra b.extra
