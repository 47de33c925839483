-- ===== src/Json.antt =====
-- serde_json's `Value` as the program uses it: the constructors, `get`, `as_str`, `as_u64` and the
-- like. An object is the list of its members in the map's order.
use tabularis_postgresql_plu.Base.{
  arith, ℕ, ◌≡◌, refl, Bool, true, false, Option, none, some, Text, if◌then◌else◌, text_eq, ◌>>=◌,
}

-- `neg_int n` is -(n + 1); a float is the 64 bits of its IEEE encoding.
pub data Number : Type 0 where
  pos_int neg_int float : ℕ → Number

mutual
  pub data Value : Type 0 where
    null : Value
    bool : Bool → Value
    number : Number → Value
    string : Text → Value
    array : Items → Value
    object : Fields → Value

  pub data Items : Type 0 where
    nil : Items
    cons : Value → Items → Items

  pub data Fields : Type 0 where
    end : Fields
    field : Text → Value → Fields → Fields

unfoldable pub get_field : Text → Fields → Option Value
get_field k end = none
get_field k (field j v fs) = if text_eq j k then some v else get_field k fs

-- `Value::get`: nothing but an object has members.
unfoldable pub get : Value → Text → Option Value
unfolding get_field
get (object fs) k = get_field k fs
get _ k = none

unfoldable pub as_str : Value → Option Text
as_str (string s) = some s
as_str _ = none

unfoldable pub as_bool : Value → Option Bool
as_bool (bool b) = some b
as_bool _ = none

unfoldable pub as_u64 : Value → Option ℕ
as_u64 (number (pos_int n)) = some n
as_u64 _ = none

unfoldable pub as_object : Value → Option Fields
as_object (object fs) = some fs
as_object _ = none

unfoldable pub is_object : Value → Bool
is_object (object fs) = true
is_object _ = false

unfoldable pub is_string : Value → Bool
is_string (string s) = true
is_string _ = false

unfoldable pub contains_key : Fields → Text → Bool
contains_key end k = false
contains_key (field j v fs) k = if text_eq j k then true else contains_key fs k

-- `value.get(k).and_then(Value::as_str)`.
unfoldable pub get_str : Value → Text → Option Text
unfolding get as_str
get_str v k = get v k >>= as_str

pub contains_key-get_field :
    (fs : Fields) (k : Text) → contains_key fs k ≡ false → get_field k fs ≡ none
unfolding contains_key get_field
contains_key-get_field end k h = refl
contains_key-get_field (field j v fs) k h = ground (arith, contains_key-get_field fs k)
