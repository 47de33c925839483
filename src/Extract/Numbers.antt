-- ===== src/Extract/Numbers.antt =====
-- src/extract.rs: integers that JavaScript reads without loss, and the types that are numbers on the
-- wire. `abs` wraps at the least integer, as in a release build.
use tabularis_postgresql_plu.Extract.Bytes.{Bytes, take_u16, take_u32}
use tabularis_postgresql_plu.Extract.Library.{Library}
use tabularis_postgresql_plu.Json.{pos_int, neg_int, Value, number, string}
use tabularis_postgresql_plu.Base.Integers.{ℤ, pos, negsuc, show_ℤ, low_bits}
use tabularis_postgresql_plu.Base.Decimal.{to_decimal}
use tabularis_postgresql_plu.Base.{
  ℕ, suc, ◌-◌, ◌^◌, ◌≢◌, ◌≤◌, Bool, true, ◌++◌, Option, none, some, ◌>>=◌, codes, ◌==◌, leb,
  Bool-cases, inl, inr, if◌then◌else◌, length, arith,
}

abbrev pub js_max_safe_integer : ℕ
js_max_safe_integer = 2 ^ 53 - 1

-- `JsonValue::from` of an i64.
abbrev pub json_of_ℤ : ℤ → Value
json_of_ℤ (pos n) = number (pos_int n)
json_of_ℤ (negsuc n) = number (neg_int n)

unfoldable pub abs_i64 : ℤ → ℤ
abs_i64 (pos n) = pos n
abs_i64 (negsuc n) = if suc n == 2 ^ 63 then negsuc n else pos (suc n)

unfoldable pub is_safe : ℤ → Bool
is_safe (pos n) = leb n js_max_safe_integer
is_safe (negsuc n) = true

unfoldable pub i64_to_json : ℤ → Value
unfolding abs_i64 is_safe show_ℤ
i64_to_json v = if is_safe (abs_i64 v) then json_of_ℤ v else string (show_ℤ v)

unfoldable pub u64_to_json : ℕ → Value
unfolding to_decimal
u64_to_json v = if leb v js_max_safe_integer then number (pos_int v) else string (to_decimal v)

unfoldable pub show_tid : Option (ℕ × Bytes) → Option Value
unfolding take_u16 to_decimal
show_tid (some (block_num, s)) = elim (take_u16 s) [
  | some r ↦ some (
      string
        (codes "(" ++ (to_decimal block_num ++ (codes ", " ++ (to_decimal (r.0) ++ codes ")")))))
  | none ↦ none
]
show_tid none = none

unfoldable pub tid : Bytes → Option Value
unfolding show_tid take_u32
tid raw = if length raw == 6 then show_tid (take_u32 raw) else none

module _ (lib : Library) where
  unfoldable pub money : Bytes → Option Value
  unfolding i64_to_json
  money raw = do n ← lib.int8_from_sql raw; some (i64_to_json n)

  -- `as u64`.
  unfoldable pub xid8 : Bytes → Option Value
  unfolding u64_to_json
  xid8 raw = do n ← lib.int8_from_sql raw; some (u64_to_json (low_bits (2 ^ 64) n))

-- A number that JavaScript holds exactly, or a text.
abbrev pub IsExact : Value → Type 0
IsExact (number (pos_int n)) = n ≤ js_max_safe_integer
IsExact (number (neg_int n)) = suc n ≤ js_max_safe_integer
IsExact _ = Unit {0}

-- Every integer of 64 bits but the least one arrives exactly: as a number within JavaScript's safe range
-- or as its digits. For the least one `abs` overflows.
pub i64_to_json-IsExact : (v : ℤ) → v ≢ negsuc (2 ^ 63 - 1) → IsExact (i64_to_json v)
unfolding i64_to_json abs_i64 is_safe
i64_to_json-IsExact (pos n) h = ground arith
i64_to_json-IsExact (negsuc n) h = elim (Bool-cases (suc n == 2 ^ 63)) [
  | inl e ↦ absurd (h (ground arith))
  | inr e ↦ rw e (ground arith)
]
