-- ===== src/Settings.antt =====
-- src/settings.rs: the size of the connection pools, from the settings of `initialize`.
use tabularis_postgresql_plu.Base.Decimal.{max_u64, to_decimal, parse_unsigned, parse-to_decimal}
use tabularis_postgresql_plu.Json.{pos_int, Value, number, string, get, as_u64, as_str}
use tabularis_postgresql_plu.Base.{
  ℕ, ◌^◌, ◌≤◌, ◌≡◌, ap, Option, none, some, ◌>>=◌, or_else, codes, ltb, if◌then◌else◌, min, arith,
}

abbrev pub default_pool_max_size : ℕ
default_pool_max_size = 10

abbrev pub max_pool_max_size : ℕ
max_pool_max_size = 64

-- `as_i64` of a number that is not negative, as `u64::try_from` takes it.
unfoldable pub as_non_negative : Value → Option ℕ
as_non_negative (number (pos_int n)) = if ltb n (2 ^ 63) then some n else none
as_non_negative _ = none

unfoldable pub read_size : Value → Option ℕ
unfolding as_u64 as_non_negative as_str parse_unsigned
read_size v = or_else (as_u64 v) (or_else (as_non_negative v) (as_str v >>= parse_unsigned max_u64))

-- `.filter(|v| *v > 0).map(|v| v.min(MAX)).unwrap_or(DEFAULT)`, where `usize` is 64 bits wide.
unfoldable pub clamp : Option ℕ → ℕ
clamp none = default_pool_max_size
clamp (some n) = if ltb 0 n then min n max_pool_max_size else default_pool_max_size

unfoldable pub pool_max_size_from_value : Option Value → ℕ
unfolding read_size clamp
pool_max_size_from_value value = clamp (value >>= read_size)

-- The stored size behind `set_pool_max_size`.
unfoldable pub set_pool_max_size : Value → ℕ → ℕ
unfolding pool_max_size_from_value get
set_pool_max_size settings stored = pool_max_size_from_value (get settings (codes "poolMaxSize"))

clamp-bounds : (o : Option ℕ) → (1 ≤ clamp o) × (clamp o ≤ max_pool_max_size)
unfolding clamp
clamp-bounds none = (omega arith, omega arith)
clamp-bounds (some n) = ground arith

-- Whatever the host sends, missing, malformed or out of range, a pool gets between 1 and 64 connections.
pub set_pool_max_size-bounds :
    (settings : Value) (stored : ℕ)
    → (1 ≤ set_pool_max_size settings stored)
      × (set_pool_max_size settings stored ≤ max_pool_max_size)
unfolding set_pool_max_size pool_max_size_from_value
set_pool_max_size-bounds settings stored =
    clamp-bounds (get settings (codes "poolMaxSize") >>= read_size)

-- A size sent as a decimal string means the same as the number, for every number of 64 bits.
pub pool_max_size_from_value-to_decimal :
    (n : ℕ)
    → n ≤ max_u64
    → pool_max_size_from_value (some (string (to_decimal n)))
      ≡ pool_max_size_from_value (some (number (pos_int n)))
unfolding pool_max_size_from_value read_size as_u64 as_non_negative as_str
pool_max_size_from_value-to_decimal n h = ap clamp (parse-to_decimal max_u64 n h)
