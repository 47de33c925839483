-- ===== src/Binding/Numbers.antt =====
-- src/binding.rs, values for numeric and temporal columns: `bind_pg_number`, `bind_pg_numeric_string`,
-- `bind_pg_temporal_string`, `parse_unsafe_bigint_string`.
use tabularis_postgresql_plu.Binding.{
  Crates, BoundValue, int8_param, float8_param, numeric_param, text_param, cast_to, bound,
}
use tabularis_postgresql_plu.Extract.Numbers.{js_max_safe_integer}
use tabularis_postgresql_plu.Query.Server.{Result, ok, err}
use tabularis_postgresql_plu.Json.{Number, pos_int, neg_int, float}
use tabularis_postgresql_plu.Base.Integers.{ℤ, pos, negsuc, magnitude, sub_ℕ}
use tabularis_postgresql_plu.Base.Decimal.{scan_digits, parse_unsigned}
use tabularis_postgresql_plu.Base.{
  ℕ, ◌-◌, ◌^◌, List, [], ◌∷◌, ◌++◌, Option, none, some, ◌>>=◌, Text, codes, one_of, ltb, leb, ◌==◌,
  if◌then◌else◌,
}

unfoldable pub as_i64 : Number → Option ℤ
as_i64 (pos_int n) = if ltb n (2 ^ 63) then some (pos n) else none
as_i64 (neg_int n) = some (negsuc n)
as_i64 (float x) = none

unfoldable pub signed_digits : Text → Option ℤ
unfolding scan_digits
signed_digits [] = none
signed_digits (c ∷ s) = do n ← scan_digits (2 ^ 63) (c ∷ s) 0; some (sub_ℕ 0 n)

unfoldable pub unsigned_as_ℤ : Option ℕ → Option ℤ
unsigned_as_ℤ (some n) = some (pos n)
unsigned_as_ℤ none = none

-- `parse::<i64>`.
unfoldable pub parse_i64 : Text → Option ℤ
unfolding signed_digits parse_unsigned unsigned_as_ℤ
parse_i64 [] = none
parse_i64 (c ∷ s) =
    if c == b'-' then signed_digits s else unsigned_as_ℤ (parse_unsigned (2 ^ 63 - 1) (c ∷ s))

-- An integer that JavaScript does not hold exactly.
unfoldable pub parse_unsafe_bigint_string : Text → Option ℤ
unfolding parse_i64
parse_unsafe_bigint_string s = do
  parsed ← parse_i64 s
  if leb (magnitude parsed) js_max_safe_integer then none else some parsed

unfoldable pub cannot_bind : Text → Text → Text → Text
cannot_bind s kind base_type =
    codes "Cannot bind '"
    ++ (s ++ (codes "' as " ++ (kind ++ (codes " for target type " ++ base_type))))

unfoldable pub bind_bigint : ℕ → ℤ → BoundValue
unfolding cast_to bound
bind_bigint idx i = bound (cast_to (codes "bigint") idx) (int8_param i)

unfoldable pub bind_double : ℕ → ℕ → BoundValue
unfolding cast_to bound
bind_double idx f = bound (cast_to (codes "double precision") idx) (float8_param f)

unfoldable pub bind_decimal : ℕ → Text → BoundValue
unfolding cast_to bound
bind_decimal idx d = bound (cast_to (codes "numeric") idx) (numeric_param d)

-- `map_or_else` of a parse.
unfoldable pub parsed_or {ℓ} :
    {A : Type ℓ} → Text → (A → BoundValue) → Option A → Result Text BoundValue
parsed_or message f (some a) = ok (f a)
parsed_or message f none = err message

abbrev pub integer_types : List Text
integer_types =
    codes "SMALLINT"
    ∷ codes "INTEGER"
    ∷ codes "BIGINT"
    ∷ codes "INT2"
    ∷ codes "INT4"
    ∷ codes "INT8"
    ∷ codes "SERIAL"
    ∷ codes "BIGSERIAL"
    ∷ []

abbrev pub float_types : List Text
float_types = codes "REAL" ∷ codes "DOUBLE PRECISION" ∷ codes "FLOAT4" ∷ codes "FLOAT8" ∷ []

unfoldable pub temporal_target : Text → Option Text
unfolding one_of
temporal_target t =
    if one_of t (codes "TIMESTAMP" ∷ codes "TIMESTAMP WITHOUT TIME ZONE" ∷ [])
    then some (codes "timestamp")
    else if one_of t (codes "TIMESTAMPTZ" ∷ codes "TIMESTAMP WITH TIME ZONE" ∷ [])
    then some (codes "timestamptz")
    else if one_of t (codes "DATE" ∷ [])
    then some (codes "date")
    else if one_of t (codes "TIME" ∷ codes "TIME WITHOUT TIME ZONE" ∷ [])
    then some (codes "time")
    else if one_of t (codes "TIMETZ" ∷ codes "TIME WITH TIME ZONE" ∷ [])
    then some (codes "timetz")
    else if one_of t (codes "INTERVAL" ∷ [])
    then some (codes "interval")
    else none

unfoldable pub bind_pg_temporal_string : Text → Text → ℕ → Option (Result Text BoundValue)
unfolding temporal_target cast_to bound
bind_pg_temporal_string s base_type idx = do
  cast_target ← temporal_target base_type
  some (ok (bound (cast_to cast_target idx) (text_param s)))

module _ (crates : Crates) where
  unfoldable pub bind_pg_numeric_string : Text → Text → ℕ → Option (Result Text BoundValue)
  unfolding one_of parse_i64 parsed_or cannot_bind bind_bigint bind_double bind_decimal
  bind_pg_numeric_string s base_type idx =
      if one_of base_type integer_types
      then some
          (parsed_or (cannot_bind s (codes "integer") base_type) (bind_bigint idx) (parse_i64 s))
      else if one_of base_type (codes "NUMERIC" ∷ codes "DECIMAL" ∷ [])
      then some (
          parsed_or (cannot_bind s (codes "numeric") base_type) (bind_decimal idx)
            (crates.parse_decimal s))
      else if one_of base_type float_types
      then some (
          parsed_or (cannot_bind s (codes "float") base_type) (bind_double idx)
            (crates.parse_f64 s))
      else none

  unfoldable pub float_or_error : Text → ℕ → Option ℕ → Result Text BoundValue
  unfolding bind_double
  float_or_error message idx (some f) = ok (bind_double idx f)
  float_or_error message idx none = err message

  unfoldable pub integer_or_float : Text → ℕ → Number → Option ℤ → Result Text BoundValue
  unfolding bind_bigint float_or_error
  integer_or_float message idx n (some i) = ok (bind_bigint idx i)
  integer_or_float message idx n none = float_or_error message idx (crates.as_f64 n)

  -- `bind_pg_number`, and the same cascade in `bind_pk_value`.
  unfoldable pub bind_pg_number : Text → Number → ℕ → Result Text BoundValue
  unfolding integer_or_float as_i64
  bind_pg_number message n idx = integer_or_float message idx n (as_i64 n)
