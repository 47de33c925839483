-- ===== src/Binding.antt =====
-- src/binding.rs: a JSON value as an SQL fragment with at most one typed parameter.
pub mod Numbers
pub mod Arrays
pub mod Strings
pub mod Keys
pub mod Placeholders
pub mod Vectors
use tabularis_postgresql_plu.Base.Integers.{ℤ}
use tabularis_postgresql_plu.Base.Decimal.{to_decimal}
use tabularis_postgresql_plu.Json.{Value, Number}
use tabularis_postgresql_plu.Base.{
  ℕ, Bool, List, [], ◌∷◌, ◌++◌, Option, none, some, Text, codes, map, to_uppercase, trim,
  if◌then◌else◌, ◌==◌,
}

-- A parameter with the type its placeholder is pinned to. A float is its 64 bits; a decimal and a UUID
-- are their text; hstore has the OID of this database.
pub data TypedPgParam : Type 0 where
  int8_param : ℤ → TypedPgParam
  float8_param : ℕ → TypedPgParam
  numeric_param text_param uuid_param : Text → TypedPgParam
  bool_param : Bool → TypedPgParam
  bytea_param : List ℕ → TypedPgParam
  json_param jsonb_param : Value → TypedPgParam
  hstore_param : ℕ → List (Text × Option Text) → TypedPgParam

pub record BoundValue : Type 0 where
  pub sql : Text
  pub param : Option TypedPgParam

pub record BindOptions : Type 0 where
  pub column_type : Option Text
  pub enum_type : Option Text
  pub allow_default : Bool
  pub hstore_oid : Option ℕ

-- What src/binding.rs uses of other crates.
pub record Crates : Type 0 where
  -- serde_json: `from_str`, `as_f64` and the printing of a number.
  pub json_from_str : Text → Option Value
  pub as_f64 : Number → Option ℕ
  pub number_text : Number → Text
  -- `parse` of f64, of rust_decimal's Decimal and of Uuid.
  pub parse_f64 : Text → Option ℕ
  pub parse_decimal : Text → Option Text
  pub parse_uuid : Text → Option Text
  -- base64's standard engine.
  pub base64_decode : Text → Option (List ℕ)
  -- Unicode's case mappings, and `{:?}`.
  pub uppercase_table : ℕ → Text
  pub to_lowercase : Text → Text
  pub debug_value : Value → Text
  pub debug_text : Text → Text

-- `${}`.
unfoldable pub placeholder : ℕ → Text
unfolding to_decimal
placeholder idx = b'$' ∷ to_decimal idx

-- A placeholder within a cast.
unfoldable pub cast_to : Text → ℕ → Text
unfolding placeholder
cast_to target idx = codes "CAST(" ++ (placeholder idx ++ (codes " AS " ++ (target ++ codes ")")))

unfoldable pub bound : Text → TypedPgParam → BoundValue
bound sql p = record { sql = sql; param = some p }

unfoldable pub unbound : Text → BoundValue
unbound sql = record { sql = sql; param = none }

-- What stands in front of the first parenthesis.
unfoldable pub before_paren : Text → Text
before_paren [] = []
before_paren (c ∷ s) = if c == b'(' then [] else c ∷ before_paren s

unfoldable pub extract_base_type : Crates → Text → Text
unfolding before_paren trim to_uppercase
extract_base_type crates column_type =
    to_uppercase (λ c. crates.uppercase_table c) (trim (before_paren column_type))
