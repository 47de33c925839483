-- ===== src/Extract/Library.antt =====
-- What src/extract.rs, src/utils/values.rs and src/utils/blob.rs use of other crates: floats by the
-- bits of their encoding, and decoders whose results the program only prints.
use tabularis_postgresql_plu.Base.{ℕ, Bool, List, Option, Text}
use tabularis_postgresql_plu.Json.{Value}
use tabularis_postgresql_plu.Base.Integers.{ℤ}
use tabularis_postgresql_plu.Extract.Types.{PgType}
use tabularis_postgresql_plu.Extract.Bytes.{Bytes}

pub record Library : Type 0 where
  -- postgres-types: the decoders of the fixed-size types; a float by its bits.
  pub bool_from_sql : Bytes → Option Bool
  pub int2_from_sql : Bytes → Option ℤ
  pub int4_from_sql : Bytes → Option ℤ
  pub int8_from_sql : Bytes → Option ℤ
  pub oid_from_sql : Bytes → Option ℕ
  pub float4_from_sql : Bytes → Option ℕ
  pub float8_from_sql : Bytes → Option ℕ
  -- `String::accepts`, and the elements of a one-dimensional array as `Vec<Option<T>>` decodes it.
  pub accepts_text : PgType → Bool
  pub array_elements : Bytes → Option (List (Option Bytes))
  -- `String::from_utf8`.
  pub utf8 : Bytes → Option Text
  -- serde_json: `to_string`, and the decoder of JSON and JSONB.
  pub json_to_text : Value → Text
  pub json_from_sql : Bytes → Option Value
  -- `JsonValue::from(Option<f64>)` of a number, where one that is not finite is null.
  pub json_from_f64 : ℕ → Value
  -- Floats: `Display`, `parse`, `as f32`, `f64::from` and `==`.
  pub show_f32 : ℕ → Text
  pub show_f64 : ℕ → Text
  pub parse_f64 : Text → Option ℕ
  pub f32_of_f64 : ℕ → ℕ
  pub f64_of_f32 : ℕ → ℕ
  pub f32_eq : ℕ → ℕ → Bool
  -- `sign * 2f32.powi(..)` of a half-precision number, by its bits.
  pub f32_of_f16 : ℕ → ℕ
  -- rust_decimal, chrono and uuid: the printed value of a valid encoding.
  pub numeric_text : Bytes → Option Text
  pub date_text : Bytes → Option Text
  pub time_text : Bytes → Option Text
  pub timestamp_text : Bytes → Option Text
  pub timestamptz_text : Bytes → Option Text
  pub uuid_text : Bytes → Option Text
  -- `HashMap::<String, Option<String>>::from_sql` as a JSON object.
  pub hstore_value : Bytes → Option Value
  -- `IpAddr`'s `Display` of four or sixteen octets.
  pub ip_text : Bytes → Text
  -- `infer::get` and base64's standard engine.
  pub infer_mime : Bytes → Option Text
  pub base64_encode : Bytes → Text
