-- ===== src/Binding/Strings.antt =====
-- src/binding.rs: `bind_pg_string`, the cascade for a text, and `bind_pg_value`.
use tabularis_postgresql_plu.Binding.{
  Crates, BoundValue, BindOptions, bool_param, bytea_param, text_param, json_param, jsonb_param,
  placeholder, cast_to, bound, unbound, extract_base_type,
}
use tabularis_postgresql_plu.Binding.Numbers.{
  bind_pg_number, bind_pg_numeric_string, bind_pg_temporal_string,
}
use tabularis_postgresql_plu.Binding.Vectors.{bind_pg_vector_string}
use tabularis_postgresql_plu.Binding.Arrays.{bind_array, bind_pg_hstore}
use tabularis_postgresql_plu.Blob.{decode_blob_wire_format}
use tabularis_postgresql_plu.Query.Server.{Result, ok, err}
use tabularis_postgresql_plu.Json.{Value, null, bool, number, string, array, object}
use tabularis_postgresql_plu.Base.{
  ℕ, Bool, true, false, ◌&&◌, ◌||◌, not, List, [], ◌∷◌, ◌++◌, Option, none, some, ◌>>=◌, Text,
  codes, text_eq, one_of, trim, to_uppercase, starts_with, contains_text, reverse, if◌then◌else◌,
}

abbrev pub use_default_sentinel : Text
use_default_sentinel = codes "__USE_DEFAULT__"

-- A function's name at the front of a text, up to the parenthesis.
unfoldable pub any_starts : Text → List Text → Bool
unfolding starts_with
any_starts s [] = false
any_starts s (p ∷ ps) = starts_with s p || any_starts s ps

unfoldable pub ends_with : Text → Text → Bool
unfolding starts_with
ends_with s p = starts_with (reverse s) (reverse p)

abbrev pub wkt_prefixes : List Text
wkt_prefixes =
    codes "POINT("
    ∷ codes "LINESTRING("
    ∷ codes "POLYGON("
    ∷ codes "MULTIPOINT("
    ∷ codes "MULTILINESTRING("
    ∷ codes "MULTIPOLYGON("
    ∷ codes "GEOMETRYCOLLECTION("
    ∷ codes "GEOMETRY("
    ∷ []

abbrev pub function_prefixes : List Text
function_prefixes =
    codes "GEOMFROMTEXT("
    ∷ codes "GEOMFROMWKB("
    ∷ codes "POINTFROMTEXT("
    ∷ codes "POINTFROMWKB("
    ∷ []

-- The test of a step of the cascade that reads a boolean.
unfoldable pub boolean_word : Text → Option Bool
unfolding one_of
boolean_word w =
    if one_of w (codes "true" ∷ codes "t" ∷ codes "yes" ∷ codes "y" ∷ codes "on" ∷ codes "1" ∷ [])
    then some true
    else if one_of w
        (codes "false" ∷ codes "f" ∷ codes "no" ∷ codes "n" ∷ codes "off" ∷ codes "0" ∷ [])
    then some false
    else none

unfoldable pub bind_boolean : Text → ℕ → Option Bool → Result Text BoundValue
unfolding bound placeholder
bind_boolean s idx (some b) = ok (bound (placeholder idx) (bool_param b))
bind_boolean s idx none =
    err (codes "Cannot bind '" ++ (s ++ codes "' as boolean for target type BOOLEAN"))

unfoldable pub bind_pg_enum_string : Text → Text → ℕ → BoundValue
unfolding bound cast_to
bind_pg_enum_string s qualified_enum idx = bound (cast_to qualified_enum idx) (text_param s)

-- A step of the cascade that may end it, and what follows it.
unfoldable pub or_else {ℓ} : {A : Type ℓ} → Option A → A → A
or_else (some a) b = a
or_else none b = b

module _ (crates : Crates) where
  unfoldable pub is_raw_sql_function : Text → Bool
  unfolding trim to_uppercase starts_with contains_text any_starts
  is_raw_sql_function s =
      let trimmed = to_uppercase (λ c. crates.uppercase_table c) (trim s) in
      if starts_with trimmed (codes "ST_")
      then contains_text trimmed (codes "(")
      else any_starts trimmed function_prefixes

  unfoldable pub is_wkt_geometry : Text → Bool
  unfolding trim to_uppercase any_starts
  is_wkt_geometry s =
      any_starts (to_uppercase (λ c. crates.uppercase_table c) (trim s)) wkt_prefixes

  unfoldable pub literal_of_json : Option Value → Option (Result Text BoundValue)
  unfolding bind_array
  literal_of_json (some (array items)) = some (bind_array crates items)
  literal_of_json v = none

  -- Steps 8 to 12, by the text alone.
  unfoldable pub bind_by_shape : Text → ℕ → Result Text BoundValue
  unfolding is_raw_sql_function is_wkt_geometry trim starts_with ends_with literal_of_json or_else
      bound unbound placeholder cast_to
  bind_by_shape s idx =
      if is_raw_sql_function s
      then ok (unbound s)
      else if is_wkt_geometry s
      then ok (bound (codes "ST_GeomFromText(" ++ (placeholder idx ++ codes ")")) (text_param s))
      else or_else
          (do
            u ← crates.parse_uuid s
            some (ok (bound (cast_to (codes "uuid") idx) (text_param s))))
          (or_else
            (if starts_with (trim s) (codes "[") && ends_with (trim s) (codes "]")
              then literal_of_json (crates.json_from_str (trim s))
              else none)
            (ok (bound (placeholder idx) (text_param s))))

  -- Steps 5 to 12.
  unfoldable pub bind_by_type : Text → ℕ → Option Text → Result Text BoundValue
  unfolding bind_by_shape or_else bind_pg_numeric_string bind_pg_temporal_string bind_boolean
      boolean_word trim one_of
  bind_by_type s idx none = bind_by_shape s idx
  bind_by_type s idx (some base_type) =
      if one_of base_type (codes "BOOLEAN" ∷ codes "BOOL" ∷ [])
      then bind_boolean s idx (boolean_word (crates.to_lowercase (trim s)))
      else or_else (bind_pg_numeric_string crates s base_type idx)
          (or_else (bind_pg_temporal_string s base_type idx) (bind_by_shape s idx))

  unfoldable pub bind_pg_string : Text → ℕ → BindOptions → Option Text → Result Text BoundValue
  unfolding text_eq bind_by_type or_else bind_pg_vector_string decode_blob_wire_format
      bind_pg_enum_string bound unbound placeholder
  bind_pg_string s idx options base_type =
      if options.allow_default && text_eq s use_default_sentinel
      then ok (unbound (codes "DEFAULT"))
      else or_else (do bt ← base_type; bind_pg_vector_string s bt)
          (or_else
            (do
              bytes ← decode_blob_wire_format (λ t. crates.base64_decode t) s
              some (ok (bound (placeholder idx) (bytea_param bytes))))
            (or_else (do e ← options.enum_type; some (ok (bind_pg_enum_string s e idx)))
              (bind_by_type s idx base_type)))

  unfoldable pub bind_plain : Value → ℕ → BindOptions → Option Text → Result Text BoundValue
  unfolding bind_pg_number bind_pg_string bind_array bound unbound placeholder
  bind_plain (number n) idx options base_type =
      bind_pg_number crates (codes "Unsupported numeric value") n idx
  bind_plain (string s) idx options base_type = bind_pg_string s idx options base_type
  bind_plain (bool b) idx options base_type = ok (bound (placeholder idx) (bool_param b))
  bind_plain null idx options base_type = ok (unbound (codes "NULL"))
  bind_plain (array items) idx options base_type = bind_array crates items
  bind_plain (object fs) idx options base_type =
      err (codes "Cannot bind a JSON object to a non-JSON column")

  unfoldable pub is_text_or_null : Value → Bool
  is_text_or_null (string s) = true
  is_text_or_null null = true
  is_text_or_null v = false

  unfoldable pub is_type : Text → Option Text → Bool
  unfolding text_eq
  is_type t (some u) = text_eq u t
  is_type t none = false

  unfoldable pub base_type_of : BindOptions → Option Text
  unfolding extract_base_type
  base_type_of options = do t ← options.column_type; some (extract_base_type crates t)

  unfoldable pub bind_pg_value : Value → ℕ → BindOptions → Result Text BoundValue
  unfolding bind_plain bind_pg_hstore is_text_or_null is_type base_type_of bound placeholder
  bind_pg_value value idx options =
      if is_type (codes "hstore") (options.column_type)
      then bind_pg_hstore crates value idx (options.hstore_oid)
      else if is_type (codes "JSONB") (base_type_of options) && not (is_text_or_null value)
      then ok (bound (placeholder idx) (jsonb_param value))
      else if is_type (codes "JSON") (base_type_of options) && not (is_text_or_null value)
      then ok (bound (placeholder idx) (json_param value))
      else bind_plain value idx options (base_type_of options)
