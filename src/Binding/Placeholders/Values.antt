-- ===== src/Binding/Placeholders/Values.antt =====
-- src/binding.rs: the placeholders of `bind_pg_value` and the cascades below it.
use tabularis_postgresql_plu.Binding.Placeholders.{
  HasPlaceholder, AllOk, AllSome, placeholder-placed, cast_to-placed, if-placed, if_some-placed,
  or_else-placed, bind_some-placed, and_then-placed, bigint-placed, double-placed, temporal-placed,
  vector-placed, boolean-placed, numeric-placed,
}
use tabularis_postgresql_plu.Binding.{
  Crates, BindOptions, text_param, bytea_param, hstore_param, placeholder, cast_to, bound, unbound,
}
use tabularis_postgresql_plu.Binding.Numbers.{
  as_i64, bind_pg_number, integer_or_float, float_or_error,
}
use tabularis_postgresql_plu.Binding.Vectors.{bind_pg_vector_string}
use tabularis_postgresql_plu.Binding.Arrays.{
  bind_array, json_array_to_pg_literal, hstore_map_from_json_object, bind_hstore_map,
  bind_hstore_text, bind_pg_hstore,
}
use tabularis_postgresql_plu.Binding.Strings.{
  boolean_word, bind_pg_enum_string, is_raw_sql_function, is_wkt_geometry, literal_of_json,
  bind_by_shape, bind_by_type, bind_pg_string, bind_plain, is_text_or_null, is_type, base_type_of,
  bind_pg_value, ends_with, use_default_sentinel,
}
use tabularis_postgresql_plu.Blob.{decode_blob_wire_format}
use tabularis_postgresql_plu.Query.Server.{ok}
use tabularis_postgresql_plu.Json.{
  Value, Number, null, bool, number, string, array, object, Items, Fields,
}
use tabularis_postgresql_plu.Base.Integers.{ℤ}
use tabularis_postgresql_plu.Base.{
  ℕ, refl, ◌&&◌, not, [], ◌∷◌, ◌++◌, Option, none, some, ◌>>=◌, Text, codes, text_eq, one_of, trim,
  starts_with,
}

wkt-placed :
    (idx : ℕ) → HasPlaceholder idx (codes "ST_GeomFromText(" ++ (placeholder idx ++ codes ")"))
wkt-placed idx = (codes "ST_GeomFromText(", codes ")", refl)

module _ (crates : Crates) where
  float_or_error-placed :
      (message : Text) (idx : ℕ) (o : Option ℕ) → AllOk idx (float_or_error crates message idx o)
  unfolding float_or_error
  float_or_error-placed message idx (some f) = double-placed idx f
  float_or_error-placed message idx none = tt

  integer_or_float-placed :
      (message : Text) (idx : ℕ) (n : Number) (o : Option ℤ)
      → AllOk idx (integer_or_float crates message idx n o)
  unfolding integer_or_float
  integer_or_float-placed message idx n (some i) = bigint-placed idx i
  integer_or_float-placed message idx n none = float_or_error-placed message idx (crates.as_f64 n)

  pub number-placed :
      (message : Text) (n : Number) (idx : ℕ) → AllOk idx (bind_pg_number crates message n idx)
  unfolding bind_pg_number
  number-placed message n idx = integer_or_float-placed message idx n (as_i64 n)

  array-placed : (idx : ℕ) (items : Items) → AllOk idx (bind_array crates items)
  unfolding bind_array unbound
  array-placed idx items =
      and_then-placed idx (json_array_to_pg_literal crates items) (λ literal. ok (unbound literal))
        (λ literal. tt)

  json-placed : (idx : ℕ) (o : Option Value) → AllSome idx (literal_of_json crates o)
  unfolding literal_of_json
  json-placed idx (some (array items)) = array-placed idx items
  json-placed idx (some null) = tt
  json-placed idx (some (bool b)) = tt
  json-placed idx (some (number n)) = tt
  json-placed idx (some (string s)) = tt
  json-placed idx (some (object fs)) = tt
  json-placed idx none = tt

  hstore_map-placed :
      (idx : ℕ) (oid : Option ℕ) (fs : Fields) → AllOk idx (bind_hstore_map crates idx oid fs)
  unfolding bind_hstore_map bound
  hstore_map-placed idx none fs = tt
  hstore_map-placed idx (some oid) fs =
      and_then-placed idx (hstore_map_from_json_object crates fs)
        (λ hmap. ok (bound (placeholder idx) (hstore_param oid hmap)))
        (λ hmap. placeholder-placed idx)

  hstore_text-placed :
      (s : Text) (idx : ℕ) (oid : Option ℕ) (o : Option Value)
      → AllOk idx (bind_hstore_text crates s idx oid o)
  unfolding bind_hstore_text
  hstore_text-placed s idx oid (some (object fs)) = hstore_map-placed idx oid fs
  hstore_text-placed s idx oid (some null) = tt
  hstore_text-placed s idx oid (some (bool b)) = tt
  hstore_text-placed s idx oid (some (number n)) = tt
  hstore_text-placed s idx oid (some (string t)) = tt
  hstore_text-placed s idx oid (some (array items)) = tt
  hstore_text-placed s idx oid none = tt

  hstore-placed :
      (v : Value) (idx : ℕ) (oid : Option ℕ) → AllOk idx (bind_pg_hstore crates v idx oid)
  unfolding bind_pg_hstore unbound
  hstore-placed null idx oid = tt
  hstore-placed (object fs) idx oid = hstore_map-placed idx oid fs
  hstore-placed (string s) idx oid = hstore_text-placed s idx oid (crates.json_from_str s)
  hstore-placed (bool b) idx oid = tt
  hstore-placed (number n) idx oid = tt
  hstore-placed (array items) idx oid = tt

  shape-placed : (s : Text) (idx : ℕ) → AllOk idx (bind_by_shape crates s idx)
  unfolding bind_by_shape bound unbound
  shape-placed s idx = if-placed idx (is_raw_sql_function crates s) _ _ tt (
      if-placed idx (is_wkt_geometry crates s) _ _ (wkt-placed idx) (
        or_else-placed idx _ _
          (bind_some-placed idx (λ u. ok (bound (cast_to (codes "uuid") idx) (text_param s)))
            (crates.parse_uuid s) (λ u. cast_to-placed (codes "uuid") idx))
          (or_else-placed idx _ _
            (if_some-placed idx (starts_with (trim s) (codes "[") && ends_with (trim s) (codes "]"))
              _ _ (json-placed idx (crates.json_from_str (trim s))) tt)
            (placeholder-placed idx))))

  type-placed : (s : Text) (idx : ℕ) (o : Option Text) → AllOk idx (bind_by_type crates s idx o)
  unfolding bind_by_type
  type-placed s idx none = shape-placed s idx
  type-placed s idx (some base_type) =
      if-placed idx (one_of base_type (codes "BOOLEAN" ∷ codes "BOOL" ∷ [])) _ _
        (boolean-placed s idx (boolean_word (crates.to_lowercase (trim s))))
        (or_else-placed idx _ _ (numeric-placed crates s base_type idx)
          (or_else-placed idx _ _ (temporal-placed s base_type idx) (shape-placed s idx)))

  vector_step-placed :
      (idx : ℕ) (s : Text) (o : Option Text) → AllSome idx (do bt ← o; bind_pg_vector_string s bt)
  vector_step-placed idx s (some bt) = vector-placed idx s bt
  vector_step-placed idx s none = tt

  string-placed :
      (s : Text) (idx : ℕ) (options : BindOptions) (base_type : Option Text)
      → AllOk idx (bind_pg_string crates s idx options base_type)
  unfolding bind_pg_string bind_pg_enum_string bound unbound
  string-placed s idx options base_type =
      if-placed idx (options.allow_default && text_eq s use_default_sentinel) _ _ tt (
        or_else-placed idx _ _ (vector_step-placed idx s base_type) (
          or_else-placed idx _ _
            (bind_some-placed idx (λ bytes. ok (bound (placeholder idx) (bytea_param bytes)))
              (decode_blob_wire_format (λ t. crates.base64_decode t) s)
              (λ bytes. placeholder-placed idx))
            (or_else-placed idx _ _
              (bind_some-placed idx (λ e. ok (bind_pg_enum_string s e idx)) (options.enum_type)
                (λ e. cast_to-placed e idx))
              (type-placed s idx base_type))))

  plain-placed :
      (v : Value) (idx : ℕ) (options : BindOptions) (base_type : Option Text)
      → AllOk idx (bind_plain crates v idx options base_type)
  unfolding bind_plain bound unbound
  plain-placed (number n) idx options base_type =
      number-placed (codes "Unsupported numeric value") n idx
  plain-placed (string s) idx options base_type = string-placed s idx options base_type
  plain-placed (bool b) idx options base_type = placeholder-placed idx
  plain-placed null idx options base_type = tt
  plain-placed (array items) idx options base_type = array-placed idx items
  plain-placed (object fs) idx options base_type = tt

  -- Whatever the value, the column's type and the options: if a value is bound with a parameter, the SQL
  -- fragment holds the placeholder of the index that was asked for.
  pub bind_pg_value-placed :
      (v : Value) (idx : ℕ) (options : BindOptions) → AllOk idx (bind_pg_value crates v idx options)
  unfolding bind_pg_value bound
  bind_pg_value-placed v idx options =
      if-placed idx (is_type crates (codes "hstore") (options.column_type)) _ _
        (hstore-placed v idx (options.hstore_oid))
        (if-placed idx
          (is_type crates (codes "JSONB") (base_type_of crates options)
            && not (is_text_or_null crates v))
          _ _ (placeholder-placed idx)
          (if-placed idx
            (is_type crates (codes "JSON") (base_type_of crates options)
              && not (is_text_or_null crates v))
            _ _ (placeholder-placed idx)
            (plain-placed v idx options (base_type_of crates options))))
