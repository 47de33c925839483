-- ===== src/Extract/Scalars.antt =====
-- src/extract.rs, `extract_simple_from_bytes` and `extract_simple_kind_from_bytes`: a value of a scalar
-- type from its bytes. A decoder's error is null.
use tabularis_postgresql_plu.Extract.Types.{
  Scalar, boolean, int2, int4, int8, oid, float4, float8, numeric, text, fixed_text, uuid, date,
  time, timetz, timestamp, timestamptz, interval, json, bytea, inet, macaddr, macaddr8, bit,
  oid_wrapper, utf8_wrapper, blob_wrapper, tid, xid8, money, point, lseg, box, polygon, path, line,
  circle, jsonpath, ts_vector, ts_query, gts_vector, pg_lsn, snapshot, vector, halfvec, sparsevec,
  hstore, other,
}
use tabularis_postgresql_plu.Extract.Bytes.{Bytes}
use tabularis_postgresql_plu.Extract.Library.{Library}
use tabularis_postgresql_plu.Extract.Numbers
use tabularis_postgresql_plu.Extract.BitString
use tabularis_postgresql_plu.Extract.Times
use tabularis_postgresql_plu.Extract.Intervals
use tabularis_postgresql_plu.Extract.Geometry
use tabularis_postgresql_plu.Extract.Systems
use tabularis_postgresql_plu.Extract.Vectors
use tabularis_postgresql_plu.Extract.TextSearch
use tabularis_postgresql_plu.Extract.TextSearch.Queries
use tabularis_postgresql_plu.Blob
use tabularis_postgresql_plu.Json
use tabularis_postgresql_plu.Json.{Value}
use tabularis_postgresql_plu.Base.{Option, none, some, Text, codes}

-- `map(JsonValue::String).unwrap_or(JsonValue::Null)`, and the like.
unfoldable pub text_or_null : Option Text → Value
text_or_null (some s) = Json.string s
text_or_null none = Json.null

unfoldable pub value_or_null : Option Value → Value
value_or_null (some v) = v
value_or_null none = Json.null

unfoldable pub as_value {ℓ} : {A : Type ℓ} → (A → Value) → Option A → Option Value
as_value f (some a) = some (f a)
as_value f none = none

unfoldable pub as_text : Option Text → Option Value
as_text (some s) = some (Json.string s)
as_text none = none

unfoldable pub mapped {ℓ} : {A : Type ℓ} → (A → Value) → Option A → Value
mapped f (some a) = f a
mapped f none = Json.null

module _ (lib : Library) where
  unfoldable pub extract_simple_from_bytes : Scalar → Bytes → Value
  unfolding mapped text_or_null Numbers.i64_to_json
  extract_simple_from_bytes int4 buf = mapped Numbers.json_of_ℤ (lib.int4_from_sql buf)
  extract_simple_from_bytes int8 buf = mapped Numbers.i64_to_json (lib.int8_from_sql buf)
  extract_simple_from_bytes numeric buf = text_or_null (lib.numeric_text buf)
  extract_simple_from_bytes date buf = text_or_null (lib.date_text buf)
  extract_simple_from_bytes timestamp buf = text_or_null (lib.timestamp_text buf)
  extract_simple_from_bytes timestamptz buf = text_or_null (lib.timestamptz_text buf)
  extract_simple_from_bytes _ buf = Json.null

  unfoldable pub blob_text : Bytes → Value
  unfolding Blob.encode_blob
  blob_text buf =
      Json.string (Blob.encode_blob (λ b. lib.infer_mime b) (λ b. lib.base64_encode b) buf)

  -- The arms of both dispatchers: the decoder of the type and the value made of what it returns.
  unfoldable pub decode_scalar : Scalar → Bytes → Option Value
  unfolding Numbers.i64_to_json Numbers.tid Numbers.money Numbers.xid8 BitString.bit_string
      Times.time_tz Times.show_time_tz Intervals.interval Intervals.show_interval Geometry.point
      Geometry.two_points Geometry.polygon Geometry.show_polygon Geometry.path Geometry.show_path
      Geometry.line Geometry.circle Systems.cidr_or_inet Systems.mac_addr Systems.gts_vector
      Systems.json_path Systems.pg_lsn Systems.txid_snapshot Vectors.vector Vectors.half_vector
      Vectors.sparse_vector Vectors.show_sparse Vectors.float4_to_json TextSearch.ts_vector
      TextSearch.show_ts_vector Queries.ts_query blob_text as_value as_text
  decode_scalar boolean buf = as_value Json.bool (lib.bool_from_sql buf)
  decode_scalar int2 buf = as_value Numbers.json_of_ℤ (lib.int2_from_sql buf)
  decode_scalar int4 buf = as_value Numbers.json_of_ℤ (lib.int4_from_sql buf)
  decode_scalar int8 buf = as_value Numbers.i64_to_json (lib.int8_from_sql buf)
  decode_scalar oid buf = as_value (λ n. Json.number (Json.pos_int n)) (lib.oid_from_sql buf)
  decode_scalar oid_wrapper buf =
      as_value (λ n. Json.number (Json.pos_int n)) (lib.oid_from_sql buf)
  decode_scalar float4 buf = as_value (Vectors.float4_to_json lib) (lib.float4_from_sql buf)
  decode_scalar float8 buf = as_value (λ x. lib.json_from_f64 x) (lib.float8_from_sql buf)
  decode_scalar numeric buf = as_text (lib.numeric_text buf)
  decode_scalar text buf = as_text (lib.utf8 buf)
  decode_scalar fixed_text buf = as_text (lib.utf8 buf)
  decode_scalar uuid buf = as_text (lib.uuid_text buf)
  decode_scalar date buf = as_text (lib.date_text buf)
  decode_scalar time buf = as_text (lib.time_text buf)
  decode_scalar timetz buf = as_value (λ v. Json.string (Times.show_time_tz v)) (Times.time_tz buf)
  decode_scalar timestamp buf = as_text (lib.timestamp_text buf)
  decode_scalar timestamptz buf = as_text (lib.timestamptz_text buf)
  decode_scalar interval buf =
      as_value (λ v. Json.string (Intervals.show_interval v)) (Intervals.interval buf)
  decode_scalar json buf = lib.json_from_sql buf
  decode_scalar bytea buf = some (blob_text buf)
  decode_scalar inet buf = as_text (Systems.cidr_or_inet lib buf)
  decode_scalar macaddr buf = as_text (Systems.mac_addr 6 buf)
  decode_scalar macaddr8 buf = as_text (Systems.mac_addr 8 buf)
  decode_scalar bit buf = as_text (BitString.bit_string buf)
  decode_scalar utf8_wrapper buf = as_text (lib.utf8 buf)
  decode_scalar blob_wrapper buf = some (blob_text buf)
  decode_scalar tid buf = Numbers.tid buf
  decode_scalar xid8 buf = Numbers.xid8 lib buf
  decode_scalar money buf = Numbers.money lib buf
  decode_scalar point buf = as_text (Geometry.point lib buf)
  decode_scalar lseg buf = as_text (Geometry.two_points lib (codes "[") (codes "]") buf)
  decode_scalar box buf = as_text (Geometry.two_points lib (codes "(") (codes ")") buf)
  decode_scalar polygon buf =
      as_value (λ ps. Json.string (Geometry.show_polygon lib ps)) (Geometry.polygon buf)
  decode_scalar path buf =
      as_value (λ p. Json.string (Geometry.show_path lib p)) (Geometry.path buf)
  decode_scalar line buf = as_text (Geometry.line lib buf)
  decode_scalar circle buf = as_text (Geometry.circle lib buf)
  decode_scalar jsonpath buf = as_text (Systems.json_path lib buf)
  decode_scalar ts_vector buf =
      as_value (λ v. Json.string (TextSearch.show_ts_vector v)) (TextSearch.ts_vector lib buf)
  decode_scalar ts_query buf = as_text (Queries.ts_query lib buf)
  decode_scalar gts_vector buf = as_text (Systems.gts_vector lib buf)
  decode_scalar pg_lsn buf = as_text (Systems.pg_lsn buf)
  decode_scalar snapshot buf = as_text (Systems.txid_snapshot buf)
  decode_scalar vector buf = as_text (Vectors.vector lib buf)
  decode_scalar halfvec buf = as_text (Vectors.half_vector lib buf)
  decode_scalar sparsevec buf =
      as_value (λ v. Json.string (Vectors.show_sparse lib v)) (Vectors.sparse_vector buf)
  decode_scalar hstore buf = lib.hstore_value buf
  decode_scalar other buf = none

  -- Within an array or a composite; the type `time` has no arm there.
  unfoldable pub extract_simple_kind_from_bytes : Scalar → Bytes → Value
  unfolding decode_scalar value_or_null
  extract_simple_kind_from_bytes time buf = Json.null
  extract_simple_kind_from_bytes s buf = value_or_null (decode_scalar s buf)

  -- `EnumLabel`.
  unfoldable pub enum_label : Bytes → Option Value
  unfolding as_text
  enum_label raw = as_text (lib.utf8 raw)
