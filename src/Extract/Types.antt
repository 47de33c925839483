-- ===== src/Extract/Types.antt =====
-- `tokio_postgres::types::Type` and `Kind` as src/extract.rs tells them apart.
use tabularis_postgresql_plu.Base.{Bool, Text}

-- The built-in types the decoders name (`BOOL` is `boolean`, `TEXT` and `VARCHAR` are `text`, `BPCHAR` and `NAME` are
-- `fixed_text`), the extensions' types known by name, and the rest. The types
-- that are an OID on the wire (`u32_oid_wrapper`), those that are a text (`utf8_wrapper`) and those
-- that are opaque bytes (`binary_blob_wrapper`) are one constructor each.
pub data Scalar : Type 0 where
  boolean int2 int4 int8 oid float4 float8 numeric : Scalar
  text fixed_text uuid date time timetz timestamp timestamptz interval : Scalar
  json bytea inet macaddr macaddr8 bit : Scalar
  oid_wrapper utf8_wrapper blob_wrapper tid xid8 money : Scalar
  point lseg box polygon path line circle : Scalar
  jsonpath ts_vector ts_query gts_vector pg_lsn snapshot : Scalar
  vector halfvec sparsevec hstore other : Scalar

mutual
  pub data PgType : Type 0 where
    simple : Scalar → PgType
    enum : PgType
    -- A range is one of PostgreSQL's own or another one.
    range : Bool → PgType → PgType
    multirange array domain : PgType → PgType
    composite : Columns → PgType

  -- The fields of a composite type.
  pub data Columns : Type 0 where
    no_columns : Columns
    column : Text → PgType → Columns → Columns
