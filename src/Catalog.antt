-- ===== src/Catalog.antt =====
-- src/client.rs: the catalogue queries and the lookups of column types. `query_rows` takes a connection of
-- the pool, binds the parameters as texts and formats the errors of tokio-postgres; it is a parameter
-- over the state of the database. A row is the list of its columns.
pub mod Texts
use tabularis_postgresql_plu.Catalog.Texts.{column_types_query, enum_types_query, hstore_oid_query}
use tabularis_postgresql_plu.Connections.{ConnectionParams}
use tabularis_postgresql_plu.Identifiers.{qualified}
use tabularis_postgresql_plu.Query.Server.{Result, ok, err}
use tabularis_postgresql_plu.Base.Integers.{ℤ}
use tabularis_postgresql_plu.Base.{
  ℕ, Bool, true, false, List, [], ◌∷◌, Option, none, some, ◌>>=◌, Text, codes, text_eq, reverse,
  map, get_or_else, if◌then◌else◌,
}

-- A value with its type on the wire, which `try_get` checks.
pub data Cell : Type 0 where
  sql_null : Cell
  text_cell : Text → Cell
  bool_cell : Bool → Cell
  int4_cell int8_cell : ℤ → Cell
  char_cell oid_cell : ℕ → Cell

abbrev pub Row : Type 0
Row = List (Text × Cell)

unfoldable pub cell_of : Row → Text → Option Cell
unfolding text_eq
cell_of [] k = none
cell_of ((j, c) ∷ r) k = let rest = cell_of r k in if text_eq j k then some c else rest

abbrev pub as_text_cell : Cell → Option Text
as_text_cell (text_cell t) = some t
as_text_cell _ = none

abbrev pub as_bool_cell : Cell → Option Bool
as_bool_cell (bool_cell b) = some b
as_bool_cell _ = none

abbrev pub as_int4 : Cell → Option ℤ
as_int4 (int4_cell n) = some n
as_int4 _ = none

abbrev pub as_int8 : Cell → Option ℤ
as_int8 (int8_cell n) = some n
as_int8 _ = none

abbrev pub as_char : Cell → Option ℕ
as_char (char_cell c) = some c
as_char _ = none

abbrev pub as_oid : Cell → Option ℕ
as_oid (oid_cell n) = some n
as_oid _ = none

-- `try_get(k).ok()`; for an `Option` with `.ok().flatten()` it is the same.
unfoldable pub text_at : Row → Text → Option Text
unfolding cell_of
text_at r k = cell_of r k >>= as_text_cell

unfoldable pub bool_at : Row → Text → Option Bool
unfolding cell_of
bool_at r k = cell_of r k >>= as_bool_cell

unfoldable pub int4_at : Row → Text → Option ℤ
unfolding cell_of
int4_at r k = cell_of r k >>= as_int4

unfoldable pub int8_at : Row → Text → Option ℤ
unfolding cell_of
int8_at r k = cell_of r k >>= as_int8

-- `unwrap_or_default`.
unfoldable pub text_or_empty : Row → Text → Text
unfolding text_at
text_or_empty r k = get_or_else (text_at r k) []

-- What `filter_map` collects of the rows; a later pair with the same name replaces an earlier one.
unfoldable pub pairs_of : (Row → Option (Text × Text)) → List Row → List (Text × Text)
pairs_of f [] = []
pairs_of f (r ∷ rs) = let rest = pairs_of f rs in elim (f r) [ some p ↦ p ∷ rest | none ↦ rest ]

unfoldable pub collected :
    {S : Type 0}
    → (Row → Option (Text × Text))
    → Result Text (List Row) × S
    → Result Text (List (Text × Text)) × S
unfolding pairs_of
collected f (ok rows, s) = (ok (reverse (pairs_of f rows)), s)
collected f (err e, s) = (err e, s)

unfoldable pub column_type_of : Row → Option (Text × Text)
unfolding text_at
column_type_of r = do
  name ← text_at r (codes "column_name")
  ty ← text_at r (codes "resolved_type")
  some (name, ty)

unfoldable pub enum_type_of : Row → Option (Text × Text)
unfolding text_at qualified
enum_type_of r = do
  col ← text_at r (codes "column_name")
  type_schema ← text_at r (codes "type_schema")
  type_name ← text_at r (codes "type_name")
  some (col, qualified type_schema type_name)

-- The OID in the first column of the first row.
unfoldable pub first_oid : List Row → Option ℕ
first_oid [] = none
first_oid ([] ∷ rows) = none
first_oid (((k, c) ∷ r) ∷ rows) = as_oid c

abbrev oid_result : {S : Type 0} → Result Text (List Row) × S → Result Text (Option ℕ) × S
oid_result (ok rows, s) = (ok (first_oid rows), s)
oid_result (err e, s) = (err e, s)

unfoldable pub strings_in : Text → List Row → List Text
unfolding text_or_empty
strings_in column [] = []
strings_in column (r ∷ rows) = text_or_empty r column ∷ strings_in column rows

abbrev strings_result :
    {S : Type 0} → Text → Result Text (List Row) × S → Result Text (List Text) × S
strings_result column (ok rows, s) = (ok (strings_in column rows), s)
strings_result column (err e, s) = (err e, s)

abbrev pub QueryRows : Type 0 → Type 0
QueryRows S = ConnectionParams → Text → List Text → S → Result Text (List Row) × S

module _ {S : Type 0} (query_rows : QueryRows S) where
  unfoldable pub query_strings :
      ConnectionParams → Text → List Text → Text → S → Result Text (List Text) × S
  unfolding strings_in
  query_strings params query query_params column s =
      strings_result column (query_rows params query query_params s)

  unfoldable pub get_column_types_map :
      ConnectionParams → Text → Text → S → Result Text (List (Text × Text)) × S
  unfolding collected column_type_of
  get_column_types_map params table schema s =
      collected column_type_of (query_rows params column_types_query (schema ∷ table ∷ []) s)

  unfoldable pub get_enum_column_types :
      ConnectionParams → Text → Text → S → Result Text (List (Text × Text)) × S
  unfolding collected enum_type_of
  get_enum_column_types params schema table s =
      collected enum_type_of (query_rows params enum_types_query (schema ∷ table ∷ []) s)

  unfoldable pub get_hstore_oid_for_column :
      ConnectionParams → Text → Text → Text → S → Result Text (Option ℕ) × S
  unfolding first_oid
  get_hstore_oid_for_column params schema table col_name s =
      oid_result (query_rows params hstore_oid_query (schema ∷ table ∷ col_name ∷ []) s)
