-- ===== src/Metadata/Listings/Snapshot.antt =====
-- src/handlers/metadata.rs: `get_schema_snapshot` against the rows of the catalogue.
use tabularis_postgresql_plu.Metadata.Listings.{schema_param, conn_of, values_of, fetch_tables}
use tabularis_postgresql_plu.Metadata.Listings.Batches.{
  with_table, grouped, fetch_all_columns, fetch_all_foreign_keys, snapshot_reply, with_columns,
  with_tables, get_schema_snapshot,
}
use tabularis_postgresql_plu.Metadata.Grouping.{
  group_rows_by_table, items_of, group_of, table_schema, build_schema_snapshot, rows_of,
  group_rows_by_table-rows_of,
}
use tabularis_postgresql_plu.Metadata.Rows.{
  members, row_to_table, row_to_table_column, row_to_foreign_key,
}
use tabularis_postgresql_plu.Metadata.Queries.Columns.{all_columns_query}
use tabularis_postgresql_plu.Metadata.Queries.Tables.{tables_query, all_foreign_keys_query}
use tabularis_postgresql_plu.Catalog.{Row, QueryRows, text_at, text_or_empty}
use tabularis_postgresql_plu.Rpc.{ok_response}
use tabularis_postgresql_plu.Query.Server.{ok}
use tabularis_postgresql_plu.Json.{Value, string, array, object, end, field, get, get_str, as_str}
use tabularis_postgresql_plu.Base.{
  ◌≡◌, refl, ap, ap₂, ◌∙◌, Bool-cases, inl, inr, List, [], ◌∷◌, Option, none, some, ◌>>=◌, Text,
  codes, text_eq, map, get_or_else, if◌then◌else◌,
}

-- The rows of one table, in their order.
unfoldable pub rows_for : Text → List Row → List Row
unfolding text_or_empty text_eq
rows_for name [] = []
rows_for name (r ∷ rows) =
    let rest = rows_for name rows in
    if text_eq (text_or_empty r (codes "table_name")) name then r ∷ rest else rest

-- A table with its own columns and foreign keys, each listed as by a query for the table alone.
unfoldable pub snapshot_entry : List Row → List Row → Row → Value
unfolding rows_for items_of row_to_table_column row_to_foreign_key text_or_empty
snapshot_entry columns fks r =
    let name = text_or_empty r (codes "name") in
    object (
      field (codes "columns") (array (items_of (map row_to_table_column (rows_for name columns)))) (
        field (codes "foreign_keys") (array (items_of (map row_to_foreign_key (rows_for name fks))))
          (field (codes "name") (string name) end)))

rows_of-map :
    (f : Row → Value) (name : Text) (rows : List Row)
    → rows_of name (map (with_table f) rows) ≡ map f (rows_for name rows)
unfolding rows_of with_table rows_for
rows_of-map f name [] = refl
rows_of-map f name (r ∷ rows) =
    elim (Bool-cases (text_eq (text_or_empty r (codes "table_name")) name)) [
      | inl own ↦ rw own (ap (λ vs. f r ∷ vs) (rows_of-map f name rows))
      | inr other ↦ rw other (rows_of-map f name rows)
    ]

group_of-map :
    (f : Row → Value) (name : Text) (rows : List Row)
    → group_of name (group_rows_by_table (map (with_table f) rows)) ≡ map f (rows_for name rows)
group_of-map f name rows =
    group_rows_by_table-rows_of name (map (with_table f) rows) ∙ rows_of-map f name rows

name-row_to_table :
    (r : Row)
    → get_or_else (get_str (row_to_table r) (codes "name")) [] ≡ text_or_empty r (codes "name")
unfolding get_str get as_str text_eq row_to_table members
name-row_to_table r = named (text_at r (codes "comment"))
  where
    named :
        (o : Option Text)
        → get_or_else
            (get_str
              (object (
                members (
                  (codes "comment", (do t ← o; some (string t)))
                  ∷ (codes "name", some (string (text_or_empty r (codes "name"))))
                  ∷ [])))
              (codes "name"))
            []
          ≡ text_or_empty r (codes "name")
    named none = refl
    named (some t) = refl

table_schema-entry :
    (columns fks : List Row) (r : Row)
    → table_schema
        (group_rows_by_table (map (with_table row_to_table_column) columns))
        (group_rows_by_table (map (with_table row_to_foreign_key) fks))
        (get_or_else (get_str (row_to_table r) (codes "name")) [])
      ≡ snapshot_entry columns fks r
unfolding table_schema snapshot_entry
table_schema-entry columns fks r =
    rw
      (
        name-row_to_table r,
        group_of-map row_to_table_column (text_or_empty r (codes "name")) columns,
        group_of-map row_to_foreign_key (text_or_empty r (codes "name")) fks,
      )
      refl

build_schema_snapshot-entries :
    (tables columns fks : List Row)
    → build_schema_snapshot
        (map row_to_table tables)
        (group_rows_by_table (map (with_table row_to_table_column) columns))
        (group_rows_by_table (map (with_table row_to_foreign_key) fks))
      ≡ map (snapshot_entry columns fks) tables
unfolding build_schema_snapshot
build_schema_snapshot-entries [] columns fks = refl
build_schema_snapshot-entries (r ∷ tables) columns fks =
    ap₂ ◌∷◌ (table_schema-entry columns fks r) (build_schema_snapshot-entries tables columns fks)

-- If its three queries succeed, the snapshot lists every table with exactly the columns and the foreign
-- keys of its own rows, in the order of the catalogue: what a query for each table would list.
pub get_schema_snapshot-entries :
    {S : Type 0} (query_rows : QueryRows S) (id params : Value) (tables columns fks : List Row)
    (s t u v : S)
    → query_rows (conn_of params) tables_query (schema_param params ∷ []) s ≡ (ok tables, t)
    → query_rows (conn_of params) all_columns_query (schema_param params ∷ []) t ≡ (ok columns, u)
    → query_rows (conn_of params) all_foreign_keys_query (schema_param params ∷ []) u ≡ (ok fks, v)
    → get_schema_snapshot query_rows id params s
      ≡ (ok_response id (array (items_of (map (snapshot_entry columns fks) tables))), v)
unfolding get_schema_snapshot with_tables with_columns snapshot_reply fetch_tables fetch_all_columns
    fetch_all_foreign_keys values_of grouped
get_schema_snapshot-entries query_rows id params tables columns fks s t u v h k l =
    rw (h, k, l)
      (ap (λ vs. (ok_response id (array (items_of vs)), v))
        (build_schema_snapshot-entries tables columns fks))
