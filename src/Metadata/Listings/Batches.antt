-- ===== src/Metadata/Listings/Batches.antt =====
-- src/handlers/metadata.rs: the batches over a schema, `get_all_columns_batch`,
-- `get_all_foreign_keys_batch` and `get_schema_snapshot`.
use tabularis_postgresql_plu.Metadata.Listings.{schema_param, conn_of, fetch_tables}
use tabularis_postgresql_plu.Metadata.{text_param_of}
use tabularis_postgresql_plu.Metadata.Grouping.{
  Groups, group_rows_by_table, items_of, build_schema_snapshot,
}
use tabularis_postgresql_plu.Metadata.Rows.{row_to_table_column, row_to_foreign_key}
use tabularis_postgresql_plu.Metadata.Queries.Columns.{all_columns_query}
use tabularis_postgresql_plu.Metadata.Queries.Tables.{all_foreign_keys_query}
use tabularis_postgresql_plu.Catalog.{Row, QueryRows, text_or_empty}
use tabularis_postgresql_plu.Connections.{ConnectionParams}
use tabularis_postgresql_plu.Binding.Keys.{sort_keys}
use tabularis_postgresql_plu.Rpc.{ok_response, error_response}
use tabularis_postgresql_plu.Ddl.Requests.{inner_params}
use tabularis_postgresql_plu.Query.Server.{Result, ok, err}
use tabularis_postgresql_plu.Json.{Value, array, object, Fields, end, field}
use tabularis_postgresql_plu.Base.{List, [], ◌∷◌, Text, codes, map}

-- A row with the table it belongs to.
unfoldable pub with_table : (Row → Value) → Row → Text × Value
unfolding text_or_empty
with_table f r = (text_or_empty r (codes "table_name"), f r)

unfoldable pub grouped :
    {S : Type 0} → (Row → Value) → Result Text (List Row) × S → Result Text Groups × S
unfolding group_rows_by_table with_table
grouped f (ok rows, s) = (ok (group_rows_by_table (map (with_table f) rows)), s)
grouped f (err e, s) = (err e, s)

unfoldable pub fields_of : Groups → Fields
unfolding items_of
fields_of [] = end
fields_of ((t, vs) ∷ m) = field t (array (items_of vs)) (fields_of m)

unfoldable pub map_reply : {S : Type 0} → Value → Result Text Groups × S → Value × S
unfolding fields_of sort_keys ok_response error_response
map_reply id (ok m, s) = (ok_response id (object (sort_keys (fields_of m))), s)
map_reply id (err e, s) = (error_response id 32602 e, s)

module _ {S : Type 0} (query_rows : QueryRows S) where
  unfoldable pub fetch_all_columns : ConnectionParams → Text → S → Result Text Groups × S
  unfolding grouped row_to_table_column
  fetch_all_columns conn schema s =
      grouped row_to_table_column (query_rows conn all_columns_query (schema ∷ []) s)

  unfoldable pub fetch_all_foreign_keys : ConnectionParams → Text → S → Result Text Groups × S
  unfolding grouped row_to_foreign_key
  fetch_all_foreign_keys conn schema s =
      grouped row_to_foreign_key (query_rows conn all_foreign_keys_query (schema ∷ []) s)

  unfoldable pub get_all_columns_batch : Value → Value → S → Value × S
  unfolding map_reply fetch_all_columns inner_params text_param_of
  get_all_columns_batch id params s =
      map_reply id (fetch_all_columns (conn_of params) (schema_param params) s)

  unfoldable pub get_all_foreign_keys_batch : Value → Value → S → Value × S
  unfolding map_reply fetch_all_foreign_keys inner_params text_param_of
  get_all_foreign_keys_batch id params s =
      map_reply id (fetch_all_foreign_keys (conn_of params) (schema_param params) s)

  -- Behind the third query.
  unfoldable pub snapshot_reply : Value → List Value → Groups → Result Text Groups × S → Value × S
  unfolding build_schema_snapshot items_of ok_response error_response
  snapshot_reply id tables columns_map (ok fks_map, s) =
      (ok_response id (array (items_of (build_schema_snapshot tables columns_map fks_map))), s)
  snapshot_reply id tables columns_map (err e, s) = (error_response id 32602 e, s)

  unfoldable pub with_columns :
      Value → ConnectionParams → Text → List Value → Result Text Groups × S → Value × S
  unfolding snapshot_reply fetch_all_foreign_keys error_response
  with_columns id conn schema tables (ok columns_map, s) =
      snapshot_reply id tables columns_map (fetch_all_foreign_keys conn schema s)
  with_columns id conn schema tables (err e, s) = (error_response id 32602 e, s)

  unfoldable pub with_tables :
      Value → ConnectionParams → Text → Result Text (List Value) × S → Value × S
  unfolding with_columns fetch_all_columns error_response
  with_tables id conn schema (ok tables, s) =
      with_columns id conn schema tables (fetch_all_columns conn schema s)
  with_tables id conn schema (err e, s) = (error_response id 32602 e, s)

  unfoldable pub get_schema_snapshot : Value → Value → S → Value × S
  unfolding with_tables fetch_tables inner_params text_param_of
  get_schema_snapshot id params s =
      with_tables id (conn_of params) (schema_param params)
        (fetch_tables query_rows (conn_of params) (schema_param params) s)
