-- ===== src/Metadata/Listings.antt =====
-- src/handlers/metadata.rs: the handlers that list what the catalogue holds.
pub mod Routines
pub mod Batches
pub mod Snapshot
use tabularis_postgresql_plu.Metadata.{Client, text_param_of}
use tabularis_postgresql_plu.Metadata.Grouping.{
  Groups, group_rows_by_table, items_of, build_schema_snapshot,
}
use tabularis_postgresql_plu.Metadata.Rows.{
  row_to_table, row_to_table_column, row_to_foreign_key, row_to_index, named_value,
  row_to_materialized_column, row_to_routine, row_to_parameter, result_parameter, row_to_trigger,
}
use tabularis_postgresql_plu.Metadata.Queries.Columns.{
  table_columns_query, view_columns_query, all_columns_query,
}
use tabularis_postgresql_plu.Metadata.Queries.Tables.{
  databases_query, schemas_query, tables_query, foreign_keys_query, all_foreign_keys_query,
  indexes_query,
}
use tabularis_postgresql_plu.Metadata.Queries.Views.{
  views_query, view_definition_query, materialized_views_query, materialized_view_columns_query,
  materialized_view_definition_query,
}
use tabularis_postgresql_plu.Metadata.Queries.Routines.{
  version_query, routines_query, old_routines_query, routine_info_query, routine_parameters_query,
  routine_definition_query, triggers_query, trigger_definition_query,
}
use tabularis_postgresql_plu.Catalog.{Row, QueryRows, query_strings, text_or_empty, int4_at}
use tabularis_postgresql_plu.Connections.{ConnectionParams, from_value}
use tabularis_postgresql_plu.Binding.Keys.{sort_keys}
use tabularis_postgresql_plu.Identifiers.{qualified}
use tabularis_postgresql_plu.Rpc.{ok_response, error_response}
use tabularis_postgresql_plu.Ddl.Requests.{inner_params}
use tabularis_postgresql_plu.Query.Server.{Result, ok, err}
use tabularis_postgresql_plu.Base.Integers.{ℤ, pos, negsuc}
use tabularis_postgresql_plu.Json.{Value, string, array, object, Fields, end, field}
use tabularis_postgresql_plu.Base.{
  ℕ, Bool, true, false, List, [], ◌∷◌, ◌++◌, Option, none, some, Text, codes, ltb, map, get_or_else,
  if◌then◌else◌,
}

abbrev pub name_param : Value → Text → Text
name_param params key = text_param_of params key []

abbrev pub schema_param : Value → Text
schema_param params = text_param_of params (codes "schema") (codes "public")

abbrev pub conn_of : Value → ConnectionParams
conn_of params = from_value (inner_params params)

module _ {A : Type 0} where
  -- A list, each entry as a value, or the error of the query.
  unfoldable pub list_reply :
      {S : Type 0} → Value → (A → Value) → Result Text (List A) × S → Value × S
  unfolding items_of ok_response error_response
  list_reply id f (ok vs, s) = (ok_response id (array (items_of (map f vs))), s)
  list_reply id f (err e, s) = (error_response id 32602 e, s)

-- The definition in the first row behind its head, or the error that nothing was found.
unfoldable pub definition_reply :
    {S : Type 0} → Value → Text → Text → Result Text (List Row) × S → Value × S
unfolding text_or_empty ok_response error_response
definition_reply id head missing (ok [], s) = (error_response id 32602 missing, s)
definition_reply id head missing (ok (r ∷ rows), s) =
    (ok_response id (string (head ++ text_or_empty r (codes "definition"))), s)
definition_reply id head missing (err e, s) = (error_response id 32602 e, s)

unfoldable pub values_of :
    {S : Type 0} → (Row → Value) → Result Text (List Row) × S → Result Text (List Value) × S
values_of f (ok rows, s) = (ok (map f rows), s)
values_of f (err e, s) = (err e, s)

module _ {S : Type 0} (query_rows : QueryRows S) where
  -- The maintenance database lists all of them.
  unfoldable pub get_databases : Value → Value → S → Value × S
  unfolding list_reply query_strings inner_params
  get_databases id params s = list_reply id string (
      query_strings query_rows (record (conn_of params) { database = some (codes "postgres") })
        databases_query [] (codes "datname") s)

  unfoldable pub get_schemas : Value → Value → S → Value × S
  unfolding list_reply query_strings inner_params
  get_schemas id params s =
      list_reply id string
        (query_strings query_rows (conn_of params) schemas_query [] (codes "schema_name") s)

  unfoldable pub fetch_tables : ConnectionParams → Text → S → Result Text (List Value) × S
  unfolding values_of row_to_table
  fetch_tables conn schema s = values_of row_to_table (query_rows conn tables_query (schema ∷ []) s)

  abbrev same : Value → Value
  same v = v

  unfoldable pub get_tables : Value → Value → S → Value × S
  unfolding list_reply fetch_tables inner_params text_param_of
  get_tables id params s =
      list_reply id same (fetch_tables (conn_of params) (schema_param params) s)

  unfoldable pub fetch_table_columns :
      ConnectionParams → Text → Text → S → Result Text (List Value) × S
  unfolding values_of row_to_table_column
  fetch_table_columns conn table schema s =
      values_of row_to_table_column (query_rows conn table_columns_query (schema ∷ table ∷ []) s)

  unfoldable pub get_columns : Value → Value → S → Value × S
  unfolding list_reply fetch_table_columns inner_params text_param_of
  get_columns id params s = list_reply id same (
      fetch_table_columns (conn_of params) (name_param params (codes "table")) (schema_param params)
        s)

  -- The rows of one query about a named object of a schema.
  unfoldable pub rows_about : Text → Text → Value → S → Result Text (List Row) × S
  unfolding inner_params text_param_of
  rows_about query key params s =
      query_rows (conn_of params) query (schema_param params ∷ name_param params key ∷ []) s

  unfoldable pub get_foreign_keys : Value → Value → S → Value × S
  unfolding list_reply row_to_foreign_key rows_about
  get_foreign_keys id params s =
      list_reply id row_to_foreign_key (rows_about foreign_keys_query (codes "table") params s)

  unfoldable pub get_indexes : Value → Value → S → Value × S
  unfolding list_reply row_to_index rows_about
  get_indexes id params s =
      list_reply id row_to_index (rows_about indexes_query (codes "table") params s)

  unfoldable pub get_views : Value → Value → S → Value × S
  unfolding list_reply named_value query_strings inner_params text_param_of
  get_views id params s = list_reply id named_value (
      query_strings query_rows (conn_of params) views_query (schema_param params ∷ [])
        (codes "name") s)

  unfoldable pub get_view_definition : Value → Value → S → Value × S
  unfolding definition_reply qualified inner_params text_param_of
  get_view_definition id params s =
      let name = qualified (schema_param params) (name_param params (codes "view_name")) in
      definition_reply id (codes "CREATE OR REPLACE VIEW " ++ (name ++ codes " AS\n"))
        (codes "View not found") (query_rows (conn_of params) view_definition_query (name ∷ []) s)

  unfoldable pub get_view_columns : Value → Value → S → Value × S
  unfolding list_reply row_to_table_column rows_about
  get_view_columns id params s =
      list_reply id row_to_table_column (rows_about view_columns_query (codes "view_name") params s)

  unfoldable pub get_materialized_views : Value → Value → S → Value × S
  unfolding list_reply named_value query_strings inner_params text_param_of
  get_materialized_views id params s = list_reply id named_value (
      query_strings query_rows (conn_of params) materialized_views_query (schema_param params ∷ [])
        (codes "name") s)

  unfoldable pub get_materialized_view_columns : Value → Value → S → Value × S
  unfolding list_reply row_to_materialized_column rows_about
  get_materialized_view_columns id params s =
      list_reply id row_to_materialized_column
        (rows_about materialized_view_columns_query (codes "view_name") params s)

  unfoldable pub get_materialized_view_definition : Value → Value → S → Value × S
  unfolding definition_reply qualified rows_about text_param_of
  get_materialized_view_definition id params s =
      let name = qualified (schema_param params) (name_param params (codes "view_name")) in
      definition_reply id (codes "CREATE MATERIALIZED VIEW " ++ (name ++ codes " AS\n"))
        (codes "Materialized view not found")
        (rows_about materialized_view_definition_query (codes "view_name") params s)
