-- ===== src/Rpc/Methods.antt =====
-- src/rpc.rs, the `match` of `handle_line`: the methods and the handlers they name.
use tabularis_postgresql_plu.Base.{
  ◌≡◌, refl, List, [], ◌∷◌, Option, none, some, Text, codes, if◌then◌else◌, text_eq,
}

pub data Handler : Type 0 where
  initialize ping test_connection shutdown : Handler
  get_databases get_schemas get_tables get_columns : Handler
  get_table_ddl get_foreign_keys get_indexes get_views : Handler
  get_view_definition get_view_columns get_materialized_views get_materialized_view_columns :
      Handler
  get_materialized_view_definition refresh_materialized_view get_routines get_routine_parameters :
      Handler
  get_routine_definition build_routine_call_sql routine_create_template drop_routine : Handler
  get_triggers get_trigger_definition get_schema_snapshot get_all_columns_batch : Handler
  get_all_foreign_keys_batch create_view alter_view drop_view : Handler
  create_trigger drop_trigger execute_query execute_query_batch : Handler
  release_session explain_query cancel insert_record : Handler
  update_record delete_record get_create_table_sql get_add_column_sql : Handler
  get_alter_column_sql get_create_index_sql get_create_foreign_key_sql drop_index : Handler
  drop_foreign_key save_blob_to_file fetch_blob_as_data_url : Handler

-- The word of a handler in the `match`.
abbrev pub method_name : Handler → Text
method_name initialize = codes "initialize"
method_name ping = codes "ping"
method_name test_connection = codes "test_connection"
method_name shutdown = codes "shutdown"
method_name get_databases = codes "get_databases"
method_name get_schemas = codes "get_schemas"
method_name get_tables = codes "get_tables"
method_name get_columns = codes "get_columns"
method_name get_table_ddl = codes "get_table_ddl"
method_name get_foreign_keys = codes "get_foreign_keys"
method_name get_indexes = codes "get_indexes"
method_name get_views = codes "get_views"
method_name get_view_definition = codes "get_view_definition"
method_name get_view_columns = codes "get_view_columns"
method_name get_materialized_views = codes "get_materialized_views"
method_name get_materialized_view_columns = codes "get_materialized_view_columns"
method_name get_materialized_view_definition = codes "get_materialized_view_definition"
method_name refresh_materialized_view = codes "refresh_materialized_view"
method_name get_routines = codes "get_routines"
method_name get_routine_parameters = codes "get_routine_parameters"
method_name get_routine_definition = codes "get_routine_definition"
method_name build_routine_call_sql = codes "build_routine_call_sql"
method_name routine_create_template = codes "routine_create_template"
method_name drop_routine = codes "drop_routine"
method_name get_triggers = codes "get_triggers"
method_name get_trigger_definition = codes "get_trigger_definition"
method_name get_schema_snapshot = codes "get_schema_snapshot"
method_name get_all_columns_batch = codes "get_all_columns_batch"
method_name get_all_foreign_keys_batch = codes "get_all_foreign_keys_batch"
method_name create_view = codes "create_view"
method_name alter_view = codes "alter_view"
method_name drop_view = codes "drop_view"
method_name create_trigger = codes "create_trigger"
method_name drop_trigger = codes "drop_trigger"
method_name execute_query = codes "execute_query"
method_name execute_query_batch = codes "execute_query_batch"
method_name release_session = codes "release_session"
method_name explain_query = codes "explain_query"
method_name cancel = codes "cancel"
method_name insert_record = codes "insert_record"
method_name update_record = codes "update_record"
method_name delete_record = codes "delete_record"
method_name get_create_table_sql = codes "get_create_table_sql"
method_name get_add_column_sql = codes "get_add_column_sql"
method_name get_alter_column_sql = codes "get_alter_column_sql"
method_name get_create_index_sql = codes "get_create_index_sql"
method_name get_create_foreign_key_sql = codes "get_create_foreign_key_sql"
method_name drop_index = codes "drop_index"
method_name drop_foreign_key = codes "drop_foreign_key"
method_name save_blob_to_file = codes "save_blob_to_file"
method_name fetch_blob_as_data_url = codes "fetch_blob_as_data_url"

abbrev pub handlers : List Handler
handlers =
    initialize ∷ ping ∷ test_connection ∷ shutdown ∷ get_databases ∷ get_schemas ∷ get_tables
    ∷ get_columns ∷ get_table_ddl ∷ get_foreign_keys ∷ get_indexes ∷ get_views ∷ get_view_definition
    ∷ get_view_columns ∷ get_materialized_views ∷ get_materialized_view_columns
    ∷ get_materialized_view_definition ∷ refresh_materialized_view ∷ get_routines
    ∷ get_routine_parameters ∷ get_routine_definition ∷ build_routine_call_sql
    ∷ routine_create_template ∷ drop_routine ∷ get_triggers ∷ get_trigger_definition
    ∷ get_schema_snapshot ∷ get_all_columns_batch ∷ get_all_foreign_keys_batch ∷ create_view
    ∷ alter_view ∷ drop_view ∷ create_trigger ∷ drop_trigger ∷ execute_query ∷ execute_query_batch
    ∷ release_session ∷ explain_query ∷ cancel ∷ insert_record ∷ update_record ∷ delete_record
    ∷ get_create_table_sql ∷ get_add_column_sql ∷ get_alter_column_sql ∷ get_create_index_sql
    ∷ get_create_foreign_key_sql ∷ drop_index ∷ drop_foreign_key ∷ save_blob_to_file
    ∷ fetch_blob_as_data_url ∷ []

-- The first arm whose word is the method.
unfoldable pub arm : Text → List Handler → Option Handler
unfolding text_eq
arm method [] = none
arm method (h ∷ hs) = if text_eq (method_name h) method then some h else arm method hs

unfoldable pub handler_of : Text → Option Handler
unfolding arm
handler_of method = arm method handlers

-- Every handler is reached by its own word, and by the first arm that carries it: no arm of the `match`
-- hides a later one.
pub handler_of-method_name : (h : Handler) → handler_of (method_name h) ≡ some h
unfolding handler_of
handler_of-method_name initialize = refl
handler_of-method_name ping = refl
handler_of-method_name test_connection = refl
handler_of-method_name shutdown = refl
handler_of-method_name get_databases = refl
handler_of-method_name get_schemas = refl
handler_of-method_name get_tables = refl
handler_of-method_name get_columns = refl
handler_of-method_name get_table_ddl = refl
handler_of-method_name get_foreign_keys = refl
handler_of-method_name get_indexes = refl
handler_of-method_name get_views = refl
handler_of-method_name get_view_definition = refl
handler_of-method_name get_view_columns = refl
handler_of-method_name get_materialized_views = refl
handler_of-method_name get_materialized_view_columns = refl
handler_of-method_name get_materialized_view_definition = refl
handler_of-method_name refresh_materialized_view = refl
handler_of-method_name get_routines = refl
handler_of-method_name get_routine_parameters = refl
handler_of-method_name get_routine_definition = refl
handler_of-method_name build_routine_call_sql = refl
handler_of-method_name routine_create_template = refl
handler_of-method_name drop_routine = refl
handler_of-method_name get_triggers = refl
handler_of-method_name get_trigger_definition = refl
handler_of-method_name get_schema_snapshot = refl
handler_of-method_name get_all_columns_batch = refl
handler_of-method_name get_all_foreign_keys_batch = refl
handler_of-method_name create_view = refl
handler_of-method_name alter_view = refl
handler_of-method_name drop_view = refl
handler_of-method_name create_trigger = refl
handler_of-method_name drop_trigger = refl
handler_of-method_name execute_query = refl
handler_of-method_name execute_query_batch = refl
handler_of-method_name release_session = refl
handler_of-method_name explain_query = refl
handler_of-method_name cancel = refl
handler_of-method_name insert_record = refl
handler_of-method_name update_record = refl
handler_of-method_name delete_record = refl
handler_of-method_name get_create_table_sql = refl
handler_of-method_name get_add_column_sql = refl
handler_of-method_name get_alter_column_sql = refl
handler_of-method_name get_create_index_sql = refl
handler_of-method_name get_create_foreign_key_sql = refl
handler_of-method_name drop_index = refl
handler_of-method_name drop_foreign_key = refl
handler_of-method_name save_blob_to_file = refl
handler_of-method_name fetch_blob_as_data_url = refl
