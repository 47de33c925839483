-- ===== src/Ddl/Requests.antt =====
-- src/handlers/ddl.rs: the handlers, from the members of the parameters to the response. `column_of`
-- and `names_of` are serde's derived deserialisers of a column and of a list of strings.
use tabularis_postgresql_plu.Ddl.{
  ColumnDefinition, build_create_table_sql, build_add_column_sql, build_alter_column_sql,
  build_create_index_sql, build_create_foreign_key_sql,
}
use tabularis_postgresql_plu.Rpc.{ok_response, error_response}
use tabularis_postgresql_plu.Query.Server.{Result, ok, err}
use tabularis_postgresql_plu.Identifiers.{quote_identifier, qualified}
use tabularis_postgresql_plu.Json.{
  Value, null, string, array, Items, nil, cons, get, get_str, as_bool,
}
use tabularis_postgresql_plu.Base.{
  ℕ, false, List, [], ◌∷◌, ◌++◌, Option, none, some, ◌>>=◌, Text, codes, get_or_else,
}

-- `Value::from` of a vector of strings.
unfoldable pub items : List Text → Items
items [] = nil
items (t ∷ ts) = cons (string t) (items ts)

abbrev text_or_empty : Value → Text → Text
text_or_empty params key = get_or_else (get_str params key) []

abbrev schema_of : Value → Text
schema_of params = get_or_else (get_str params (codes "schema")) (codes "public")

abbrev pub altered : Value → Result Text (List Text) → Value
altered id (ok stmts) = ok_response id (array (items stmts))
altered id (err e) = error_response id 32602 e

abbrev pub no_column : Text
no_column = codes "Invalid params: missing or malformed 'column'"

abbrev pub malformed : Text
malformed = codes "Invalid params: missing or malformed old_column/new_column"

abbrev pub executed {ℓ} : {S : Type ℓ} → Value → Result Text ℕ × S → Value × S
executed id (ok n, s) = (ok_response id null, s)
executed id (err e, s) = (error_response id 32602 e, s)

unfoldable pub inner_params : Value → Value
unfolding get
inner_params params = get_or_else (get params (codes "params")) params

-- The arms of `handle_line` that belong to this file.
pub data DdlHandler : Type 0 where
  create_table add_column alter_column create_index create_foreign_key : DdlHandler
  index_drop foreign_key_drop : DdlHandler

module _ {S : Type 0} (table : ℕ → Text) (column_of : Value → Option ColumnDefinition)
    (names_of : Value → Option (List Text)) (columns_of : Value → Option (List ColumnDefinition))
    (execute_typed : Value → Text → S → Result Text ℕ × S) where
  unfoldable pub get_create_table_sql : Value → Value → Value
  unfolding ok_response build_create_table_sql get get_str items
  get_create_table_sql id params = ok_response id (
      array (
        items (
          build_create_table_sql table (text_or_empty params (codes "table_name"))
            (get_or_else (get params (codes "columns") >>= columns_of) []) (schema_of params)
          ∷ [])))

  unfoldable pub added_column : Value → Value → Option ColumnDefinition → Value
  unfolding ok_response error_response build_add_column_sql get_str items
  added_column id params (some column) = ok_response id (
      array (
        items (
          build_add_column_sql table (text_or_empty params (codes "table")) column
            (schema_of params)
          ∷ [])))
  added_column id params none = error_response id 32601 no_column

  unfoldable pub get_add_column_sql : Value → Value → Value
  unfolding added_column get
  get_add_column_sql id params = added_column id params (get params (codes "column") >>= column_of)

  unfoldable pub alter_columns :
      Value → Value → Option ColumnDefinition → Option ColumnDefinition → Value
  unfolding ok_response error_response build_alter_column_sql get_str items
  alter_columns id params (some old) (some new) = altered id (
      build_alter_column_sql table (text_or_empty params (codes "table")) old new
        (schema_of params))
  alter_columns id params none new = error_response id 32601 malformed
  alter_columns id params (some old) none = error_response id 32601 malformed

  unfoldable pub get_alter_column_sql : Value → Value → Value
  unfolding alter_columns get
  get_alter_column_sql id params =
      alter_columns id params (get params (codes "old_column") >>= column_of)
        (get params (codes "new_column") >>= column_of)

  unfoldable pub get_create_index_sql : Value → Value → Value
  unfolding ok_response build_create_index_sql get get_str as_bool items
  get_create_index_sql id params = ok_response id (
      array (
        items (
          build_create_index_sql (text_or_empty params (codes "table"))
            (text_or_empty params (codes "index_name"))
            (get_or_else (get params (codes "columns") >>= names_of) [])
            (get_or_else (get params (codes "is_unique") >>= as_bool) false) (schema_of params)
          ∷ [])))

  unfoldable pub get_create_foreign_key_sql : Value → Value → Value
  unfolding ok_response build_create_foreign_key_sql get_str items
  get_create_foreign_key_sql id params = ok_response id (
      array (
        items (
          build_create_foreign_key_sql (text_or_empty params (codes "table"))
            (text_or_empty params (codes "fk_name")) (text_or_empty params (codes "column"))
            (text_or_empty params (codes "ref_table")) (text_or_empty params (codes "ref_column"))
            (get_str params (codes "on_delete")) (get_str params (codes "on_update"))
            (schema_of params)
          ∷ [])))

  -- The statement runs on the connection of `params.params`, which `execute_typed` is given.
  unfoldable pub drop_index : Value → Value → S → Value × S
  unfolding ok_response error_response qualified get_str inner_params
  drop_index id params s = executed id (
      execute_typed (inner_params params)
        (codes "DROP INDEX "
          ++ qualified (schema_of params) (text_or_empty params (codes "index_name")))
        s)

  unfoldable pub drop_foreign_key : Value → Value → S → Value × S
  unfolding ok_response error_response qualified quote_identifier get_str inner_params
  drop_foreign_key id params s = executed id (
      execute_typed (inner_params params)
        (codes "ALTER TABLE "
          ++ (qualified (schema_of params) (text_or_empty params (codes "table"))
              ++ (codes " DROP CONSTRAINT "
                  ++ quote_identifier (text_or_empty params (codes "fk_name")))))
        s)

  unfoldable pub serve_ddl : DdlHandler → Value → Value → S → Value × S
  unfolding get_create_table_sql get_add_column_sql get_alter_column_sql get_create_index_sql
      get_create_foreign_key_sql drop_index drop_foreign_key
  serve_ddl create_table id params s = (get_create_table_sql id params, s)
  serve_ddl add_column id params s = (get_add_column_sql id params, s)
  serve_ddl alter_column id params s = (get_alter_column_sql id params, s)
  serve_ddl create_index id params s = (get_create_index_sql id params, s)
  serve_ddl create_foreign_key id params s = (get_create_foreign_key_sql id params, s)
  serve_ddl index_drop id params s = drop_index id params s
  serve_ddl foreign_key_drop id params s = drop_foreign_key id params s
