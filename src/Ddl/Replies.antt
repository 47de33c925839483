-- ===== src/Ddl/Replies.antt =====
-- src/handlers/ddl.rs: what the handlers answer.
use tabularis_postgresql_plu.Ddl.{ColumnDefinition}
use tabularis_postgresql_plu.Ddl.Requests.{
  DdlHandler, create_table, add_column, alter_column, create_index, create_foreign_key, index_drop,
  foreign_key_drop, items, get_create_table_sql, get_add_column_sql, alter_columns,
  get_alter_column_sql, get_create_index_sql, get_create_foreign_key_sql, drop_index,
  drop_foreign_key, serve_ddl, executed, altered, malformed, no_column, added_column,
}
use tabularis_postgresql_plu.Rpc.{ok_response, error_response}
use tabularis_postgresql_plu.Query.Server.{Result, ok, err}
use tabularis_postgresql_plu.Json.{Value, null, array, get, get_field}
use tabularis_postgresql_plu.Base.{
  ℕ, ◌≡◌, refl, List, Option, none, some, ◌>>=◌, Text, codes, text_eq,
}

ok_response-id : (id result : Value) → get (ok_response id result) (codes "id") ≡ some id
unfolding ok_response get get_field text_eq
ok_response-id id result = refl

error_response-id :
    (id : Value) (n : ℕ) (message : Text) → get (error_response id n message) (codes "id") ≡ some id
unfolding error_response get get_field text_eq
error_response-id id n message = refl

abbrev pub Echoes {ℓ} : {S : Type ℓ} → Value → Option (Value × S) → Type 0
Echoes id none = Unit {0}
Echoes id (some r) = get r.0 (codes "id") ≡ some id

module _ {S : Type 0} (table : ℕ → Text) (column_of : Value → Option ColumnDefinition)
    (names_of : Value → Option (List Text)) (columns_of : Value → Option (List ColumnDefinition))
    (execute_typed : Value → Text → S → Result Text ℕ × S) where
  executed-id : (id : Value) (r : Result Text ℕ × S) → get (executed id r).0 (codes "id") ≡ some id
  executed-id id (ok n, s) = ok_response-id id null
  executed-id id (err e, s) = error_response-id id 32602 e

  added_column-id :
      (id params : Value) (column : Option ColumnDefinition)
      → get
          (added_column table column_of names_of columns_of execute_typed id params column)
          (codes "id")
        ≡ some id
  unfolding added_column
  added_column-id id params (some c) = ok_response-id id _
  added_column-id id params none = error_response-id id 32601 no_column

  altered-id :
      (id : Value) (r : Result Text (List Text)) → get (altered id r) (codes "id") ≡ some id
  altered-id id (ok stmts) = ok_response-id id (array (items stmts))
  altered-id id (err e) = error_response-id id 32602 e

  alter_columns-id :
      (id params : Value) (old new : Option ColumnDefinition)
      → get
          (alter_columns table column_of names_of columns_of execute_typed id params old new)
          (codes "id")
        ≡ some id
  unfolding alter_columns
  alter_columns-id id params (some old) (some new) = altered-id id _
  alter_columns-id id params none new = error_response-id id 32601 malformed
  alter_columns-id id params (some old) none = error_response-id id 32601 malformed

  -- Every DDL handler answers with the id that it is given, on every branch: the errors of missing
  -- columns, of no changes, and of the server included.
  serve_ddl-id :
      (h : DdlHandler) (id params : Value) (s : S)
      → get
          (serve_ddl table column_of names_of columns_of execute_typed h id params s).0
          (codes "id")
        ≡ some id
  unfolding serve_ddl get_create_table_sql get_add_column_sql get_alter_column_sql
      get_create_index_sql get_create_foreign_key_sql drop_index drop_foreign_key
  serve_ddl-id create_table id params s = refl
  serve_ddl-id add_column id params s = added_column-id id params _
  serve_ddl-id alter_column id params s =
      alter_columns-id id params (get params (codes "old_column") >>= column_of)
        (get params (codes "new_column") >>= column_of)
  serve_ddl-id create_index id params s = refl
  serve_ddl-id create_foreign_key id params s = refl
  serve_ddl-id index_drop id params s = executed-id id _
  serve_ddl-id foreign_key_drop id params s = executed-id id _
