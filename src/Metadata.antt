-- ===== src/Metadata.antt =====
-- src/handlers/metadata.rs: the reconstruction of a table's DDL, the default of a column, the handlers
-- of views and triggers, and the grouping of rows by table. The catalogue queries are src/client.rs'.
pub mod Grouping
pub mod Queries
pub mod Rows
pub mod Listings
use tabularis_postgresql_plu.Identifiers.{quote_identifier, qualified}
use tabularis_postgresql_plu.Ddl.Requests.{inner_params}
use tabularis_postgresql_plu.Rpc.{ok_response, error_response}
use tabularis_postgresql_plu.Query.Server.{Result, ok, err}
use tabularis_postgresql_plu.Json.{
  Value, null, string, array, object, Items, nil, cons, Fields, end, field, get, get_str, as_str,
  as_bool,
}
use tabularis_postgresql_plu.Base.{
  ℕ, Bool, true, false, ◌||◌, List, [], ◌∷◌, ◌++◌, Option, none, some, ◌>>=◌, Text, codes, text_eq,
  join, is_nil, starts_with, eq_ignore_ascii_case, get_or_else, if◌then◌else◌,
}

-- `DEFAULT` clauses that the host shows.
unfoldable pub shown_default : Text → Bool → Option Text
unfolding eq_ignore_ascii_case starts_with
shown_default d is_auto_increment =
    if is_auto_increment
      || is_nil d
      || eq_ignore_ascii_case d (codes "null")
      || starts_with d (codes "NULL::")
    then none
    else some d

unfoldable pub column_default_value : Option Text → Bool → Option Text
unfolding shown_default
column_default_value column_default is_auto_increment = do
  d ← column_default
  shown_default d is_auto_increment

unfoldable pub text_member : Value → Text → Text
unfolding get_str
text_member col key = get_or_else (get_str col key) []

unfoldable pub bool_member : Value → Text → Bool
unfolding get as_bool
bool_member col key = get_or_else (get col key >>= as_bool) false

unfoldable pub column_line : Value → Text
unfolding text_member bool_member quote_identifier
column_line col =
    quote_identifier (text_member col (codes "name"))
    ++ (codes " "
        ++ (text_member col (codes "data_type")
            ++ (if bool_member col (codes "is_nullable") then [] else codes " NOT NULL")))

unfoldable pub column_lines : List Value → List Text
unfolding column_line
column_lines [] = []
column_lines (c ∷ cols) = column_line c ∷ column_lines cols

unfoldable pub key_names : List Value → List Text
unfolding text_member bool_member quote_identifier
key_names [] = []
key_names (c ∷ cols) =
    let rest = key_names cols in
    if bool_member c (codes "is_pk")
    then quote_identifier (text_member c (codes "name")) ∷ rest
    else rest

unfoldable pub key_line : List Text → List Text
unfolding join
key_line [] = []
key_line (p ∷ pks) = (codes "PRIMARY KEY (" ++ (join (codes ", ") (p ∷ pks) ++ codes ")")) ∷ []

unfoldable pub build_table_ddl : Text → Text → List Value → Result Text Text
unfolding column_lines key_line key_names join qualified
build_table_ddl schema table [] = err (codes "Table " ++ (table ++ codes " not found or empty"))
build_table_ddl schema table (c ∷ cols) = ok (
    codes "CREATE TABLE "
    ++ (qualified schema table
        ++ (codes " (\n  "
            ++ (join (codes ",\n  ") (column_lines (c ∷ cols) ++ key_line (key_names (c ∷ cols)))
                ++ codes "\n);"))))

-- `ensure_base_table` on the kind of the table, if there is a row.
unfoldable pub base_table : Text → Option Text → Result Text (Unit {0})
unfolding text_eq
base_table table (some t) =
    if text_eq t (codes "BASE TABLE")
    then ok tt
    else err (
        table
        ++ (codes " is a "
            ++ (t ++ codes ", not a base table; get_table_ddl only supports base tables")))
base_table table none = err (codes "Table " ++ (table ++ codes " not found or empty"))

-- What a handler answers that only executes a statement.
unfoldable pub executed_or {ℓ} : {S : Type ℓ} → Value → Text → Result Text ℕ × S → Value × S
unfolding ok_response error_response
executed_or id failed (ok n, s) = (ok_response id null, s)
executed_or id failed (err e, s) = (error_response id 32602 (failed ++ e), s)

unfoldable pub text_param_of : Value → Text → Text → Text
unfolding get_str
text_param_of params key d = get_or_else (get_str params key) d

unfoldable pub named_view : Value → Text
unfolding qualified text_param_of
named_view params =
    qualified (text_param_of params (codes "schema") (codes "public"))
      (text_param_of params (codes "view_name") [])

-- The query of a table's kind and of its columns, and the execution, over the state of the connection.
pub record Client (S : Type 0) : Type 0 where
  pub table_type : Value → Text → Text → S → Result Text (Option Text) × S
  pub fetch_table_columns : Value → Text → Text → S → Result Text (List Value) × S
  pub execute_typed : Value → Text → S → Result Text ℕ × S

unfoldable pub ddl_reply : Value → Result Text Text → Value
unfolding ok_response error_response
ddl_reply id (ok ddl) = ok_response id (string ddl)
ddl_reply id (err e) = error_response id 32602 e

module _ {S : Type 0} (client : Client S) where
  unfoldable pub ddl_of_columns : Value → Text → Text → Result Text (List Value) × S → Value × S
  unfolding ddl_reply build_table_ddl error_response
  ddl_of_columns id schema table (ok columns, s) =
      (ddl_reply id (build_table_ddl schema table columns), s)
  ddl_of_columns id schema table (err e, s) = (error_response id 32602 e, s)

  unfoldable pub ddl_of_kind : Value → Value → Text → Text → Result Text (Unit {0}) → S → Value × S
  unfolding ddl_of_columns error_response
  ddl_of_kind id conn schema table (ok u) s =
      ddl_of_columns id schema table (client.fetch_table_columns conn table schema s)
  ddl_of_kind id conn schema table (err e) s = (error_response id 32602 e, s)

  unfoldable pub kind_of : Text → Result Text (Option Text) → Result Text (Unit {0})
  unfolding base_table
  kind_of table (ok t) = base_table table t
  kind_of table (err e) = err e

  unfoldable pub get_table_ddl : Value → Value → S → Value × S
  unfolding ddl_of_kind kind_of text_param_of inner_params
  get_table_ddl id params s =
      let table = text_param_of params (codes "table") [] in
      let schema = text_param_of params (codes "schema") (codes "public") in
      let r = client.table_type (inner_params params) schema table s in
      ddl_of_kind id (inner_params params) schema table (kind_of table (r.0)) (r.1)

  unfoldable pub execute_or : Value → Value → Text → Text → S → Value × S
  unfolding executed_or inner_params
  execute_or id params failed sql s =
      executed_or id failed (client.execute_typed (inner_params params) sql s)

  unfoldable pub create_view : Value → Value → S → Value × S
  unfolding execute_or named_view text_param_of
  create_view id params s =
      execute_or id params (codes "Failed to create view: ")
        (codes "CREATE VIEW "
          ++ (named_view params ++ (codes " AS " ++ text_param_of params (codes "definition") [])))
        s

  unfoldable pub alter_view : Value → Value → S → Value × S
  unfolding execute_or named_view text_param_of
  alter_view id params s =
      execute_or id params (codes "Failed to alter view: ")
        (codes "CREATE OR REPLACE VIEW "
          ++ (named_view params ++ (codes " AS " ++ text_param_of params (codes "definition") [])))
        s

  unfoldable pub drop_view : Value → Value → S → Value × S
  unfolding execute_or named_view
  drop_view id params s =
      execute_or id params (codes "Failed to drop view: ")
        (codes "DROP VIEW IF EXISTS " ++ named_view params) s

  unfoldable pub refresh_materialized_view : Value → Value → S → Value × S
  unfolding execute_or named_view
  refresh_materialized_view id params s =
      execute_or id params (codes "Failed to refresh materialized view: ")
        (codes "REFRESH MATERIALIZED VIEW " ++ named_view params) s

  unfoldable pub create_trigger : Value → Value → S → Value × S
  unfolding execute_or text_param_of
  create_trigger id params s =
      execute_or id params (codes "Failed to create trigger: ")
        (text_param_of params (codes "trigger_sql") []) s

  unfoldable pub drop_trigger : Value → Value → S → Value × S
  unfolding execute_or text_param_of quote_identifier qualified
  drop_trigger id params s =
      execute_or id params (codes "Failed to drop trigger: ")
        (codes "DROP TRIGGER IF EXISTS "
          ++ (quote_identifier (text_param_of params (codes "trigger_name") [])
              ++ (codes " ON "
                  ++ qualified (text_param_of params (codes "schema") (codes "public"))
                      (text_param_of params (codes "table_name") []))))
        s
