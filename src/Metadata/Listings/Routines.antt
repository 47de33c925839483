-- ===== src/Metadata/Listings/Routines.antt =====
-- src/handlers/metadata.rs: the handlers that list routines and triggers.
use tabularis_postgresql_plu.Metadata.Listings.{
  name_param, schema_param, conn_of, list_reply, definition_reply, rows_about,
}
use tabularis_postgresql_plu.Metadata.{text_param_of}
use tabularis_postgresql_plu.Metadata.Grouping.{items_of}
use tabularis_postgresql_plu.Metadata.Rows.{
  row_to_routine, row_to_parameter, result_parameter, row_to_trigger,
}
use tabularis_postgresql_plu.Metadata.Queries.Routines.{
  version_query, routines_query, old_routines_query, routine_info_query, routine_parameters_query,
  routine_definition_query, triggers_query, trigger_definition_query,
}
use tabularis_postgresql_plu.Catalog.{Row, QueryRows, int4_at}
use tabularis_postgresql_plu.Rpc.{ok_response, error_response}
use tabularis_postgresql_plu.Ddl.Requests.{inner_params}
use tabularis_postgresql_plu.Query.Server.{Result, ok, err}
use tabularis_postgresql_plu.Base.Integers.{ℤ, pos, negsuc}
use tabularis_postgresql_plu.Json.{Value, array}
use tabularis_postgresql_plu.Base.{
  ℕ, Bool, false, not, List, [], ◌∷◌, ◌++◌, Text, codes, ltb, map, get_or_else, if◌then◌else◌,
}

abbrev at_least : ℕ → ℤ → Bool
at_least n (pos m) = not (ltb m n)
at_least n (negsuc m) = false

unfoldable pub routine_query_for_version : ℤ → Text
routine_query_for_version v = if at_least 110000 v then routines_query else old_routines_query

-- The version in the first row, or 0.
unfoldable pub version_of : List Row → ℤ
unfolding int4_at
version_of [] = pos 0
version_of (r ∷ rows) = get_or_else (int4_at r (codes "v")) (pos 0)

unfoldable pub parameters_reply :
    {S : Type 0} → Value → List Value → Result Text (List Row) × S → Value × S
unfolding items_of row_to_parameter ok_response error_response
parameters_reply id first (ok rows, s) =
    (ok_response id (array (items_of (first ++ map row_to_parameter rows))), s)
parameters_reply id first (err e, s) = (error_response id 32602 e, s)

module _ {S : Type 0} (query_rows : QueryRows S) where
  unfoldable pub routines_of_version : Value → Value → Result Text (List Row) × S → Value × S
  unfolding list_reply row_to_routine version_of routine_query_for_version error_response
      inner_params text_param_of
  routines_of_version id params (err e, s) = (error_response id 32602 e, s)
  routines_of_version id params (ok rows, s) = list_reply id row_to_routine (
      query_rows (conn_of params) (routine_query_for_version (version_of rows))
        (schema_param params ∷ []) s)

  unfoldable pub get_routines : Value → Value → S → Value × S
  unfolding routines_of_version inner_params
  get_routines id params s =
      routines_of_version id params (query_rows (conn_of params) version_query [] s)

  unfoldable pub parameters_behind : Value → Value → Result Text (List Row) × S → Value × S
  unfolding parameters_reply result_parameter rows_about error_response
  parameters_behind id params (err e, s) = (error_response id 32602 e, s)
  parameters_behind id params (ok info, s) =
      parameters_reply id (result_parameter info)
        (rows_about query_rows routine_parameters_query (codes "routine_name") params s)

  unfoldable pub get_routine_parameters : Value → Value → S → Value × S
  unfolding parameters_behind rows_about
  get_routine_parameters id params s =
      parameters_behind id params
        (rows_about query_rows routine_info_query (codes "routine_name") params s)

  unfoldable pub get_routine_definition : Value → Value → S → Value × S
  unfolding definition_reply rows_about text_param_of
  get_routine_definition id params s =
      definition_reply id []
        (codes "Routine '" ++ (name_param params (codes "routine_name") ++ codes "' not found"))
        (rows_about query_rows routine_definition_query (codes "routine_name") params s)

  unfoldable pub get_triggers : Value → Value → S → Value × S
  unfolding list_reply row_to_trigger inner_params text_param_of
  get_triggers id params s =
      list_reply id row_to_trigger
        (query_rows (conn_of params) triggers_query (schema_param params ∷ []) s)

  unfoldable pub get_trigger_definition : Value → Value → S → Value × S
  unfolding definition_reply inner_params text_param_of
  get_trigger_definition id params s =
      definition_reply id []
        (codes "Trigger '" ++ (name_param params (codes "trigger_name") ++ codes "' not found"))
        (query_rows (conn_of params) trigger_definition_query
          (name_param params (codes "trigger_name")
            ∷ name_param params (codes "table_name")
            ∷ schema_param params
            ∷ [])
          s)
