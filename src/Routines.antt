-- ===== src/Routines.antt =====
-- src/handlers/routines.rs: calls, templates and removal of stored routines. The query of the identity
-- signatures and the execution of src/client.rs are parameters; `args_of` is serde's derived
-- deserialiser of the arguments.
pub mod Calls
use tabularis_postgresql_plu.Base.Decimal.{to_decimal}
use tabularis_postgresql_plu.Identifiers.{quote_identifier, qualified}
use tabularis_postgresql_plu.Identifiers.Literals.{quote_literal}
use tabularis_postgresql_plu.Ddl.Requests.{inner_params}
use tabularis_postgresql_plu.Rpc.{ok_response, error_response}
use tabularis_postgresql_plu.Query.Server.{Result, ok, err}
use tabularis_postgresql_plu.Json.{Value, null, string, get, get_str}
use tabularis_postgresql_plu.Base.{
  ℕ, zero, suc, Bool, true, false, ◌&&◌, not, List, [], ◌∷◌, ◌++◌, Option, none, some, ◌>>=◌, Text,
  codes, map, join, is_nil, length, eq_ignore_ascii_case, get_or_else, if◌then◌else◌,
}

pub record RoutineCallArg : Type 0 where
  pub mode : Text
  pub value : Option Text
  pub is_raw : Bool

unfoldable pub render_value : Option Text → Bool → Text
unfolding quote_literal
render_value none is_raw = codes "NULL"
render_value (some v) true = v
render_value (some v) false = quote_literal v

unfoldable pub render_sql_literal : RoutineCallArg → Text
unfolding render_value
render_sql_literal arg = render_value (arg.value) (arg.is_raw)

-- The arguments of the call: a function's pure `OUT` parameters are left out.
unfoldable pub kept_args : Bool → List RoutineCallArg → List RoutineCallArg
unfolding eq_ignore_ascii_case
kept_args is_function [] = []
kept_args is_function (a ∷ args) =
    let rest = kept_args is_function args in
    if not (is_function && eq_ignore_ascii_case (a.mode) (codes "OUT")) then a ∷ rest else rest

unfoldable pub routine_call_sql : Text → Text → List RoutineCallArg → Text → Text
unfolding qualified eq_ignore_ascii_case kept_args render_sql_literal join
routine_call_sql routine_name routine_type args schema =
    let is_function = eq_ignore_ascii_case routine_type (codes "FUNCTION") in
    (if is_function then codes "SELECT * FROM " else codes "CALL ")
    ++ (qualified schema routine_name
        ++ (codes "("
            ++ (join (codes ", ") (map render_sql_literal (kept_args is_function args))
                ++ codes ");")))

unfoldable pub template_prefix : Text → Text
unfolding quote_identifier
template_prefix schema = if is_nil schema then [] else quote_identifier schema ++ codes "."

unfoldable pub routine_template : Text → Text → Text
unfolding eq_ignore_ascii_case template_prefix
routine_template routine_type schema =
    if eq_ignore_ascii_case routine_type (codes "FUNCTION")
    then codes "CREATE OR REPLACE FUNCTION "
      ++ (template_prefix schema
          ++ codes
              "my_function(p_value integer)\nRETURNS integer\nLANGUAGE plpgsql\nAS $$\nBEGIN\n    RETURN p_value;\nEND;\n$$;\n")
    else codes "CREATE OR REPLACE PROCEDURE "
      ++ (template_prefix schema
          ++ codes
              "my_procedure(p_value integer)\nLANGUAGE plpgsql\nAS $$\nBEGIN\n    RAISE NOTICE 'value: %', p_value;\nEND;\n$$;\n")

unfoldable pub drop_routine_sql : Text → Text → Text → Text → Text
unfolding qualified eq_ignore_ascii_case
drop_routine_sql routine_name routine_type identity_args schema =
    codes "DROP "
    ++ ((if eq_ignore_ascii_case routine_type (codes "PROCEDURE")
          then codes "PROCEDURE"
          else codes "FUNCTION")
        ++ (codes " "
            ++ (qualified schema routine_name ++ (codes "(" ++ (identity_args ++ codes ")")))))

abbrev text_of : Value → Text → Text → Text
text_of params key d = get_or_else (get_str params key) d

unfoldable pub build_routine_call_sql :
    (Value → Option (List RoutineCallArg)) → Value → Value → Value
unfolding ok_response routine_call_sql get get_str
build_routine_call_sql args_of id params = ok_response id (
    string (
      routine_call_sql (text_of params (codes "routine_name") [])
        (text_of params (codes "routine_type") (codes "FUNCTION"))
        (get_or_else (get params (codes "args") >>= args_of) [])
        (text_of params (codes "schema") (codes "public"))))

unfoldable pub routine_create_template : Value → Value → Value
unfolding ok_response routine_template get_str
routine_create_template id params = ok_response id (
    string (
      routine_template (text_of params (codes "routine_type") (codes "FUNCTION"))
        (text_of params (codes "schema") (codes "public"))))

unfoldable pub dropped {ℓ} : {S : Type ℓ} → Value → Result Text ℕ × S → Value × S
unfolding ok_response error_response
dropped id (ok n, s) = (ok_response id null, s)
dropped id (err e, s) = (error_response id 32602 e, s)

-- The query of the identity signatures, one row for an overload, and the execution.
pub record Client (S : Type 0) : Type 0 where
  pub identity_args : Value → Text → Text → S → Result Text (List (Option Text)) × S
  pub execute_typed : Value → Text → S → Result Text ℕ × S

module _ {S : Type 0} (client : Client S) where
  -- What the rows say: exactly one overload is dropped.
  unfoldable pub drop_found :
      Value → Text → Text → Text → Result Text (List (Option Text)) × S → Result Text ℕ × S
  unfolding drop_routine_sql to_decimal
  drop_found conn routine_name routine_type schema (err e, s) = (err e, s)
  drop_found conn routine_name routine_type schema (ok [], s) = (
    err (
        codes "Routine '"
        ++ (routine_name ++ (codes "' not found in schema '" ++ (schema ++ codes "'")))),
    s,
  )
  drop_found conn routine_name routine_type schema (ok (a ∷ []), s) =
      client.execute_typed conn
        (drop_routine_sql routine_name routine_type (get_or_else a []) schema) s
  drop_found conn routine_name routine_type schema (ok (a ∷ b ∷ rows), s) = (
    err (
        codes "Routine '"
        ++ (routine_name
            ++ (codes "' has "
                ++ (to_decimal (length (a ∷ b ∷ rows))
                    ++ codes " overloads; drop it manually specifying the argument types")))),
    s,
  )

  unfoldable pub exec_drop_routine : Value → Text → Text → Text → S → Result Text ℕ × S
  unfolding drop_found
  exec_drop_routine conn routine_name routine_type schema s =
      drop_found conn routine_name routine_type schema
        (client.identity_args conn schema routine_name s)

  unfoldable pub drop_routine : Value → Value → S → Value × S
  unfolding exec_drop_routine dropped get_str inner_params
  drop_routine id params s = dropped id (
      exec_drop_routine (inner_params params) (text_of params (codes "routine_name") [])
        (text_of params (codes "routine_type") (codes "FUNCTION"))
        (text_of params (codes "schema") (codes "public")) s)
