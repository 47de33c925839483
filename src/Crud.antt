-- ===== src/Crud.antt =====
-- src/handlers/crud.rs: insert_record, update_record and delete_record. The catalog lookups and the
-- execution of src/client.rs are parameters over the state of the connection.
pub mod Statements
pub mod Blobs
use tabularis_postgresql_plu.Binding.{Crates, BoundValue, BindOptions, TypedPgParam}
use tabularis_postgresql_plu.Binding.Strings.{bind_pg_value}
use tabularis_postgresql_plu.Binding.Keys.{
  Numbering, with_term, param_list, next_idx, lookup_text, build_pk_map_predicate,
}
use tabularis_postgresql_plu.Identifiers.{quote_identifier, qualified}
use tabularis_postgresql_plu.Rpc.{ok_response, error_response}
use tabularis_postgresql_plu.Query.Server.{Result, ok, err}
use tabularis_postgresql_plu.Json.{
  Value, null, number, pos_int, Fields, end, field, get, get_str, as_object,
}
use tabularis_postgresql_plu.Ddl.Requests.{inner_params}
use tabularis_postgresql_plu.Base.{
  ℕ, Bool, true, false, List, [], ◌∷◌, ◌++◌, Option, none, some, ◌>>=◌, Text, codes, text_eq, join,
  get_or_else, if◌then◌else◌,
}

-- `unwrap_or_default`, and `unwrap_or` of a lookup.
unfoldable pub or_default {ℓ} : {A : Type ℓ} → A → Result Text A → A
or_default d (ok a) = a
or_default d (err e) = d

unfoldable pub column_list : Fields → List Text
unfolding quote_identifier
column_list end = []
column_list (field k v fs) = quote_identifier k ∷ column_list fs

abbrev pub Statement : Type 0
Statement = Result Text (Text × List TypedPgParam)

unfoldable pub insert_text : Text → List Text → Numbering → Statement
unfolding join
insert_text table cols (ok (terms, params)) = ok (
  codes "INSERT INTO "
      ++ (table
          ++ (codes " ("
              ++ (join (codes ", ") cols
                  ++ (codes ") VALUES (" ++ (join (codes ", ") terms ++ codes ")"))))),
  params,
)
insert_text table cols (err e) = err e

unfoldable pub update_where : Text → Text → BoundValue → Statement → Statement
unfolding quote_identifier param_list
update_where table col_name b (ok (predicate, params)) = ok (
  codes "UPDATE "
      ++ (table
          ++ (codes " SET "
              ++ (quote_identifier col_name
                  ++ (codes " = " ++ (b.sql ++ (codes " WHERE " ++ predicate)))))),
  param_list (b.param) ++ params,
)
update_where table col_name b (err e) = err e

unfoldable pub update_text : Text → Text → (ℕ → Statement) → Result Text BoundValue → Statement
unfolding update_where next_idx
update_text table col_name predicate (ok b) =
    update_where table col_name b (predicate (next_idx 1 (b.param)))
update_text table col_name predicate (err e) = err e

unfoldable pub delete_text : Text → Statement → Statement
delete_text table (ok (predicate, params)) =
    ok (codes "DELETE FROM " ++ (table ++ (codes " WHERE " ++ predicate)), params)
delete_text table (err e) = err e

unfoldable pub is_hstore : Option Text → Bool
unfolding text_eq
is_hstore (some t) = text_eq t (codes "hstore")
is_hstore none = false

unfoldable pub column_options :
    Bool → List (Text × Text) → List (Text × Text) → Text → Option ℕ → BindOptions
unfolding lookup_text
column_options allow_default column_types enum_types col oid = record {
  column_type = lookup_text column_types col;
  enum_type = lookup_text enum_types col;
  allow_default = allow_default;
  hstore_oid = oid;
}

-- The lookups and the execution, by the parameters of the connection.
pub record Client (S : Type 0) : Type 0 where
  pub get_column_types_map : Value → Text → Text → S → Result Text (List (Text × Text)) × S
  pub get_enum_column_types : Value → Text → Text → S → Result Text (List (Text × Text)) × S
  pub get_hstore_oid_for_column : Value → Text → Text → Text → S → Result Text (Option ℕ) × S
  pub execute_typed : Value → Text → List TypedPgParam → S → Result Text ℕ × S

unfoldable pub affected {ℓ} : {S : Type ℓ} → Value → Result Text ℕ × S → Value × S
unfolding ok_response error_response
affected id (ok n, s) = (ok_response id (number (pos_int n)), s)
affected id (err e, s) = (error_response id 32602 e, s)

module _ {S : Type 0} (client : Client S) (crates : Crates) where
  -- The OID is looked up for a column of the type hstore only.
  unfoldable pub oid_of : Value → Text → Text → Text → Option Text → S → Option ℕ × S
  unfolding is_hstore or_default
  oid_of conn schema table col column_type s =
      let r = client.get_hstore_oid_for_column conn schema table col s in
      if is_hstore column_type then (or_default none (r.0), r.1) else (none, s)

  unfoldable pub run : Value → Statement → S → Result Text ℕ × S
  run conn (ok (sql, params)) s = client.execute_typed conn sql params s
  run conn (err e) s = (err e, s)

  -- What follows a bound value of an insertion.
  unfoldable pub insert_rest :
      ℕ → (ℕ → S → Numbering × S) → S → Result Text BoundValue → Numbering × S
  unfolding with_term next_idx
  insert_rest idx rest s (ok b) =
      let r = rest (next_idx idx (b.param)) s in (with_term (b.sql) (b.param) (r.0), r.1)
  insert_rest idx rest s (err e) = (err e, s)

  module _ (conn : Value) (table schema : Text) where
    -- The loop over the entries.
    unfoldable pub insert_terms :
        List (Text × Text) → List (Text × Text) → Fields → ℕ → S → Numbering × S
    unfolding insert_rest bind_pg_value lookup_text oid_of column_options
    insert_terms column_types enum_types end idx s = (ok ([], []), s)
    insert_terms column_types enum_types (field k v fs) idx s =
        let column_type = lookup_text column_types k in
        let oid = oid_of conn schema table k column_type s in
        insert_rest idx (insert_terms column_types enum_types fs) (oid.1)
          (bind_pg_value crates v idx (column_options false column_types enum_types k (oid.0)))

    unfoldable pub insert_statement : Fields → S → Statement × S
    unfolding insert_text insert_terms qualified column_list or_default
    insert_statement end s =
        (ok (codes "INSERT INTO " ++ (qualified schema table ++ codes " DEFAULT VALUES"), []), s)
    insert_statement (field k v fs) s =
        let types = client.get_column_types_map conn table schema s in
        let enums = client.get_enum_column_types conn schema table (types.1) in
        let r =
          insert_terms (or_default [] (types.0)) (or_default [] (enums.0)) (field k v fs) 1
            (enums.1) in
        (insert_text (qualified schema table) (column_list (field k v fs)) (r.0), r.1)

    unfoldable pub exec_insert : Fields → S → Result Text ℕ × S
    unfolding run insert_statement
    exec_insert data_map s = let r = insert_statement data_map s in run conn (r.0) (r.1)

    unfoldable pub update_with :
        List (Text × Text) → BindOptions → Fields → Text → Value → Statement
    unfolding update_text bind_pg_value build_pk_map_predicate qualified
    update_with column_types options pk_map col_name new_val =
        update_text (qualified schema table) col_name
          (build_pk_map_predicate crates column_types pk_map)
          (bind_pg_value crates new_val 1 options)

    unfoldable pub update_statement : Fields → Text → Value → S → Statement × S
    unfolding oid_of lookup_text or_default column_options
    update_statement pk_map col_name new_val s =
        let types = client.get_column_types_map conn table schema s in
        let column_types = or_default [] (types.0) in
        let enums = client.get_enum_column_types conn schema table (types.1) in
        let oid = oid_of conn schema table col_name (lookup_text column_types col_name) (enums.1) in
        (
          update_with column_types
              (column_options true column_types (or_default [] (enums.0)) col_name (oid.0)) pk_map
              col_name new_val,
          oid.1,
        )

    unfoldable pub exec_update : Fields → Text → Value → S → Result Text ℕ × S
    unfolding run update_statement update_with
    exec_update pk_map col_name new_val s =
        let r = update_statement pk_map col_name new_val s in run conn (r.0) (r.1)

    unfoldable pub delete_statement : Fields → S → Statement × S
    unfolding delete_text build_pk_map_predicate qualified or_default
    delete_statement pk_map s =
        let types = client.get_column_types_map conn table schema s in
        (
          delete_text (qualified schema table)
              (build_pk_map_predicate crates (or_default [] (types.0)) pk_map 1),
          types.1,
        )

    unfoldable pub exec_delete : Fields → S → Result Text ℕ × S
    unfolding run delete_statement
    exec_delete pk_map s = let r = delete_statement pk_map s in run conn (r.0) (r.1)

  unfoldable pub text_of : Value → Text → Text → Text
  unfolding get_str
  text_of params key d = get_or_else (get_str params (key)) d

  unfoldable pub map_of : Value → Text → Fields
  unfolding get as_object
  map_of params key = get_or_else (get params key >>= as_object) end

  unfoldable pub insert_record : Value → Value → S → Value × S
  unfolding exec_insert affected text_of map_of inner_params
  insert_record id params s = affected id (
      exec_insert (inner_params params) (text_of params (codes "table") [])
        (text_of params (codes "schema") (codes "public")) (map_of params (codes "data")) s)

  unfoldable pub update_record : Value → Value → S → Value × S
  unfolding exec_update affected text_of map_of inner_params get
  update_record id params s = affected id (
      exec_update (inner_params params) (text_of params (codes "table") [])
        (text_of params (codes "schema") (codes "public")) (map_of params (codes "pk_map"))
        (text_of params (codes "col_name") []) (get_or_else (get params (codes "new_val")) null) s)

  unfoldable pub delete_record : Value → Value → S → Value × S
  unfolding exec_delete affected text_of map_of inner_params
  delete_record id params s = affected id (
      exec_delete (inner_params params) (text_of params (codes "table") [])
        (text_of params (codes "schema") (codes "public")) (map_of params (codes "pk_map")) s)
