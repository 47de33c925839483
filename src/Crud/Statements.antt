-- ===== src/Crud/Statements.antt =====
-- src/handlers/crud.rs: the statements that are sent, their parameters, and the refusal of a row without
-- a key.
use tabularis_postgresql_plu.Crud.{
  Statement, Client, update_where, update_text, run, insert_rest, column_options, or_default,
  update_with, insert_terms, update_statement, exec_update, exec_delete,
}
use tabularis_postgresql_plu.Binding.{Crates, BoundValue, BindOptions, TypedPgParam}
use tabularis_postgresql_plu.Binding.Strings.{bind_pg_value}
use tabularis_postgresql_plu.Binding.Keys.{
  Numbering, param_list, next_idx, lookup_text, sort_keys, build_pk_map_predicate,
}
use tabularis_postgresql_plu.Binding.Placeholders.Keyed.{
  KeyBound, IsKeyClause, build_pk_map_predicate-bound,
}
use tabularis_postgresql_plu.Binding.Placeholders.{AllOk, IsPlaced}
use tabularis_postgresql_plu.Binding.Placeholders.Values.{bind_pg_value-placed}
use tabularis_postgresql_plu.Binding.Placeholders.Predicates.{
  Numbered, numbered_end, without_param, with_param, AllNumbered, with_term-Numbered,
}
use tabularis_postgresql_plu.Identifiers.{quote_identifier, qualified}
use tabularis_postgresql_plu.Query.Server.{Result, ok, err, is_ok}
use tabularis_postgresql_plu.Json.{Value, Fields, end, field}
use tabularis_postgresql_plu.Base.{
  ℕ, ◌≡◌, refl, subst, false, List, [], ◌∷◌, ◌++◌, Option, none, some, Text, codes, join, arith,
}

-- The parameters of an UPDATE: the one of the new value, if it binds one, stands first.
abbrev pub value_first : Option TypedPgParam → List TypedPgParam → List TypedPgParam
value_first none keys = keys
value_first (some p) keys = p ∷ keys

-- The index of the first placeholder behind the new value.
abbrev pub key_index : Option TypedPgParam → ℕ
key_index none = 1
key_index (some p) = 2

-- An UPDATE that sets a column to a value as it is bound for it, where the key says so.
abbrev pub IsUpdate :
    Crates
    → Text
    → Text
    → List (Text × Text)
    → BindOptions
    → Fields
    → Value
    → Text × List TypedPgParam
    → Type 0
IsUpdate crates table col_name column_types options pk_map new_val r =
    (b : BoundValue) × (terms : List Text) × (keys : List TypedPgParam) × (bind_pg_value crates
        new_val 1 options
      ≡ ok b)
    × (r.0
        ≡ codes "UPDATE "
          ++ (table
              ++ (codes " SET "
                  ++ (quote_identifier col_name
                      ++ (codes " = "
                          ++ (b.sql ++ (codes " WHERE " ++ join (codes " AND ") terms)))))))
    × (r.1 ≡ value_first b.param keys)
    × KeyBound crates column_types (sort_keys pk_map) (key_index b.param) terms keys
    × Numbered 1 (b.sql ∷ terms) r.1

module _ (crates : Crates) (table col_name : Text) (column_types : List (Text × Text))
    (options : BindOptions) (pk_map : Fields) (new_val : Value) where
  abbrev AllUpdates : Statement → Type 0
  AllUpdates (ok r) = IsUpdate crates table col_name column_types options pk_map new_val r
  AllUpdates (err e) = Unit {0}

  set-Numbered :
      (value : Text) (p : Option TypedPgParam) (terms : List Text) (keys : List TypedPgParam)
      → IsPlaced 1 value p
      → Numbered (key_index p) terms keys
      → Numbered 1 (value ∷ terms) (value_first p keys)
  set-Numbered value none terms keys h k = without_param k
  set-Numbered value (some p) terms keys h k = with_param h k

  param_list-value_first :
      (p : Option TypedPgParam) (keys : List TypedPgParam)
      → param_list p ++ keys ≡ value_first p keys
  unfolding param_list
  param_list-value_first none keys = refl
  param_list-value_first (some p) keys = refl

  index_of : (p : Option TypedPgParam) → next_idx 1 p ≡ key_index p
  unfolding next_idx
  index_of none = refl
  index_of (some p) = refl

  update_where-IsUpdate :
      (b : BoundValue) (predicate : Statement)
      → bind_pg_value crates new_val 1 options ≡ ok b
      → IsPlaced 1 (b.sql) (b.param)
      → ((sql : Text) (params : List TypedPgParam)
          → predicate ≡ ok (sql, params)
          → IsKeyClause crates column_types pk_map (key_index b.param) (sql, params))
      → AllUpdates (update_where table col_name b predicate)
  unfolding update_where
  update_where-IsUpdate b (err e) f h k = tt
  update_where-IsUpdate b (ok (sql, params)) f h k =
      let (terms, e, n, bound) = k sql params refl in
      (
        b,
        terms,
        params,
        f,
        rw e refl,
        param_list-value_first b.param params,
        bound,
        rw (param_list-value_first b.param params) (set-Numbered b.sql b.param terms params h n),
      )

  update_text-IsUpdate :
      (r : Result Text BoundValue)
      → bind_pg_value crates new_val 1 options ≡ r
      → AllOk 1 r
      → AllUpdates
          (update_text table col_name (build_pk_map_predicate crates column_types pk_map) r)
  unfolding update_text
  update_text-IsUpdate (ok b) f h =
      update_where-IsUpdate b
        (build_pk_map_predicate crates column_types pk_map (next_idx 1 b.param)) f h
        (λ sql params e.
          subst (λ i. IsKeyClause crates column_types pk_map i (sql, params)) (index_of b.param)
            (build_pk_map_predicate-bound crates column_types pk_map (next_idx 1 b.param) sql params
              e))
  update_text-IsUpdate (err e) f h = tt

  AllUpdates-ok :
      (st : Statement) (r : Text × List TypedPgParam)
      → AllUpdates st
      → st ≡ ok r
      → IsUpdate crates table col_name column_types options pk_map new_val r
  AllUpdates-ok st r h e = subst AllUpdates e h

module _ {S : Type 0} (client : Client S) (crates : Crates) (conn : Value)
    (table schema : Text) where
  update_with-Numbered :
      (column_types : List (Text × Text)) (options : BindOptions) (pk_map : Fields)
      (col_name : Text) (new_val : Value) (r : Text × List TypedPgParam)
      → update_with client crates conn table schema column_types options pk_map col_name new_val
        ≡ ok r
      → IsUpdate crates (qualified schema table) col_name column_types options pk_map new_val r
  update_with-Numbered column_types options pk_map col_name new_val r h =
      AllUpdates-ok crates (qualified schema table) col_name column_types options pk_map new_val
        (update_text (qualified schema table) col_name
          (build_pk_map_predicate crates column_types pk_map)
          (bind_pg_value crates new_val 1 options))
        r
        (update_text-IsUpdate crates (qualified schema table) col_name column_types options pk_map
          new_val (bind_pg_value crates new_val 1 options) refl
          (bind_pg_value-placed crates new_val 1 options))
        (unfold update_with in h)

  -- The column types of the catalogue, none if the lookup fails.
  abbrev pub types_at : S → List (Text × Text)
  types_at s = or_default [] (client.get_column_types_map conn table schema s).0

  -- Whatever the key, the value and the column types: an UPDATE that is sent sets the one column to the new
  -- value as it is bound at index 1, where the terms of the key's columns, in the order of their names,
  -- hold. Its first parameter is that of the new value, if it binds one, the others are those of the
  -- terms in their order, and the i-th parameter has the placeholder numbered i.
  pub update_statement-Numbered :
      (pk_map : Fields) (col_name : Text) (new_val : Value) (s : S) (r : Text × List TypedPgParam)
      → (update_statement client crates conn table schema pk_map col_name new_val s).0 ≡ ok r
      → (options : BindOptions) × (options.column_type ≡ lookup_text (types_at s) col_name)
        × IsUpdate crates (qualified schema table) col_name (types_at s) options pk_map new_val r
  unfolding update_statement column_options
  update_statement-Numbered pk_map col_name new_val s r h =
      (_, refl, update_with-Numbered (types_at s) _ pk_map col_name new_val r h)

  insert_rest-Numbered :
      (idx : ℕ) (rest : ℕ → S → Numbering × S) (s : S) (r : Result Text BoundValue)
      → AllOk idx r
      → ((i : ℕ) (t : S) → AllNumbered i ((rest i t).0))
      → AllNumbered idx ((insert_rest client crates idx rest s r).0)
  unfolding insert_rest
  insert_rest-Numbered idx rest s (ok b) h k =
      with_term-Numbered idx (b.sql) (b.param) _ h (k (next_idx idx (b.param)) s)
  insert_rest-Numbered idx rest s (err e) h k = tt

  -- The values of an INSERT are numbered in the same way.
  pub insert_terms-Numbered :
      (column_types enum_types : List (Text × Text)) (fs : Fields) (idx : ℕ) (s : S)
      → AllNumbered idx
          ((insert_terms client crates conn table schema column_types enum_types fs idx s).0)
  unfolding insert_terms
  insert_terms-Numbered column_types enum_types end idx s = numbered_end
  insert_terms-Numbered column_types enum_types (field k v fs) idx s =
      insert_rest-Numbered idx
        (insert_terms client crates conn table schema column_types enum_types fs) _ _
        (bind_pg_value-placed crates v idx (column_options false column_types enum_types k _))
        (insert_terms-Numbered column_types enum_types fs)

  update_text-keyless :
      (col_name : Text) (m : List (Text × Text)) (r : Result Text BoundValue)
      → is_ok
          (update_text (qualified schema table) col_name (build_pk_map_predicate crates m end) r)
        ≡ false
  unfolding update_text update_where build_pk_map_predicate
  update_text-keyless col_name m (ok b) = refl
  update_text-keyless col_name m (err e) = refl

  abbrev pub Refused : Result Text ℕ × S → S → Type 0
  Refused r s = (is_ok (r.0) ≡ false) × (r.1 ≡ s)

  run-refused :
      (st : Statement) (s : S)
      → is_ok st ≡ false
      → (is_ok ((run client crates conn st s).0) ≡ false) × ((run client crates conn st s).1 ≡ s)
  unfolding run
  run-refused (err e) s h = (refl, refl)
  run-refused (ok r) s h = absurd (ground arith)

  update_with-keyless :
      (column_types : List (Text × Text)) (options : BindOptions) (col_name : Text)
      (new_val : Value)
      → is_ok
          (update_with client crates conn table schema column_types options end col_name new_val)
        ≡ false
  update_with-keyless column_types options col_name new_val =
      unfold update_with in
      update_text-keyless col_name column_types (bind_pg_value crates new_val 1 options)

  update_statement-keyless :
      (col_name : Text) (new_val : Value) (s : S)
      → is_ok ((update_statement client crates conn table schema end col_name new_val s).0) ≡ false
  unfolding update_statement
  update_statement-keyless col_name new_val s = update_with-keyless _ _ col_name new_val

  exec_update-Refused :
      (col_name : Text) (new_val : Value) (s : S)
      → Refused
          (exec_update client crates conn table schema end col_name new_val s)
          ((update_statement client crates conn table schema end col_name new_val s).1)
  unfolding exec_update
  exec_update-Refused col_name new_val s =
      run-refused ((update_statement client crates conn table schema end col_name new_val s).0)
        ((update_statement client crates conn table schema end col_name new_val s).1)
        (update_statement-keyless col_name new_val s)

  -- A row without a key is never updated or deleted: an empty key map is an error, and after it the
  -- connection is as the lookups of the column types left it, with no statement executed.
  pub keyless-Refused :
      (col_name : Text) (new_val : Value) (s : S)
      → Refused
          (exec_update client crates conn table schema end col_name new_val s)
          ((update_statement client crates conn table schema end col_name new_val s).1)
        × Refused
            (exec_delete client crates conn table schema end s)
            ((client.get_column_types_map conn table schema s).1)
  keyless-Refused col_name new_val s =
      (exec_update-Refused col_name new_val s, unfold exec_delete in (refl, refl))
