-- ===== src/Binding/Keys.antt =====
-- src/binding.rs: `bind_pk_value` and `build_pk_map_predicate`, the WHERE clause that names one row.
use tabularis_postgresql_plu.Binding.{
  Crates, BoundValue, TypedPgParam, bool_param, uuid_param, text_param, placeholder, bound, unbound,
  extract_base_type,
}
use tabularis_postgresql_plu.Binding.Numbers.{
  bind_pg_number, bind_pg_numeric_string, bind_pg_temporal_string, bind_bigint,
  parse_unsafe_bigint_string,
}
use tabularis_postgresql_plu.Binding.Strings.{or_else}
use tabularis_postgresql_plu.Identifiers.{quote_identifier}
use tabularis_postgresql_plu.Query.Server.{Result, ok, err}
use tabularis_postgresql_plu.Json.{Value, null, bool, number, string, Fields, end, field}
use tabularis_postgresql_plu.Base.{
  ℕ, suc, Bool, true, false, ◌||◌, ◌&&◌, List, [], ◌∷◌, ◌++◌, Option, none, some, ◌>>=◌, Text,
  codes, text_eq, one_of, join, ltb, ◌==◌, if◌then◌else◌,
}

abbrev pub integer_key_types : List Text
integer_key_types =
    codes "SMALLINT"
    ∷ codes "INTEGER"
    ∷ codes "BIGINT"
    ∷ codes "INT2"
    ∷ codes "INT4"
    ∷ codes "INT8"
    ∷ []

-- `is_none_or`.
unfoldable pub is_none_or : (Text → Bool) → Option Text → Bool
is_none_or p none = true
is_none_or p (some t) = p t

unfoldable pub is_real_type : Option Text → Bool
unfolding one_of
is_real_type none = false
is_real_type (some t) = one_of t (codes "REAL" ∷ codes "FLOAT4" ∷ [])

-- `row_value`: a float4 column compares at its own precision.
unfoldable pub row_value : Bool → BoundValue → BoundValue
row_value is_real b =
    if is_real
    then record { sql = codes "CAST(" ++ (b.sql ++ codes " AS real)"); param = b.param }
    else b

unfoldable pub row_result : Bool → Result Text BoundValue → Result Text BoundValue
unfolding row_value
row_result is_real (ok b) = ok (row_value is_real b)
row_result is_real (err e) = err e

module _ (crates : Crates) where
  unfoldable pub typed_key : Text → ℕ → Option Text → Option (Result Text BoundValue)
  unfolding or_else bind_pg_numeric_string bind_pg_temporal_string
  typed_key s idx none = none
  typed_key s idx (some base_type) =
      or_else (do r ← bind_pg_numeric_string crates s base_type idx; some (some r))
        (bind_pg_temporal_string s base_type idx)

  unfoldable pub bind_text_key : Text → ℕ → Option Text → Result Text BoundValue
  unfolding or_else is_none_or text_eq typed_key row_result is_real_type one_of
      parse_unsafe_bigint_string bind_bigint bound placeholder
  bind_text_key s idx base_type =
      or_else
        (if is_none_or (λ t. text_eq t (codes "UUID")) base_type
          then (do u ← crates.parse_uuid s; some (ok (bound (placeholder idx) (uuid_param u))))
          else none)
        (or_else (do r ← typed_key s idx base_type; some (row_result (is_real_type base_type) r))
          (or_else
            (if is_none_or (λ t. one_of t integer_key_types) base_type
              then (do i ← parse_unsafe_bigint_string s; some (ok (bind_bigint idx i)))
              else none)
            (ok (bound (placeholder idx) (text_param s)))))

  unfoldable pub key_base_type : Option Text → Option Text
  unfolding extract_base_type
  key_base_type column_type = do t ← column_type; some (extract_base_type crates t)

  unfoldable pub bind_pk_value : Value → ℕ → Option Text → Result Text BoundValue
  unfolding bind_pg_number row_result is_real_type bind_text_key key_base_type bound unbound
      placeholder
  bind_pk_value (number n) idx column_type =
      row_result (is_real_type (key_base_type column_type))
        (bind_pg_number crates (codes "Unsupported numeric PK value") n idx)
  bind_pk_value (string s) idx column_type = bind_text_key s idx (key_base_type column_type)
  bind_pk_value null idx column_type = ok (unbound (codes "IS NULL"))
  bind_pk_value (bool b) idx column_type = ok (bound (placeholder idx) (bool_param b))
  bind_pk_value v idx column_type = err (codes "Unsupported PK type")

-- The order of `String`, by code points.
unfoldable pub text_leb : Text → Text → Bool
text_leb [] t = true
text_leb (c ∷ s) [] = false
text_leb (c ∷ s) (d ∷ t) = ltb c d || (c == d && text_leb s t)

unfoldable pub insert_key : Text → Value → Fields → Fields
unfolding text_leb
insert_key k v end = field k v end
insert_key k v (field j w fs) =
    let rest = insert_key k v fs in
    if text_leb k j then field k v (field j w fs) else field j w rest

-- The members by their sorted keys.
unfoldable pub sort_keys : Fields → Fields
unfolding insert_key
sort_keys end = end
sort_keys (field k v fs) = insert_key k v (sort_keys fs)

-- `HashMap::get`.
unfoldable pub lookup_text : List (Text × Text) → Text → Option Text
unfolding text_eq
lookup_text [] k = none
lookup_text ((j, t) ∷ m) k = if text_eq j k then some t else lookup_text m k

-- One more parameter, if there is one.
unfoldable pub param_list : Option TypedPgParam → List TypedPgParam
param_list none = []
param_list (some p) = p ∷ []

unfoldable pub next_idx : ℕ → Option TypedPgParam → ℕ
next_idx idx none = idx
next_idx idx (some p) = suc idx

abbrev pub Numbering : Type 0
Numbering = Result Text (List Text × List TypedPgParam)

-- A term in front of those that follow it.
unfoldable pub with_term : Text → Option TypedPgParam → Numbering → Numbering
unfolding param_list
with_term sql p (ok (terms, params)) = ok (sql ∷ terms, param_list p ++ params)
with_term sql p (err e) = err e

-- A bound term, `rest` making those that follow from the next index.
unfoldable pub then_terms : (Text → Text) → ℕ → (ℕ → Numbering) → Result Text BoundValue → Numbering
unfolding with_term next_idx
then_terms term idx rest (ok b) = with_term (term (b.sql)) (b.param) (rest (next_idx idx (b.param)))
then_terms term idx rest (err e) = err e

unfoldable pub is_null : Value → Bool
is_null null = true
is_null v = false

unfoldable pub predicate_text : Numbering → Result Text (Text × List TypedPgParam)
unfolding join
predicate_text (ok (terms, params)) = ok (join (codes " AND ") terms, params)
predicate_text (err e) = err e

module _ (crates : Crates) (column_types : List (Text × Text)) where
  unfoldable pub predicate_terms : Fields → ℕ → Numbering
  unfolding then_terms with_term is_null bind_pk_value lookup_text quote_identifier
  predicate_terms end idx = ok ([], [])
  predicate_terms (field k v fs) idx =
      let rest = predicate_terms fs idx in
      if is_null v
      then with_term (quote_identifier k ++ codes " IS NULL") none rest
      else then_terms (λ sql. quote_identifier k ++ (codes " = " ++ sql)) idx (predicate_terms fs)
          (bind_pk_value crates v idx (lookup_text column_types k))

  unfoldable pub build_pk_map_predicate : Fields → ℕ → Result Text (Text × List TypedPgParam)
  unfolding predicate_text predicate_terms sort_keys
  build_pk_map_predicate end idx = err (codes "pk_map must not be empty")
  build_pk_map_predicate (field k v fs) idx =
      predicate_text (predicate_terms (sort_keys (field k v fs)) idx)
