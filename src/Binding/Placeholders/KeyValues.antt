-- ===== src/Binding/Placeholders/KeyValues.antt =====
-- src/binding.rs: the placeholder of `bind_pk_value`.
use tabularis_postgresql_plu.Binding.Placeholders.{
  HasPlaceholder, IsPlaced, AllOk, AllSome, placeholder-placed, if_some-placed, or_else-placed,
  bind_some-placed, bigint-placed, temporal-placed, numeric-placed,
}
use tabularis_postgresql_plu.Binding.{
  Crates, BoundValue, TypedPgParam, uuid_param, placeholder, bound, unbound,
}
use tabularis_postgresql_plu.Binding.Numbers.{
  bind_bigint, bind_pg_number, parse_unsafe_bigint_string,
}
use tabularis_postgresql_plu.Binding.Strings.{or_else}
use tabularis_postgresql_plu.Binding.Keys.{
  is_none_or, is_real_type, row_value, row_result, typed_key, bind_text_key, key_base_type,
  bind_pk_value, integer_key_types,
}
use tabularis_postgresql_plu.Query.Server.{Result, ok, err}
use tabularis_postgresql_plu.Json.{Value, null, bool, number, string, array, object}
use tabularis_postgresql_plu.Base.{
  ℕ, ap, ◌∙◌, Bool, true, false, ◌++◌, append_assoc, Option, none, some, ◌>>=◌, Text, codes,
  text_eq, one_of,
}
use tabularis_postgresql_plu.Binding.Placeholders.Values.{number-placed}

module _ (crates : Crates) where
  row_value-placed :
      (idx : ℕ) (sql : Text)
      → HasPlaceholder idx sql
      → HasPlaceholder idx (codes "CAST(" ++ (sql ++ codes " AS real)"))
  row_value-placed idx sql (pre, post, e) = (
    codes "CAST(" ++ pre,
    post ++ codes " AS real)",
    rw e (
        ap (λ t. codes "CAST(" ++ t)
          (append_assoc pre (placeholder idx ++ post) (codes " AS real)")
            ∙ ap (◌++◌ pre) (append_assoc (placeholder idx) post (codes " AS real)")))),
  )

  row_param-IsPlaced :
      (idx : ℕ) (sql : Text) (p : Option TypedPgParam)
      → IsPlaced idx sql p
      → IsPlaced idx (codes "CAST(" ++ (sql ++ codes " AS real)")) p
  row_param-IsPlaced idx sql (some p) h = row_value-placed idx sql h
  row_param-IsPlaced idx sql none h = tt

  row_result-placed :
      (idx : ℕ) (is_real : Bool) (r : Result Text BoundValue)
      → AllOk idx r
      → AllOk idx (row_result is_real r)
  unfolding row_result row_value
  row_result-placed idx true (ok b) h = row_param-IsPlaced idx (b.sql) (b.param) h
  row_result-placed idx false (ok b) h = h
  row_result-placed idx is_real (err e) h = tt

  typed_numeric-placed :
      (idx : ℕ) (o p : Option (Result Text BoundValue))
      → AllSome idx o
      → AllSome idx p
      → AllSome idx (or_else (do r ← o; some (some r)) p)
  unfolding or_else
  typed_numeric-placed idx (some r) p h k = h
  typed_numeric-placed idx none p h k = k

  typed_key-placed : (s : Text) (idx : ℕ) (o : Option Text) → AllSome idx (typed_key crates s idx o)
  unfolding typed_key
  typed_key-placed s idx none = tt
  typed_key-placed s idx (some base_type) =
      typed_numeric-placed idx _ _ (numeric-placed crates s base_type idx)
        (temporal-placed s base_type idx)

  real_step-placed :
      (idx : ℕ) (is_real : Bool) (o : Option (Result Text BoundValue))
      → AllSome idx o
      → AllSome idx (do r ← o; some (row_result is_real r))
  real_step-placed idx is_real (some r) h = row_result-placed idx is_real r h
  real_step-placed idx is_real none h = tt

  text_key-placed :
      (s : Text) (idx : ℕ) (o : Option Text) → AllOk idx (bind_text_key crates s idx o)
  unfolding bind_text_key bound
  text_key-placed s idx o =
      or_else-placed idx _ _
        (if_some-placed idx (is_none_or (λ t. text_eq t (codes "UUID")) o) _ _
          (bind_some-placed idx (λ u. ok (bound (placeholder idx) (uuid_param u)))
            (crates.parse_uuid s) (λ u. placeholder-placed idx))
          tt)
        (or_else-placed idx _ _
          (real_step-placed idx (is_real_type o) (typed_key crates s idx o)
            (typed_key-placed s idx o))
          (or_else-placed idx _ _
            (if_some-placed idx (is_none_or (λ t. one_of t integer_key_types) o) _ _
              (bind_some-placed idx (λ i. ok (bind_bigint idx i)) (parse_unsafe_bigint_string s)
                (bigint-placed idx))
              tt)
            (placeholder-placed idx)))

  -- If a value of the key is bound with a parameter, the SQL fragment holds the placeholder of the index
  -- that was asked for, also within the cast of a float4 column.
  pub bind_pk_value-placed :
      (v : Value) (idx : ℕ) (column_type : Option Text)
      → AllOk idx (bind_pk_value crates v idx column_type)
  unfolding bind_pk_value bound unbound
  bind_pk_value-placed (number n) idx column_type =
      row_result-placed idx (is_real_type (key_base_type crates column_type))
        (bind_pg_number crates (codes "Unsupported numeric PK value") n idx)
        (number-placed crates (codes "Unsupported numeric PK value") n idx)
  bind_pk_value-placed (string s) idx column_type =
      text_key-placed s idx (key_base_type crates column_type)
  bind_pk_value-placed null idx column_type = tt
  bind_pk_value-placed (bool b) idx column_type = placeholder-placed idx
  bind_pk_value-placed (array items) idx column_type = tt
  bind_pk_value-placed (object fs) idx column_type = tt
