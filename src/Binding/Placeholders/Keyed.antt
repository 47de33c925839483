-- ===== src/Binding/Placeholders/Keyed.antt =====
-- src/binding.rs, `build_pk_map_predicate`: which terms it joins, and which parameters it binds.
use tabularis_postgresql_plu.Binding.Placeholders.Predicates.{
  Numbered, AllNumbered, ok_or, predicate_terms-Numbered,
}
use tabularis_postgresql_plu.Binding.{Crates, BoundValue, TypedPgParam}
use tabularis_postgresql_plu.Binding.Keys.{
  Numbering, with_term, then_terms, param_list, next_idx, is_null, lookup_text, sort_keys,
  predicate_terms, predicate_text, build_pk_map_predicate, bind_pk_value,
}
use tabularis_postgresql_plu.Identifiers.{quote_identifier}
use tabularis_postgresql_plu.Query.Server.{Result, ok, err}
use tabularis_postgresql_plu.Json.{Value, Fields, end, field}
use tabularis_postgresql_plu.Base.{
  ℕ, suc, ◌≡◌, refl, ap, Bool-cases, inl, inr, true, List, [], ◌∷◌, ◌++◌, Option, none, some, Text,
  codes, join, subst, arith,
}

module _ (crates : Crates) (column_types : List (Text × Text)) where
  -- The terms of a key from an index on, in the order of its columns, with the parameters they bind.
  pub data KeyBound : Fields → ℕ → List Text → List TypedPgParam → Type 0 where
    no_key : {idx : ℕ} → KeyBound end idx [] []
    is_missing :
        {k : Text} {v : Value} {fs : Fields} {idx : ℕ} {terms : List Text} {ps : List TypedPgParam}
        → is_null v ≡ true
        → KeyBound fs idx terms ps
        → KeyBound (field k v fs) idx ((quote_identifier k ++ codes " IS NULL") ∷ terms) ps
    is_literal :
        {k : Text} {v : Value} {fs : Fields} {idx : ℕ} {terms : List Text} {ps : List TypedPgParam}
        (b : BoundValue)
        → bind_pk_value crates v idx (lookup_text column_types k) ≡ ok b
        → b.param ≡ none
        → KeyBound fs idx terms ps
        → KeyBound (field k v fs) idx ((quote_identifier k ++ (codes " = " ++ b.sql)) ∷ terms) ps
    is_bound :
        {k : Text} {v : Value} {fs : Fields} {idx : ℕ} {terms : List Text} {ps : List TypedPgParam}
        (b : BoundValue) (p : TypedPgParam)
        → bind_pk_value crates v idx (lookup_text column_types k) ≡ ok b
        → b.param ≡ some p
        → KeyBound fs (suc idx) terms ps
        → KeyBound
            (field k v fs)
            idx
            ((quote_identifier k ++ (codes " = " ++ b.sql)) ∷ terms)
            (p ∷ ps)

  abbrev AllBound : Fields → ℕ → Numbering → Type 0
  AllBound fs idx (ok (terms, params)) = KeyBound fs idx terms params
  AllBound fs idx (err e) = Unit {0}

  missing-bound :
      (k : Text) (v : Value) (fs : Fields) (idx : ℕ) (n : Numbering)
      → is_null v ≡ true
      → AllBound fs idx n
      → AllBound (field k v fs) idx (with_term (quote_identifier k ++ codes " IS NULL") none n)
  unfolding with_term param_list
  missing-bound k v fs idx (ok (terms, ps)) h g = is_missing h g
  missing-bound k v fs idx (err e) h g = tt

  literal-bound :
      (k : Text) (v : Value) (fs : Fields) (idx : ℕ) (b : BoundValue) (n : Numbering)
      → bind_pk_value crates v idx (lookup_text column_types k) ≡ ok b
      → b.param ≡ none
      → AllBound fs idx n
      → AllBound
          (field k v fs)
          idx
          (with_term (quote_identifier k ++ (codes " = " ++ b.sql)) none n)
  unfolding with_term param_list
  literal-bound k v fs idx b (ok (terms, ps)) h e g = is_literal b h e g
  literal-bound k v fs idx b (err f) h e g = tt

  param-bound :
      (k : Text) (v : Value) (fs : Fields) (idx : ℕ) (b : BoundValue) (p : TypedPgParam)
      (n : Numbering)
      → bind_pk_value crates v idx (lookup_text column_types k) ≡ ok b
      → b.param ≡ some p
      → AllBound fs (suc idx) n
      → AllBound
          (field k v fs)
          idx
          (with_term (quote_identifier k ++ (codes " = " ++ b.sql)) (some p) n)
  unfolding with_term param_list
  param-bound k v fs idx b p (ok (terms, ps)) h e g = is_bound b p h e g
  param-bound k v fs idx b p (err f) h e g = tt

  value-bound :
      (k : Text) (v : Value) (fs : Fields) (idx : ℕ) (b : BoundValue) (rest : ℕ → Numbering)
      → bind_pk_value crates v idx (lookup_text column_types k) ≡ ok b
      → ((i : ℕ) → AllBound fs i (rest i))
      → (o : Option TypedPgParam) → b.param ≡ o
      → AllBound
          (field k v fs)
          idx
          (with_term (quote_identifier k ++ (codes " = " ++ b.sql)) o (rest (next_idx idx o)))
  unfolding next_idx
  value-bound k v fs idx b rest h g none e = literal-bound k v fs idx b (rest idx) h e (g idx)
  value-bound k v fs idx b rest h g (some p) e =
      param-bound k v fs idx b p (rest (suc idx)) h e (g (suc idx))

  then_terms-bound :
      (k : Text) (v : Value) (fs : Fields) (idx : ℕ) (rest : ℕ → Numbering)
      → ((i : ℕ) → AllBound fs i (rest i))
      → (r : Result Text BoundValue) → bind_pk_value crates v idx (lookup_text column_types k) ≡ r
      → AllBound
          (field k v fs)
          idx
          (then_terms (λ sql. quote_identifier k ++ (codes " = " ++ sql)) idx rest r)
  unfolding then_terms
  then_terms-bound k v fs idx rest g (ok b) h = value-bound k v fs idx b rest h g b.param refl
  then_terms-bound k v fs idx rest g (err e) h = tt

  predicate_step-bound :
      (k : Text) (v : Value) (fs : Fields) (idx : ℕ)
      → ((i : ℕ) → AllBound fs i (predicate_terms crates column_types fs i))
      → AllBound (field k v fs) idx (predicate_terms crates column_types (field k v fs) idx)
  unfolding predicate_terms
  predicate_step-bound k v fs idx g = elim (Bool-cases (is_null v)) [
    | inl e ↦ rw e (missing-bound k v fs idx (predicate_terms crates column_types fs idx) e (g idx))
    | inr e ↦ rw e (
        then_terms-bound k v fs idx (predicate_terms crates column_types fs) g
          (bind_pk_value crates v idx (lookup_text column_types k)) refl)
  ]

  predicate_terms-bound :
      (fs : Fields) (idx : ℕ) → AllBound fs idx (predicate_terms crates column_types fs idx)
  predicate_terms-bound end idx = unfold predicate_terms in no_key
  predicate_terms-bound (field k v fs) idx =
      predicate_step-bound k v fs idx (predicate_terms-bound fs)

  -- A clause of a key: its terms joined, each numbered as its parameter is.
  abbrev pub IsKeyClause : Fields → ℕ → Text × List TypedPgParam → Type 0
  IsKeyClause pk_map idx r =
      (terms : List Text) × (r.0 ≡ join (codes " AND ") terms)
      × Numbered idx terms r.1
      × KeyBound (sort_keys pk_map) idx terms r.1

  predicate_text-bound :
      (pk_map : Fields) (idx : ℕ) (n : Numbering) (sql : Text) (params : List TypedPgParam)
      → AllNumbered idx n
      → AllBound (sort_keys pk_map) idx n
      → predicate_text n ≡ ok (sql, params)
      → IsKeyClause pk_map idx (sql, params)
  unfolding predicate_text
  predicate_text-bound pk_map idx (ok (terms, ps)) sql params h g e =
      subst (IsKeyClause pk_map idx) (ap (ok_or (sql, params)) e) (terms, refl, h, g)
  predicate_text-bound pk_map idx (err f) sql params h g e = absurd (ground arith)

  pub build_pk_map_predicate-bound :
      (pk_map : Fields) (idx : ℕ) (sql : Text) (params : List TypedPgParam)
      → build_pk_map_predicate crates column_types pk_map idx ≡ ok (sql, params)
      → IsKeyClause pk_map idx (sql, params)
  build_pk_map_predicate-bound end idx sql params h =
      absurd (unfold build_pk_map_predicate in ground arith)
  build_pk_map_predicate-bound (field k v fs) idx sql params h =
      predicate_text-bound (field k v fs) idx
        (predicate_terms crates column_types (sort_keys (field k v fs)) idx) sql params
        (predicate_terms-Numbered crates column_types (sort_keys (field k v fs)) idx)
        (predicate_terms-bound (sort_keys (field k v fs)) idx) (unfold build_pk_map_predicate in h)
