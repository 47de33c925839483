-- ===== src/Binding/Placeholders/Predicates.antt =====
-- src/binding.rs, `build_pk_map_predicate`: its terms and the numbers of their placeholders.
use tabularis_postgresql_plu.Binding.Placeholders.{HasPlaceholder, IsPlaced, AllOk}
use tabularis_postgresql_plu.Binding.Placeholders.KeyValues.{bind_pk_value-placed}
use tabularis_postgresql_plu.Binding.{Crates, BoundValue, TypedPgParam, placeholder}
use tabularis_postgresql_plu.Binding.Keys.{
  Numbering, with_term, then_terms, param_list, next_idx, is_null, lookup_text, predicate_terms,
  bind_pk_value,
}
use tabularis_postgresql_plu.Identifiers.{quote_identifier}
use tabularis_postgresql_plu.Query.Server.{Result, ok, err}
use tabularis_postgresql_plu.Json.{Value, Fields, end, field}
use tabularis_postgresql_plu.Base.{
  ℕ, suc, sym, Bool, true, false, List, [], ◌∷◌, ◌++◌, append_assoc, Option, none, some, Text,
  codes, if◌then◌else◌,
}

-- Terms with the parameters they bind: each one that binds a parameter holds the placeholder whose
-- number is the parameter's position, counted from `idx`.
pub data Numbered : ℕ → List Text → List TypedPgParam → Type 0 where
  numbered_end : {idx : ℕ} → Numbered idx [] []
  without_param :
      {idx : ℕ} {sql : Text} {terms : List Text} {ps : List TypedPgParam}
      → Numbered idx terms ps
      → Numbered idx (sql ∷ terms) ps
  with_param :
      {idx : ℕ} {sql : Text} {p : TypedPgParam} {terms : List Text} {ps : List TypedPgParam}
      → HasPlaceholder idx sql
      → Numbered (suc idx) terms ps
      → Numbered idx (sql ∷ terms) (p ∷ ps)

abbrev pub AllNumbered : ℕ → Numbering → Type 0
AllNumbered idx (ok (terms, params)) = Numbered idx terms params
AllNumbered idx (err e) = Unit {0}

pub with_term-Numbered :
    (idx : ℕ) (sql : Text) (p : Option TypedPgParam) (n : Numbering)
    → IsPlaced idx sql p
    → AllNumbered (next_idx idx p) n
    → AllNumbered idx (with_term sql p n)
unfolding with_term param_list next_idx
with_term-Numbered idx sql none (ok (terms, params)) h k = without_param k
with_term-Numbered idx sql (some p) (ok (terms, params)) h k = with_param h k
with_term-Numbered idx sql p (err e) h k = tt

pub IsPlaced-mono :
    (idx : ℕ) (sql : Text) (f : Text → Text) (p : Option TypedPgParam)
    → (HasPlaceholder idx sql → HasPlaceholder idx (f sql))
    → IsPlaced idx sql p
    → IsPlaced idx (f sql) p
IsPlaced-mono idx sql f none g h = tt
IsPlaced-mono idx sql f (some p) g h = g h

pub then_terms-Numbered :
    (term : Text → Text) (idx : ℕ) (rest : ℕ → Numbering) (r : Result Text BoundValue)
    → ((sql : Text) → HasPlaceholder idx sql → HasPlaceholder idx (term sql))
    → AllOk idx r
    → ((i : ℕ) → AllNumbered i (rest i))
    → AllNumbered idx (then_terms term idx rest r)
unfolding then_terms
then_terms-Numbered term idx rest (ok b) f h k =
    with_term-Numbered idx (term (b.sql)) (b.param) (rest (next_idx idx (b.param)))
      (IsPlaced-mono idx (b.sql) term (b.param) (f (b.sql)) h) (k (next_idx idx (b.param)))
then_terms-Numbered term idx rest (err e) f h k = tt

behind-placed :
    (idx : ℕ) (front sql : Text) → HasPlaceholder idx sql → HasPlaceholder idx (front ++ sql)
behind-placed idx front sql (pre, post, e) =
    (front ++ pre, post, rw e (sym (append_assoc front pre (placeholder idx ++ post))))

if-Numbered :
    (idx : ℕ) (b : Bool) (m n : Numbering)
    → AllNumbered idx m
    → AllNumbered idx n
    → AllNumbered idx (if b then m else n)
if-Numbered idx true m n h k = h
if-Numbered idx false m n h k = k

abbrev pub ok_or :
    Text × List TypedPgParam → Result Text (Text × List TypedPgParam) → Text × List TypedPgParam
ok_or d (ok r) = r
ok_or d (err e) = d

module _ (crates : Crates) (column_types : List (Text × Text)) where
  predicate_step :
      (k : Text) (v : Value) (fs : Fields) (idx : ℕ)
      → ((i : ℕ) → AllNumbered i (predicate_terms crates column_types fs i))
      → AllNumbered idx (predicate_terms crates column_types (field k v fs) idx)
  unfolding predicate_terms
  predicate_step k v fs idx h =
      if-Numbered idx (is_null v) _ _
        (with_term-Numbered idx (quote_identifier k ++ codes " IS NULL") none
          (predicate_terms crates column_types fs idx) tt (h idx))
        (then_terms-Numbered (λ sql. quote_identifier k ++ (codes " = " ++ sql)) idx
          (predicate_terms crates column_types fs)
          (bind_pk_value crates v idx (lookup_text column_types k))
          (λ sql p.
            behind-placed idx (quote_identifier k) (codes " = " ++ sql)
              (behind-placed idx (codes " = ") sql p))
          (bind_pk_value-placed crates v idx (lookup_text column_types k)) h)

  pub predicate_terms-Numbered :
      (fs : Fields) (idx : ℕ) → AllNumbered idx (predicate_terms crates column_types fs idx)
  predicate_terms-Numbered end idx = unfold predicate_terms in numbered_end
  predicate_terms-Numbered (field k v fs) idx =
      predicate_step k v fs idx (predicate_terms-Numbered fs)
