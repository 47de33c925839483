-- ===== src/Statement/Shape/Kinds.antt =====
-- How the three classifications of a statement by its text fit together.
use tabularis_postgresql_plu.Base.{
  ℕ, ◌≡◌, ◌⊎◌, inl, inr, refl, Bool, true, false, ◌&&◌, ◌||◌, not, List, [], ◌∷◌, Option, Text,
  codes, ◌==◌, arith, starts_with, to_uppercase, head?, drop, take, text_eq, text_eq_iff,
}
use tabularis_postgresql_plu.Statement.Keywords.{plain}
use tabularis_postgresql_plu.Statement.Keywords.Reference.{erase, words, leading_keywords-words}
use tabularis_postgresql_plu.Statement.Effect.{unchanged, effect_of_keywords, transaction_effect}
use tabularis_postgresql_plu.Statement.Shape.{
  strip_leading_sql_comments, returns_result_set, supports_trailing_limit_clause, session_local,
  second?, local_of_keywords, sets_session_local_state,
}

-- The statement as the classifications see it.
abbrev pub head_text : (ℕ → Text) → Text → Text
head_text table query = to_uppercase table (strip_leading_sql_comments query)

-- Result sets whose grammar takes no `LIMIT`.
abbrev pub unlimited : Text → Bool
unlimited s =
    starts_with s (codes "SHOW")
    || starts_with s (codes "DESCRIBE")
    || starts_with s (codes "PRAGMA")
    || starts_with s (codes "CALL")

abbrev limited : Text → Bool
limited s =
    starts_with s (codes "SELECT")
    || starts_with s (codes "WITH")
    || starts_with s (codes "VALUES")
    || starts_with s (codes "TABLE")
    || starts_with s (codes "EXPLAIN")

-- Two patterns that differ at a position both have.
conflict : Text → Text → Bool
conflict [] q = false
conflict (c ∷ p) [] = false
conflict (c ∷ p) (d ∷ q) = not (c == d) || conflict p q

conflict-starts_with :
    (s p q : Text) → conflict p q ≡ true → starts_with s p ≡ true → starts_with s q ≡ false
unfolding conflict starts_with
conflict-starts_with s [] q h e = ground arith
conflict-starts_with s (c ∷ p) [] h e = ground arith
conflict-starts_with [] (c ∷ p) (d ∷ q) h e = ground arith
conflict-starts_with (b ∷ s) (c ∷ p) (d ∷ q) h e = ground (arith, conflict-starts_with s p q)

abbrev meets : Text → Bool
meets p =
    conflict p (codes "SHOW")
    && conflict p (codes "DESCRIBE")
    && conflict p (codes "PRAGMA")
    && conflict p (codes "CALL")

not_unlimited : (s p : Text) → meets p ≡ true → starts_with s p ≡ true → unlimited s ≡ false
not_unlimited s p h e = ground (
  arith,
  conflict-starts_with s p (codes "SHOW"),
  conflict-starts_with s p (codes "DESCRIBE"),
  conflict-starts_with s p (codes "PRAGMA"),
  conflict-starts_with s p (codes "CALL"),
)

disjoint : (s : Text) → limited s ≡ true → unlimited s ≡ false
unfolding conflict
disjoint s h = ground (
  arith,
  not_unlimited s (codes "SELECT") refl,
  not_unlimited s (codes "WITH") refl,
  not_unlimited s (codes "VALUES") refl,
  not_unlimited s (codes "TABLE") refl,
  not_unlimited s (codes "EXPLAIN") refl,
)

abbrev result : Text → Bool
result s =
    starts_with s (codes "SELECT")
    || starts_with s (codes "WITH")
    || starts_with s (codes "SHOW")
    || starts_with s (codes "EXPLAIN")
    || starts_with s (codes "DESCRIBE")
    || starts_with s (codes "VALUES")
    || starts_with s (codes "TABLE")
    || starts_with s (codes "PRAGMA")
    || starts_with s (codes "CALL")

limited-result : (s : Text) → limited s ≡ (result s && not (unlimited s))
limited-result s = ground (arith, disjoint s)

-- Pagination is offered for exactly the result sets that are not `SHOW`, `DESCRIBE`, `PRAGMA` or
-- `CALL` statements.
pub supports_trailing_limit_clause-returns_result_set :
    (table : ℕ → Text) (query : Text)
    → supports_trailing_limit_clause table query
      ≡ (returns_result_set table query && not (unlimited (head_text table query)))
unfolding supports_trailing_limit_clause returns_result_set
supports_trailing_limit_clause-returns_result_set table query =
    limited-result (head_text table query)

session_local_first :
    (first : Text) (second third fourth : Option Text)
    → session_local first second third fourth ≡ true
    → (first ≡ codes "SET") ⊎ (first ≡ codes "CREATE")
unfolding session_local
session_local_first first second third fourth h =
    ground (arith, text_eq_iff first (codes "SET"), text_eq_iff first (codes "CREATE"))

unchanged_of_first :
    (first : Text) (rest : List Text)
    → (first ≡ codes "SET") ⊎ (first ≡ codes "CREATE")
    → effect_of_keywords (first ∷ rest) ≡ unchanged
unfolding effect_of_keywords text_eq
unchanged_of_first first rest (inl e) = rw e
unchanged_of_first first rest (inr e) = rw e

local-unchanged :
    (ws : List Text)
    → local_of_keywords (take 4 ws) ≡ true
    → effect_of_keywords (take 6 ws) ≡ unchanged
unfolding local_of_keywords
local-unchanged [] h = absurd (ground arith)
local-unchanged (first ∷ ws) h = unchanged_of_first first (take 5 ws) (
    session_local_first first (head? (take 3 ws)) (second? (take 3 ws)) (head? (drop 2 (take 3 ws)))
      h)

-- A statement that sets session-local state is no transaction control: the batch loop's two flags
-- never change on one statement.
pub sets_session_local_state-unchanged :
    (query : Text) → sets_session_local_state query ≡ true → transaction_effect query ≡ unchanged
unfolding sets_session_local_state transaction_effect
sets_session_local_state-unchanged query h = rw (leading_keywords-words query 6 (omega arith)) (
    local-unchanged (words [] (erase plain query))
      (rw (leading_keywords-words query 4 (omega arith)) at h))
