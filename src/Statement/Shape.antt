-- ===== src/Statement/Shape.antt =====
-- src/handlers/query.rs: `strip_leading_sql_comments`, `returns_result_set`,
-- `supports_trailing_limit_clause` and `sets_session_local_state`.
pub mod Comments
pub mod Kinds
use tabularis_postgresql_plu.Base.{
  ℕ, zero, suc, ◌≡◌, refl, Bool, true, false, ◌&&◌, ◌||◌, not, List, [], ◌∷◌, Option, none, some,
  Text, codes, if◌then◌else◌, head?, drop, length, text_eq, one_of, starts_with, trim_start,
  to_uppercase,
}
use tabularis_postgresql_plu.Statement.Keywords.{leading_keywords}
use tabularis_postgresql_plu.Statement.Effect.{is_word}

-- The text behind the first occurrence of a pattern: `s.find(p)` and the slice `&s[pos + len..]`.
unfoldable pub after_first : Text → Text → Option Text
unfolding starts_with
after_first p [] = if starts_with [] p then some [] else none
after_first p (c ∷ s) =
    if starts_with (c ∷ s) p then some (drop (length p) (c ∷ s)) else after_first p s

-- The `loop` of `strip_leading_sql_comments`, on fuel. A round reads at least two characters.
unfoldable pub strip_loop : ℕ → Text → Text
unfolding trim_start after_first
strip_loop zero s = s
strip_loop (suc fuel) s =
    let t = trim_start s in
    if starts_with t (codes "--")
    then elim (after_first (codes "\n") t) [ none ↦ [] | some u ↦ strip_loop fuel u ]
    else if starts_with t (codes "/*")
    then elim (after_first (codes "*/") t) [ none ↦ [] | some u ↦ strip_loop fuel u ]
    else t

unfoldable pub strip_leading_sql_comments : Text → Text
unfolding strip_loop
strip_leading_sql_comments query = strip_loop (suc (length query)) query

-- `table` is Unicode's upper-case mapping of the characters that are not ASCII.
module _ (table : ℕ → Text) where
  unfoldable pub returns_result_set : Text → Bool
  unfolding strip_leading_sql_comments to_uppercase
  returns_result_set query =
      let upper = to_uppercase table (strip_leading_sql_comments query) in
      starts_with upper (codes "SELECT")
      || starts_with upper (codes "WITH")
      || starts_with upper (codes "SHOW")
      || starts_with upper (codes "EXPLAIN")
      || starts_with upper (codes "DESCRIBE")
      || starts_with upper (codes "VALUES")
      || starts_with upper (codes "TABLE")
      || starts_with upper (codes "PRAGMA")
      || starts_with upper (codes "CALL")

  unfoldable pub supports_trailing_limit_clause : Text → Bool
  unfolding strip_leading_sql_comments to_uppercase
  supports_trailing_limit_clause query =
      let upper = to_uppercase table (strip_leading_sql_comments query) in
      starts_with upper (codes "SELECT")
      || starts_with upper (codes "WITH")
      || starts_with upper (codes "VALUES")
      || starts_with upper (codes "TABLE")
      || starts_with upper (codes "EXPLAIN")

abbrev is_temp : Option Text → Bool
is_temp w = is_word w (codes "TEMP") || is_word w (codes "TEMPORARY")

-- The `match` on the first keyword, over the three behind it.
unfoldable pub session_local : Text → Option Text → Option Text → Option Text → Bool
session_local first second third fourth =
    if text_eq first (codes "SET")
    then not (
        is_word second (codes "LOCAL")
        || is_word second (codes "TRANSACTION")
        || is_word second (codes "CONSTRAINTS"))
    else if text_eq first (codes "CREATE")
    then (if is_temp second
        then is_word third (codes "TABLE")
        else if is_word second (codes "GLOBAL") || is_word second (codes "LOCAL")
        then is_temp third && is_word fourth (codes "TABLE")
        else false)
    else false

abbrev second? : List Text → Option Text
second? ws = head? (drop 1 ws)

unfoldable pub local_of_keywords : List Text → Bool
unfolding session_local
local_of_keywords [] = false
local_of_keywords (first ∷ ws) = session_local first (head? ws) (second? ws) (head? (drop 2 ws))

unfoldable pub sets_session_local_state : Text → Bool
unfolding local_of_keywords
sets_session_local_state query = local_of_keywords (leading_keywords query 4)
