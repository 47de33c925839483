-- ===== src/Tests/Statements.antt =====
-- Statements as a user writes them, through the classifications of src/handlers/query.rs.
use tabularis_postgresql_plu.Base.{ℕ, ◌≡◌, ◌≢◌, refl, true, false, [], ◌∷◌, Text, codes, arith}
use tabularis_postgresql_plu.Statement.Keywords.{plain, leading_keywords}
use tabularis_postgresql_plu.Statement.Keywords.Reference.{erase, words, leading_keywords-words}
use tabularis_postgresql_plu.Statement.Effect.{closes, unchanged, transaction_effect}
use tabularis_postgresql_plu.Statement.Effect.Grammar.{
  finish, rollback, transaction, and_no_chain, transaction_effect-meaning,
}
use tabularis_postgresql_plu.Statement.Shape.{strip_leading_sql_comments, returns_result_set}
use tabularis_postgresql_plu.Statement.Shape.Comments.{
  Strips, IsStart, strip_leading_sql_comments_lem,
}
use tabularis_postgresql_plu.Base.{take, text_eq}

abbrev ascii : ℕ → Text
ascii c = c ∷ []

abbrev commented_commit : Text
commented_commit = codes "/* a /* b */ c */ -- d\n Commit\n WORK and chain 'x'"

nested_keywords :
    leading_keywords commented_commit 6
    ≡ codes "COMMIT" ∷ codes "WORK" ∷ codes "AND" ∷ codes "CHAIN" ∷ []
unfolding leading_keywords
nested_keywords = refl

leading_keywords-words_example :
    leading_keywords commented_commit 3 ≡ take 3 (words [] (erase plain commented_commit))
leading_keywords-words_example = leading_keywords-words commented_commit 3 (omega arith)

abbrev rollback_statement : Text
rollback_statement = codes "rollback /* x */ transaction and no chain;"

transaction_effect-meaning_example : transaction_effect rollback_statement ≡ closes
transaction_effect-meaning_example =
    transaction_effect-meaning rollback_statement (finish rollback transaction and_no_chain)
      (unfold words erase in refl)

savepoint : transaction_effect (codes "ROLLBACK WORK TO s") ≡ unchanged
unfolding transaction_effect leading_keywords text_eq
savepoint = refl

abbrev begin_statement : Text
begin_statement = codes "begin isolation level serializable"

begin-opens : transaction_effect begin_statement ≢ unchanged
unfolding transaction_effect leading_keywords text_eq
begin-opens = ground arith

abbrev commented_select : Text
commented_select = codes " -- x\n /* y */ select 1"

strip_leading_sql_comments_lem_example :
    Strips commented_select (strip_leading_sql_comments commented_select)
    × IsStart (strip_leading_sql_comments commented_select)
strip_leading_sql_comments_lem_example = strip_leading_sql_comments_lem commented_select

plain_select : returns_result_set ascii commented_select ≡ true
unfolding returns_result_set
plain_select = refl

-- A nested block comment, which PostgreSQL accepts and `leading_keywords` skips as one, is closed
-- by `strip_leading_sql_comments` at its first `*/`.
nested_comment :
    (returns_result_set ascii (codes "/* a /* b */ c */ SELECT 1") ≡ false)
    × (leading_keywords (codes "/* a /* b */ c */ SELECT 1") 1 ≡ codes "SELECT" ∷ [])
unfolding returns_result_set leading_keywords
nested_comment = (refl, refl)
