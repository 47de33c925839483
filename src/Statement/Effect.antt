-- ===== src/Statement/Effect.antt =====
-- src/handlers/query.rs, `TransactionEffect`, `transaction_effect` and `in_transaction_after`:
-- what a statement does to the transaction around it.
pub mod Grammar
use tabularis_postgresql_plu.Base.{
  ℕ, ◌≡◌, refl, Bool, true, false, ◌&&◌, ◌||◌, List, [], ◌∷◌, Option, none, some, Text, codes,
  if◌then◌else◌, head?, text_eq, one_of,
}
use tabularis_postgresql_plu.Statement.Keywords.{leading_keywords}

pub data TransactionEffect : Type 0 where
  opens closes chains unchanged : TransactionEffect

-- `in_transaction_after(self, succeeded, before)`.
unfoldable pub in_transaction_after : TransactionEffect → Bool → Bool → Bool
in_transaction_after opens true before = true
in_transaction_after opens false before = before
in_transaction_after chains true before = true
in_transaction_after chains false before = false
in_transaction_after closes succeeded before = false
in_transaction_after unchanged succeeded before = before

-- `matches!(o, Some(word))`.
unfoldable pub is_word : Option Text → Text → Bool
is_word none word = false
is_word (some w) word = text_eq w word

abbrev pub closing_verbs : List Text
closing_verbs = codes "COMMIT" ∷ codes "END" ∷ codes "ROLLBACK" ∷ codes "ABORT" ∷ []

-- `WORK` or `TRANSACTION` behind a closing verb is removed.
unfoldable pub drop_noise : Text → List Text → List Text
unfolding one_of
drop_noise first [] = []
drop_noise first (w ∷ rest) =
    if one_of first closing_verbs && one_of w (codes "WORK" ∷ codes "TRANSACTION" ∷ [])
    then rest
    else w ∷ rest

-- `rest.windows(2).any(|p| p[0] == "AND" && p[1] == "CHAIN")`.
unfoldable pub has_chain : List Text → Bool
has_chain [] = false
has_chain (v ∷ []) = false
has_chain (v ∷ w ∷ rest) =
    (text_eq v (codes "AND") && text_eq w (codes "CHAIN")) || has_chain (w ∷ rest)

-- The `match first.as_str()` with its guards, over the rest of the keywords.
unfoldable pub classify : Text → List Text → TransactionEffect
unfolding is_word has_chain one_of
classify first rest =
    if text_eq first (codes "BEGIN")
    then opens
    else if text_eq first (codes "START") && is_word (head? rest) (codes "TRANSACTION")
    then opens
    else if one_of first (codes "COMMIT" ∷ codes "ROLLBACK" ∷ [])
        && is_word (head? rest) (codes "PREPARED")
    then unchanged
    else if text_eq first (codes "ROLLBACK") && is_word (head? rest) (codes "TO")
    then unchanged
    else if one_of first closing_verbs && has_chain rest
    then chains
    else if one_of first closing_verbs
    then closes
    else if text_eq first (codes "PREPARE") && is_word (head? rest) (codes "TRANSACTION")
    then closes
    else unchanged

unfoldable pub effect_of_keywords : List Text → TransactionEffect
unfolding classify drop_noise
effect_of_keywords [] = unchanged
effect_of_keywords (first ∷ rest) = classify first (drop_noise first rest)

unfoldable pub transaction_effect : Text → TransactionEffect
unfolding effect_of_keywords
transaction_effect query = effect_of_keywords (leading_keywords query 6)
