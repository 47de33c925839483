-- ===== src/Statement/Effect/Grammar.antt =====
-- PostgreSQL's transaction commands as a grammar, and `transaction_effect` against what each
-- command does by PostgreSQL's documentation.
use tabularis_postgresql_plu.Base.{
  ◌≡◌, ◌≢◌, refl, ap, ◌∙◌, true, List, [], ◌∷◌, ◌++◌, Text, codes, arith, take, text_eq, one_of,
}
use tabularis_postgresql_plu.Statement.Keywords.{plain, leading_keywords}
use tabularis_postgresql_plu.Statement.Keywords.Reference.{erase, words, leading_keywords-words}
use tabularis_postgresql_plu.Statement.Effect.{
  TransactionEffect, opens, closes, chains, unchanged, classify, drop_noise, effect_of_keywords,
  transaction_effect, closing_verbs,
}

pub data Verb : Type 0 where
  commit end rollback abort : Verb

pub data Noise : Type 0 where
  bare work transaction : Noise

pub data Chain : Type 0 where
  omitted and_chain and_no_chain : Chain

-- The last argument of most commands is the rest of the statement: options, a name.
pub data Command : Type 0 where
  begin : List Text → Command
  start_transaction : List Text → Command
  finish : Verb → Noise → Chain → Command
  rollback_to : Noise → List Text → Command
  prepare_transaction : List Text → Command
  commit_prepared : List Text → Command
  rollback_prepared : List Text → Command

abbrev spell_verb : Verb → Text
spell_verb commit = codes "COMMIT"
spell_verb end = codes "END"
spell_verb rollback = codes "ROLLBACK"
spell_verb abort = codes "ABORT"

abbrev spell_noise : Noise → List Text
spell_noise bare = []
spell_noise work = codes "WORK" ∷ []
spell_noise transaction = codes "TRANSACTION" ∷ []

abbrev spell_chain : Chain → List Text
spell_chain omitted = []
spell_chain and_chain = codes "AND" ∷ codes "CHAIN" ∷ []
spell_chain and_no_chain = codes "AND" ∷ codes "NO" ∷ codes "CHAIN" ∷ []

-- The keywords of a command, in the order of PostgreSQL's synopsis.
abbrev pub spell : Command → List Text
spell (begin rest) = codes "BEGIN" ∷ rest
spell (start_transaction rest) = codes "START" ∷ codes "TRANSACTION" ∷ rest
spell (finish v n c) = spell_verb v ∷ (spell_noise n ++ spell_chain c)
spell (rollback_to n rest) = codes "ROLLBACK" ∷ (spell_noise n ++ (codes "TO" ∷ rest))
spell (prepare_transaction rest) = codes "PREPARE" ∷ codes "TRANSACTION" ∷ rest
spell (commit_prepared rest) = codes "COMMIT" ∷ codes "PREPARED" ∷ rest
spell (rollback_prepared rest) = codes "ROLLBACK" ∷ codes "PREPARED" ∷ rest

abbrev pub meaning : Command → TransactionEffect
meaning (begin rest) = opens
meaning (start_transaction rest) = opens
meaning (finish v n and_chain) = chains
meaning (finish v n omitted) = closes
meaning (finish v n and_no_chain) = closes
meaning (rollback_to n rest) = unchanged
meaning (prepare_transaction rest) = closes
meaning (commit_prepared rest) = unchanged
meaning (rollback_prepared rest) = unchanged

finish_lem :
    (v : Verb) (n : Noise) (c : Chain)
    → effect_of_keywords (take 6 (spell (finish v n c))) ≡ meaning (finish v n c)
unfolding effect_of_keywords text_eq
finish_lem commit n c = ground arith
finish_lem end n c = ground arith
finish_lem rollback n c = ground arith
finish_lem abort n c = ground arith

spell-meaning : (c : Command) → effect_of_keywords (take 6 (spell c)) ≡ meaning c
unfolding effect_of_keywords text_eq
spell-meaning (begin rest) = refl
spell-meaning (start_transaction rest) = refl
spell-meaning (finish v n c) = finish_lem v n c
spell-meaning (rollback_to bare rest) = refl
spell-meaning (rollback_to work rest) = refl
spell-meaning (rollback_to transaction rest) = refl
spell-meaning (prepare_transaction rest) = refl
spell-meaning (commit_prepared rest) = refl
spell-meaning (rollback_prepared rest) = refl

-- A statement whose words, comments erased, spell a transaction command is given that command's
-- effect, with every noise word, chain clause and tail.
pub transaction_effect-meaning :
    (query : Text) (c : Command)
    → words [] (erase plain query) ≡ spell c
    → transaction_effect query ≡ meaning c
unfolding transaction_effect
transaction_effect-meaning query c e =
    ap effect_of_keywords (leading_keywords-words query 6 (omega arith) ∙ ap (take 6) e)
    ∙ spell-meaning c

abbrev pub control_verbs : List Text
control_verbs = codes "BEGIN" ∷ codes "START" ∷ codes "PREPARE" ∷ closing_verbs

classify_control :
    (first : Text) (rest : List Text)
    → classify first rest ≢ unchanged
    → one_of first control_verbs ≡ true
unfolding classify
classify_control first rest h = ground arith

-- Only a statement whose first keyword is one of the seven control verbs can change the
-- transaction state.
pub transaction_effect_control :
    (query first : Text) (rest : List Text)
    → leading_keywords query 6 ≡ first ∷ rest
    → transaction_effect query ≢ unchanged
    → one_of first control_verbs ≡ true
unfolding transaction_effect effect_of_keywords
transaction_effect_control query first rest e h =
    classify_control first (drop_noise first rest) (λ q. h (rw e q))
