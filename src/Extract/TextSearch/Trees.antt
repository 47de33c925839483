-- ===== src/Extract/TextSearch/Trees.antt =====
-- src/extract.rs, `TsQuery`: what is read from the encoding of a query.
pub mod Texts
use tabularis_postgresql_plu.Extract.TextSearch.Trees.Texts.{
  Query, operand, not_query, and_query, or_query, phrase_query, weight_text, put_query, rank,
  wrapped, phrase_sign, marks, show_query,
}
use tabularis_postgresql_plu.Extract.TextSearch.Positions.{IsNonZero}
use tabularis_postgresql_plu.Extract.TextSearch.Queries.{phrase_operator, ts_query_node}
use tabularis_postgresql_plu.Extract.Bytes.{Bytes}
use tabularis_postgresql_plu.Extract.Library.{Library}
use tabularis_postgresql_plu.Base.Integers.{pos, show_ℤ}
use tabularis_postgresql_plu.Base.Decimal.{to_decimal}
use tabularis_postgresql_plu.Base.{
  ℕ, suc, ◌+◌, ◌^◌, ◌≡◌, refl, ◌++◌, some, Text, ◌<◌, All, ltb, ◌==◌,
}

-- The text of a query below an operator of a level.
abbrev pub show_below : ℕ → Query → Text
show_below lvl q = wrapped (ltb lvl (rank q)) (show_query q)

unfoldable pub height : Query → ℕ
height (operand b t prefixed w) = 1
height (not_query q) = suc (height q)
height (and_query l r) = suc (height l + height r)
height (or_query l r) = suc (height l + height r)
height (phrase_query d l r) = suc (height l + height r)

module _ (lib : Library) where
  -- Lexemes are valid texts without NUL, and distances fit 15 bits.
  unfoldable pub IsQuery : Query → Type 0
  IsQuery (operand b t prefixed w) = All IsNonZero b × (lib.utf8 b ≡ some t)
  IsQuery (not_query q) = IsQuery q
  IsQuery (and_query l r) = IsQuery l × IsQuery r
  IsQuery (or_query l r) = IsQuery l × IsQuery r
  IsQuery (phrase_query d l r) = (d < 2 ^ 15) × (IsQuery l × IsQuery r)

show_operator : (d : ℕ) → phrase_operator (pos d) ≡ phrase_sign d
unfolding phrase_operator show_ℤ to_decimal
show_operator d = refl

module _ (lib : Library) where
  -- One node from what is read of its operands.
  abbrev NodeIs : Query → ℕ → Bytes → ℕ → Type 0
  NodeIs q fuel s lvl = ts_query_node lib fuel (put_query q ++ s) lvl ≡ some (show_below lvl q, s)
