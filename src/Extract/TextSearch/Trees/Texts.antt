-- ===== src/Extract/TextSearch/Trees/Texts.antt =====
-- src/extract.rs, `TsQuery`: the trees of PostgreSQL's query type, their encoding and their text.
use tabularis_postgresql_plu.Extract.Bytes.{Bytes, put_u16}
use tabularis_postgresql_plu.Base.Decimal.{to_decimal}
use tabularis_postgresql_plu.Base.{
  ℕ, Bool, true, false, [], ◌∷◌, ◌++◌, Text, codes, if◌then◌else◌, ltb, ◌==◌,
}

pub data Weight : Type 0 where
  any_weight weight_d weight_c weight_b weight_a : Weight

-- A query; an operand is the bytes of its lexeme with their text, the prefix mark and a weight, a phrase
-- the distance and the left and the right operand.
pub data Query : Type 0 where
  operand : Bytes → Text → Bool → Weight → Query
  not_query : Query → Query
  and_query or_query : Query → Query → Query
  phrase_query : ℕ → Query → Query → Query

abbrev pub weight_byte : Weight → ℕ
weight_byte any_weight = 0
weight_byte weight_d = 1
weight_byte weight_c = 2
weight_byte weight_b = 4
weight_byte weight_a = 8

abbrev pub weight_text : Weight → Text
weight_text any_weight = []
weight_text weight_d = codes "D"
weight_text weight_c = codes "C"
weight_text weight_b = codes "B"
weight_text weight_a = codes "A"

-- Operators stand in front of their operands, the right one of two first.
unfoldable pub put_query : Query → Bytes
unfolding put_u16
put_query (operand b t prefixed w) =
    1 ∷ weight_byte w ∷ (if prefixed then 1 else 0) ∷ (b ++ (0 ∷ []))
put_query (not_query q) = 2 ∷ 1 ∷ put_query q
put_query (and_query l r) = 2 ∷ 2 ∷ (put_query r ++ put_query l)
put_query (or_query l r) = 2 ∷ 3 ∷ (put_query r ++ put_query l)
put_query (phrase_query d l r) = 2 ∷ 4 ∷ (put_u16 d ++ (put_query r ++ put_query l))

-- How weakly the operator of a query binds: negation before phrases, then `&`, then `|`.
abbrev pub rank : Query → ℕ
rank (operand b t prefixed w) = 0
rank (not_query q) = 1
rank (phrase_query d l r) = 2
rank (and_query l r) = 3
rank (or_query l r) = 4

abbrev pub wrapped : Bool → Text → Text
wrapped true s = codes "(" ++ (s ++ codes ")")
wrapped false s = s

abbrev pub between : Text → Text → Text → Text
between left sign right = left ++ (codes " " ++ (sign ++ (codes " " ++ right)))

-- The distance of a phrase is written unless it is 1.
abbrev pub phrase_sign : ℕ → Text
phrase_sign d = if d == 1 then codes "<->" else codes "<" ++ (to_decimal d ++ codes ">")

-- The marks behind a lexeme: a star for a prefix, then the weight.
abbrev pub marks : Bool → Weight → Text
marks false any_weight = []
marks false w = codes ":" ++ weight_text w
marks true w = codes ":*" ++ weight_text w

-- The text of a query: an operand of an operator has parentheses exactly if its own operator binds
-- weaker.
unfoldable pub show_query : Query → Text
unfolding to_decimal
show_query (operand b t prefixed w) = codes "'" ++ (t ++ (codes "'" ++ marks prefixed w))
show_query (not_query q) = codes "!" ++ wrapped (ltb 1 (rank q)) (show_query q)
show_query (and_query l r) =
    between (wrapped (ltb 3 (rank l)) (show_query l)) (codes "&")
      (wrapped (ltb 3 (rank r)) (show_query r))
show_query (or_query l r) =
    between (wrapped (ltb 4 (rank l)) (show_query l)) (codes "|")
      (wrapped (ltb 4 (rank r)) (show_query r))
show_query (phrase_query d l r) =
    between (wrapped (ltb 2 (rank l)) (show_query l)) (phrase_sign d)
      (wrapped (ltb 2 (rank r)) (show_query r))
