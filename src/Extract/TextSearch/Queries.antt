-- ===== src/Extract/TextSearch/Queries.antt =====
-- src/extract.rs, `TsQuery`: the tree of a text search query in its wire order, printed with the
-- parentheses that the levels of its operators ask for.
use tabularis_postgresql_plu.Extract.TextSearch.{nul_terminated_text}
use tabularis_postgresql_plu.Extract.Bytes.{Bytes, take_i16, take_u32}
use tabularis_postgresql_plu.Extract.Library.{Library}
use tabularis_postgresql_plu.Base.Integers.{ℤ, pos, eq_ℤ, show_ℤ}
use tabularis_postgresql_plu.Base.{
  ℕ, zero, suc, Bool, true, false, [], ◌∷◌, ◌++◌, Option, none, some, ◌>>=◌, Text, codes, ◌==◌, ltb,
  if◌then◌else◌, length,
}

-- The letter of an operand's weight; only a single one is known.
unfoldable pub operand_weight : ℕ → Option Text
operand_weight w =
    if w == 0
    then some []
    else if w == 1
    then some (codes "D")
    else if w == 2
    then some (codes "C")
    else if w == 4
    then some (codes "B")
    else if w == 8
    then some (codes "A")
    else none

unfoldable pub show_operand : Text → Bool → Text → Text
show_operand lexeme true weight = b'\'' ∷ (lexeme ++ (codes "':*" ++ weight))
show_operand lexeme false [] = b'\'' ∷ (lexeme ++ codes "'")
show_operand lexeme false (w ∷ weight) = b'\'' ∷ (lexeme ++ (codes "':" ++ (w ∷ weight)))

unfoldable pub show_binary : ℕ → ℕ → Text → Text → Text → Text
show_binary pre_lvl cur_lvl operator left right =
    let s = left ++ (b' ' ∷ (operator ++ (b' ' ∷ right))) in
    if ltb pre_lvl cur_lvl then b'(' ∷ (s ++ codes ")") else s

unfoldable pub phrase_operator : ℤ → Text
unfolding show_ℤ
phrase_operator distance =
    if eq_ℤ distance (pos 1) then codes "<->" else b'<' ∷ (show_ℤ distance ++ codes ">")

-- An operator's operands, `node` decoding one below a level: the right one stands first.
unfoldable pub binary :
    (Bytes → ℕ → Option (Text × Bytes)) → ℕ → Text → Bytes → ℕ → Option (Text × Bytes)
unfolding show_binary
binary node cur_lvl operator s pre_lvl = do
  (right, t) ← node s cur_lvl
  (left, u) ← node t cur_lvl
  some (show_binary pre_lvl cur_lvl operator left right, u)

unfoldable pub phrase : (Bytes → ℕ → Option (Text × Bytes)) → Bytes → ℕ → Option (Text × Bytes)
unfolding binary take_i16 phrase_operator
phrase node s pre_lvl = do
  (distance, t) ← take_i16 s
  binary node 2 (phrase_operator distance) t pre_lvl

unfoldable pub negation : (Bytes → ℕ → Option (Text × Bytes)) → Bytes → Option (Text × Bytes)
negation node s = do (operand, t) ← node s 1; some (b'!' ∷ operand, t)

unfoldable pub operator_node :
    (Bytes → ℕ → Option (Text × Bytes)) → Bytes → ℕ → Option (Text × Bytes)
unfolding binary phrase negation
operator_node node [] pre_lvl = none
operator_node node (operator ∷ s) pre_lvl =
    if operator == 1
    then negation node s
    else if operator == 2
    then binary node 3 (codes "&") s pre_lvl
    else if operator == 3
    then binary node 4 (codes "|") s pre_lvl
    else if operator == 4
    then phrase node s pre_lvl
    else none

module _ (lib : Library) where
  unfoldable pub operand_node : Bytes → Option (Text × Bytes)
  unfolding operand_weight nul_terminated_text show_operand
  operand_node (w ∷ p ∷ s) = do
    weight ← operand_weight w
    (lexeme, t) ← nul_terminated_text lib s
    some (show_operand lexeme (p == 1) weight, t)
  operand_node _ = none

  -- `fuel` bounds the number of nodes on a way down the tree.
  unfoldable pub ts_query_node : ℕ → Bytes → ℕ → Option (Text × Bytes)
  unfolding operand_node operator_node
  ts_query_node zero s pre_lvl = none
  ts_query_node (suc fuel) [] pre_lvl = none
  ts_query_node (suc fuel) (tag ∷ s) pre_lvl =
      if tag == 1
      then operand_node s
      else if tag == 2
      then operator_node (ts_query_node fuel) s pre_lvl
      else none

  -- Each node takes a byte at least: the length is fuel enough.
  unfoldable pub ts_query : Bytes → Option Text
  unfolding ts_query_node take_u32
  ts_query raw = do (n, s) ← take_u32 raw; (query, rest) ← ts_query_node (length s) s 4; some query
