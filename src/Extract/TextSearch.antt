-- ===== src/Extract/TextSearch.antt =====
-- src/extract.rs, text search: `Lexeme` and `TsVector`, and the string ended by NUL that they share with
-- `TsQuery`.
pub mod Queries
pub mod Positions
pub mod Trees
use tabularis_postgresql_plu.Extract.Bytes.{
  Bytes, take_u16, take_i16, take_i32, put_u16, put_u32, take_i32-put, take_u16-put,
}
use tabularis_postgresql_plu.Extract.Library.{Library}
use tabularis_postgresql_plu.Base.Integers.{ℤ, pos, negsuc, signed}
use tabularis_postgresql_plu.Base.Decimal.{to_decimal}
use tabularis_postgresql_plu.Base.{
  ℕ, zero, suc, ◌+◌, ◌*◌, ◌/◌, ◌%◌, ◌^◌, ◌≡◌, ◌≢◌, ◌≤◌, refl, ap, ◌∙◌, Bool, true, false, List, [],
  ◌∷◌, ◌++◌, append_assoc, append-nil, map, Option, none, some, ◌>>=◌, Text, codes, ◌==◌, ltb,
  if◌then◌else◌, length, join, arith, ◌<◌, All,
}

-- The bytes in front of the first NUL, and those behind it.
unfoldable pub split_nul : Bytes → Option (Bytes × Bytes)
split_nul [] = none
split_nul (b ∷ s) =
    let rest = split_nul s in if b == 0 then some ([], s) else (do (t, u) ← rest; some (b ∷ t, u))

-- `Lexeme`: its text, and its positions with their weights 'A' to 'D'.
pub record Lexeme : Type 0 where
  pub text : Text
  pub positions_weights : List (ℕ × ℕ)

unfoldable pub weight_letter : ℕ → ℕ
weight_letter n = if n == 0 then b'D' else if n == 1 then b'C' else if n == 2 then b'B' else b'A'

unfoldable pub take_positions : ℕ → Bytes → Option (List (ℕ × ℕ) × Bytes)
unfolding take_u16 weight_letter
take_positions zero s = some ([], s)
take_positions (suc n) s = do
  (position_weight, t) ← take_u16 s
  (ps, u) ← take_positions n t
  some ((position_weight % 2 ^ 14, weight_letter (position_weight / 2 ^ 14)) ∷ ps, u)

-- What follows the text, `s` starting with the count. A count of zero is not skipped.
unfoldable pub positions_from : Text → Bytes → Option (ℤ × Bytes) → Option (Lexeme × Bytes)
unfolding take_positions
positions_from text s (some (pos zero, t)) =
    some (record { text = text; positions_weights = [] }, s)
positions_from text s (some (pos (suc n), t)) = do
  (ps, u) ← take_positions (suc n) t
  some (record { text = text; positions_weights = ps }, u)
positions_from text s _ = none

unfoldable pub show_position : ℕ × ℕ → Text
unfolding to_decimal
show_position (position, weight) =
    if weight == b'D' then to_decimal position else to_decimal position ++ (weight ∷ [])

unfoldable pub show_lexeme : Lexeme → Text
unfolding show_position join
show_lexeme lexeme =
    b'\''
    ∷ (lexeme.text
        ++ (codes "':" ++ join (codes ",") (map show_position (lexeme.positions_weights))))

unfoldable pub show_ts_vector : List Lexeme → Text
unfolding show_lexeme join
show_ts_vector lexemes = join (codes " ") (map show_lexeme lexemes)

module _ (lib : Library) where
  unfoldable pub nul_terminated_text : Bytes → Option (Text × Bytes)
  unfolding split_nul
  nul_terminated_text s = do (b, rest) ← split_nul s; text ← lib.utf8 b; some (text, rest)

  unfoldable pub take_lexeme : Bytes → Option (Lexeme × Bytes)
  unfolding nul_terminated_text positions_from take_i16
  take_lexeme s = do (text, t) ← nul_terminated_text s; positions_from text t (take_i16 t)

  unfoldable pub take_lexemes : ℕ → Bytes → Option (List Lexeme)
  unfolding take_lexeme
  take_lexemes zero s = some []
  take_lexemes (suc n) s = do
    (lexeme, t) ← take_lexeme s
    lexemes ← take_lexemes n t
    some (lexeme ∷ lexemes)

  -- A negative count, for which the allocation panics, is refused here.
  unfoldable pub ts_vector_of : Option (ℤ × Bytes) → Option (List Lexeme)
  unfolding take_lexemes
  ts_vector_of (some (pos n, s)) = take_lexemes n s
  ts_vector_of _ = none

  unfoldable pub ts_vector : Bytes → Option (List Lexeme)
  unfolding ts_vector_of take_i32
  ts_vector raw = ts_vector_of (take_i32 raw)
