-- ===== src/Extract/TextSearch/Positions.antt =====
-- src/extract.rs, `TsVector`: PostgreSQL's encoding of lexemes and what is read from it.
use tabularis_postgresql_plu.Extract.TextSearch.{
  split_nul, Lexeme, weight_letter, take_positions, positions_from, nul_terminated_text,
  take_lexeme, take_lexemes, ts_vector_of, ts_vector,
}
use tabularis_postgresql_plu.Extract.Bytes.{
  Bytes, take_i16, put_u16, put_u32, take_i32-put, take_u16-put,
}
use tabularis_postgresql_plu.Extract.Library.{Library}
use tabularis_postgresql_plu.Base.Integers.{pos}
use tabularis_postgresql_plu.Base.{
  ℕ, ◌+◌, ◌*◌, ◌^◌, ◌≡◌, ◌≢◌, refl, List, [], ◌∷◌, ◌++◌, append_assoc, map, some, Text, length,
  arith, ◌<◌, All,
}

abbrev pub IsNonZero : ℕ → Type 0
IsNonZero b = b ≢ 0

pub split_nul-append : (b s : Bytes) → All IsNonZero b → split_nul (b ++ (0 ∷ s)) ≡ some (b, s)
unfolding split_nul
split_nul-append [] s h = refl
split_nul-append (c ∷ b) s h = rw (split_nul-append b s (h.1)) (ground arith)

pub data PositionWeight : Type 0 where
  weight_d weight_c weight_b weight_a : PositionWeight

-- A weight in PostgreSQL's encoding, and its letter.
abbrev pub weight_number : PositionWeight → ℕ
weight_number weight_d = 0
weight_number weight_c = 1
weight_number weight_b = 2
weight_number weight_a = 3

abbrev pub letter : PositionWeight → ℕ
letter weight_d = b'D'
letter weight_c = b'C'
letter weight_b = b'B'
letter weight_a = b'A'

-- A lexeme of the wire: the bytes of its text, the text, and its positions with their weights.
pub record WireLexeme : Type 0 where
  pub bytes : Bytes
  pub text : Text
  pub positions : List (ℕ × PositionWeight)

abbrev pub IsPosition : ℕ × PositionWeight → Type 0
IsPosition (position, weight) = position < 2 ^ 14

unfoldable pub put_positions : List (ℕ × PositionWeight) → Bytes
unfolding put_u16
put_positions [] = []
put_positions ((position, weight) ∷ ps) =
    put_u16 (weight_number weight * 2 ^ 14 + position) ++ put_positions ps

unfoldable pub put_lexeme : WireLexeme → Bytes
unfolding put_positions put_u16
put_lexeme w = w.bytes ++ (0 ∷ (put_u16 (length (w.positions)) ++ put_positions (w.positions)))

unfoldable pub put_lexemes : List WireLexeme → Bytes
unfolding put_lexeme
put_lexemes [] = []
put_lexemes (w ∷ ws) = put_lexeme w ++ put_lexemes ws

unfoldable pub positions_read : List (ℕ × PositionWeight) → List (ℕ × ℕ)
positions_read [] = []
positions_read ((position, weight) ∷ ps) = (position, letter weight) ∷ positions_read ps

take_positions-put :
    (ps : List (ℕ × PositionWeight)) (s : Bytes)
    → All IsPosition ps
    → take_positions (length ps) (put_positions ps ++ s) ≡ some (positions_read ps, s)
unfolding take_positions put_positions positions_read weight_letter
take_positions-put [] s h = refl
take_positions-put ((position, weight_d) ∷ ps) s h =
    rw (take_positions-put ps s (h.1)) (ground (arith, h.0))
take_positions-put ((position, weight_c) ∷ ps) s h =
    rw (take_positions-put ps s (h.1)) (ground (arith, h.0))
take_positions-put ((position, weight_b) ∷ ps) s h =
    rw (take_positions-put ps s (h.1)) (ground (arith, h.0))
take_positions-put ((position, weight_a) ∷ ps) s h =
    rw (take_positions-put ps s (h.1)) (ground (arith, h.0))

unfoldable pub lexeme_read : WireLexeme → Lexeme
unfolding positions_read
lexeme_read w = record { text = w.text; positions_weights = positions_read (w.positions) }

positions_from-put :
    (text : Text) (ps : List (ℕ × PositionWeight)) (s t : Bytes)
    → 0 < length ps
    → All IsPosition ps
    → positions_from text t (some (pos (length ps), put_positions ps ++ s))
      ≡ some (record { text = text; positions_weights = positions_read ps }, s)
unfolding positions_from
positions_from-put text [] s t h k = elim h [ ]
positions_from-put text (p ∷ ps) s t h k = rw (take_positions-put (p ∷ ps) s k) refl

take_i16-put : (n : ℕ) (s : Bytes) → n < 2 ^ 15 → take_i16 (put_u16 n ++ s) ≡ some (pos n, s)
unfolding take_i16
take_i16-put n s h = rw (take_u16-put n s) (ground arith)

module _ (lib : Library) where
  -- A text without NUL, at least one and less than 2^15 positions.
  pub record IsSent (w : WireLexeme) : Type 0 where
    pub bytes_are : All IsNonZero (w.bytes)
    pub text_is : lib.utf8 (w.bytes) ≡ some (w.text)
    pub has_positions : 0 < length (w.positions)
    pub few_positions : length (w.positions) < 2 ^ 15
    pub positions_are : All IsPosition (w.positions)

  take_lexeme-put :
      (w : WireLexeme) (s : Bytes)
      → IsSent w
      → take_lexeme lib (put_lexeme w ++ s) ≡ some (lexeme_read w, s)
  unfolding take_lexeme nul_terminated_text put_lexeme lexeme_read
  take_lexeme-put w s h =
      rw
        (append_assoc (w.bytes)
          (0 ∷ (put_u16 (length (w.positions)) ++ put_positions (w.positions))) s)
        (rw
          (split_nul-append (w.bytes)
            ((put_u16 (length (w.positions)) ++ put_positions (w.positions)) ++ s) (h.bytes_are))
          (rw (h.text_is) (
            rw
              (take_i16-put (length (w.positions)) (put_positions (w.positions) ++ s)
                (h.few_positions))
              (positions_from-put (w.text) (w.positions) s
                (put_u16 (length (w.positions)) ++ (put_positions (w.positions) ++ s))
                (h.has_positions) (h.positions_are)))))

  take_lexemes-put :
      (ws : List WireLexeme)
      → All IsSent ws
      → take_lexemes lib (length ws) (put_lexemes ws) ≡ some (map lexeme_read ws)
  unfolding take_lexemes put_lexemes
  take_lexemes-put [] h = refl
  take_lexemes-put (w ∷ ws) h =
      rw (take_lexeme-put w (put_lexemes ws) (h.0)) (rw (take_lexemes-put ws (h.1)) refl)

  -- A text search vector of less than 2^31 lexemes, each with at least one position, is read from
  -- PostgreSQL's encoding with every lexeme, position and weight, in their order.
  pub ts_vector-put :
      (ws : List WireLexeme)
      → length ws < 2 ^ 31
      → All IsSent ws
      → ts_vector lib (put_u32 (length ws) ++ put_lexemes ws) ≡ some (map lexeme_read ws)
  unfolding ts_vector ts_vector_of
  ts_vector-put ws h k = rw (take_i32-put (length ws) (put_lexemes ws) h) (take_lexemes-put ws k)
