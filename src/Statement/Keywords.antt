-- ===== src/Statement/Keywords.antt =====
-- src/handlers/query.rs, `leading_keywords`: the scanner over the characters of a statement.
-- The loop of the source is `scan`; a character that the source consumes ahead with `chars.next()`
-- is consumed in the mode `skip`.
pub mod Reference
use tabularis_postgresql_plu.Base.{
  ℕ, zero, suc, ◌+◌, ◌≡◌, refl, Bool, true, false, ◌&&◌, ◌||◌, List, [], ◌∷◌, ◌++◌, Option, none,
  some, arith, Text, codes, ltb, leb, ◌==◌, if◌then◌else◌, length, is_nil, head?,
  to_ascii_uppercase,
}

-- `block d` is `comment_depth = d + 1`; `skip d` is the same with one more character to consume,
-- and at `skip 0` the depth is 0 after it; `line` is the loop that looks for the end of the line.
pub data Mode : Type 0 where
  plain line : Mode
  block skip : ℕ → Mode

pub record Scan : Type 0 where
  pub mode : Mode
  pub words : List Text
  pub word : Text

pub data Next : Type 0 where
  return : List Text → Next
  continue : Scan → Next

unfoldable pub is_word_char : ℕ → Bool
is_word_char c =
    (leb b'a' c && leb c b'z')
    || (leb b'A' c && leb c b'Z')
    || (leb b'0' c && leb c b'9')
    || (c == b'_')

unfoldable pub peeks : Option ℕ → ℕ → Bool
peeks none d = false
peeks (some c) d = c == d

abbrev pub depth_mode : ℕ → Mode
depth_mode zero = plain
depth_mode (suc d) = block d

-- The `match (c, chars.peek())` behind a character that is no part of a word.
unfoldable pub punctuation : ℕ → Option ℕ → List Text → Next
unfolding peeks
punctuation c peek words =
    if c == b'-' && peeks peek b'-'
    then continue (record { mode = line; words = words; word = [] })
    else if c == b'/' && peeks peek b'*'
    then continue (record { mode = skip 1; words = words; word = [] })
    else if c == b'\'' || c == b'"' || c == b'$' || c == b';'
    then return words
    else continue (record { mode = plain; words = words; word = [] })

-- `if !word.is_empty() { words.push(take(&mut word)); if words.len() == n { return words } }`.
unfoldable pub flush : ℕ → List Text → Text → (List Text → Next) → Next
flush n words [] k = k words
flush n words (c ∷ w) k =
    if length (words ++ (c ∷ w) ∷ []) == n
    then return (words ++ (c ∷ w) ∷ [])
    else k (words ++ (c ∷ w) ∷ [])

unfoldable pub in_block : ℕ → ℕ → Option ℕ → List Text → Text → Next
unfolding peeks
in_block d c peek words word =
    if c == b'*' && peeks peek b'/'
    then continue (record { mode = skip d; words = words; word = word })
    else if c == b'/' && peeks peek b'*'
    then continue (record { mode = skip (d + 2); words = words; word = word })
    else continue (record { mode = block d; words = words; word = word })

-- One character `c`, with the character behind it.
unfoldable pub step : ℕ → Mode → ℕ → Option ℕ → List Text → Text → Next
unfolding is_word_char punctuation flush in_block to_ascii_uppercase
step n plain c peek words word =
    if is_word_char c
    then continue (record { mode = plain; words = words; word = word ++ to_ascii_uppercase c ∷ [] })
    else flush n words word (punctuation c peek)
step n line c peek words word =
    continue (record { mode = if c == b'\n' then plain else line; words = words; word = word })
step n (block d) c peek words word = in_block d c peek words word
step n (skip d) c peek words word =
    continue (record { mode = depth_mode d; words = words; word = word })

abbrev pub finish : ℕ → List Text → Text → List Text
finish n words word =
    if is_nil word then words else if ltb (length words) n then words ++ word ∷ [] else words

unfoldable pub scan : ℕ → Mode → List Text → Text → Text → List Text
unfolding step
scan n mode words word [] = finish n words word
scan n mode words word (c ∷ s) = elim (step n mode c (head? s) words word) [
  | return result ↦ result
  | continue next ↦ scan n next.mode next.words next.word s
]

unfoldable pub leading_keywords : Text → ℕ → List Text
unfolding scan
leading_keywords query n = scan n plain [] [] query
