-- ===== src/Pagination.antt =====
-- src/utils/pagination.rs. A position in the text counts characters, where the source counts bytes.
-- Arithmetic on `u32` wraps around, as in a release build (a debug build panics instead); `table` is
-- Unicode's upper-case mapping of the characters that are not ASCII.
pub mod Window
use tabularis_postgresql_plu.Base.Decimal.{max_u32, max_u64, to_decimal, parse_unsigned}
use tabularis_postgresql_plu.Base.{
  ℕ, zero, suc, ◌+◌, ◌-◌, ◌*◌, ◌%◌, ◌^◌, ◌≡◌, refl, Bool, true, false, ◌&&◌, List, [], ◌∷◌, ◌++◌,
  Option, none, some, ◌>>=◌, Text, codes, ltb, leb, ◌==◌, if◌then◌else◌, get_or_else, is_some,
  get_elem?, length, take, drop, min, is_nil, is_whitespace, trim_end, trim_end_matches,
  starts_with, to_uppercase, text_eq,
}

-- `page.saturating_sub(1) * page_size`, with the page size.
unfoldable pub limit_offset : ℕ → ℕ → ℕ × ℕ
limit_offset page page_size = (page_size, ((page - 1) * page_size) % 2 ^ 32)

-- `str::split_whitespace`; `word` is the token that has begun.
unfoldable pub split_from : Text → Text → List Text
unfolding is_whitespace
split_from [] [] = []
split_from (w ∷ word) [] = (w ∷ word) ∷ []
split_from [] (c ∷ s) = split_from (if is_whitespace c then [] else c ∷ []) s
split_from (w ∷ word) (c ∷ s) = elim (is_whitespace c) [
  | true ↦ (w ∷ word) ∷ split_from [] s
  | false ↦ split_from ((w ∷ word) ++ c ∷ []) s
]

unfoldable pub split_whitespace : Text → List Text
unfolding split_from
split_whitespace s = split_from [] s

-- `s.find(p)`.
unfoldable pub find : Text → Text → Option ℕ
unfolding starts_with
find p [] = if starts_with [] p then some 0 else none
find p (c ∷ s) = if starts_with (c ∷ s) p then some 0 else (find p s >>= λ i. some (suc i))

-- The loop of `tokenize_with_pos`.
unfoldable pub locate : Text → List Text → ℕ → List (Text × ℕ)
unfolding find
locate sql [] idx = []
locate sql (part ∷ parts) idx =
    let start = get_or_else (find part (drop idx sql) >>= λ p. some (idx + p)) idx in
    (part, start) ∷ locate sql parts (start + length part)

unfoldable pub tokenize_with_pos : Text → List (Text × ℕ)
unfolding locate split_whitespace
tokenize_with_pos sql = locate sql (split_whitespace sql) 0

-- `query.trim_end().trim_end_matches(';').trim_end()`.
unfoldable pub trimmed : Text → Text
unfolding trim_end trim_end_matches
trimmed query = trim_end (trim_end_matches (λ c. c == b';') (trim_end query))

unfoldable pub token : List (Text × ℕ) → ℕ → Text
token tokens i = elim (get_elem? tokens i) [ none ↦ [] | some t ↦ t.0 ]

module _ (table : ℕ → Text) where
  -- `end >= 2 && tokens[end - 2].0.to_uppercase() == keyword`.
  unfoldable pub keyword_at : List (Text × ℕ) → ℕ → Text → Bool
  unfolding token to_uppercase text_eq
  keyword_at tokens end keyword =
      leb 2 end && text_eq (to_uppercase table (token tokens (end - 2))) keyword

  -- The guard of a clause that is stripped, and the `end` behind it.
  unfoldable pub skip_clause : List (Text × ℕ) → Text → ℕ → ℕ
  unfolding keyword_at token parse_unsigned
  skip_clause tokens keyword end =
      if keyword_at tokens end keyword && is_some (parse_unsigned max_u64 (token tokens (end - 1)))
      then end - 2
      else end

  unfoldable pub cut : Text → List (Text × ℕ) → ℕ → Text
  unfolding trim_end
  cut text tokens end = elim (get_elem? tokens end) [
    | none ↦ text
    | some t ↦ trim_end (take t.1 text)
  ]

  unfoldable pub strip_limit_offset : Text → Text
  unfolding skip_clause cut tokenize_with_pos trimmed
  strip_limit_offset query =
      let text = trimmed query in
      let tokens = tokenize_with_pos text in
      cut text tokens
        (skip_clause tokens (codes "LIMIT") (skip_clause tokens (codes "OFFSET") (length tokens)))

  unfoldable pub extract_user_limit : Text → Option ℕ
  unfolding skip_clause keyword_at tokenize_with_pos trimmed
  extract_user_limit query =
      let tokens = tokenize_with_pos (trimmed query) in
      let end = skip_clause tokens (codes "OFFSET") (length tokens) in
      if keyword_at tokens end (codes "LIMIT")
      then parse_unsigned max_u32 (token tokens (end - 1))
      else none

  unfoldable pub extract_user_offset : Text → Option ℕ
  unfolding keyword_at tokenize_with_pos trimmed
  extract_user_offset query =
      let tokens = tokenize_with_pos (trimmed query) in
      let end = length tokens in
      if keyword_at tokens end (codes "OFFSET")
      then parse_unsigned max_u32 (token tokens (end - 1))
      else none

-- The row count that a page asks for: one more than its size, within the user's limit.
unfoldable pub fetch_count : Option ℕ → ℕ → ℕ → ℕ
fetch_count none page_size page_offset = (page_size + 1) % 2 ^ 32
fetch_count (some ul) page_size page_offset = min (ul - page_offset) ((page_size + 1) % 2 ^ 32)

-- `user_offset.saturating_add(page_offset)`.
unfoldable pub total_offset : Option ℕ → ℕ → ℕ
total_offset user_offset page_offset = min (get_or_else user_offset 0 + page_offset) max_u32

unfoldable pub render : Text → ℕ → ℕ → Text
unfolding to_decimal
render base count offset =
    base ++ codes " LIMIT " ++ to_decimal count ++ codes " OFFSET " ++ to_decimal offset

module _ (table : ℕ → Text) where
  unfoldable pub build_paginated_query : Text → ℕ → ℕ → Text
  unfolding limit_offset extract_user_limit extract_user_offset strip_limit_offset fetch_count
      total_offset render
  build_paginated_query query page_size page =
      let page_offset = (limit_offset page page_size).1 in
      render (strip_limit_offset table query)
        (fetch_count (extract_user_limit table query) page_size page_offset)
        (total_offset (extract_user_offset table query) page_offset)
