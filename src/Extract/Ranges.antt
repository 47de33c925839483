-- ===== src/Extract/Ranges.antt =====
-- src/extract.rs, ranges and multiranges: `extract_range_or_null`, `extract_range_bound`,
-- `MultirangeValue`. A reader of the advancing buffer returns what is left of it.
pub mod Encoding
use tabularis_postgresql_plu.Extract.Types.{PgType, simple}
use tabularis_postgresql_plu.Extract.Bytes.{
  Bytes, take_i32, take_u32, put_u32, put_frame, take_i32-put,
}
use tabularis_postgresql_plu.Extract.Library.{Library}
use tabularis_postgresql_plu.Extract.Scalars.{extract_simple_from_bytes}
use tabularis_postgresql_plu.Base.Integers.{ℤ, pos, negsuc}
use tabularis_postgresql_plu.Json
use tabularis_postgresql_plu.Json.{Value}
use tabularis_postgresql_plu.Base.{
  ℕ, zero, suc, ◌+◌, ◌*◌, ◌/◌, ◌%◌, ◌^◌, ◌≡◌, ◌<◌, refl, Bool, true, false, List, [], ◌∷◌, ◌++◌,
  append_assoc, Option, none, some, Text, codes, ◌==◌, ltb, if◌then◌else◌, length, take, drop,
  arith,
}

-- `out.ends_with(',')`, then `pop`.
unfoldable pub without_comma : Text → Text
without_comma [] = []
without_comma (c ∷ []) = if c == b',' then [] else c ∷ []
without_comma (c ∷ d ∷ s) = c ∷ without_comma (d ∷ s)

-- One test of a bit of the flags.
unfoldable pub bit : ℕ → ℕ → Bool
bit mask flag = flag / mask % 2 == 1

unfoldable pub lower_char : ℕ → ℕ
unfolding bit
lower_char flag = if bit 2 flag then b'[' else b'('

unfoldable pub upper_char : ℕ → ℕ
unfolding bit
upper_char flag = if bit 4 flag then b']' else b')'

module _ (lib : Library) where
  unfoldable pub bound_value : PgType → Bytes → Value
  unfolding extract_simple_from_bytes
  bound_value (simple s) buf = extract_simple_from_bytes lib s buf
  bound_value _ buf = Json.null

  unfoldable pub bound_text : Value → Option Text
  bound_text Json.null = none
  bound_text v = some (lib.json_to_text v)

  -- `extract_range_bound` behind the read of the length.
  unfoldable pub bound_from : PgType → Bytes → Option (ℤ × Bytes) → Option Text × Bytes
  unfolding bound_value bound_text
  bound_from subtype s (some (pos n, t)) =
      if ltb (length t) n
      then (none, t)
      else (bound_text (bound_value subtype (take n t)), drop n t)
  bound_from subtype s (some (negsuc n, t)) = (none, t)
  bound_from subtype s none = (none, s)

  unfoldable pub extract_range_bound : PgType → Bytes → Option Text × Bytes
  unfolding bound_from take_i32
  extract_range_bound subtype s = bound_from subtype s (take_i32 s)

  unfoldable pub upper_from : ℕ → Text → Option Text × Bytes → Value × Bytes
  unfolding upper_char
  upper_from flag out (some s, rest) = (Json.string (out ++ (s ++ (upper_char flag ∷ []))), rest)
  upper_from flag out (none, rest) =
      (Json.string (out ++ (codes "null" ++ (upper_char flag ∷ []))), rest)

  -- The upper bound, behind the text of what was read.
  unfoldable pub range_upper : PgType → ℕ → Text → Bytes → Value × Bytes
  unfolding upper_from extract_range_bound upper_char bit
  range_upper subtype flag out s =
      if bit 16 flag
      then (Json.string (out ++ (upper_char flag ∷ [])), s)
      else upper_from flag out (extract_range_bound subtype s)

  unfoldable pub lower_from : PgType → ℕ → Option Text × Bytes → Value × Bytes
  unfolding range_upper lower_char upper_char
  lower_from subtype flag (some s, rest) =
      range_upper subtype flag (lower_char flag ∷ (s ++ codes ", ")) rest
  lower_from subtype flag (none, rest) =
      (Json.string (lower_char flag ∷ (codes "null, null" ++ (upper_char flag ∷ []))), rest)

  unfoldable pub extract_range_or_null : PgType → Bytes → Value × Bytes
  unfolding lower_from range_upper extract_range_bound bit lower_char
  extract_range_or_null subtype [] = (Json.null, [])
  extract_range_or_null subtype (flag ∷ s) =
      if bit 1 flag
      then (Json.string (codes "empty"), s)
      else if bit 8 flag
      then range_upper subtype flag (lower_char flag ∷ codes ", ") s
      else lower_from subtype flag (extract_range_bound subtype s)

  unfoldable pub range_text : Value → Text
  range_text (Json.string r) = r
  range_text other = lib.json_to_text other

  -- The ranges in front of the last one push a comma each; `next` reads what follows.
  unfoldable pub range_then_comma :
      PgType → (Bytes → Text → Text) → Text → Option (ℕ × Bytes) → Text
  unfolding extract_range_or_null range_text without_comma
  range_then_comma subtype next ranges none = without_comma ranges ++ codes "}"
  range_then_comma subtype next ranges (some (len, s)) =
      let r = extract_range_or_null subtype s in
      next (r.1) (ranges ++ (range_text (r.0) ++ codes ","))

  unfoldable pub last_range : PgType → Text → Option (ℕ × Bytes) → Text
  unfolding extract_range_or_null range_text without_comma
  last_range subtype ranges none = without_comma ranges ++ codes "}"
  last_range subtype ranges (some (len, s)) =
      ranges ++ (range_text ((extract_range_or_null subtype s).0) ++ codes "}")

  unfoldable pub ranges_from : PgType → ℕ → Bytes → Text → Text
  unfolding range_then_comma last_range take_u32
  ranges_from subtype zero s ranges = last_range subtype ranges (take_u32 s)
  ranges_from subtype (suc n) s ranges =
      range_then_comma subtype (ranges_from subtype n) ranges (take_u32 s)

  unfoldable pub multirange_of : PgType → Option (ℕ × Bytes) → Value
  unfolding ranges_from
  multirange_of subtype none = Json.null
  multirange_of subtype (some (zero, s)) = Json.string (codes "{}")
  multirange_of subtype (some (suc n, s)) = Json.string (ranges_from subtype n s (codes "{"))

  unfoldable pub extract_multirange : PgType → Bytes → Value
  unfolding multirange_of take_u32
  extract_multirange subtype raw = multirange_of subtype (take_u32 raw)
