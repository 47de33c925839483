-- ===== src/Extract/Ranges/Encoding.antt =====
-- src/extract.rs, ranges: PostgreSQL's encoding and the text that is read from it.
use tabularis_postgresql_plu.Extract.Ranges.{
  bit, lower_char, upper_char, bound_value, bound_text, bound_from, extract_range_bound, upper_from,
  range_upper, lower_from, extract_range_or_null, range_text, ranges_from, extract_multirange,
  multirange_of, last_range, range_then_comma,
}
use tabularis_postgresql_plu.Extract.Types.{PgType}
use tabularis_postgresql_plu.Extract.Bytes.{
  Bytes, put_u32, put_frame, take_i32-put, take_u32-put, ltb-length_append,
}
use tabularis_postgresql_plu.Extract.Library.{Library}
use tabularis_postgresql_plu.Json
use tabularis_postgresql_plu.Base.{
  ℕ, ◌+◌, ◌^◌, ◌≡◌, ◌<◌, refl, sym, ap, ◌∙◌, Bool, true, false, List, [], ◌∷◌, ◌++◌, append_assoc,
  some, Text, codes, if◌then◌else◌, length, All, take-length_append, drop-length_append, map, join,
}

-- A bound: none, or the bytes of a value, the text made of them, and whether the range holds it.
pub data Bound : Type 0 where
  unbounded : Bound
  at : Bytes → Text → Bool → Bound

pub data Range : Type 0 where
  empty_range : Range
  between : Bound → Bound → Range

abbrev pub weight_if : Bool → ℕ → ℕ
weight_if true n = n
weight_if false n = 0

abbrev pub is_held : Bound → Bool
is_held unbounded = false
is_held (at b t held) = held

abbrev pub is_unbounded : Bound → Bool
is_unbounded unbounded = true
is_unbounded (at b t held) = false

abbrev pub flag_of : Bound → Bound → ℕ
flag_of l u =
    weight_if (is_held l) 2
    + weight_if (is_held u) 4
    + weight_if (is_unbounded l) 8
    + weight_if (is_unbounded u) 16

unfoldable pub put_bound : Bound → Bytes
put_bound unbounded = []
put_bound (at b t held) = put_frame b

unfoldable pub put_range : Range → Bytes
put_range empty_range = 1 ∷ []
put_range (between l u) = flag_of l u ∷ (put_bound l ++ put_bound u)

abbrev pub show_bound : Bound → Text
show_bound unbounded = []
show_bound (at b t held) = t

-- The text PostgreSQL gives, but for the space behind the comma.
unfoldable pub show_range : Range → Text
show_range empty_range = codes "empty"
show_range (between l u) =
    (if is_held l then b'[' else b'(')
    ∷ (show_bound l ++ (codes ", " ++ (show_bound u ++ ((if is_held u then b']' else b')') ∷ []))))

flag_bits :
    (l u : Bound)
    → (bit 1 (flag_of l u) ≡ false)
      × (bit 8 (flag_of l u) ≡ is_unbounded l)
      × (bit 16 (flag_of l u) ≡ is_unbounded u)
      × (lower_char (flag_of l u) ≡ (if is_held l then b'[' else b'('))
      × (upper_char (flag_of l u) ≡ (if is_held u then b']' else b')'))
unfolding bit lower_char upper_char
flag_bits unbounded unbounded = (refl, refl, refl, refl, refl)
flag_bits unbounded (at c v true) = (refl, refl, refl, refl, refl)
flag_bits unbounded (at c v false) = (refl, refl, refl, refl, refl)
flag_bits (at b t true) unbounded = (refl, refl, refl, refl, refl)
flag_bits (at b t false) unbounded = (refl, refl, refl, refl, refl)
flag_bits (at b t true) (at c v true) = (refl, refl, refl, refl, refl)
flag_bits (at b t true) (at c v false) = (refl, refl, refl, refl, refl)
flag_bits (at b t false) (at c v true) = (refl, refl, refl, refl, refl)
flag_bits (at b t false) (at c v false) = (refl, refl, refl, refl, refl)

-- The ranges of a multirange, each behind its length.
unfoldable pub put_ranges : List Range → Bytes
put_ranges [] = []
put_ranges (r ∷ rs) = put_u32 (length (put_range r)) ++ (put_range r ++ put_ranges rs)

assoc_behind : (a b c d : Text) → (a ++ b) ++ (c ++ d) ≡ a ++ ((b ++ c) ++ d)
assoc_behind a b c d = append_assoc a b (c ++ d) ∙ ap (◌++◌ a) (sym (append_assoc b c d))

module _ (lib : Library) (subtype : PgType) where
  -- The bytes of a bound are a value of the subtype, printed as the text.
  abbrev pub IsBound : Bound → Type 0
  IsBound unbounded = Unit {0}
  IsBound (at b t held) =
      (length b < 2 ^ 31) × (bound_text lib (bound_value lib subtype b) ≡ some t)

  abbrev pub IsRange : Range → Type 0
  IsRange empty_range = Unit {0}
  IsRange (between l u) = IsBound l × IsBound u

  range_bound-put :
      (b s : Bytes) (t : Text)
      → length b < 2 ^ 31
      → bound_text lib (bound_value lib subtype b) ≡ some t
      → extract_range_bound lib subtype (put_frame b ++ s) ≡ (some t, s)
  unfolding extract_range_bound bound_from put_frame
  range_bound-put b s t h e = rw (append_assoc (put_u32 (length b)) b s) (
      rw (take_i32-put (length b) (b ++ s) h)
        (rw (ltb-length_append b s, take-length_append b s, drop-length_append b s) (rw e refl)))

  upper-put :
      (l u : Bound) (out s : Bytes)
      → IsBound u
      → range_upper lib subtype (flag_of l u) out (put_bound u ++ s)
        ≡ (Json.string (out ++ (show_bound u ++ ((if is_held u then b']' else b')') ∷ []))), s)
  unfolding range_upper upper_from put_bound
  upper-put l unbounded out s h = rw ((flag_bits l unbounded).2, (flag_bits l unbounded).4) refl
  upper-put l (at b t held) out s h =
      rw ((flag_bits l (at b t held)).2)
        (rw (range_bound-put b s t (h.0) (h.1)) (rw ((flag_bits l (at b t held)).4) refl))

  lower-put :
      (l u : Bound) (s : Bytes)
      → IsBound l
      → IsBound u
      → extract_range_or_null lib subtype (put_range (between l u) ++ s)
        ≡ (Json.string (show_range (between l u)), s)
  unfolding extract_range_or_null lower_from put_range show_range put_bound
  lower-put unbounded u s h k =
      rw ((flag_bits unbounded u).0, (flag_bits unbounded u).1)
        (rw ((flag_bits unbounded u).3) (upper-put unbounded u (codes "(, ") s k))
  lower-put (at b t held) u s h k =
      rw ((flag_bits (at b t held) u).0, (flag_bits (at b t held) u).1)
        (rw (append_assoc (put_frame b) (put_bound u) s) (
          rw (range_bound-put b (put_bound u ++ s) t (h.0) (h.1)) (
            rw ((flag_bits (at b t held) u).3) (
              upper-put (at b t held) u ((if held then b'[' else b'(') ∷ (t ++ codes ", ")) s k
              ∙ ap (λ r. (Json.string ((if held then b'[' else b'(') ∷ r), s))
                  (append_assoc t (codes ", ")
                    (show_bound u ++ ((if is_held u then b']' else b')') ∷ [])))))))

  -- A range is read from PostgreSQL's encoding as its text, and what is behind it is left, if its bounds
  -- are values of the subtype of less than 2^31 bytes.
  pub extract_range-put :
      (r : Range) (s : Bytes)
      → IsRange r
      → extract_range_or_null lib subtype (put_range r ++ s) ≡ (Json.string (show_range r), s)
  extract_range-put empty_range s h = unfold extract_range_or_null put_range show_range in refl
  extract_range-put (between l u) s h = lower-put l u s (h.0) (h.1)

  ranges_from-put :
      (r : Range) (rs : List Range) (ranges : Text)
      → IsRange r
      → All IsRange rs
      → ranges_from lib subtype (length rs) (put_ranges (r ∷ rs)) ranges
        ≡ ranges ++ (join (codes ",") (map show_range (r ∷ rs)) ++ codes "}")
  unfolding ranges_from range_then_comma last_range put_ranges range_text join
  ranges_from-put r [] ranges h k =
      rw (take_u32-put (length (put_range r)) (put_range r ++ []))
        (rw (extract_range-put r [] h) refl)
  ranges_from-put r (q ∷ rs) ranges h k =
      rw (take_u32-put (length (put_range r)) (put_range r ++ put_ranges (q ∷ rs))) (
        rw (extract_range-put r (put_ranges (q ∷ rs)) h) (
          ranges_from-put q rs (ranges ++ (show_range r ++ codes ",")) (k.0) (k.1)
          ∙ assoc_behind ranges (show_range r ++ codes ",")
              (join (codes ",") (map show_range (q ∷ rs))) (codes "}")))

  -- A multirange is read from PostgreSQL's encoding as its ranges, in their order, separated by commas, if
  -- their bounds are values of the subtype of less than 2^31 bytes.
  pub extract_multirange-put :
      (rs : List Range)
      → All IsRange rs
      → extract_multirange lib subtype (put_u32 (length rs) ++ put_ranges rs)
        ≡ Json.string (codes "{" ++ (join (codes ",") (map show_range rs) ++ codes "}"))
  unfolding extract_multirange multirange_of
  extract_multirange-put [] h = unfold put_u32 put_ranges join in refl
  extract_multirange-put (r ∷ rs) h =
      rw (take_u32-put (length (r ∷ rs)) (put_ranges (r ∷ rs)))
        (ap Json.string (ranges_from-put r rs (codes "{") (h.0) (h.1)))
