-- ===== src/Extract/Times.antt =====
-- src/extract.rs, `TimeTz`: a time of day with its offset. Casts to the narrow types wrap; negations wrap at the least
-- integer, as in a release build.
use tabularis_postgresql_plu.Extract.Bytes.{Bytes, take_i32, take_i64}
use tabularis_postgresql_plu.Base.Integers.{
  ℤ, pos, negsuc, quot, rem, low_bits, wrap, is_positive, neg,
}
use tabularis_postgresql_plu.Base.Decimal.{to_decimal}
use tabularis_postgresql_plu.Base.{
  ℕ, ◌/◌, ◌%◌, ◌^◌, [], ◌∷◌, ◌++◌, Option, none, some, ◌>>=◌, Text, ◌==◌, ltb, if◌then◌else◌,
  trim_end_matches,
}

-- `{:02}`.
unfoldable pub show_two : ℕ → Text
unfolding to_decimal
show_two n = if ltb n 10 then b'0' ∷ to_decimal n else to_decimal n

unfoldable pub show_clock : ℕ → ℕ → ℕ → Text
unfolding show_two
show_clock h m s = show_two h ++ (b':' ∷ (show_two m ++ (b':' ∷ show_two s)))

unfoldable pub show_fraction : ℕ → Text
unfolding to_decimal trim_end_matches
show_fraction microseconds =
    if ltb 0 microseconds
    then b'.' ∷ trim_end_matches (λ c. c == b'0') (to_decimal microseconds)
    else []

pub record TimeTz : Type 0 where
  pub hrs : ℕ
  pub mins : ℕ
  pub secs : ℕ
  pub microseconds : ℕ
  pub offset_sign : ℕ
  pub offset_hrs : ℕ
  pub offset_mins : ℕ
  pub offset_secs : ℕ

-- The time of day and the offset to the west in seconds, as `TimeTz::from_sql` splits them.
unfoldable pub time_tz_of : ℤ → ℤ → Option TimeTz
time_tz_of (negsuc n) timezone_offset = none
time_tz_of (pos microseconds) timezone_offset =
    let offset =
      if is_positive timezone_offset
      then timezone_offset
      else wrap (2 ^ 31) (neg timezone_offset) in
    let remainder = rem offset 3600 in
    some (record {
      hrs = microseconds / 3600000000 % 256;
      mins = microseconds % 3600000000 / 60000000 % 256;
      secs = microseconds % 3600000000 % 60000000 / 1000000 % 256;
      microseconds = microseconds % 3600000000 % 60000000 % 1000000;
      offset_sign = if is_positive timezone_offset then b'-' else b'+';
      offset_hrs = low_bits 256 (quot offset 3600);
      offset_mins = low_bits 256 (quot remainder 60);
      offset_secs = low_bits 256 (rem remainder 60);
    })

unfoldable pub time_tz : Bytes → Option TimeTz
unfolding take_i64 take_i32 time_tz_of
time_tz raw = do
  (microseconds, s) ← take_i64 raw
  (timezone_offset, t) ← take_i32 s
  time_tz_of microseconds timezone_offset

unfoldable pub show_time_tz : TimeTz → Text
unfolding show_clock show_fraction show_two
show_time_tz v =
    show_clock (v.hrs) (v.mins) (v.secs)
    ++ (show_fraction (v.microseconds)
        ++ (v.offset_sign
            ∷ (show_two (v.offset_hrs)
                ++ ((if ltb 0 (v.offset_mins) then b':' ∷ show_two (v.offset_mins) else [])
                    ++ (if ltb 0 (v.offset_secs) then b':' ∷ show_two (v.offset_secs) else [])))))
