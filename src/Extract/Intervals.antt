-- ===== src/Extract/Intervals.antt =====
-- src/extract.rs, `Interval`. Casts to the narrow types wrap; a negation or a sum wraps as in a release
-- build.
use tabularis_postgresql_plu.Extract.Bytes.{Bytes, take_i32, take_i64}
use tabularis_postgresql_plu.Extract.Times.{show_clock, show_fraction}
use tabularis_postgresql_plu.Base.Integers.{
  ℤ, pos, negsuc, pos_part, neg_part, sub_ℕ, ◌+ℤ◌, scale, show_ℤ, quot, rem, wrap, magnitude,
  is_negative, neg, eq_ℤ,
}
use tabularis_postgresql_plu.Base.{
  ℕ, suc, ◌+◌, ◌*◌, ◌/◌, ◌%◌, ◌^◌, ◌<◌, ◌≤◌, ◌≡◌, refl, ◌∙◌, [], ◌∷◌, ◌++◌, Option, some, ◌>>=◌,
  Text, codes, ◌==◌, ltb, leb, ◌||◌, if◌then◌else◌, arith, Bool-cases, inl, inr,
}

pub record Interval : Type 0 where
  pub years : ℤ
  pub months : ℤ
  pub days : ℤ
  pub sign : ℕ
  pub hours : ℕ
  pub minutes : ℕ
  pub seconds : ℕ
  pub microseconds : ℕ

-- `microseconds = -microseconds` of a negative one.
unfoldable pub time_part : ℤ → ℕ
time_part (pos n) = n
time_part (negsuc n) = suc n

-- What `Interval::from_sql` makes of the three fields; the least number of microseconds, whose negation
-- wraps, is left out.
unfoldable pub interval_of : ℤ → ℤ → ℤ → Interval
unfolding time_part ◌+ℤ◌
interval_of microseconds days months =
    let time = time_part microseconds in
    let hrs = time / 3600000000 in
    record {
      years = if ltb 11 (magnitude months) then quot months 12 else pos 0;
      months = if ltb 11 (magnitude months) then rem months 12 else months;
      days = if ltb 23 hrs then wrap (2 ^ 31) (days +ℤ pos (hrs / 24)) else days;
      sign = if is_negative microseconds then b'-' else b'+';
      hours = if ltb 23 hrs then hrs % 24 else hrs;
      minutes = time % 3600000000 / 60000000;
      seconds = time % 3600000000 % 60000000 / 1000000;
      microseconds = time % 3600000000 % 60000000 % 1000000;
    }

unfoldable pub interval : Bytes → Option Interval
unfolding take_i64 take_i32 interval_of
interval raw = do
  (microseconds, s) ← take_i64 raw
  (days, t) ← take_i32 s
  (months, u) ← take_i32 t
  some (interval_of microseconds days months)

-- `"{} {} "` with the unit's plural, and nothing for zero.
unfoldable pub show_unit : Text → ℤ → Text
unfolding show_ℤ
show_unit unit n =
    if eq_ℤ n (pos 0)
    then []
    else show_ℤ n ++ (b' ' ∷ (unit ++ (if magnitude n == 1 then codes " " else codes "s ")))

unfoldable pub show_time : Interval → Text
unfolding show_clock show_fraction
show_time v =
    if (ltb 0 (v.hours) || ltb 0 (v.minutes) || ltb 0 (v.seconds) || ltb 0 (v.microseconds))
    then (if v.sign == b'+' then [] else v.sign ∷ [])
      ++ (show_clock (v.hours) (v.minutes) (v.seconds) ++ show_fraction (v.microseconds))
    else []

unfoldable pub show_interval : Interval → Text
unfolding show_unit show_time
show_interval v =
    show_unit (codes "year") (v.years)
    ++ (show_unit (codes "month") (v.months) ++ (show_unit (codes "day") (v.days) ++ show_time v))

-- The time of day of the decoded interval, in microseconds.
unfoldable pub clock : Interval → ℕ
clock v = ((v.hours * 60 + v.minutes) * 60 + v.seconds) * 1000000 + v.microseconds

-- Its days and its time with their signs, in microseconds.
unfoldable pub total : Interval → ℤ
unfolding clock scale ◌+ℤ◌
total v =
    scale 86400000000 (v.days) +ℤ (if v.sign == b'-' then neg (pos (clock v)) else pos (clock v))

clock-interval_of : (m d o : ℤ) → clock (interval_of m d o) ≡ time_part m % 86400000000
unfolding clock interval_of
clock-interval_of m d o = elim (Bool-cases (ltb 23 (time_part m / 3600000000))) [
  | inl e ↦ rw e (omega arith)
  | inr e ↦ rw e (ground arith)
]

days-interval_of :
    (n : ℕ) (days months : ℤ)
    → pos_part days + n / 86400000000 < 2 ^ 31
    → neg_part days ≤ 2 ^ 31
    → (interval_of (pos n) days months).days ≡ days +ℤ pos (n / 86400000000)
unfolding interval_of ◌+ℤ◌ time_part
days-interval_of n (pos d) months h k = ground arith
days-interval_of n (negsuc d) months h k = ground arith

scale_day_sum :
    (a b c : ℕ)
    → scale 86400000000 (sub_ℕ a b) +ℤ pos c ≡ sub_ℕ (86400000000 * a + c) (86400000000 * b)
unfolding scale ◌+ℤ◌
scale_day_sum a b c = elim (Bool-cases (leb b a)) [
  | inl e ↦ rw e (ground arith)
  | inr e ↦ rw e (ground arith)
]

neg_sum : (d q : ℕ) → negsuc d +ℤ pos q ≡ sub_ℕ q (suc d)
unfolding ◌+ℤ◌
neg_sum d q = ground arith

day_sum :
    (n : ℕ) (days : ℤ)
    → scale 86400000000 (days +ℤ pos (n / 86400000000)) +ℤ pos (n % 86400000000)
      ≡ scale 86400000000 days +ℤ pos n
day_sum n (pos d) = unfold ◌+ℤ◌ scale in ground arith
day_sum n (negsuc d) = rw (neg_sum d (n / 86400000000)) (
    scale_day_sum (n / 86400000000) (suc d) (n % 86400000000) ∙ (unfold ◌+ℤ◌ scale in ground arith))

months_sum :
    (days months : ℤ) (n : ℕ)
    → scale 12 ((interval_of (pos n) days months).years) +ℤ (interval_of (pos n) days months).months
      ≡ months
unfolding interval_of ◌+ℤ◌ scale
months_sum days (pos m) n = ground arith
months_sum days (negsuc m) n = ground arith

total_parts :
    (n : ℕ) (days months : ℤ)
    → total (interval_of (pos n) days months)
      ≡ scale 86400000000 ((interval_of (pos n) days months).days)
        +ℤ pos (clock (interval_of (pos n) days months))
unfolding total interval_of
total_parts n days months = refl

-- An interval whose time part is not negative is decoded to the same number of microseconds, days
-- counted as 24 hours, and to the same number of months, if the days with the full days of the time fit
-- in 32 bits.
pub total-interval_of :
    (n : ℕ) (days months : ℤ)
    → pos_part days + n / 86400000000 < 2 ^ 31
    → neg_part days ≤ 2 ^ 31
    → (total (interval_of (pos n) days months) ≡ scale 86400000000 days +ℤ pos n)
      × (scale 12 ((interval_of (pos n) days months).years)
            +ℤ (interval_of (pos n) days months).months
          ≡ months)
total-interval_of n days months h k = (
  total_parts n days months
      ∙ (rw (clock-interval_of (pos n) days months, days-interval_of n days months h k)
          (unfold time_part in day_sum n days)),
  months_sum days months n,
)
