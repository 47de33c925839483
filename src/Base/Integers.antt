-- ===== src/Base/Integers.antt =====
-- Signed integers over the native numbers, and two's complement.
use tabularis_postgresql_plu.Base.{
  ℕ, suc, ◌+◌, ◌-◌, ◌*◌, ◌/◌, ◌%◌, Bool, true, false, ◌==◌, ltb, leb, if◌then◌else◌, Text, ◌∷◌,
}
use tabularis_postgresql_plu.Base.Decimal.{to_decimal}

-- `negsuc n` is -(n + 1).
pub data ℤ : Type 0 where
  pos : ℕ → ℤ
  negsuc : ℕ → ℤ

abbrev pub pos_part : ℤ → ℕ
pos_part (pos n) = n
pos_part (negsuc n) = 0

abbrev pub neg_part : ℤ → ℕ
neg_part (pos n) = 0
neg_part (negsuc n) = suc n

-- a - b, as an integer.
abbrev pub sub_ℕ : ℕ → ℕ → ℤ
sub_ℕ a b = if leb b a then pos (a - b) else negsuc (b - a - 1)

infixl 65 ◌+ℤ◌
unfoldable pub ◌+ℤ◌ : ℤ → ℤ → ℤ
a +ℤ b = sub_ℕ (pos_part a + pos_part b) (neg_part a + neg_part b)

-- A number times an integer.
unfoldable pub scale : ℕ → ℤ → ℤ
scale k a = sub_ℕ (k * pos_part a) (k * neg_part a)

-- `abs`, without the wrap of the least integer.
abbrev pub magnitude : ℤ → ℕ
magnitude (pos n) = n
magnitude (negsuc n) = suc n

-- What the pattern `n` of `w` bits stands for, `half` being 2 ^ (w - 1).
abbrev pub signed : ℕ → ℕ → ℤ
signed half n = if ltb n half then pos n else negsuc (half + half - n - 1)

unfoldable pub show_ℤ : ℤ → Text
unfolding to_decimal
show_ℤ (pos n) = to_decimal n
show_ℤ (negsuc n) = b'-' ∷ to_decimal (suc n)

-- Division and remainder of Rust, which round to zero.
abbrev pub quot : ℤ → ℕ → ℤ
quot (pos n) k = pos (n / k)
quot (negsuc n) k = sub_ℕ 0 (suc n / k)

abbrev pub rem : ℤ → ℕ → ℤ
rem (pos n) k = pos (n % k)
rem (negsuc n) k = sub_ℕ 0 (suc n % k)

-- The low bits of two's complement, `size` being 2 to their number: `as u8`, `as u32`.
abbrev pub low_bits : ℕ → ℤ → ℕ
low_bits size (pos n) = n % size
low_bits size (negsuc n) = size - 1 - n % size

-- A sum that wraps around to the signed type of `2 * half` values.
abbrev pub wrap : ℕ → ℤ → ℤ
wrap half a = signed half (low_bits (half + half) a)

abbrev pub is_negative : ℤ → Bool
is_negative (pos n) = false
is_negative (negsuc n) = true

abbrev pub is_positive : ℤ → Bool
is_positive (pos n) = ltb 0 n
is_positive (negsuc n) = false

abbrev pub neg : ℤ → ℤ
neg (pos n) = sub_ℕ 0 n
neg (negsuc n) = pos (suc n)

abbrev pub eq_ℤ : ℤ → ℤ → Bool
eq_ℤ (pos a) (pos b) = a == b
eq_ℤ (negsuc a) (negsuc b) = a == b
eq_ℤ _ _ = false
