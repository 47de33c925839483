-- ===== src/Base/Decimal.antt =====
-- Decimal numbers: `to_string` of an unsigned integer, and `parse` with the overflow test of the
-- target type. Rust's `parse` accepts one leading `+`.
use tabularis_postgresql_plu.Base.{
  ℕ, zero, suc, ◌+◌, ◌-◌, ◌*◌, ◌/◌, ◌%◌, ◌^◌, ◌≤◌, ◌<◌, ◌≡◌, ◌≢◌, refl, ◌∙◌, [], ◌∷◌, Option, none,
  some, arith, Text, ltb, leb, ◌==◌, if◌then◌else◌, is_ascii_digit, ◌&&◌, All, Bool-cases, inl, inr,
}

abbrev pub max_u32 : ℕ
max_u32 = 2 ^ 32 - 1

abbrev pub max_u64 : ℕ
max_u64 = 2 ^ 64 - 1

digits : ℕ → ℕ → Text → Text
digits zero n out = out
digits (suc fuel) n out =
    let rest = digits fuel (n / 10) ((b'0' + n % 10) ∷ out) in
    if ltb n 10 then (b'0' + n) ∷ out else rest

unfoldable pub to_decimal : ℕ → Text
unfolding digits
to_decimal n = digits (suc n) n []

unfoldable pub scan_digits : ℕ → Text → ℕ → Option ℕ
unfolding is_ascii_digit
scan_digits max [] n = some n
scan_digits max (c ∷ s) n =
    let rest = scan_digits max s (n * 10 + (c - b'0')) in
    if is_ascii_digit c && leb (n * 10 + (c - b'0')) max then rest else none

unfoldable pub parse_unsigned : ℕ → Text → Option ℕ
unfolding scan_digits
parse_unsigned max [] = none
parse_unsigned max (c ∷ []) = scan_digits max (c ∷ []) 0
parse_unsigned max (c ∷ d ∷ s) =
    if c == b'+' then scan_digits max (d ∷ s) 0 else scan_digits max (c ∷ d ∷ s) 0

scan-digits :
    (max fuel n : ℕ) (out : Text)
    → n < fuel
    → n ≤ max
    → scan_digits max (digits fuel n out) 0 ≡ scan_digits max out n
unfolding scan_digits digits
scan-digits max zero n out h le = elim h [ ]
scan-digits max (suc fuel) n out h le =
    ground (arith, scan-digits max fuel (n / 10) ((b'0' + n % 10) ∷ out))

abbrev pub IsDigit : ℕ → Type 0
IsDigit c = (b'0' ≤ c) × (c ≤ b'9')

digits-IsDigit : (fuel n : ℕ) (out : Text) → All IsDigit out → All IsDigit (digits fuel n out)
unfolding digits
digits-IsDigit zero n out h = h
digits-IsDigit (suc fuel) n out h =
    ground (arith, digits-IsDigit fuel (n / 10) ((b'0' + n % 10) ∷ out))

pub to_decimal-IsDigit : (n : ℕ) → All IsDigit (to_decimal n)
unfolding to_decimal
to_decimal-IsDigit n = digits-IsDigit (suc n) n [] tt

digits-ne-nil : (fuel n : ℕ) (out : Text) → n < fuel → digits fuel n out ≢ []
unfolding digits
digits-ne-nil zero n out h = elim h [ ]
digits-ne-nil (suc fuel) n out h =
    ground (arith, digits-ne-nil fuel (n / 10) ((b'0' + n % 10) ∷ out))

pub to_decimal-ne-nil : (n : ℕ) → to_decimal n ≢ []
unfolding to_decimal
to_decimal-ne-nil n = digits-ne-nil (suc n) n [] (omega arith)

parse_digits :
    (max : ℕ) (s : Text) → s ≢ [] → All IsDigit s → parse_unsigned max s ≡ scan_digits max s 0
unfolding parse_unsigned
parse_digits max [] h d = absurd (h refl)
parse_digits max (c ∷ []) h d = refl
parse_digits max (c ∷ e ∷ s) h d = ground arith

-- A number is read back from its print by every type that holds it.
pub parse-to_decimal : (max n : ℕ) → n ≤ max → parse_unsigned max (to_decimal n) ≡ some n
parse-to_decimal max n h =
    parse_digits max (to_decimal n) (to_decimal-ne-nil n) (to_decimal-IsDigit n)
    ∙ (unfold to_decimal scan_digits in scan-digits max (suc n) n [] (omega arith) h)

scan-le : (max : ℕ) (s : Text) (n r : ℕ) → n ≤ max → scan_digits max s n ≡ some r → r ≤ max
unfolding scan_digits
scan-le max [] n r le h = ground arith
scan-le max (c ∷ s) n r le h = ground (arith, scan-le max s (n * 10 + (c - b'0')) r)

-- What is read is in the range of the type.
pub parse-le : (max : ℕ) (s : Text) (r : ℕ) → parse_unsigned max s ≡ some r → r ≤ max
unfolding parse_unsigned
parse-le max [] r h = ground arith
parse-le max (c ∷ []) r h = scan-le max (c ∷ []) 0 r (omega arith) h
parse-le max (c ∷ d ∷ s) r h = elim (Bool-cases (c == b'+')) [
  | inl e ↦ scan-le max (d ∷ s) 0 r (omega arith) (rw e at h)
  | inr e ↦ scan-le max (c ∷ d ∷ s) 0 r (omega arith) (rw e at h)
]
