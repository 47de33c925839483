-- ===== src/Extract/BitString.antt =====
-- src/extract.rs, `BitOrVarBit`: the bits of a bit string as text.
use tabularis_postgresql_plu.Extract.Bytes.{Bytes, take_u32, put_u32, take_u32-put}
use tabularis_postgresql_plu.Base.Integers.{ℤ, pos, negsuc, signed}
use tabularis_postgresql_plu.Base.{
  ℕ, zero, suc, ◌+◌, ◌-◌, ◌*◌, ◌/◌, ◌%◌, ◌^◌, ◌<◌, ◌≤◌, ◌≡◌, refl, sym, ap, ◌∙◌, false, [], ◌∷◌,
  ◌++◌, append_assoc, Option, none, some, Text, ltb, if◌then◌else◌, length, take, drop, arith,
  Bool-cases, inl, inr, length-take, take-append-drop, ◌>>=◌,
}

-- `format!("{:08b}", b)`.
unfoldable pub show_byte : ℕ → Text
show_byte b =
    (b'0' + b / 128)
    ∷ (b'0' + b / 64 % 2)
    ∷ (b'0' + b / 32 % 2)
    ∷ (b'0' + b / 16 % 2)
    ∷ (b'0' + b / 8 % 2)
    ∷ (b'0' + b / 4 % 2)
    ∷ (b'0' + b / 2 % 2)
    ∷ (b'0' + b % 2)
    ∷ []

-- The loop over all bytes but the last, and the last one cut to the remainder.
unfoldable pub show_bits : ℕ → Bytes → Text
unfolding show_byte
show_bits remainder [] = []
show_bits remainder (b ∷ []) = if ltb 0 remainder then take remainder (show_byte b) else show_byte b
show_bits remainder (b ∷ c ∷ bytes) = show_byte b ++ show_bits remainder (c ∷ bytes)

-- `as usize` of the count, where a negative one becomes enormous.
abbrev as_usize : ℤ → ℕ
as_usize (pos n) = n
as_usize (negsuc n) = 2 ^ 64 - n - 1

abbrev pub bytes_for : ℕ → ℕ
bytes_for bits_num = bits_num / 8 + (if ltb 0 (bits_num % 8) then 1 else 0)

unfoldable pub bits_of : ℕ → Bytes → Option Text
unfolding show_bits
bits_of bits_num s =
    if ltb (length s) (bytes_for bits_num)
    then none
    else some (show_bits (bits_num % 8) (take (bytes_for bits_num) s))

unfoldable pub bit_string : Bytes → Option Text
unfolding take_u32 bits_of
bit_string raw = do (count, s) ← take_u32 raw; bits_of (as_usize (signed (2 ^ 31) count)) s

-- All bits of the bytes, in their order.
unfoldable pub all_bits : Bytes → Text
unfolding show_byte
all_bits [] = []
all_bits (b ∷ bytes) = show_byte b ++ all_bits bytes

length-show_byte : (b : ℕ) → length (show_byte b) ≡ 8
unfolding show_byte
length-show_byte b = refl

length-all_bits : (s : Bytes) → length (all_bits s) ≡ 8 * length s
unfolding all_bits show_byte
length-all_bits [] = refl
length-all_bits (b ∷ s) = ground (arith, length-all_bits s)

take_whole : (n : ℕ) (s : Text) → n ≡ length s → take n s ≡ s
take_whole zero [] h = refl
take_whole zero (c ∷ s) h = absurd (omega arith)
take_whole (suc n) [] h = absurd (omega arith)
take_whole (suc n) (c ∷ s) h = ap (◌∷◌ c) (take_whole n s (omega arith))

take_nil : (n : ℕ) → take {A = ℕ} n [] ≡ []
take_nil zero = refl
take_nil (suc n) = refl

take_past : (x t : Text) (n : ℕ) → length x ≤ n → take n (x ++ t) ≡ x ++ take (n - length x) t
take_past [] t n h = ap (λ m. take m t) (omega arith)
take_past (c ∷ x) t zero h = absurd (omega arith)
take_past (c ∷ x) t (suc n) h =
    ap (◌∷◌ c) (take_past x t n (omega arith) ∙ ap (λ m. x ++ take m t) (omega arith))

last_byte : (n b : ℕ) → bytes_for n ≡ 1 → show_bits (n % 8) (b ∷ []) ≡ take n (show_byte b)
unfolding show_bits
last_byte n b h = elim (Bool-cases (ltb 0 (n % 8))) [
  | inl e ↦ rw e (ap (λ r. take r (show_byte b)) (ground arith))
  | inr e ↦ rw e (sym (take_whole n (show_byte b) (ground arith)))
]

-- The bytes of `n` bits, cut where the loop cuts them.
show_bits-take :
    (n : ℕ) (s : Bytes) → bytes_for n ≡ length s → show_bits (n % 8) s ≡ take n (all_bits s)
unfolding show_bits all_bits
show_bits-take n [] h = sym (take_nil n)
show_bits-take n (b ∷ []) h = last_byte n b h
show_bits-take n (b ∷ c ∷ s) h =
    ap (λ t. show_byte b ++ t)
      (ap (λ r. show_bits r (c ∷ s)) (ground arith) ∙ show_bits-take (n - 8) (c ∷ s) (ground arith))
    ∙ sym (take_past (show_byte b) (all_bits (c ∷ s)) n (ground arith))

take_in : (n : ℕ) (s t : Text) → n ≤ length s → take n (s ++ t) ≡ take n s
take_in zero s t h = refl
take_in (suc n) [] t h = absurd (omega arith)
take_in (suc n) (c ∷ s) t h = ap (◌∷◌ c) (take_in n s t (omega arith))

all_bits-append : (s t : Bytes) → all_bits (s ++ t) ≡ all_bits s ++ all_bits t
unfolding all_bits
all_bits-append [] t = refl
all_bits-append (b ∷ s) t =
    ap (λ r. show_byte b ++ r) (all_bits-append s t)
    ∙ sym (append_assoc (show_byte b) (all_bits s) (all_bits t))

bits_of_prefix :
    (n k : ℕ) (s : Bytes)
    → n ≤ 8 * k
    → k ≤ length s
    → take n (all_bits (take k s)) ≡ take n (all_bits s)
bits_of_prefix n k s h le =
    sym (
      take_in n (all_bits (take k s)) (all_bits (drop k s))
        (ground (arith, length-all_bits (take k s), length-take k s)))
    ∙ ap (take n) (sym (all_bits-append (take k s) (drop k s)) ∙ ap all_bits (take-append-drop k s))

less_bits :
    (n : ℕ) (s : Bytes) → ltb (length s) (bytes_for n) ≡ false → ltb (8 * length s) n ≡ false
less_bits n s h = ground arith

bits_of-take :
    (n : ℕ) (s : Bytes)
    → bits_of n s ≡ (if ltb (8 * length s) n then none else some (take n (all_bits s)))
unfolding bits_of
bits_of-take n s = elim (Bool-cases (ltb (length s) (bytes_for n))) [
  | inl e ↦ rw e (ground arith)
  | inr e ↦
      rw (e, less_bits n s e)
        (ap some (
          show_bits-take n (take (bytes_for n) s) (ground (arith, length-take (bytes_for n) s))
          ∙ bits_of_prefix n (bytes_for n) s (ground arith) (ground arith)))
]

as_usize-signed : (n : ℕ) → n < 2 ^ 31 → as_usize (signed (2 ^ 31) n) ≡ n
as_usize-signed n h = ground arith

-- A bit string of less than 2^31 bits is read as its bits in their order, the padding of the last byte
-- left out; bytes that are too few for the count are refused.
pub bit_string-put :
    (n : ℕ) (payload : Bytes)
    → n < 2 ^ 31
    → bit_string (put_u32 n ++ payload)
      ≡ (if ltb (8 * length payload) n then none else some (take n (all_bits payload)))
unfolding bit_string
bit_string-put n payload h =
    rw (take_u32-put n payload) (rw (as_usize-signed n h) (bits_of-take n payload))
