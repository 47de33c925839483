-- ===== src/Extract/Bytes.antt =====
-- Bytes of the wire, big-endian integers and length-prefixed values, as src/extract.rs slices them.
-- The encoders are those of PostgreSQL's format.
use tabularis_postgresql_plu.Base.{
  ℕ, ◌+◌, ◌*◌, ◌/◌, ◌%◌, ◌^◌, ◌<◌, ◌≡◌, false, List, [], ◌∷◌, ◌++◌, Option, none, some, ◌>>=◌,
  arith, ltb, if◌then◌else◌, length, take, drop, length-append, take-length_append,
  drop-length_append,
}
use tabularis_postgresql_plu.Base.Integers.{ℤ, pos, signed}

abbrev pub Bytes : Type 0
Bytes = List ℕ

-- `from_be_bytes` of the first bytes, with what is behind them.
unfoldable pub take_u16 : Bytes → Option (ℕ × Bytes)
take_u16 (a ∷ b ∷ s) = some (a * 256 + b, s)
take_u16 _ = none

unfoldable pub take_u32 : Bytes → Option (ℕ × Bytes)
take_u32 (a ∷ b ∷ c ∷ d ∷ s) = some (((a * 256 + b) * 256 + c) * 256 + d, s)
take_u32 _ = none

unfoldable pub take_u64 : Bytes → Option (ℕ × Bytes)
unfolding take_u32
take_u64 s = do (hi, t) ← take_u32 s; (lo, u) ← take_u32 t; some (hi * 2 ^ 32 + lo, u)

unfoldable pub take_i32 : Bytes → Option (ℤ × Bytes)
unfolding take_u32
take_i32 s = do (n, t) ← take_u32 s; some (signed (2 ^ 31) n, t)

unfoldable pub take_i64 : Bytes → Option (ℤ × Bytes)
unfolding take_u64
take_i64 s = do (n, t) ← take_u64 s; some (signed (2 ^ 63) n, t)

unfoldable pub take_i16 : Bytes → Option (ℤ × Bytes)
unfolding take_u16
take_i16 s = do (n, t) ← take_u16 s; some (signed (2 ^ 15) n, t)

-- `buf.split_at(len)` behind the test `buf.len() < len`.
unfoldable pub split_at : ℕ → Bytes → Option (Bytes × Bytes)
split_at n s = if ltb (length s) n then none else some (take n s, drop n s)

unfoldable pub put_u16 : ℕ → Bytes
put_u16 n = n / 256 ∷ n % 256 ∷ []

unfoldable pub put_u32 : ℕ → Bytes
put_u32 n = n / 2 ^ 24 ∷ n / 2 ^ 16 % 256 ∷ n / 256 % 256 ∷ n % 256 ∷ []

unfoldable pub put_u64 : ℕ → Bytes
unfolding put_u32
put_u64 n = put_u32 (n / 2 ^ 32) ++ put_u32 (n % 2 ^ 32)

-- A value behind its length.
unfoldable pub put_frame : Bytes → Bytes
unfolding put_u32
put_frame v = put_u32 (length v) ++ v

pub take_u16-put : (n : ℕ) (s : Bytes) → take_u16 (put_u16 n ++ s) ≡ some (n, s)
unfolding take_u16 put_u16
take_u16-put n s = ground arith

pub take_u32-put : (n : ℕ) (s : Bytes) → take_u32 (put_u32 n ++ s) ≡ some (n, s)
unfolding take_u32 put_u32
take_u32-put n s = ground arith

pub take_i32-put : (n : ℕ) (s : Bytes) → n < 2 ^ 31 → take_i32 (put_u32 n ++ s) ≡ some (pos n, s)
unfolding take_i32
take_i32-put n s h = rw (take_u32-put n s) (ground arith)

pub split_at-append : (v s : Bytes) → split_at (length v) (v ++ s) ≡ some (v, s)
unfolding split_at
split_at-append v s =
    rw (take-length_append v s, drop-length_append v s) (ground (arith, length-append v s))

pub take_u64-put : (n : ℕ) (s : Bytes) → take_u64 (put_u64 n ++ s) ≡ some (n, s)
unfolding take_u64 put_u64
take_u64-put n s = ground arith

pub ltb-length_append : (v s : Bytes) → ltb (length (v ++ s)) (length v) ≡ false
ltb-length_append v s = ground (arith, length-append v s)
