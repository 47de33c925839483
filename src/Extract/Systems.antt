-- ===== src/Extract/Systems.antt =====
-- src/extract.rs: addresses (`CidrOrInet`, `MacAddr`, `MacAddr8`), `PgLsn`, `TxidSnapshotOrPgSnapshot`,
-- `GtsVector` and `JsonPath`. A test of the length before the reads is the failure of a read here.
use tabularis_postgresql_plu.Extract.Bytes.{Bytes, take_u32, take_i32, take_i64}
use tabularis_postgresql_plu.Extract.Geometry.{at_end}
use tabularis_postgresql_plu.Extract.Library.{Library}
use tabularis_postgresql_plu.Base.Integers.{ℤ, pos, show_ℤ}
use tabularis_postgresql_plu.Base.Decimal.{to_decimal}
use tabularis_postgresql_plu.Base.{
  ℕ, zero, suc, ◌+◌, ◌/◌, ◌%◌, List, [], ◌∷◌, ◌++◌, map, Option, none, some, ◌>>=◌, Text, codes,
  ◌==◌, ltb, ◌||◌, not, ◌-◌, if◌then◌else◌, length, join, take,
}

unfoldable pub hex_digit : ℕ → ℕ → ℕ
hex_digit letter n = if ltb n 10 then b'0' + n else letter + n - 10

-- `{:02x}` of a byte.
unfoldable pub show_hex_byte : ℕ → Text
unfolding hex_digit
show_hex_byte b = hex_digit b'a' (b / 16) ∷ hex_digit b'a' (b % 16) ∷ []

hex_digits : ℕ → ℕ → Text → Text
unfolding hex_digit
hex_digits zero n out = out
hex_digits (suc fuel) n out =
    let rest = hex_digits fuel (n / 16) (hex_digit b'A' (n % 16) ∷ out) in
    if ltb n 16 then hex_digit b'A' n ∷ out else rest

-- `{:X}` of a number of 32 bits, which has eight digits at most.
unfoldable pub show_hex : ℕ → Text
unfolding hex_digits
show_hex n = hex_digits 8 n []

unfoldable pub mac_addr : ℕ → Bytes → Option Text
unfolding show_hex_byte join
mac_addr size raw =
    if length raw == size then some (join (codes ":") (map show_hex_byte raw)) else none

unfoldable pub pg_lsn : Bytes → Option Text
unfolding take_u32 at_end show_hex
pg_lsn raw = do
  (upper, s) ← take_u32 raw
  r ← take_u32 s
  lower ← at_end r
  some (show_hex upper ++ (b'/' ∷ show_hex lower))

unfoldable pub take_xids : ℕ → Bytes → Option (List ℤ)
unfolding take_i64
take_xids zero s = some []
take_xids (suc n) s = do (xid, t) ← take_i64 s; xids ← take_xids n t; some (xid ∷ xids)

unfoldable pub snapshot_of : Option (ℤ × Bytes) → Option (ℤ × ℤ × List ℤ)
unfolding take_xids take_i64
snapshot_of (some (pos count, s)) = do
  (xmin, t) ← take_i64 s
  (xmax, u) ← take_i64 t
  active_xids ← take_xids count u
  some (xmin, xmax, active_xids)
snapshot_of _ = none

unfoldable pub show_snapshot : ℤ × ℤ × List ℤ → Text
unfolding show_ℤ join
show_snapshot (xmin, xmax, active_xids) =
    show_ℤ xmin ++ (b':' ∷ (show_ℤ xmax ++ (b':' ∷ join (codes ",") (map show_ℤ active_xids))))

unfoldable pub txid_snapshot : Bytes → Option Text
unfolding take_i32 snapshot_of show_snapshot
txid_snapshot raw = do v ← snapshot_of (take_i32 raw); some (show_snapshot v)

module _ (lib : Library) where
  unfoldable pub show_inet : Bytes → ℕ → Text
  unfolding to_decimal
  show_inet addr netmask = lib.ip_text addr ++ (b'/' ∷ to_decimal netmask)

  unfoldable pub cidr_or_inet : Bytes → Option Text
  unfolding show_inet
  cidr_or_inet (family ∷ netmask ∷ is_cidr ∷ len ∷ s) =
      if ltb (length s) 4
      then none
      else if family == 2
      then (if ltb 32 netmask || not (len == 4) then none else some (show_inet (take 4 s) netmask))
      else if family == 3
      then (if ltb 128 netmask || not (len == 16) || ltb (length s) 16
          then none
          else some (show_inet (take 16 s) netmask))
      else none
  cidr_or_inet _ = none

  unfoldable pub gts_vector : Bytes → Option Text
  gts_vector (a ∷ b ∷ c ∷ d ∷ signature ∷ s) = some (
      codes "BLOB:5:application/octet-stream:"
      ++ lib.base64_encode (a ∷ b ∷ c ∷ d ∷ signature ∷ []))
  gts_vector _ = none

  unfoldable pub json_path : Bytes → Option Text
  json_path [] = none
  json_path (version ∷ s) = lib.utf8 s
