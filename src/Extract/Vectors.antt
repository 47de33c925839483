-- ===== src/Extract/Vectors.antt =====
-- src/extract.rs, the types of pgvector: `PgVector`, `PgHalfVector`, `PgSparseVector`, and
-- `float4_to_json` of src/utils/values.rs. A test of the length before the reads is the failure of a
-- read here.
use tabularis_postgresql_plu.Extract.Bytes.{Bytes, take_u16, take_u32, take_i32}
use tabularis_postgresql_plu.Extract.Library.{Library}
use tabularis_postgresql_plu.Json.{Value, null}
use tabularis_postgresql_plu.Base.Integers.{ℤ, pos, ◌+ℤ◌, show_ℤ, wrap}
use tabularis_postgresql_plu.Base.{
  ℕ, zero, suc, ◌^◌, List, [], ◌∷◌, ◌++◌, map, Option, none, some, ◌>>=◌, Text, codes,
  if◌then◌else◌, join,
}

unfoldable pub take_f32s : ℕ → Bytes → Option (List ℕ × Bytes)
unfolding take_u32
take_f32s zero s = some ([], s)
take_f32s (suc n) s = do (x, t) ← take_u32 s; (xs, u) ← take_f32s n t; some (x ∷ xs, u)

unfoldable pub take_f16s : ℕ → Bytes → Option (List ℕ)
unfolding take_u16
take_f16s zero s = some []
take_f16s (suc n) s = do (x, t) ← take_u16 s; xs ← take_f16s n t; some (x ∷ xs)

unfoldable pub take_indices : ℕ → Bytes → Option (List ℤ × Bytes)
unfolding take_i32
take_indices zero s = some ([], s)
take_indices (suc n) s = do (i, t) ← take_i32 s; (rest, u) ← take_indices n t; some (i ∷ rest, u)

unfoldable pub zip {ℓ κ} : {A : Type ℓ} {B : Type κ} → List A → List B → List (A × B)
zip (a ∷ xs) (b ∷ ys) = (a, b) ∷ zip xs ys
zip _ _ = []

unfoldable pub sparse_of : ℤ → Option (ℤ × Bytes) → Option (ℤ × List (ℤ × ℕ))
unfolding take_u32 take_indices take_f32s zip
sparse_of dim (some (pos nnz, s)) = do
  (unused, t) ← take_u32 s
  (indices, u) ← take_indices nnz t
  (values, v) ← take_f32s nnz u
  some (dim, zip indices values)
sparse_of dim _ = none

-- A negative number of entries, for which the allocation panics, is refused here.
unfoldable pub sparse_vector : Bytes → Option (ℤ × List (ℤ × ℕ))
unfolding take_i32 sparse_of
sparse_vector raw = do (dim, s) ← take_i32 raw; sparse_of dim (take_i32 s)

module _ (lib : Library) where
  unfoldable pub show_vector : List ℕ → Text
  unfolding join
  show_vector xs = codes "[" ++ (join (codes ",") (map (λ x. lib.show_f32 x) xs) ++ codes "]")

  unfoldable pub vector : Bytes → Option Text
  unfolding take_u16 take_f32s show_vector
  vector raw = do
    (dim, s) ← take_u16 raw
    (unused, t) ← take_u16 s
    (xs, u) ← take_f32s dim t
    some (show_vector xs)

  unfoldable pub half_vector : Bytes → Option Text
  unfolding take_u16 take_f16s show_vector
  half_vector raw = do
    (dim, s) ← take_u16 raw
    (unused, t) ← take_u16 s
    xs ← take_f16s dim t
    some (show_vector (map (λ x. lib.f32_of_f16 x) xs))

  unfoldable pub show_entry : ℤ × ℕ → Text
  unfolding show_ℤ ◌+ℤ◌
  show_entry (idx, val) = show_ℤ (wrap (2 ^ 31) (idx +ℤ pos 1)) ++ (b':' ∷ lib.show_f32 val)

  unfoldable pub show_sparse : ℤ × List (ℤ × ℕ) → Text
  unfolding show_entry join show_ℤ
  show_sparse (dim, entries) =
      codes "{" ++ (join (codes ",") (map show_entry entries) ++ (codes "}/" ++ show_ℤ dim))

  unfoldable pub decimal_or_widened : ℕ → Option ℕ → Value
  decimal_or_widened value (some decimal) =
      lib.json_from_f64
        (if lib.f32_eq (lib.f32_of_f64 decimal) value then decimal else lib.f64_of_f32 value)
  decimal_or_widened value none = null

  unfoldable pub float4_to_json : ℕ → Value
  unfolding decimal_or_widened
  float4_to_json value = decimal_or_widened value (lib.parse_f64 (lib.show_f32 value))
