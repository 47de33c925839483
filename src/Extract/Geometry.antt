-- ===== src/Extract/Geometry.antt =====
-- src/extract.rs, the geometric types: `Point`, `Lseg`, `PgBox`, `Polygon`, `Path`, `Line`, `Circle`. A
-- float is its 64 bits. A test of the length before the reads is the failure of a read here.
use tabularis_postgresql_plu.Extract.Bytes.{
  Bytes, take_u64, take_i32, put_u32, put_u64, take_i32-put,
}
use tabularis_postgresql_plu.Extract.Library.{Library}
use tabularis_postgresql_plu.Base.Integers.{ℤ, pos}
use tabularis_postgresql_plu.Base.{
  ℕ, zero, suc, ◌%◌, ◌^◌, ◌≡◌, refl, Bool, List, [], ◌∷◌, ◌++◌, append-nil, map, Option, none, some,
  ◌>>=◌, Text, codes, ◌==◌, if◌then◌else◌, length, join, arith, ◌<◌,
}

abbrev pub Point : Type 0
Point = ℕ × ℕ

unfoldable pub take_point : Bytes → Option (Point × Bytes)
unfolding take_u64
take_point s = do (x, t) ← take_u64 s; (y, u) ← take_u64 t; some ((x, y), u)

unfoldable pub take_points : ℕ → Bytes → Option (List Point × Bytes)
unfolding take_point
take_points zero s = some ([], s)
take_points (suc n) s = do (p, t) ← take_point s; (ps, u) ← take_points n t; some (p ∷ ps, u)

-- A count of points; a negative one is refused.
unfoldable pub counted_points : Option (ℤ × Bytes) → Option (List Point)
unfolding take_points
counted_points (some (pos n, s)) = do (ps, t) ← take_points n s; some ps
counted_points _ = none

-- What must be at the end of the value.
unfoldable pub at_end {ℓ} : {A : Type ℓ} → A × Bytes → Option A
at_end (a, []) = some a
at_end (a, b ∷ s) = none

unfoldable pub polygon : Bytes → Option (List Point)
unfolding take_i32 counted_points
polygon raw = counted_points (take_i32 raw)

unfoldable pub path : Bytes → Option (Bool × List Point)
unfolding take_i32 counted_points
path [] = none
path (flag ∷ raw) = do ps ← counted_points (take_i32 raw); some (flag % 2 == 1, ps)

module _ (lib : Library) where
  unfoldable pub show_point : Point → Text
  show_point p = b'(' ∷ (lib.show_f64 (p.0) ++ (codes ", " ++ (lib.show_f64 (p.1) ++ codes ")")))

  unfoldable pub point : Bytes → Option Text
  unfolding take_point at_end show_point
  point raw = do r ← take_point raw; p ← at_end r; some (show_point p)

  -- `Lseg` and `PgBox`, which differ in their brackets.
  unfoldable pub two_points : Text → Text → Bytes → Option Text
  unfolding take_point at_end show_point
  two_points opening closing raw = do
    (p, s) ← take_point raw
    r ← take_point s
    q ← at_end r
    some (opening ++ (show_point p ++ (codes ", " ++ (show_point q ++ closing))))

  unfoldable pub line : Bytes → Option Text
  unfolding take_point take_u64 at_end
  line raw = do
    (p, s) ← take_point raw
    r ← take_u64 s
    c ← at_end r
    some (
        codes "{"
        ++ (lib.show_f64 (p.0)
            ++ (codes ", "
                ++ (lib.show_f64 (p.1) ++ (codes ", " ++ (lib.show_f64 c ++ codes "}"))))))

  unfoldable pub circle : Bytes → Option Text
  unfolding take_point take_u64 at_end show_point
  circle raw = do
    (p, s) ← take_point raw
    r ← take_u64 s
    radius ← at_end r
    some (codes "<" ++ (show_point p ++ (codes ", " ++ (lib.show_f64 radius ++ codes ">"))))

  unfoldable pub show_polygon : List Point → Text
  unfolding show_point join
  show_polygon ps = codes "(" ++ (join (codes ", ") (map show_point ps) ++ codes ")")

  unfoldable pub show_path : Bool × List Point → Text
  unfolding show_point join
  show_path (closed, ps) =
      (if closed then codes "(" else codes "[")
      ++ (join (codes ", ") (map show_point ps) ++ (if closed then codes ")" else codes "]"))

-- The encoding of points.
unfoldable pub put_points : List Point → Bytes
unfolding put_u64
put_points [] = []
put_points ((x, y) ∷ ps) = put_u64 x ++ (put_u64 y ++ put_points ps)

pub take_points-put :
    (ps : List Point) (s : Bytes) → take_points (length ps) (put_points ps ++ s) ≡ some (ps, s)
unfolding take_points put_points
take_points-put [] s = refl
take_points-put ((x, y) ∷ ps) s = rw (take_points-put ps s) (ground arith)

counted_points-put :
    (ps : List Point)
    → length ps < 2 ^ 31
    → counted_points (take_i32 (put_u32 (length ps) ++ put_points ps)) ≡ some ps
unfolding counted_points
counted_points-put ps h =
    rw (take_i32-put (length ps) (put_points ps) h)
      (rw⁻¹ (append-nil (put_points ps)) (rw (take_points-put ps []) refl))

-- A polygon and a path of less than 2^31 points are read from PostgreSQL's encoding with the points
-- sent, in their order; a path is closed if the lowest bit of its flag is set.
pub path-put :
    (ps : List Point) (flag : ℕ)
    → length ps < 2 ^ 31
    → (polygon (put_u32 (length ps) ++ put_points ps) ≡ some ps)
      × (path (flag ∷ (put_u32 (length ps) ++ put_points ps)) ≡ some (flag % 2 == 1, ps))
unfolding polygon path
path-put ps flag h = (counted_points-put ps h, rw (counted_points-put ps h) refl)
