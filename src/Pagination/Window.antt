-- ===== src/Pagination/Window.antt =====
-- The pages of a query against the rows that the user asked for.
use tabularis_postgresql_plu.Base.{
  ℕ, zero, suc, ◌+◌, ◌-◌, ◌*◌, ◌^◌, ◌<◌, ◌≡◌, refl, sym, ap, ◌∙◌, List, [], ◌∷◌, ◌++◌, Option, none,
  some, arith, take, drop, min, append-nil, dec_le,
}
use tabularis_postgresql_plu.Pagination.{limit_offset, fetch_count}
use native.Mathlib.Nat.{
  mod-eq_of_lt, zero-min, min-zero, suc-min-suc, zero-add, suc-add, suc-mul, zero-mul,
  add-sub_cancel_left,
}

take-nil {ℓ} : {A : Type ℓ} (n : ℕ) → take {A = A} n [] ≡ []
take-nil zero = refl
take-nil (suc n) = refl

take-add {ℓ} :
    {A : Type ℓ} (a b : ℕ) (xs : List A) → take a xs ++ take b (drop a xs) ≡ take (a + b) xs
take-add zero b xs = ap (λ n. take n xs) (sym (zero-add b))
take-add (suc a) b [] = rw (take-nil b, take-nil (suc a + b))
take-add (suc a) b (x ∷ xs) = rw (suc-add a b) (ap (◌∷◌ x) (take-add a b xs))

take-take {ℓ} : {A : Type ℓ} (a b : ℕ) (xs : List A) → take a (take b xs) ≡ take (min a b) xs
take-take zero b xs = rw (zero-min b)
take-take (suc a) zero xs = rw (min-zero (suc a))
take-take (suc a) (suc b) [] = sym (take-nil (min (suc a) (suc b)))
take-take (suc a) (suc b) (x ∷ xs) = rw (suc-min-suc a b) (ap (◌∷◌ x) (take-take a b xs))

-- The cap that a user's `LIMIT` puts on a number of rows.
abbrev capped : Option ℕ → ℕ → ℕ
capped none n = n
capped (some ul) n = min ul n

pred_suc : (n : ℕ) → suc n - 1 ≡ n
pred_suc n = omega arith

fetch_lem :
    (user_limit : Option ℕ) (page_size offset : ℕ)
    → page_size + 1 < 2 ^ 32
    → min page_size (fetch_count user_limit page_size offset)
      ≡ capped user_limit (offset + page_size) - capped user_limit offset
unfolding fetch_count
fetch_lem none page_size offset h = rw (mod-eq_of_lt h) (omega arith)
fetch_lem (some ul) page_size offset h = rw (mod-eq_of_lt h) (omega arith)

capped_zero : (user_limit : Option ℕ) → capped user_limit 0 ≡ 0
capped_zero none = refl
capped_zero (some ul) = omega arith

-- Two stretches of the capped rows that meet make one.
take-capped {ℓ} :
    {A : Type ℓ} (user_limit : Option ℕ) (a b : ℕ) (xs : List A)
    → take (capped user_limit a) xs
        ++ take (capped user_limit (a + b) - capped user_limit a) (drop a xs)
      ≡ take (capped user_limit (a + b)) xs
take-capped none a b xs = rw (add-sub_cancel_left a b) (take-add a b xs)
take-capped (some ul) a b xs = elim (dec_le a ul) [
  | yes h ↦
      let e : min ul a ≡ a = omega arith in
      let f : a + (min ul (a + b) - a) ≡ min ul (a + b) = omega arith in
      rw e (take-add a (min ul (a + b) - a) xs ∙ ap (λ m. take m xs) f)
  | no h ↦
      let e : min ul a ≡ ul = omega arith in
      let f : min ul (a + b) ≡ ul = omega arith in
      let g : ul - ul ≡ 0 = omega arith in rw (e, f, g) (append-nil (take ul xs))
]

module _ {ℓ} {Row : Type ℓ} (rows : List Row) (user_limit : Option ℕ) (page_size : ℕ) where
  abbrev page_offset : ℕ → ℕ
  page_offset page = (limit_offset page page_size).1

  -- What the host shows of page `page`: the server answers `LIMIT fetch OFFSET page_offset`, and the
  -- extra row that tells of more is cut off.
  pub page_rows : ℕ → List Row
  page_rows page =
      take page_size
        (take (fetch_count user_limit page_size (page_offset page)) (drop (page_offset page) rows))

  pub first_pages : ℕ → List Row
  first_pages zero = []
  first_pages (suc n) = first_pages n ++ page_rows (suc n)

  page_offset_lem : (n : ℕ) → n * page_size < 2 ^ 32 → page_offset (suc n) ≡ n * page_size
  unfolding limit_offset
  page_offset_lem n h = rw (pred_suc n) (mod-eq_of_lt h)

  -- The rows of a page, counted from the cap at its two ends.
  page_rows_lem :
      (n : ℕ)
      → page_size + 1 < 2 ^ 32
      → n * page_size < 2 ^ 32
      → page_rows (suc n)
        ≡ take
            (capped user_limit (n * page_size + page_size) - capped user_limit (n * page_size))
            (drop (n * page_size) rows)
  unfolding page_rows
  page_rows_lem n h k = rw (page_offset_lem n k) (
      take-take page_size _ _
      ∙ ap (λ m. take m (drop (n * page_size) rows))
          (fetch_lem user_limit page_size (n * page_size) h))

  -- The first `n` pages, one behind the other, are the first rows of the result in order: `n` times
  -- the page size of them, and never more than the user's own `LIMIT`. No row is shown twice, and
  -- none is passed over, as long as the offsets fit 32 bits.
  pub first_pages_lem :
      (n : ℕ)
      → page_size + 1 < 2 ^ 32
      → n * page_size < 2 ^ 32
      → first_pages n ≡ take (capped user_limit (n * page_size)) rows
  unfolding first_pages
  first_pages_lem zero h k =
      rw (zero-mul page_size) (sym (ap (λ m. take m rows) (capped_zero user_limit)))
  first_pages_lem (suc n) h k =
      rw (first_pages_lem n h (grind arith), page_rows_lem n h (grind arith))
        (rw (suc-mul n page_size) (take-capped user_limit (n * page_size) page_size rows))
