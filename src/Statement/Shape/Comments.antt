-- ===== src/Statement/Shape/Comments.antt =====
-- `strip_leading_sql_comments` ends: its fuel is enough, and what it returns begins a statement.
use tabularis_postgresql_plu.Base.{
  ℕ, zero, suc, ◌<◌, ◌≤◌, ◌≡◌, refl, ap, subst, ap₂, ◌∙◌, Bool, true, false, [], ◌∷◌, ◌++◌, Option,
  none, some, Text, codes, if◌then◌else◌, drop, length, starts_with, trim_start, trim_start_matches,
  is_whitespace, arith, inl, inr, Bool-cases, length-drop,
}
use tabularis_postgresql_plu.Statement.Shape.{after_first, strip_loop, strip_leading_sql_comments}

-- Nothing to strip is left in front.
pub record IsStart (s : Text) : Type 0 where
  pub trimmed : trim_start s ≡ s
  pub no_line_comment : starts_with s (codes "--") ≡ false
  pub no_block_comment : starts_with s (codes "/*") ≡ false

module _ (p : ℕ → Bool) where
  trim-le : (s : Text) → length (trim_start_matches p s) ≤ length s
  unfolding trim_start_matches
  trim-le [] = omega arith
  trim-le (c ∷ s) = ground (arith, trim-le s)

  trim_idem : (s : Text) → trim_start_matches p (trim_start_matches p s) ≡ trim_start_matches p s
  unfolding trim_start_matches
  trim_idem [] = refl
  trim_idem (c ∷ s) = elim (Bool-cases (p c)) [
    | inl e ↦ rw e (trim_idem s)
    | inr e ↦ rw (e, e, trim_start_matches)
  ]

module _ (a : ℕ) (p : Text) where
  after_first_lt : (t u : Text) → after_first (a ∷ p) t ≡ some u → length u < length t
  unfolding after_first
  after_first_lt [] u h = ground arith
  after_first_lt (c ∷ s) u h = ground (arith, after_first_lt s u, length-drop (length p) s)

-- No occurrence of a pattern, and its first occurrence with the text behind it.
abbrev pub IsAbsent : Text → Text → Type 0
IsAbsent pattern t = (p u : Text) → ¬ (t ≡ p ++ (pattern ++ u))

abbrev pub IsBehindFirst : Text → Text → Text → Type 0
IsBehindFirst pattern t u =
    (p : Text) × (t ≡ p ++ (pattern ++ u))
    × ((q v : Text) → t ≡ q ++ (pattern ++ v) → length p ≤ length q)

-- What may be taken off in front of a text: whitespace, line comments up to their line feed and block
-- comments up to their first `*/`, the last comment up to the end if it is not closed.
pub data Strips : Text → Text → Type 0 where
  nothing : {t : Text} → Strips t t
  space : {t r : Text} (c : ℕ) → is_whitespace c ≡ true → Strips t r → Strips (c ∷ t) r
  line :
      {t r : Text} (u : Text)
      → starts_with t (codes "--") ≡ true
      → IsBehindFirst (codes "\n") t u
      → Strips u r
      → Strips t r
  last_line : {t : Text} → starts_with t (codes "--") ≡ true → IsAbsent (codes "\n") t → Strips t []
  block :
      {t r : Text} (u : Text)
      → starts_with t (codes "/*") ≡ true
      → IsBehindFirst (codes "*/") t u
      → Strips u r
      → Strips t r
  open_block :
      {t : Text} → starts_with t (codes "/*") ≡ true → IsAbsent (codes "*/") t → Strips t []

starts_with-append : (p u : Text) → starts_with (p ++ u) p ≡ true
unfolding starts_with
starts_with-append [] u = refl
starts_with-append (c ∷ p) u = ground (arith, starts_with-append p u)

starts_with-drop : (t p : Text) → starts_with t p ≡ true → t ≡ p ++ drop (length p) t
unfolding starts_with
starts_with-drop t [] h = refl
starts_with-drop [] (c ∷ p) h = absurd (ground (arith, h))
starts_with-drop (d ∷ t) (c ∷ p) h =
    let same : d ≡ c = ground (arith, h) in ap₂ ◌∷◌ same (starts_with-drop t p (ground (arith, h)))

tail_eq : (c d : ℕ) (s t : Text) → c ∷ s ≡ d ∷ t → s ≡ t
tail_eq c d s t e = ap (drop 1) e

module _ (a : ℕ) (p : Text) where
  found_here : (t v : Text) → t ≡ (a ∷ p) ++ v → starts_with t (a ∷ p) ≡ true
  found_here t v e = ap (λ x. starts_with x (a ∷ p)) e ∙ starts_with-append (a ∷ p) v

  after_first-IsAbsent : (t : Text) → after_first (a ∷ p) t ≡ none → IsAbsent (a ∷ p) t
  unfolding after_first
  after_first-IsAbsent [] h [] v e = ground (arith, ap length e)
  after_first-IsAbsent [] h (d ∷ q) v e = ground (arith, ap length e)
  after_first-IsAbsent (c ∷ s) h [] v e = ground (arith, h, found_here (c ∷ s) v e)
  after_first-IsAbsent (c ∷ s) h (d ∷ q) v e =
      after_first-IsAbsent s (ground (arith, h)) q v (tail_eq c d s (q ++ ((a ∷ p) ++ v)) e)

  not_earlier :
      (c : ℕ) (s pre : Text)
      → starts_with (c ∷ s) (a ∷ p) ≡ false
      → ((q v : Text) → s ≡ q ++ ((a ∷ p) ++ v) → length pre ≤ length q)
      → (q v : Text) → c ∷ s ≡ q ++ ((a ∷ p) ++ v)
      → length (c ∷ pre) ≤ length q
  not_earlier c s pre h f [] v e = absurd (ground (arith, h, found_here (c ∷ s) v e))
  not_earlier c s pre h f (d ∷ q) v e = omega (arith, f q v (tail_eq c d s (q ++ ((a ∷ p) ++ v)) e))

  after_first-IsBehindFirst :
      (t u : Text) → after_first (a ∷ p) t ≡ some u → IsBehindFirst (a ∷ p) t u
  unfolding after_first
  after_first-IsBehindFirst [] u h = absurd (ground (arith, h))
  after_first-IsBehindFirst (c ∷ s) u h = elim (Bool-cases (starts_with (c ∷ s) (a ∷ p))) [
    | inl e ↦
        let eq : drop (length (a ∷ p)) (c ∷ s) ≡ u = ground (arith, h, e) in
        ([], starts_with-drop (c ∷ s) (a ∷ p) e ∙ ap (◌++◌ (a ∷ p)) eq, λ q v k. omega arith)
    | inr e ↦
        let (pre, k, f) = after_first-IsBehindFirst s u (ground (arith, h, e)) in
        (c ∷ pre, ap (◌∷◌ c) k, not_earlier c s pre e f)
  ]

-- A text from which the loop has taken what stands in front.
abbrev Stripped : Text → Text → Type 0
Stripped s r = Strips s r × IsStart r

nil-IsStart : IsStart []
unfolding trim_start starts_with
nil-IsStart = record { trimmed = refl; no_line_comment = refl; no_block_comment = refl }

-- One round on a comment: nothing is left, or the loop goes on behind the comment.
comment_round :
    (fuel a : ℕ) (p t : Text)
    → length t ≤ fuel
    → ((u r : Text) → IsBehindFirst (a ∷ p) t u → Strips u r → Strips t r)
    → (IsAbsent (a ∷ p) t → Strips t [])
    → ((u : Text) → length u < fuel → Stripped u (strip_loop fuel u))
    → (o : Option Text) → after_first (a ∷ p) t ≡ o
    → Stripped t (elim o as (λ _. Text) [ none ↦ [] | some u ↦ strip_loop fuel u ])
comment_round fuel a p t h closed unclosed rec none e =
    (unclosed (after_first-IsAbsent a p t e), nil-IsStart)
comment_round fuel a p t h closed unclosed rec (some u) e =
    let (strips, start) = rec u (omega (arith, after_first_lt a p t u e)) in
    (closed u (strip_loop fuel u) (after_first-IsBehindFirst a p t u e) strips, start)

trim_start_self : (s : Text) → trim_start (trim_start s) ≡ trim_start s
unfolding trim_start
trim_start_self s = trim_idem is_whitespace s

trim_start-le : (s : Text) → length (trim_start s) ≤ length s
unfolding trim_start
trim_start-le s = trim-le is_whitespace s

trim_start-Strips : (s r : Text) → Strips (trim_start s) r → Strips s r
unfolding trim_start trim_start_matches
trim_start-Strips [] r h = h
trim_start-Strips (c ∷ s) r h = elim (Bool-cases (is_whitespace c)) [
  | inl e ↦ space c e (
      trim_start-Strips s r
        (subst (λ b. Strips (if b then trim_start_matches is_whitespace s else c ∷ s) r) e h))
  | inr e ↦ subst (λ b. Strips (if b then trim_start_matches is_whitespace s else c ∷ s) r) e h
]

-- The body of the loop, behind its `trim_start`.
abbrev round : ℕ → Text → Text
round fuel t =
    if starts_with t (codes "--")
    then elim (after_first (codes "\n") t) [ none ↦ [] | some u ↦ strip_loop fuel u ]
    else if starts_with t (codes "/*")
    then elim (after_first (codes "*/") t) [ none ↦ [] | some u ↦ strip_loop fuel u ]
    else t

strip_loop-round : (fuel : ℕ) (s : Text) → strip_loop (suc fuel) s ≡ round fuel (trim_start s)
unfolding strip_loop
strip_loop-round fuel s = refl

strip_round :
    (fuel : ℕ) (t : Text)
    → length t ≤ fuel
    → trim_start t ≡ t
    → ((u : Text) → length u < fuel → Stripped u (strip_loop fuel u))
    → Stripped t (round fuel t)
strip_round fuel t h e rec = elim (Bool-cases (starts_with t (codes "--"))) [
  | inl on_line ↦ rw on_line (
      comment_round fuel _ [] t h (λ u r. line u on_line) (last_line on_line) rec
        (after_first (codes "\n") t) refl)
  | inr no_line ↦ elim (Bool-cases (starts_with t (codes "/*"))) [
    | inl in_block ↦
        rw (no_line, in_block)
          (comment_round fuel _ (codes "/") t h (λ u r. block u in_block) (open_block in_block) rec
            (after_first (codes "*/") t) refl)
    | inr no_block ↦
        rw (no_line, no_block)
          (nothing, record { trimmed = e; no_line_comment = no_line; no_block_comment = no_block })
  ]
]

strip_loop_lem : (fuel : ℕ) (s : Text) → length s < fuel → Stripped s (strip_loop fuel s)
strip_loop_lem zero s h = elim h [ ]
strip_loop_lem (suc fuel) s h = rw (strip_loop-round fuel s) (
    let (strips, start) =
      strip_round fuel (trim_start s) (omega (arith, trim_start-le s)) (trim_start_self s)
        (λ u lt. strip_loop_lem fuel u lt) in
    (trim_start-Strips s (round fuel (trim_start s)) strips, start))

-- The loop always ends by its own test, and it takes off nothing but whitespace and comments: line
-- comments with their line feed, block comments up to their first `*/`, and a comment that is not closed
-- as the last. In front of what it returns there is no whitespace and no comment.
pub strip_leading_sql_comments_lem :
    (query : Text)
    → Strips query (strip_leading_sql_comments query) × IsStart (strip_leading_sql_comments query)
unfolding strip_leading_sql_comments
strip_leading_sql_comments_lem query = strip_loop_lem (suc (length query)) query (omega arith)
