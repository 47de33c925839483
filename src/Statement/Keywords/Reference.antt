-- ===== src/Statement/Keywords/Reference.antt =====
-- `leading_keywords` against a description in three passes: comments are erased, the rest is cut
-- into words, and the first `n` words are kept.
use tabularis_postgresql_plu.Base.{
  ℕ, zero, suc, ◌+◌, ◌<◌, ◌≤◌, ◌≡◌, refl, sym, ap, ◌∙◌, true, false, ◌&&◌, ◌||◌, List, [], ◌∷◌,
  ◌++◌, append-nil, append_assoc, inl, inr, arith, Text, ◌==◌, if◌then◌else◌, length, head?, take,
  to_ascii_uppercase, length-append, Bool-cases,
}
use tabularis_postgresql_plu.Statement.Keywords.{
  Mode, plain, line, block, skip, Next, return, continue, is_word_char, peeks, depth_mode,
  punctuation, flush, step, finish, scan, leading_keywords,
}

-- What is left of a statement when each comment is a space and the text ends at the first quote,
-- dollar sign or semicolon outside comments.
unfoldable pub erase : Mode → Text → Text
unfolding is_word_char peeks
erase mode [] = []
erase plain (c ∷ s) = elim (is_word_char c) [
  | true ↦ c ∷ erase plain s
  | false ↦ elim (c == b'-' && peeks (head? s) b'-') [
    | true ↦ b' ' ∷ erase line s
    | false ↦ elim (c == b'/' && peeks (head? s) b'*') [
      | true ↦ b' ' ∷ erase (skip 1) s
      | false ↦ elim (c == b'\'' || c == b'"' || c == b'$' || c == b';') [
        | true ↦ b' ' ∷ []
        | false ↦ b' ' ∷ erase plain s
      ]
    ]
  ]
]
erase line (c ∷ s) = erase (if c == b'\n' then plain else line) s
erase (block d) (c ∷ s) =
    erase
      (if c == b'*' && peeks (head? s) b'/'
        then skip d
        else if c == b'/' && peeks (head? s) b'*'
        then skip (d + 2)
        else block d)
      s
erase (skip d) (c ∷ s) = erase (depth_mode d) s

-- The maximal runs of word characters, in upper case; `word` is a run that has begun.
unfoldable pub words : Text → Text → List Text
unfolding is_word_char to_ascii_uppercase
words [] [] = []
words (w ∷ word) [] = (w ∷ word) ∷ []
words [] (c ∷ t) = elim (is_word_char c) [
  | true ↦ words (to_ascii_uppercase c ∷ []) t
  | false ↦ words [] t
]
words (w ∷ word) (c ∷ t) = elim (is_word_char c) [
  | true ↦ words ((w ∷ word) ++ to_ascii_uppercase c ∷ []) t
  | false ↦ (w ∷ word) ∷ words [] t
]

take_all {ℓ} : {A : Type ℓ} (n : ℕ) (xs : List A) → length xs ≤ n → take n xs ≡ xs
take_all zero [] h = refl
take_all zero (x ∷ xs) h = absurd (omega arith)
take_all (suc n) [] h = refl
take_all (suc n) (x ∷ xs) h = ap (◌∷◌ x) (take_all n xs (omega arith))

take_exact {ℓ} : {A : Type ℓ} (n : ℕ) (xs ys : List A) → length xs ≡ n → take n (xs ++ ys) ≡ xs
take_exact zero [] ys h = refl
take_exact zero (x ∷ xs) ys h = absurd (omega arith)
take_exact (suc n) [] ys h = absurd (omega arith)
take_exact (suc n) (x ∷ xs) ys h = ap (◌∷◌ x) (take_exact n xs ys (omega arith))

abbrev resume : ℕ → Next → Text → List Text
resume n (return result) s = result
resume n (continue next) s = scan n next.mode next.words next.word s

elim_resume :
    (n : ℕ) (s : Text) (r : Next)
    → elim r as (λ _. List Text) [
      | return result ↦ result
      | continue next ↦ scan n next.mode next.words next.word s
    ]
      ≡ resume n r s
elim_resume n s (return result) = refl
elim_resume n s (continue next) = refl

abbrev Agrees : ℕ → Text → Type 0
Agrees n s =
    (mode : Mode) (done : List Text) (word : Text)
    → length done < n
    → scan n mode done word s ≡ take n (done ++ words word (erase mode s))

module _ (n c : ℕ) (s : Text) (rest : Agrees n s) where
  punctuation_lem :
      (done : List Text)
      → length done < n
      → is_word_char c ≡ false
      → resume n (punctuation c (head? s) done) s ≡ take n (done ++ words [] (erase plain (c ∷ s)))
  unfolding punctuation erase words is_word_char
  punctuation_lem done h e = ground (
    arith,
    rest line done [] h,
    rest (skip 1) done [] h,
    rest plain done [] h,
    append-nil done,
    take_all n done,
  )

  word_lem :
      (done : List Text) (word : Text)
      → length done < n
      → is_word_char c ≡ true
      → scan n plain done word (c ∷ s) ≡ take n (done ++ words word (erase plain (c ∷ s)))
  unfolding scan erase words is_word_char
  word_lem done [] h e = ground (arith, rest plain done (to_ascii_uppercase c ∷ []) h)
  word_lem done (w ∷ word) h e =
      ground (arith, rest plain done ((w ∷ word) ++ to_ascii_uppercase c ∷ []) h)

  words-erase_break :
      (w : ℕ) (word : Text)
      → is_word_char c ≡ false
      → words (w ∷ word) (erase plain (c ∷ s)) ≡ (w ∷ word) ∷ words [] (erase plain (c ∷ s))
  unfolding erase words is_word_char
  words-erase_break w word e = ground arith

  step_break :
      (done : List Text) (word : Text)
      → is_word_char c ≡ false
      → step n plain c (head? s) done word ≡ flush n done word (punctuation c (head? s))
  unfolding step
  step_break done word e = rw e

  scan_break :
      (done : List Text) (word : Text)
      → is_word_char c ≡ false
      → scan n plain done word (c ∷ s) ≡ resume n (flush n done word (punctuation c (head? s))) s
  unfolding scan
  scan_break done word e =
      elim_resume n s (step n plain c (head? s) done word)
      ∙ ap (λ r. resume n r s) {y = flush n done word (punctuation c (head? s))}
          (step_break done word e)

  flush_full :
      (done : List Text) (w : ℕ) (word : Text) (k : List Text → Next)
      → (length (done ++ (w ∷ word) ∷ []) == n) ≡ true
      → flush n done (w ∷ word) k ≡ return (done ++ (w ∷ word) ∷ [])
  unfolding flush
  flush_full done w word k e = rw e

  flush_more :
      (done : List Text) (w : ℕ) (word : Text) (k : List Text → Next)
      → (length (done ++ (w ∷ word) ∷ []) == n) ≡ false
      → flush n done (w ∷ word) k ≡ k (done ++ (w ∷ word) ∷ [])
  unfolding flush
  flush_more done w word k e = rw e

  break_lem :
      (done : List Text) (word : Text)
      → length done < n
      → is_word_char c ≡ false
      → scan n plain done word (c ∷ s) ≡ take n (done ++ words word (erase plain (c ∷ s)))
  break_lem done [] h e = scan_break done [] e ∙ unfold flush in punctuation_lem done h e
  break_lem done (w ∷ word) h e = elim (Bool-cases (length (done ++ (w ∷ word) ∷ []) == n)) [
    | inl full ↦
        rw (scan_break done _ e, flush_full done w word _ full, words-erase_break w word e)
          (rw (← append_assoc done ((w ∷ word) ∷ []) (words [] (erase plain (c ∷ s))))
            (sym (take_exact n _ _ (ground (arith, full)))))
    | inr more ↦
        rw (scan_break done _ e, flush_more done w word _ more, words-erase_break w word e)
          (rw (← append_assoc done ((w ∷ word) ∷ []) (words [] (erase plain (c ∷ s))))
            (punctuation_lem _ (ground (arith, length-append done ((w ∷ word) ∷ []))) e))
  ]

  plain_lem :
      (done : List Text) (word : Text)
      → length done < n
      → scan n plain done word (c ∷ s) ≡ take n (done ++ words word (erase plain (c ∷ s)))
  plain_lem done word h = elim (Bool-cases (is_word_char c)) [
    | inl e ↦ word_lem done word h e
    | inr e ↦ break_lem done word h e
  ]

  line_lem :
      (done : List Text) (word : Text)
      → length done < n
      → scan n line done word (c ∷ s) ≡ take n (done ++ words word (erase line (c ∷ s)))
  unfolding scan erase
  line_lem done word h = rest (if c == b'\n' then plain else line) done word h

  skip_lem :
      (d : ℕ) (done : List Text) (word : Text)
      → length done < n
      → scan n (skip d) done word (c ∷ s) ≡ take n (done ++ words word (erase (skip d) (c ∷ s)))
  unfolding scan erase
  skip_lem d done word h = rest (depth_mode d) done word h

  block_lem :
      (d : ℕ) (done : List Text) (word : Text)
      → length done < n
      → scan n (block d) done word (c ∷ s) ≡ take n (done ++ words word (erase (block d) (c ∷ s)))
  unfolding scan erase
  block_lem d done word h = ground (
    arith,
    rest (skip d) done word h,
    rest (skip (d + 2)) done word h,
    rest (block d) done word h,
  )

finish_lem :
    (n : ℕ) (done : List Text) (word : Text)
    → length done < n
    → finish n done word ≡ take n (done ++ words word [])
unfolding words
finish_lem n done [] h = rw append-nil (sym (take_all n done (omega arith)))
finish_lem n done (w ∷ word) h =
    ground (arith, take_all n (done ++ (w ∷ word) ∷ []), length-append done ((w ∷ word) ∷ []))

scan-Agrees : (n : ℕ) (s : Text) → Agrees n s
scan-Agrees n [] mode done word h = unfold scan erase in finish_lem n done word h
scan-Agrees n (c ∷ s) plain done word h = plain_lem n c s (scan-Agrees n s) done word h
scan-Agrees n (c ∷ s) line done word h = line_lem n c s (scan-Agrees n s) done word h
scan-Agrees n (c ∷ s) (block d) done word h = block_lem n c s (scan-Agrees n s) d done word h
scan-Agrees n (c ∷ s) (skip d) done word h = skip_lem n c s (scan-Agrees n s) d done word h

-- The keywords that the scanner reads off a statement, for every bound `n` but 0, are the first `n`
-- words of the statement with its comments erased and cut at the first quote, dollar or semicolon.
pub leading_keywords-words :
    (query : Text) (n : ℕ)
    → 0 < n
    → leading_keywords query n ≡ take n (words [] (erase plain query))
unfolding leading_keywords
leading_keywords-words query n h = scan-Agrees n query plain [] [] h
