-- ===== src/Identifiers/Unquote.antt =====
-- Reading quoted text back the way PostgreSQL's lexer does.
use tabularis_postgresql_plu.Base.{
  ℕ, Text, codes, [], ◌∷◌, ◌++◌, append_assoc, Option, none, some, ◌>>=◌, true, false, double, ◌≡◌,
  ◌≢◌, refl, ap, ◌==◌, if◌then◌else◌, arith, sym, append-nil, Bool-cases, inl, inr, ==_iff, ◌∙◌,
}
use tabularis_postgresql_plu.Identifiers.{quote_identifier, qualified}

-- A quoted text behind its opening quote `q`: a doubled quote stands for one, and a single one ends
-- it. The result is the content and the input behind it.
unfoldable pub read_quoted : ℕ → Text → Text → Option (Text × Text)
read_quoted q out [] = none
read_quoted q out (c ∷ []) = if c == q then some (out, []) else none
read_quoted q out (c ∷ d ∷ s) = elim (c == q) [
  | true ↦ elim (d == q) [ true ↦ read_quoted q (out ++ q ∷ []) s | false ↦ some (out, d ∷ s) ]
  | false ↦ read_quoted q (out ++ c ∷ []) (d ∷ s)
]

-- A quoted identifier at the front of the input.
unfoldable pub read_identifier : Text → Option (Text × Text)
unfolding read_quoted
read_identifier [] = none
read_identifier (c ∷ s) = if c == b'"' then read_quoted b'"' [] s else none

abbrev after_dot : Text → Option Text
after_dot [] = none
after_dot (c ∷ r) = if c == b'.' then some r else none

-- `"schema"."name"` at the front of the input.
unfoldable pub read_qualified : Text → Option (Text × Text × Text)
read_qualified s = do
  (schema, dotted) ← read_identifier s
  r ← after_dot dotted
  (name, rest) ← read_identifier r
  some (schema, name, rest)

-- What follows does not begin with a quote, so that the closing quote is not doubled.
abbrev pub Ends : ℕ → Text → Type 0
Ends q [] = Unit {0}
Ends q (c ∷ s) = (c == q) ≡ false

double_hit : (q c : ℕ) (s : Text) → (c == q) ≡ true → double q (c ∷ s) ≡ q ∷ q ∷ double q s
unfolding double
double_hit q c s e = rw e

double_miss : (q c : ℕ) (s : Text) → (c == q) ≡ false → double q (c ∷ s) ≡ c ∷ double q s
unfolding double
double_miss q c s e = rw e

read_quoted_other :
    (q c : ℕ) (t out : Text)
    → (c == q) ≡ false
    → t ≢ []
    → read_quoted q out (c ∷ t) ≡ read_quoted q (out ++ c ∷ []) t
unfolding read_quoted
read_quoted_other q c [] out e h = absurd (h refl)
read_quoted_other q c (d ∷ s) out e h = rw (e, read_quoted)

append-cons-ne-nil : (s t : Text) (c : ℕ) → s ++ (c ∷ t) ≢ []
append-cons-ne-nil [] t c = ground arith
append-cons-ne-nil (d ∷ s) t c = ground arith

read_quoted_end :
    (q : ℕ) (rest out : Text) → Ends q rest → read_quoted q out (q ∷ rest) ≡ some (out, rest)
unfolding read_quoted
read_quoted_end q [] out h = ground arith
read_quoted_end q (d ∷ s) out h = ground arith

read_quoted_pair :
    (q : ℕ) (s out : Text) → read_quoted q out (q ∷ q ∷ s) ≡ read_quoted q (out ++ q ∷ []) s
unfolding read_quoted
read_quoted_pair q s out = ground arith

-- Doubling every quote and closing with one is undone by the lexer, whatever the content.
pub read_quoted-double :
    (q : ℕ) (name rest out : Text)
    → Ends q rest
    → read_quoted q out (double q name ++ (q ∷ rest)) ≡ some (out ++ name, rest)
read_quoted-double q [] rest out h =
    unfold double in
    (read_quoted_end q rest out h ∙ ap (λ t. some (t, rest)) (sym (append-nil out)))
read_quoted-double q (c ∷ name) rest out h = elim (Bool-cases (c == q)) [
  | inl e ↦
      rw
        (
          double_hit q c name e,
          (==_iff c q).0 e,
          read_quoted_pair q (double q name ++ (q ∷ rest)) out,
        )
        (read_quoted-double q name rest (out ++ q ∷ []) h
          ∙ ap (λ t. some (t, rest)) (append_assoc out (q ∷ []) name))
  | inr e ↦
      rw
        (
          double_miss q c name e,
          read_quoted_other q c _ out e (append-cons-ne-nil (double q name) rest q),
        )
        (read_quoted-double q name rest (out ++ c ∷ []) h
          ∙ ap (λ t. some (t, rest)) (append_assoc out (c ∷ []) name))
]

-- PostgreSQL reads a quoted name back as that very name, whatever characters it holds, and leaves
-- what follows it.
pub read_identifier-quote :
    (name rest : Text)
    → Ends b'"' rest
    → read_identifier (quote_identifier name ++ rest) ≡ some (name, rest)
unfolding read_identifier quote_identifier
read_identifier-quote name rest h =
    rw (append_assoc (double b'"' name) (codes "\"") rest) (read_quoted-double b'"' name rest [] h)

qualified_behind :
    (schema name rest : Text)
    → qualified schema name ++ rest
      ≡ quote_identifier schema ++ (b'.' ∷ (quote_identifier name ++ rest))
unfolding qualified
qualified_behind schema name rest =
    append_assoc (quote_identifier schema) (b'.' ∷ quote_identifier name) rest

-- A schema-qualified name is read back as the two names: no name can break out of its quotes.
pub read_qualified-qualified :
    (schema name rest : Text)
    → Ends b'"' rest
    → read_qualified (qualified schema name ++ rest) ≡ some (schema, name, rest)
unfolding read_qualified
read_qualified-qualified schema name rest h =
    rw
      (
        qualified_behind schema name rest,
        read_identifier-quote schema (b'.' ∷ (quote_identifier name ++ rest)) refl,
      )
      (rw (read_identifier-quote name rest h))
