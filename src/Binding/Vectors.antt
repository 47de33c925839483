-- ===== src/Binding/Vectors.antt =====
-- src/binding.rs, `bind_pg_vector_string`: literals of pgvector's types, which stand in the statement's
-- text.
use tabularis_postgresql_plu.Binding.{BoundValue, unbound}
use tabularis_postgresql_plu.Identifiers.Unquote.{read_quoted-double}
use tabularis_postgresql_plu.Identifiers.Literals.{read_literal}
use tabularis_postgresql_plu.Query.Server.{Result, ok, err}
use tabularis_postgresql_plu.Base.{
  ℕ, ◌≡◌, refl, Bool, true, false, ◌&&◌, ◌||◌, not, [], ◌∷◌, ◌++◌, Option, none, some, ◌>>=◌, Text,
  codes, text_eq, is_ascii_digit, is_nil, trim, ◌==◌, if◌then◌else◌, arith, double, subst, ap,
  some_injective,
}

unfoldable pub vector_type : Text → Option Text
unfolding text_eq
vector_type base_type =
    if text_eq base_type (codes "VECTOR")
    then some (codes "vector")
    else if text_eq base_type (codes "HALFVEC")
    then some (codes "halfvec")
    else if text_eq base_type (codes "SPARSEVEC")
    then some (codes "sparsevec")
    else none

unfoldable pub one_of_chars : ℕ → Text → Bool
one_of_chars c [] = false
one_of_chars c (d ∷ s) = c == d || one_of_chars c s

unfoldable pub is_vector_char : ℕ → Bool
unfolding is_ascii_digit one_of_chars
is_vector_char c = is_ascii_digit c || one_of_chars c (codes "+-.eE[]{},:/ ")

unfoldable pub all_chars : (ℕ → Bool) → Text → Bool
all_chars p [] = true
all_chars p (c ∷ s) = p c && all_chars p s

unfoldable pub is_vector_literal : Text → Bool
unfolding all_chars is_vector_char
is_vector_literal trimmed = not (is_nil trimmed) && all_chars is_vector_char trimmed

unfoldable pub vector_literal_if : Bool → Text → Text → Result Text BoundValue
unfolding unbound
vector_literal_if true trimmed pg_type =
    ok (unbound (b'\'' ∷ (trimmed ++ (codes "'::" ++ pg_type))))
vector_literal_if false trimmed pg_type = err (
    codes "Invalid "
    ++ (pg_type ++ codes " value: expected a numeric vector literal such as [1,2,3]"))

unfoldable pub vector_literal : Text → Text → Result Text BoundValue
unfolding is_vector_literal vector_literal_if
vector_literal trimmed pg_type = vector_literal_if (is_vector_literal trimmed) trimmed pg_type

unfoldable pub bind_pg_vector_string : Text → Text → Option (Result Text BoundValue)
unfolding vector_type vector_literal trim
bind_pg_vector_string s base_type = do
  pg_type ← vector_type base_type
  some (vector_literal (trim s) pg_type)

-- What the test lets through has no quote to double.
double-is_vector_char : (s : Text) → all_chars is_vector_char s ≡ true → double b'\'' s ≡ s
unfolding double all_chars is_vector_char is_ascii_digit one_of_chars
double-is_vector_char [] h = refl
double-is_vector_char (c ∷ s) h = ground (arith, double-is_vector_char s)

is_vector_literal-chars :
    (s : Text) → is_vector_literal s ≡ true → all_chars is_vector_char s ≡ true
unfolding is_vector_literal
is_vector_literal-chars s h = ground arith

abbrev bound_or : BoundValue → Result Text BoundValue → BoundValue
bound_or b (ok c) = c
bound_or b (err e) = b

literal-read :
    (t pg_type : Text)
    → double b'\'' t ≡ t
    → read_literal (b'\'' ∷ (t ++ (codes "'::" ++ pg_type))) ≡ some (t, codes "::" ++ pg_type)
literal-read t pg_type e =
    subst
      (λ u.
        read_literal (b'\'' ∷ (u ++ (codes "'::" ++ pg_type))) ≡ some (t, codes "::" ++ pg_type))
      e (unfold read_literal in read_quoted-double b'\'' t (codes "::" ++ pg_type) [] refl)

abbrev IsRead : Text → Text → BoundValue → Type 0
IsRead t pg_type b = (b.param ≡ none) × (read_literal (b.sql) ≡ some (t, codes "::" ++ pg_type))

vector_literal_if-IsRead :
    (is_literal : Bool) (t pg_type : Text) (b : BoundValue)
    → (is_literal ≡ true → double b'\'' t ≡ t)
    → vector_literal_if is_literal t pg_type ≡ ok b
    → IsRead t pg_type b
unfolding vector_literal_if unbound
vector_literal_if-IsRead true t pg_type b f h =
    subst (IsRead t pg_type) (ap (bound_or b) h) (refl, literal-read t pg_type (f refl))
vector_literal_if-IsRead false t pg_type b f h = absurd (ground arith)

-- A value that is bound for a column of pgvector stands in the statement as one literal with a cast to
-- the column's type and binds no parameter: PostgreSQL reads back the trimmed text, and nothing of it
-- escapes the quotes.
pub bind_pg_vector_string-read :
    (s base_type pg_type : Text) (b : BoundValue)
    → vector_type base_type ≡ some pg_type
    → bind_pg_vector_string s base_type ≡ some (ok b)
    → (b.param ≡ none) × (read_literal (b.sql) ≡ some (trim s, codes "::" ++ pg_type))
bind_pg_vector_string-read s base_type pg_type b e h =
    vector_literal_if-IsRead (is_vector_literal (trim s)) (trim s) pg_type b
      (λ k. double-is_vector_char (trim s) (is_vector_literal-chars (trim s) k))
      (some_injective (unfold bind_pg_vector_string vector_literal in rw e at h))
