-- ===== src/Identifiers/Literals.antt =====
-- String literals, as `format!("'{}'", s.replace('\'', "''"))` of src/binding.rs and
-- src/handlers/routines.rs writes them, and as PostgreSQL's lexer reads them.
use tabularis_postgresql_plu.Identifiers.Unquote.{read_quoted, Ends, read_quoted-double}
use tabularis_postgresql_plu.Base.{
  Text, codes, [], ◌∷◌, ◌++◌, append_assoc, Option, none, some, double, ◌≡◌, ◌==◌, if◌then◌else◌,
}

unfoldable pub quote_literal : Text → Text
unfolding double
quote_literal s = b'\'' ∷ (double b'\'' s ++ codes "'")

-- A literal at the front of the input, with what is behind it.
unfoldable pub read_literal : Text → Option (Text × Text)
unfolding read_quoted
read_literal [] = none
read_literal (c ∷ s) = if c == b'\'' then read_quoted b'\'' [] s else none

pub read_literal-quote :
    (s rest : Text) → Ends b'\'' rest → read_literal (quote_literal s ++ rest) ≡ some (s, rest)
unfolding read_literal quote_literal
read_literal-quote s rest h =
    rw (append_assoc (double b'\'' s) (codes "'") rest) (read_quoted-double b'\'' s rest [] h)
