-- ===== src/Identifiers.antt =====
-- src/utils/identifiers.rs, and the copies of `quote_identifier` that other files carry: `quote_ident`
-- of src/handlers/ddl.rs, `quote_qualified_type` of src/client.rs and the `format!` calls with
-- `replace('"', "\"\"")` of src/binding.rs and src/handlers/crud.rs.
pub mod Unquote
pub mod Literals
use tabularis_postgresql_plu.Base.{Text, codes, [], ◌∷◌, ◌++◌, double, ◌≡◌, refl}

unfoldable pub quote_identifier : Text → Text
unfolding double
quote_identifier name = b'"' ∷ (double b'"' name ++ codes "\"")

unfoldable pub qualified : Text → Text → Text
unfolding quote_identifier
qualified schema name = quote_identifier schema ++ (codes "." ++ quote_identifier name)

quotes : qualified (codes "my\"s") (codes "t") ≡ codes "\"my\"\"s\".\"t\""
unfolding qualified
quotes = refl
