-- ===== src/Tests/Pages.antt =====
-- Pages of a query, and names read back.
use tabularis_postgresql_plu.Base.{ℕ, ◌≡◌, refl, List, [], ◌∷◌, ◌++◌, some, Text, codes, arith}
use tabularis_postgresql_plu.Base.Decimal.{to_decimal}
use tabularis_postgresql_plu.Pagination.{build_paginated_query}
use tabularis_postgresql_plu.Pagination.Window.{first_pages, first_pages_lem}
use tabularis_postgresql_plu.Identifiers.{qualified, quote_identifier}
use tabularis_postgresql_plu.Identifiers.Unquote.{
  read_identifier, read_qualified, read_identifier-quote, read_qualified-qualified,
}

abbrev ascii : ℕ → Text
ascii c = c ∷ []

prints : to_decimal 120345 ≡ codes "120345"
unfolding to_decimal
prints = refl

user_limit_caps :
    build_paginated_query ascii (codes "SELECT *\n FROM t limit 15 OFFSET 3 ; ") 10 2
    ≡ codes "SELECT *\n FROM t LIMIT 5 OFFSET 13"
unfolding build_paginated_query
user_limit_caps = refl

-- The clauses in the other order: only the trailing one is taken off, and the page's own clause is
-- put behind a second `OFFSET`.
offset_first :
    build_paginated_query ascii (codes "SELECT 1 OFFSET 10 LIMIT 5") 10 1
    ≡ codes "SELECT 1 OFFSET 10 LIMIT 5 OFFSET 0"
unfolding build_paginated_query
offset_first = refl

abbrev seven_rows : List ℕ
seven_rows = 1 ∷ 2 ∷ 3 ∷ 4 ∷ 5 ∷ 6 ∷ 7 ∷ []

first_pages_lem_example : first_pages seven_rows (some 5) 2 3 ≡ 1 ∷ 2 ∷ 3 ∷ 4 ∷ 5 ∷ []
first_pages_lem_example = first_pages_lem seven_rows (some 5) 2 3 (omega arith) (omega arith)

abbrev odd_name : Text
odd_name = codes "a\"; DROP TABLE t --"

read_identifier-quote_example :
    read_identifier (quote_identifier odd_name ++ codes " x") ≡ some (odd_name, codes " x")
read_identifier-quote_example = read_identifier-quote odd_name (codes " x") refl

read_qualified-qualified_example :
    read_qualified (qualified (codes "public") odd_name ++ codes " (")
    ≡ some (codes "public", odd_name, codes " (")
read_qualified-qualified_example =
    read_qualified-qualified (codes "public") odd_name (codes " (") refl
