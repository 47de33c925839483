-- ===== src/Ddl/Indexes.antt =====
-- src/handlers/ddl.rs: the names of an index, read back the way PostgreSQL's lexer does.
use tabularis_postgresql_plu.Ddl.{build_create_index_sql}
use tabularis_postgresql_plu.Identifiers.{quote_identifier, qualified}
use tabularis_postgresql_plu.Identifiers.Unquote.{
  read_identifier, read_qualified, read_identifier-quote, read_qualified-qualified,
}
use tabularis_postgresql_plu.Base.{
  ℕ, ◌≡◌, refl, ap, ◌∙◌, Bool, true, false, List, [], ◌∷◌, ◌++◌, append_assoc, map, length, zero,
  suc, Option, none, some, ◌>>=◌, Text, codes, if◌then◌else◌, join,
}
use tabularis_postgresql_plu.Ddl.Names.{expect, expect-append}

-- Behind a name of a list: the end of the list, or `, ` and what `more` reads.
unfoldable pub next_name :
    (Text → Option (List Text × Text)) → Text → Text → Option Text → Option (List Text × Text)
next_name more name a (some rest) = some (name ∷ [], rest)
next_name more name a none = do
  b ← expect (codes ", ") a
  (names, rest) ← more b
  some (name ∷ names, rest)

-- Quoted names with `, ` between them, up to the `)`; the number bounds how many.
unfoldable pub read_names : ℕ → Text → Option (List Text × Text)
unfolding next_name
read_names zero s = none
read_names (suc n) s = do
  (name, a) ← read_identifier s
  next_name (read_names n) name a (expect (codes ")") a)

expect_paren : (s : Text) → expect (codes ")") (codes ", " ++ s) ≡ none
unfolding expect
expect_paren s = refl

next_name_more :
    (more : Text → Option (List Text × Text)) (name s : Text) (names : List Text) (rest : Text)
    → more s ≡ some (names, rest)
    → next_name more name (codes ", " ++ s) (expect (codes ")") (codes ", " ++ s))
      ≡ some (name ∷ names, rest)
unfolding next_name
next_name_more more name s names rest e =
    rw (expect_paren s) (rw (expect-append (codes ", ") s) (rw e refl))

join_behind :
    (name next : Text) (names : List Text) (rest : Text)
    → join (codes ", ") (map quote_identifier (name ∷ next ∷ names)) ++ rest
      ≡ quote_identifier name
        ++ (codes ", " ++ (join (codes ", ") (map quote_identifier (next ∷ names)) ++ rest))
unfolding join
join_behind name next names rest =
    append_assoc (quote_identifier name ++ codes ", ")
      (join (codes ", ") (map quote_identifier (next ∷ names))) rest
    ∙ append_assoc (quote_identifier name) (codes ", ")
        (join (codes ", ") (map quote_identifier (next ∷ names)) ++ rest)

join_last :
    (name rest : Text)
    → join (codes ", ") (map quote_identifier (name ∷ [])) ++ rest ≡ quote_identifier name ++ rest
unfolding join
join_last name rest = refl

read_names-join :
    (name : Text) (names : List Text) (rest : Text)
    → read_names
        (suc (length names))
        (join (codes ", ") (map quote_identifier (name ∷ names)) ++ (codes ")" ++ rest))
      ≡ some (name ∷ names, rest)
unfolding read_names
read_names-join name [] rest =
    rw (join_last name, read_identifier-quote name (codes ")" ++ rest) refl)
      (ap (next_name (read_names 0) name (codes ")" ++ rest)) (expect-append (codes ")") rest))
read_names-join name (next ∷ names) rest =
    rw
      (
        join_behind name next names (codes ")" ++ rest),
        read_identifier-quote name (codes ", " ++ (more ++ (codes ")" ++ rest))) refl,
      )
      (next_name_more (read_names (suc (length names))) name (more ++ (codes ")" ++ rest))
        (next ∷ names) rest (read_names-join next names rest))
  where
    more : Text
    more = join (codes ", ") (map quote_identifier (next ∷ names))

pub record Index : Type 0 where
  pub unique : Bool
  pub name : Text
  pub table : Text × Text
  pub columns : List Text

-- `UNIQUE ` if it is there, and what is behind it.
unfoldable pub unique_from : Text → Option Text → Bool × Text
unique_from s (some rest) = (true, rest)
unique_from s none = (false, s)

unfoldable pub read_unique : Text → Bool × Text
unfolding unique_from
read_unique s = unique_from s (expect (codes "UNIQUE ") s)

unfoldable pub read_index_body : ℕ → Bool × Text → Option Index
read_index_body n (unique, b) = do
  c ← expect (codes "INDEX ") b
  (name, d) ← read_identifier c
  e ← expect (codes " ON ") d
  (schema, table, f) ← read_qualified e
  g ← expect (codes " (") f
  (columns, rest) ← read_names n g
  some (record { unique = unique; name = name; table = (schema, table); columns = columns })

-- `CREATE [UNIQUE] INDEX "name" ON "schema"."table" (columns)`, with at most `n` columns.
unfoldable pub read_index : ℕ → Text → Option Index
unfolding read_index_body read_unique
read_index n s = do a ← expect (codes "CREATE ") s; read_index_body n (read_unique a)

expect_index : (s : Text) → expect (codes "UNIQUE ") (codes "INDEX " ++ s) ≡ none
unfolding expect
expect_index s = refl

read_unique-keyword :
    (is_unique : Bool) (s : Text)
    → read_unique ((if is_unique then codes "UNIQUE " else []) ++ (codes "INDEX " ++ s))
      ≡ (is_unique, codes "INDEX " ++ s)
unfolding read_unique
read_unique-keyword true s =
    ap (unique_from (codes "UNIQUE " ++ (codes "INDEX " ++ s)))
      (expect-append (codes "UNIQUE ") (codes "INDEX " ++ s))
read_unique-keyword false s = ap (unique_from (codes "INDEX " ++ s)) (expect_index s)

read_index_body-build :
    (unique : Bool) (schema table index_name column : Text) (columns : List Text)
    → read_index_body (suc (length columns)) (
      unique,
      codes "INDEX "
          ++ (quote_identifier index_name
              ++ (codes " ON "
                  ++ (qualified schema table
                      ++ (codes " ("
                          ++ (join (codes ", ") (map quote_identifier (column ∷ columns))
                              ++ codes ")"))))),
    )
      ≡ some (record {
        unique = unique;
        name = index_name;
        table = (schema, table);
        columns = column ∷ columns;
      })
unfolding read_index_body
read_index_body-build unique schema table index_name column columns =
    rw
      (
        expect-append (codes "INDEX "),
        read_identifier-quote index_name behind_name refl,
        expect-append (codes " ON "),
        read_qualified-qualified schema table behind_table refl,
        expect-append (codes " ("),
      )
      (rw (read_names-join column columns []) refl)
  where
    behind_table : Text
    behind_table =
        codes " (" ++ (join (codes ", ") (map quote_identifier (column ∷ columns)) ++ codes ")")

    behind_name : Text
    behind_name = codes " ON " ++ (qualified schema table ++ behind_table)

-- An index is read back as unique or not as it was asked for, with its name, its table and its columns in
-- order, whatever the names hold.
pub read_index-build :
    (table index_name column : Text) (columns : List Text) (is_unique : Bool) (schema : Text)
    → read_index
        (suc (length columns))
        (build_create_index_sql table index_name (column ∷ columns) is_unique schema)
      ≡ some (record {
        unique = is_unique;
        name = index_name;
        table = (schema, table);
        columns = column ∷ columns;
      })
unfolding read_index build_create_index_sql
read_index-build table index_name column columns is_unique schema =
    rw (expect-append (codes "CREATE ")) (
      rw (read_unique-keyword is_unique)
        (read_index_body-build is_unique schema table index_name column columns))
