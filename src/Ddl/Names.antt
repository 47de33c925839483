-- ===== src/Ddl/Names.antt =====
-- src/handlers/ddl.rs: the names of a generated statement, read back the way PostgreSQL's lexer does.
use tabularis_postgresql_plu.Ddl.{
  ColumnDefinition, resolve_column_type, constraints, column_def, build_add_column_sql,
  build_create_foreign_key_sql, action,
}
use tabularis_postgresql_plu.Identifiers.{quote_identifier, qualified}
use tabularis_postgresql_plu.Identifiers.Unquote.{
  read_identifier, read_qualified, read_identifier-quote, read_qualified-qualified,
}
use tabularis_postgresql_plu.Base.{
  ℕ, ◌≡◌, refl, [], ◌∷◌, ◌++◌, Option, none, some, ◌>>=◌, Text, codes, arith, ◌==◌, if◌then◌else◌,
}

-- A fixed text at the front of the input.
unfoldable pub expect : Text → Text → Option Text
expect [] s = some s
expect (c ∷ p) [] = none
expect (c ∷ p) (d ∷ s) = let rest = expect p s in if c == d then rest else none

pub expect-append : (p s : Text) → expect p (p ++ s) ≡ some s
unfolding expect
expect-append [] s = refl
expect-append (c ∷ p) s = ground (arith, expect-append p s)

-- `ALTER TABLE "schema"."table" ADD COLUMN "name" ` and the rest: the three names and the rest.
unfoldable pub read_add_column : Text → Option ((Text × Text) × (Text × Text))
read_add_column s = do
  a ← expect (codes "ALTER TABLE ") s
  (schema, table, b) ← read_qualified a
  c ← expect (codes " ADD COLUMN ") b
  (name, rest) ← read_identifier c
  some ((schema, table), (name, rest))

-- Whatever the names hold, PostgreSQL reads an added column back as that schema, that table and that
-- column, and what follows is the type with its constraints alone.
pub read_add_column-build :
    (upper : ℕ → Text) (table : Text) (column : ColumnDefinition) (schema : Text)
    → read_add_column (build_add_column_sql upper table column schema)
      ≡ some (
        (schema, table),
        (column.name, codes " " ++ (resolve_column_type upper column ++ constraints column)),
      )
unfolding read_add_column build_add_column_sql column_def
read_add_column-build upper table column schema =
    rw
      (
        expect-append (codes "ALTER TABLE ")
            (qualified schema table ++ (codes " ADD COLUMN " ++ column_def upper column)),
        read_qualified-qualified schema table (codes " ADD COLUMN " ++ column_def upper column)
            refl,
        expect-append (codes " ADD COLUMN ") (column_def upper column),
        read_identifier-quote column.name
            (codes " " ++ (resolve_column_type upper column ++ constraints column)) refl,
      )
      refl

pub record ForeignKey : Type 0 where
  pub table : Text × Text
  pub name : Text
  pub column : Text
  pub ref_table : Text × Text
  pub ref_column : Text
  pub actions : Text

unfoldable pub read_foreign_key : Text → Option ForeignKey
read_foreign_key s = do
  a ← expect (codes "ALTER TABLE ") s
  (schema, table, b) ← read_qualified a
  c ← expect (codes " ADD CONSTRAINT ") b
  (name, d) ← read_identifier c
  e ← expect (codes " FOREIGN KEY (") d
  (column, f) ← read_identifier e
  g ← expect (codes ") REFERENCES ") f
  (ref_schema, ref_table, h) ← read_qualified g
  i ← expect (codes " (") h
  (ref_column, j) ← read_identifier i
  actions ← expect (codes ")") j
  some (record {
    table = (schema, table);
    name = name;
    column = column;
    ref_table = (ref_schema, ref_table);
    ref_column = ref_column;
    actions = actions;
  })

-- A foreign key is read back with the names that it was built from, whatever they hold, and only the
-- actions behind the referenced column.
read_foreign_key-build :
    (table fk_name column ref_table ref_column : Text) (on_delete on_update : Option Text)
    (schema : Text)
    → read_foreign_key (
        build_create_foreign_key_sql table fk_name column ref_table ref_column on_delete on_update
          schema)
      ≡ some (record {
        table = (schema, table);
        name = fk_name;
        column = column;
        ref_table = (schema, ref_table);
        ref_column = ref_column;
        actions = action (codes " ON DELETE ") on_delete ++ action (codes " ON UPDATE ") on_update;
      })
unfolding read_foreign_key build_create_foreign_key_sql
read_foreign_key-build table fk_name column ref_table ref_column on_delete on_update schema =
    rw
      (
        expect-append (codes "ALTER TABLE "),
        read_qualified-qualified schema table behind_table refl,
        expect-append (codes " ADD CONSTRAINT "),
        read_identifier-quote fk_name behind_name refl,
        expect-append (codes " FOREIGN KEY ("),
        read_identifier-quote column behind_column refl,
        expect-append (codes ") REFERENCES "),
        read_qualified-qualified schema ref_table behind_ref refl,
        expect-append (codes " ("),
        read_identifier-quote ref_column (codes ")" ++ actions) refl,
        expect-append (codes ")"),
      )
      refl
  where
    actions : Text
    actions = action (codes " ON DELETE ") on_delete ++ action (codes " ON UPDATE ") on_update

    behind_ref : Text
    behind_ref = codes " (" ++ (quote_identifier ref_column ++ (codes ")" ++ actions))

    behind_column : Text
    behind_column = codes ") REFERENCES " ++ (qualified schema ref_table ++ behind_ref)

    behind_name : Text
    behind_name = codes " FOREIGN KEY (" ++ (quote_identifier column ++ behind_column)

    behind_table : Text
    behind_table = codes " ADD CONSTRAINT " ++ (quote_identifier fk_name ++ behind_name)
