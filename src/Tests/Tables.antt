-- ===== src/Tests/Tables.antt =====
-- Statements of src/handlers/ddl.rs, and what is read back from them.
use tabularis_postgresql_plu.Ddl.{
  ColumnDefinition, build_create_table_sql, build_alter_column_sql, build_create_index_sql,
}
use tabularis_postgresql_plu.Ddl.Alter.{AltersAll, build_alter_column_sql-AltersAll}
use tabularis_postgresql_plu.Ddl.Indexes.{read_index, read_index-build}
use tabularis_postgresql_plu.Identifiers.{qualified}
use tabularis_postgresql_plu.Query.Server.{ok}
use tabularis_postgresql_plu.Base.{ℕ, ◌≡◌, refl, true, false, [], ◌∷◌, none, some, Text, codes}

abbrev ascii : ℕ → Text
ascii c = c ∷ []

abbrev id_column : ColumnDefinition
id_column = record {
  name = codes "id";
  data_type = codes "bigint";
  is_nullable = false;
  is_pk = true;
  is_auto_increment = true;
  default_value = none;
}

abbrev note_column : ColumnDefinition
note_column = record {
  name = codes "no\"te";
  data_type = codes "varchar(20)";
  is_nullable = false;
  is_pk = false;
  is_auto_increment = false;
  default_value = some (codes "''");
}

abbrev text_column : ColumnDefinition
text_column = record {
  name = codes "note";
  data_type = codes "text";
  is_nullable = true;
  is_pk = false;
  is_auto_increment = false;
  default_value = none;
}

created :
    build_create_table_sql ascii (codes "t") (id_column ∷ note_column ∷ []) (codes "public")
    ≡ codes
        "CREATE TABLE \"public\".\"t\" (\n  \"id\" BIGSERIAL,\n  \"no\"\"te\" varchar(20) NOT NULL DEFAULT '',\n  PRIMARY KEY (\"id\")\n)"
unfolding build_create_table_sql
created = refl

altered_type :
    build_alter_column_sql ascii
      (codes "t")
      note_column
      (record {
        name = codes "no\"te";
        data_type = codes "text";
        is_nullable = false;
        is_pk = false;
        is_auto_increment = false;
        default_value = some (codes "''");
      })
      (codes "s")
    ≡ ok (codes "ALTER TABLE \"s\".\"t\" ALTER COLUMN \"no\"\"te\" TYPE text" ∷ [])
unfolding build_alter_column_sql
altered_type = refl

build_alter_column_sql-AltersAll_example :
    AltersAll
      (qualified (codes "s") (codes "t"))
      note_column
      text_column
      (build_alter_column_sql ascii (codes "t") note_column text_column (codes "s"))
build_alter_column_sql-AltersAll_example =
    build_alter_column_sql-AltersAll ascii (codes "t") note_column text_column (codes "s")

read_index-build_example :
    read_index 2 (
      build_create_index_sql
        (codes "t")
        (codes "i")
        (codes "a, b" ∷ codes "c\"" ∷ [])
        true
        (codes "s"))
    ≡ some (record {
      unique = true;
      name = codes "i";
      table = (codes "s", codes "t");
      columns = codes "a, b" ∷ codes "c\"" ∷ [];
    })
read_index-build_example =
    read_index-build (codes "t") (codes "i") (codes "a, b") (codes "c\"" ∷ []) true (codes "s")
