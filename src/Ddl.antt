-- ===== src/Ddl.antt =====
-- src/handlers/ddl.rs: the SQL of tables, columns, indexes and foreign keys. `table` is Unicode's
-- upper-case mapping of the characters that are not ASCII.
pub mod Requests
pub mod Replies
pub mod Alter
pub mod Names
pub mod Indexes
use tabularis_postgresql_plu.Query.Server.{Result, ok, err}
use tabularis_postgresql_plu.Identifiers.{quote_identifier, qualified}
use tabularis_postgresql_plu.Base.{
  ℕ, ◌≡◌, refl, Bool, true, false, ◌&&◌, ◌||◌, not, List, [], ◌∷◌, ◌++◌, map, Option, none, some,
  Text, codes, ◌==◌, if◌then◌else◌, is_nil, text_eq, one_of, contains_text, join, trim,
  to_uppercase,
}

pub record ColumnDefinition : Type 0 where
  pub name : Text
  pub data_type : Text
  pub is_nullable : Bool
  pub is_pk : Bool
  pub is_auto_increment : Bool
  pub default_value : Option Text

module _ (table : ℕ → Text) where
  unfoldable pub resolve_column_type : ColumnDefinition → Text
  unfolding to_uppercase contains_text
  resolve_column_type column =
      if not column.is_auto_increment
      then column.data_type
      else (let upper = to_uppercase table column.data_type in
          if contains_text upper (codes "BIGINT") || contains_text upper (codes "BIGSERIAL")
          then codes "BIGSERIAL"
          else if contains_text upper (codes "SMALLINT")
              || contains_text upper (codes "SMALLSERIAL")
          then codes "SMALLSERIAL"
          else codes "SERIAL")

-- What is pushed behind a column's type: ` NOT NULL` and ` DEFAULT …`, unless it is a serial column.
unfoldable pub constraints : ColumnDefinition → Text
constraints column =
    (if not column.is_nullable && not column.is_auto_increment then codes " NOT NULL" else [])
    ++ elim column.default_value [
      | none ↦ []
      | some default ↦ if column.is_auto_increment then [] else codes " DEFAULT " ++ default
    ]

module _ (table : ℕ → Text) where
  unfoldable pub column_def : ColumnDefinition → Text
  unfolding resolve_column_type constraints quote_identifier
  column_def col =
      quote_identifier col.name ++ (codes " " ++ (resolve_column_type table col ++ constraints col))

  unfoldable pub pk_cols : List ColumnDefinition → List Text
  unfolding quote_identifier
  pk_cols [] = []
  pk_cols (col ∷ cols) =
      let rest = pk_cols cols in if col.is_pk then quote_identifier col.name ∷ rest else rest

  unfoldable pub build_create_table_sql : Text → List ColumnDefinition → Text → Text
  unfolding column_def pk_cols qualified join
  build_create_table_sql table_name columns schema =
      let col_defs : List Text = map column_def columns in
      let keys : List Text = pk_cols columns in
      let all : List Text =
        if is_nil keys
        then col_defs
        else col_defs ++ (codes "PRIMARY KEY (" ++ (join (codes ", ") keys ++ codes ")")) ∷ [] in
      codes "CREATE TABLE "
      ++ (qualified schema table_name
          ++ (codes " (\n  " ++ (join (codes ",\n  ") all ++ codes "\n)")))

  unfoldable pub build_add_column_sql : Text → ColumnDefinition → Text → Text
  unfolding column_def qualified
  build_add_column_sql table_name column schema =
      codes "ALTER TABLE "
      ++ (qualified schema table_name ++ (codes " ADD COLUMN " ++ column_def column))

-- The text in front of the first `(`.
unfoldable pub before_paren : Text → Text
before_paren [] = []
before_paren (c ∷ s) = let rest = before_paren s in if c == b'(' then [] else c ∷ rest

module _ (table : ℕ → Text) where
  unfoldable pub extract_base_type : Text → Text
  unfolding before_paren trim to_uppercase
  extract_base_type data_type = to_uppercase table (trim (before_paren data_type))

abbrev pub compatible_groups : List (List Text)
compatible_groups =
    (codes "SMALLINT"
      ∷ codes "INTEGER"
      ∷ codes "BIGINT"
      ∷ codes "SERIAL"
      ∷ codes "BIGSERIAL"
      ∷ codes "SMALLSERIAL"
      ∷ [])
    ∷ (codes "REAL"
        ∷ codes "DOUBLE PRECISION"
        ∷ codes "NUMERIC"
        ∷ codes "DECIMAL"
        ∷ codes "MONEY"
        ∷ [])
    ∷ (codes "CHAR" ∷ codes "VARCHAR" ∷ codes "TEXT" ∷ codes "NAME" ∷ codes "CITEXT" ∷ [])
    ∷ (codes "TIMESTAMP" ∷ codes "TIMESTAMPTZ" ∷ [])
    ∷ (codes "TIME" ∷ codes "TIMETZ" ∷ [])
    ∷ (codes "JSON" ∷ codes "JSONB" ∷ [])
    ∷ (codes "BIT" ∷ codes "VARBIT" ∷ [])
    ∷ []

-- `iter().any(|group| group.contains(old) && group.contains(new))`.
unfoldable pub share_group : List (List Text) → Text → Text → Bool
unfolding one_of
share_group [] a b = false
share_group (g ∷ gs) a b = (one_of a g && one_of b g) || share_group gs a b

unfoldable pub is_implicit_cast_compatible : Text → Text → Bool
unfolding share_group text_eq
is_implicit_cast_compatible old_type new_type =
    if text_eq old_type new_type then true else share_group compatible_groups old_type new_type

unfoldable pub option_eq : Option Text → Option Text → Bool
unfolding text_eq
option_eq none none = true
option_eq none (some b) = false
option_eq (some a) none = false
option_eq (some a) (some b) = text_eq a b

unfoldable pub bool_eq : Bool → Bool → Bool
bool_eq true b = b
bool_eq false b = not b

module _ (table : ℕ → Text) where
  unfoldable pub rename_part : Text → ColumnDefinition → ColumnDefinition → List Text
  unfolding text_eq quote_identifier
  rename_part tbl old new =
      if text_eq old.name new.name
      then []
      else (codes "ALTER TABLE "
          ++ tbl
          ++ codes " RENAME COLUMN "
          ++ quote_identifier old.name
          ++ codes " TO "
          ++ quote_identifier new.name)
        ∷ []

  unfoldable pub type_part : Text → ColumnDefinition → ColumnDefinition → List Text
  unfolding text_eq quote_identifier is_implicit_cast_compatible extract_base_type
  type_part tbl old new =
      let col_ref = quote_identifier new.name in
      let alter =
        codes "ALTER TABLE "
        ++ tbl
        ++ codes " ALTER COLUMN "
        ++ col_ref
        ++ codes " TYPE "
        ++ new.data_type in
      let using = codes " USING " ++ col_ref ++ codes "::" ++ new.data_type in
      if text_eq old.data_type new.data_type
      then []
      else if is_implicit_cast_compatible (extract_base_type table old.data_type)
          (extract_base_type table new.data_type)
      then alter ∷ []
      else (alter ++ using) ∷ []

  unfoldable pub nullable_part : Text → ColumnDefinition → ColumnDefinition → List Text
  unfolding bool_eq quote_identifier
  nullable_part tbl old new =
      let alter =
        codes "ALTER TABLE " ++ tbl ++ codes " ALTER COLUMN " ++ quote_identifier new.name in
      if bool_eq old.is_nullable new.is_nullable
      then []
      else if new.is_nullable
      then (alter ++ codes " DROP NOT NULL") ∷ []
      else (alter ++ codes " SET NOT NULL") ∷ []

  unfoldable pub default_part : Text → ColumnDefinition → ColumnDefinition → List Text
  unfolding option_eq quote_identifier
  default_part tbl old new =
      let alter =
        codes "ALTER TABLE " ++ tbl ++ codes " ALTER COLUMN " ++ quote_identifier new.name in
      if option_eq old.default_value new.default_value
      then []
      else elim new.default_value as (λ _. List Text) [
        | some default ↦ (alter ++ codes " SET DEFAULT " ++ default) ∷ []
        | none ↦ (alter ++ codes " DROP DEFAULT") ∷ []
      ]

  unfoldable pub build_alter_column_sql :
      Text → ColumnDefinition → ColumnDefinition → Text → Result Text (List Text)
  unfolding rename_part type_part nullable_part default_part qualified
  build_alter_column_sql table_name old new schema =
      let tbl = qualified schema table_name in
      let stmts : List Text =
        rename_part tbl old new
        ++ (type_part tbl old new ++ (nullable_part tbl old new ++ default_part tbl old new)) in
      if is_nil stmts then err (codes "No changes detected") else ok stmts

unfoldable pub build_create_index_sql : Text → Text → List Text → Bool → Text → Text
unfolding quote_identifier qualified join
build_create_index_sql table_name index_name columns is_unique schema =
    codes "CREATE "
    ++ ((if is_unique then codes "UNIQUE " else [])
        ++ (codes "INDEX "
            ++ (quote_identifier index_name
                ++ (codes " ON "
                    ++ (qualified schema table_name
                        ++ (codes " ("
                            ++ (join (codes ", ") (map quote_identifier columns) ++ codes ")")))))))

abbrev action : Text → Option Text → Text
action keyword none = []
action keyword (some a) = keyword ++ a

unfoldable pub build_create_foreign_key_sql :
    Text → Text → Text → Text → Text → Option Text → Option Text → Text → Text
unfolding quote_identifier qualified
build_create_foreign_key_sql table_name fk_name column ref_table ref_column on_delete on_update
      schema =
    codes "ALTER TABLE "
    ++ (qualified schema table_name
        ++ (codes " ADD CONSTRAINT "
            ++ (quote_identifier fk_name
                ++ (codes " FOREIGN KEY ("
                    ++ (quote_identifier column
                        ++ (codes ") REFERENCES "
                            ++ (qualified schema ref_table
                                ++ (codes " ("
                                    ++ (quote_identifier ref_column
                                        ++ (codes ")"
                                            ++ (action (codes " ON DELETE ") on_delete
                                                ++ action (codes " ON UPDATE ") on_update)))))))))))
