-- ===== src/Ddl/Alter.antt =====
-- src/handlers/ddl.rs: the statements of an altered column, and the types between which a cast is
-- implicit.
pub mod Changes
use tabularis_postgresql_plu.Ddl.Alter.Changes.{
  Column, column_of, Change, renames, retypes, drops_not_null, sets_not_null, sets_default,
  drops_default, of_column, of_type, statement, on_column, apply, applied, Makes, Makes-append,
  Makes-none, Makes-one, on_own,
}
use tabularis_postgresql_plu.Ddl.{
  ColumnDefinition, is_implicit_cast_compatible, option_eq, bool_eq, rename_part, type_part,
  nullable_part, default_part, extract_base_type, build_alter_column_sql,
}
use tabularis_postgresql_plu.Query.Server.{Result, ok, err}
use tabularis_postgresql_plu.Identifiers.{quote_identifier, qualified}
use tabularis_postgresql_plu.Base.{
  ℕ, not, ◌≡◌, inl, inr, refl, sym, ◌+◌, Bool, true, false, List, [], ◌∷◌, ◌++◌, Text, codes, arith,
  if◌then◌else◌, is_nil, text_eq, ◌<◌, Bool-cases, length, length-append, get_or_else, Option, none,
  some, ◌>>=◌, map, ap, ap₂, ◌∙◌, text_eq_refl, text_eq→eq,
}

abbrev pub count : Bool → ℕ
count true = 0
count false = 1

-- How many of a column's name, type, nullability and default differ.
abbrev pub changes : ColumnDefinition → ColumnDefinition → ℕ
changes old new =
    count (text_eq old.name new.name)
    + (count (text_eq old.data_type new.data_type)
        + (count (bool_eq old.is_nullable new.is_nullable)
            + count (option_eq old.default_value new.default_value)))

-- The statements make the new column of the old one, one for each difference; an error says that there
-- is none.
abbrev pub AltersAll : Text → ColumnDefinition → ColumnDefinition → Result Text (List Text) → Type 0
AltersAll tbl old new (ok stmts) =
    Makes tbl (column_of old) (column_of new) (changes old new) stmts × (0 < changes old new)
AltersAll tbl old new (err e) = column_of old ≡ column_of new

bool_eq→eq : (a b : Bool) → bool_eq a b ≡ true → a ≡ b
unfolding bool_eq
bool_eq→eq true true h = refl
bool_eq→eq true false h = sym h
bool_eq→eq false true h = h
bool_eq→eq false false h = refl

bool_differ : (a b : Bool) → bool_eq a b ≡ false → a ≡ not b
unfolding bool_eq
bool_differ true true h = h
bool_differ true false h = refl
bool_differ false true h = refl
bool_differ false false h = sym h

option_eq→eq : (a b : Option Text) → option_eq a b ≡ true → a ≡ b
unfolding option_eq
option_eq→eq none none h = refl
option_eq→eq none (some b) h = absurd (ground (arith, h))
option_eq→eq (some a) none h = absurd (ground (arith, h))
option_eq→eq (some a) (some b) h = ap some (text_eq→eq a b h)

module _ (table : ℕ → Text) (tbl : Text) (old new : ColumnDefinition) where
  rename_part-Makes :
      Makes tbl
        (column_of old)
        (new.name, old.data_type, old.is_nullable, old.default_value)
        (count (text_eq old.name new.name))
        (rename_part table tbl old new)
  unfolding rename_part statement apply
  rename_part-Makes = elim (Bool-cases (text_eq old.name new.name)) [
    | inl same ↦ rw same (
        Makes-none tbl (column_of old) (new.name, old.data_type, old.is_nullable, old.default_value)
          (ap (λ x. (x, old.data_type, old.is_nullable, old.default_value))
            (text_eq→eq old.name new.name same)))
    | inr differ ↦ rw differ (
        Makes-one tbl (renames old.name new.name) (column_of old)
          (new.name, old.data_type, old.is_nullable, old.default_value)
          (on_own old.name old.data_type old.is_nullable old.default_value
            (new.name, old.data_type, old.is_nullable, old.default_value)))
  ]

  retyped :
      (explicit : Bool)
      → Makes tbl
          (new.name, old.data_type, old.is_nullable, old.default_value)
          (new.name, new.data_type, old.is_nullable, old.default_value)
          1
          (statement tbl (retypes new.name new.data_type explicit) ∷ [])
  unfolding apply
  retyped explicit =
      Makes-one tbl (retypes new.name new.data_type explicit)
        (new.name, old.data_type, old.is_nullable, old.default_value)
        (new.name, new.data_type, old.is_nullable, old.default_value)
        (on_own new.name old.data_type old.is_nullable old.default_value
          (new.name, new.data_type, old.is_nullable, old.default_value))

  type_part-Makes :
      Makes tbl
        (new.name, old.data_type, old.is_nullable, old.default_value)
        (new.name, new.data_type, old.is_nullable, old.default_value)
        (count (text_eq old.data_type new.data_type))
        (type_part table tbl old new)
  unfolding type_part statement of_type
  type_part-Makes = elim (Bool-cases (text_eq old.data_type new.data_type)) [
    | inl same ↦ rw same (
        Makes-none tbl (new.name, old.data_type, old.is_nullable, old.default_value)
          (new.name, new.data_type, old.is_nullable, old.default_value)
          (ap (λ x. (new.name, x, old.is_nullable, old.default_value))
            (text_eq→eq old.data_type new.data_type same)))
    | inr differ ↦
        rw differ
          (elim (Bool-cases (
            is_implicit_cast_compatible (extract_base_type table old.data_type)
              (extract_base_type table new.data_type))) [
                | inl implicit ↦ rw implicit (retyped false)
                | inr explicit ↦ rw explicit (retyped true)
              ])
  ]

  nullable_part-Makes :
      Makes tbl
        (new.name, new.data_type, old.is_nullable, old.default_value)
        (new.name, new.data_type, new.is_nullable, old.default_value)
        (count (bool_eq old.is_nullable new.is_nullable))
        (nullable_part table tbl old new)
  unfolding nullable_part statement apply of_column
  nullable_part-Makes = elim (Bool-cases (bool_eq old.is_nullable new.is_nullable)) [
    | inl same ↦ rw same (
        Makes-none tbl (new.name, new.data_type, old.is_nullable, old.default_value)
          (new.name, new.data_type, new.is_nullable, old.default_value)
          (ap (λ b. (new.name, new.data_type, b, old.default_value))
            (bool_eq→eq old.is_nullable new.is_nullable same)))
    | inr differ ↦ rw differ (elim (Bool-cases new.is_nullable) [
      | inl optional ↦ rw optional (
          Makes-one tbl (drops_not_null new.name)
            (new.name, new.data_type, old.is_nullable, old.default_value)
            (new.name, new.data_type, true, old.default_value)
            (on_own new.name new.data_type old.is_nullable old.default_value
              (new.name, new.data_type, true, old.default_value)))
      | inr required ↦ rw required (
          Makes-one tbl (sets_not_null new.name)
            (new.name, new.data_type, old.is_nullable, old.default_value)
            (new.name, new.data_type, false, old.default_value)
            (on_own new.name new.data_type old.is_nullable old.default_value
              (new.name, new.data_type, false, old.default_value)))
    ])
  ]

  defaulted :
      (o : Option Text)
      → Makes tbl
          (new.name, new.data_type, new.is_nullable, old.default_value)
          (new.name, new.data_type, new.is_nullable, o)
          1
          (elim o as (λ _. List Text) [
            | some default ↦ (of_column tbl new.name ++ codes " SET DEFAULT " ++ default) ∷ []
            | none ↦ (of_column tbl new.name ++ codes " DROP DEFAULT") ∷ []
          ])
  unfolding statement apply
  defaulted (some v) =
      Makes-one tbl (sets_default new.name v)
        (new.name, new.data_type, new.is_nullable, old.default_value)
        (new.name, new.data_type, new.is_nullable, some v)
        (on_own new.name new.data_type new.is_nullable old.default_value
          (new.name, new.data_type, new.is_nullable, some v))
  defaulted none =
      Makes-one tbl (drops_default new.name)
        (new.name, new.data_type, new.is_nullable, old.default_value)
        (new.name, new.data_type, new.is_nullable, none)
        (on_own new.name new.data_type new.is_nullable old.default_value
          (new.name, new.data_type, new.is_nullable, none))

  default_part-Makes :
      Makes tbl
        (new.name, new.data_type, new.is_nullable, old.default_value)
        (column_of new)
        (count (option_eq old.default_value new.default_value))
        (default_part table tbl old new)
  unfolding default_part of_column
  default_part-Makes = elim (Bool-cases (option_eq old.default_value new.default_value)) [
    | inl same ↦ rw same (
        Makes-none tbl (new.name, new.data_type, new.is_nullable, old.default_value) (column_of new)
          (ap (λ o. (new.name, new.data_type, new.is_nullable, o))
            (option_eq→eq old.default_value new.default_value same)))
    | inr differ ↦ rw differ (defaulted new.default_value)
  ]

  parts-Makes : Makes tbl (column_of old) (column_of new) (changes old new) (
      rename_part table tbl old new
      ++ (type_part table tbl old new
          ++ (nullable_part table tbl old new ++ default_part table tbl old new)))
  parts-Makes =
      Makes-append tbl (column_of old) (new.name, old.data_type, old.is_nullable, old.default_value)
        (column_of new) (count (text_eq old.name new.name))
        (count (text_eq old.data_type new.data_type)
          + (count (bool_eq old.is_nullable new.is_nullable)
              + count (option_eq old.default_value new.default_value)))
        (rename_part table tbl old new) _ rename_part-Makes
        (Makes-append tbl (new.name, old.data_type, old.is_nullable, old.default_value)
          (new.name, new.data_type, old.is_nullable, old.default_value) (column_of new)
          (count (text_eq old.data_type new.data_type))
          (count (bool_eq old.is_nullable new.is_nullable)
            + count (option_eq old.default_value new.default_value))
          (type_part table tbl old new) _ type_part-Makes
          (Makes-append tbl (new.name, new.data_type, old.is_nullable, old.default_value)
            (new.name, new.data_type, new.is_nullable, old.default_value) (column_of new)
            (count (bool_eq old.is_nullable new.is_nullable))
            (count (option_eq old.default_value new.default_value))
            (nullable_part table tbl old new) (default_part table tbl old new) nullable_part-Makes
            default_part-Makes))

  alters_all :
      (stmts : List Text)
      → Makes tbl (column_of old) (column_of new) (changes old new) stmts
      → AltersAll tbl old new (if is_nil stmts then err (codes "No changes detected") else ok stmts)
  alters_all [] ([], e, h, k) = unfold applied in ap (λ o. get_or_else o (column_of old)) h
  alters_all [] (ch ∷ chs, e, h, k) = absurd (ground (arith, ap length e))
  alters_all (x ∷ xs) ([], e, h, k) = absurd (ground (arith, ap length e))
  alters_all (x ∷ xs) (ch ∷ chs, e, h, k) = ((ch ∷ chs, e, h, k), omega (arith, k))

module _ (table : ℕ → Text) where
  -- The statements for an altered column make its new name, type, nullability and default of the old
  -- ones when they are applied in their order, one statement for each of the four that differs; there is
  -- an error exactly when none differs.
  pub build_alter_column_sql-AltersAll :
      (table_name : Text) (old new : ColumnDefinition) (schema : Text)
      → AltersAll
          (qualified schema table_name)
          old
          new
          (build_alter_column_sql table table_name old new schema)
  unfolding build_alter_column_sql
  build_alter_column_sql-AltersAll table_name old new schema =
      alters_all table (qualified schema table_name) old new _
        (parts-Makes table (qualified schema table_name) old new)
