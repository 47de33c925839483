-- ===== src/Ddl/Alter/Changes.antt =====
-- src/handlers/ddl.rs: the subforms of ALTER TABLE for a column, how they are written, and what a sequence
-- of them makes of a column.
use tabularis_postgresql_plu.Ddl.{ColumnDefinition}
use tabularis_postgresql_plu.Identifiers.{quote_identifier}
use tabularis_postgresql_plu.Base.{
  ℕ, ◌≡◌, refl, sym, ◌+◌, Bool, true, false, List, [], ◌∷◌, ◌++◌, Text, codes, arith, if◌then◌else◌,
  text_eq, length, length-append, Option, none, some, ◌>>=◌, map, ap, ap₂, ◌∙◌, text_eq_refl,
}

-- What the statements can change of a column: its name, type, nullability and default.
abbrev pub Column : Type 0
Column = Text × Text × Bool × Option Text

abbrev pub column_of : ColumnDefinition → Column
column_of c = (c.name, c.data_type, c.is_nullable, c.default_value)

-- The subforms of ALTER TABLE, each with the name of its column.
pub data Change : Type 0 where
  renames : Text → Text → Change
  retypes : Text → Text → Bool → Change
  drops_not_null sets_not_null : Text → Change
  sets_default : Text → Text → Change
  drops_default : Text → Change

unfoldable pub of_column : Text → Text → Text
unfolding quote_identifier
of_column tbl col = codes "ALTER TABLE " ++ tbl ++ codes " ALTER COLUMN " ++ quote_identifier col

unfoldable pub of_type : Text → Text → Text → Text
unfolding quote_identifier
of_type tbl col ty =
    codes "ALTER TABLE "
    ++ tbl
    ++ codes " ALTER COLUMN "
    ++ quote_identifier col
    ++ codes " TYPE "
    ++ ty

-- How a change is written.
unfoldable pub statement : Text → Change → Text
unfolding quote_identifier of_column of_type
statement tbl (renames from to) =
    codes "ALTER TABLE "
    ++ tbl
    ++ codes " RENAME COLUMN "
    ++ quote_identifier from
    ++ codes " TO "
    ++ quote_identifier to
statement tbl (retypes col ty true) =
    of_type tbl col ty ++ (codes " USING " ++ quote_identifier col ++ codes "::" ++ ty)
statement tbl (retypes col ty false) = of_type tbl col ty
statement tbl (drops_not_null col) = of_column tbl col ++ (codes " DROP NOT NULL")
statement tbl (sets_not_null col) = of_column tbl col ++ (codes " SET NOT NULL")
statement tbl (sets_default col v) = of_column tbl col ++ codes " SET DEFAULT " ++ v
statement tbl (drops_default col) = of_column tbl col ++ (codes " DROP DEFAULT")

abbrev pub on_column : Text → Column → Column → Option Column
on_column col (name, ty, nullable, default) changed =
    if text_eq col name then some changed else none

-- What a change does to the column: nothing if it names another one.
unfoldable pub apply : Change → Column → Option Column
unfolding text_eq
apply (renames from to) (name, ty, nullable, default) =
    on_column from (name, ty, nullable, default) (to, ty, nullable, default)
apply (retypes col new_type explicit) (name, ty, nullable, default) =
    on_column col (name, ty, nullable, default) (name, new_type, nullable, default)
apply (drops_not_null col) (name, ty, nullable, default) =
    on_column col (name, ty, nullable, default) (name, ty, true, default)
apply (sets_not_null col) (name, ty, nullable, default) =
    on_column col (name, ty, nullable, default) (name, ty, false, default)
apply (sets_default col v) (name, ty, nullable, default) =
    on_column col (name, ty, nullable, default) (name, ty, nullable, some v)
apply (drops_default col) (name, ty, nullable, default) =
    on_column col (name, ty, nullable, default) (name, ty, nullable, none)

unfoldable pub applied : List Change → Column → Option Column
unfolding apply
applied [] c = some c
applied (ch ∷ chs) c = do d ← apply ch c; applied chs d

-- The statements are so many changes, which make one column of the other.
abbrev pub Makes : Text → Column → Column → ℕ → List Text → Type 0
Makes tbl c d n stmts =
    (chs : List Change) × (stmts ≡ map (statement tbl) chs)
    × (applied chs c ≡ some d)
    × (length chs ≡ n)

bind_then :
    {A B : Type 0} (f g : A → Option B) (d : B) (r : Option B) (o : Option A)
    → ((a : A) → f a ≡ some d → g a ≡ r)
    → (o >>= f) ≡ some d
    → (o >>= g) ≡ r
bind_then f g d r none h e = absurd (ground (arith, e))
bind_then f g d r (some a) h e = h a e

applied-append :
    (xs ys : List Change) (c d : Column)
    → applied xs c ≡ some d
    → applied (xs ++ ys) c ≡ applied ys d
unfolding applied
applied-append [] ys c d h = ap (λ o. o >>= applied ys) h
applied-append (x ∷ xs) ys c d h =
    bind_then (applied xs) (applied (xs ++ ys)) d (applied ys d) (apply x c)
      (λ e. applied-append xs ys e d) h

map-statement :
    (tbl : Text) (xs ys : List Change)
    → map (statement tbl) (xs ++ ys) ≡ map (statement tbl) xs ++ map (statement tbl) ys
map-statement tbl [] ys = refl
map-statement tbl (x ∷ xs) ys = ap (◌∷◌ (statement tbl x)) (map-statement tbl xs ys)

pub Makes-append :
    (tbl : Text) (c d e : Column) (m n : ℕ) (xs ys : List Text)
    → Makes tbl c d m xs
    → Makes tbl d e n ys
    → Makes tbl c e (m + n) (xs ++ ys)
Makes-append tbl c d e m n xs ys (us, p, q, l) (vs, r, t, k) = (
  us ++ vs,
  ap₂ ◌++◌ p r ∙ sym (map-statement tbl us vs),
  applied-append us vs c d q ∙ t,
  omega (arith, length-append us vs, l, k),
)

pub Makes-none : (tbl : Text) (c d : Column) → c ≡ d → Makes tbl c d 0 []
unfolding applied
Makes-none tbl c d e = ([], refl, ap some e, refl)

pub Makes-one :
    (tbl : Text) (ch : Change) (c d : Column)
    → apply ch c ≡ some d
    → Makes tbl c d 1 (statement tbl ch ∷ [])
unfolding applied
Makes-one tbl ch c d e = (ch ∷ [], refl, rw e refl, refl)

pub on_own :
    (name ty : Text) (nullable : Bool) (default : Option Text) (d : Column)
    → on_column name (name, ty, nullable, default) d ≡ some d
on_own name ty nullable default d = rw (text_eq_refl name) refl
