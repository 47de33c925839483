-- ===== src/Extract/Containers/Encoding.antt =====
-- src/extract.rs, arrays and composites: what is read from PostgreSQL's encoding, and what is kept of a
-- composite for any bytes.
use tabularis_postgresql_plu.Extract.Containers.{
  element_from, elements, dimension_from, array_from, extract_array,
}
use tabularis_postgresql_plu.Extract.Types.{Columns, no_columns, column}
use tabularis_postgresql_plu.Extract.Bytes.{
  Bytes, take_i32, put_u32, put_frame, take_i32-put, take_u32-put, ltb-length_append,
}
use tabularis_postgresql_plu.Extract.Library.{Library}
use tabularis_postgresql_plu.Base.Integers.{pos, negsuc}
use tabularis_postgresql_plu.Json
use tabularis_postgresql_plu.Json.{Value, Items, Fields, null, nil, cons, end, field}
use tabularis_postgresql_plu.Base.{
  ℕ, ◌-◌, ◌^◌, ◌≡◌, ◌<◌, refl, List, [], ◌∷◌, ◌++◌, append_assoc, Option, none, some, Text, Bool,
  false, ◌||◌, text_eq, length, arith, All, take-length_append, drop-length_append,
}

unfoldable pub field_names : Fields → List Text
field_names end = []
field_names (field name v fs) = name ∷ field_names fs

unfoldable pub column_names : Columns → List Text
column_names no_columns = []
column_names (column name ty cols) = name ∷ column_names cols

unfoldable pub stands_in : Text → List Text → Bool
unfolding text_eq
stands_in k [] = false
stands_in k (name ∷ names) = text_eq name k || stands_in k names

-- A value behind its length, a null by the length -1.
unfoldable pub put_cell : Option Bytes → Bytes
unfolding put_frame put_u32
put_cell (some v) = put_frame v
put_cell none = put_u32 (2 ^ 32 - 1)

unfoldable pub put_cells : List (Option Bytes) → Bytes
unfolding put_cell
put_cells [] = []
put_cells (c ∷ cells) = put_cell c ++ put_cells cells

abbrev pub IsCell : Option Bytes → Type 0
IsCell (some v) = length v < 2 ^ 31
IsCell none = Unit {0}

unfoldable pub cell_value : (Bytes → Value) → Option Bytes → Value
cell_value decode (some v) = decode v
cell_value decode none = null

unfoldable pub cell_items : (Bytes → Value) → List (Option Bytes) → Items
unfolding cell_value
cell_items decode [] = nil
cell_items decode (c ∷ cells) = cons (cell_value decode c) (cell_items decode cells)

take_i32-frame :
    (v s : Bytes) → length v < 2 ^ 31 → take_i32 (put_frame v ++ s) ≡ some (pos (length v), v ++ s)
unfolding put_frame
take_i32-frame v s h =
    rw (append_assoc (put_u32 (length v)) v s) (take_i32-put (length v) (v ++ s) h)

take_i32-null : (s : Bytes) → take_i32 (put_u32 (2 ^ 32 - 1) ++ s) ≡ some (negsuc 0, s)
unfolding take_i32
take_i32-null s = rw (take_u32-put (2 ^ 32 - 1) s) (ground arith)

element_from-put :
    (decode : Bytes → Value) (rest : Bytes → Option Items) (c : Option Bytes) (s : Bytes)
    (items : Items)
    → IsCell c
    → rest s ≡ some items
    → element_from decode rest (take_i32 (put_cell c ++ s))
      ≡ some (cons (cell_value decode c) items)
unfolding put_cell element_from cell_value
element_from-put decode rest (some v) s items h e =
    rw (take_i32-frame v s h)
      (rw (ltb-length_append v s, take-length_append v s, drop-length_append v s) (rw e refl))
element_from-put decode rest none s items h e = rw (take_i32-null s) (rw e refl)

elements-put :
    (decode : Bytes → Value) (cells : List (Option Bytes))
    → All IsCell cells
    → elements decode (length cells) (put_cells cells) ≡ some (cell_items decode cells)
unfolding elements put_cells cell_items
elements-put decode [] h = refl
elements-put decode (c ∷ cells) h =
    element_from-put decode (elements decode (length cells)) c (put_cells cells)
      (cell_items decode cells) (h.0) (elements-put decode cells (h.1))

-- The encoding of an array with one dimension: the number of dimensions, a mark for nulls, the OID of
-- the elements' type, the length and the lower bound, and the elements.
unfoldable pub put_array : ℕ → ℕ → ℕ → List (Option Bytes) → Bytes
put_array has_nulls elem_oid lower_bound cells =
    put_u32 1
    ++ (put_u32 has_nulls
        ++ (put_u32 elem_oid
            ++ (put_u32 (length cells) ++ (put_u32 lower_bound ++ put_cells cells))))

dimension_from-put :
    (decode : Bytes → Value) (lower_bound : ℕ) (cells : List (Option Bytes))
    → length cells < 2 ^ 31
    → All IsCell cells
    → dimension_from decode
        (put_u32 (length cells) ++ (put_u32 lower_bound ++ put_cells cells))
        (take_i32 (put_u32 (length cells) ++ (put_u32 lower_bound ++ put_cells cells)))
      ≡ some (cell_items decode cells)
unfolding dimension_from
dimension_from-put decode lower_bound cells h k =
    rw (take_i32-put (length cells) (put_u32 lower_bound ++ put_cells cells) h)
      (unfold put_u32 in rw (elements-put decode cells k) (ground arith))

-- An array of one dimension is read from PostgreSQL's encoding with all its elements in their order,
-- each decoded for itself and nulls kept, for less than 2^31 elements of less than 2^31 bytes.
pub extract_array-put :
    (decode : Bytes → Value) (has_nulls elem_oid lower_bound : ℕ) (cells : List (Option Bytes))
    → length cells < 2 ^ 31
    → All IsCell cells
    → extract_array decode (put_array has_nulls elem_oid lower_bound cells)
      ≡ some (Json.array (cell_items decode cells))
unfolding extract_array put_array array_from
extract_array-put decode has_nulls elem_oid lower_bound cells h k =
    rw
      (take_i32-put 1
        (put_u32 has_nulls
          ++ (put_u32 elem_oid
              ++ (put_u32 (length cells) ++ (put_u32 lower_bound ++ put_cells cells))))
        (omega arith))
      (unfold put_u32 in rw (dimension_from-put decode lower_bound cells h k) (ground arith))
