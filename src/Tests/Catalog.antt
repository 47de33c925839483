-- ===== src/Tests/Catalog.antt =====
-- Runs of the catalogue handlers of src/handlers/metadata.rs.
use tabularis_postgresql_plu.Metadata.Listings.Snapshot.{
  get_schema_snapshot-entries, snapshot_entry,
}
use tabularis_postgresql_plu.Metadata.Listings.Batches.{get_schema_snapshot}
use tabularis_postgresql_plu.Metadata.Rows.{row_to_table_column}
use tabularis_postgresql_plu.Metadata.Queries.Columns.{all_columns_query}
use tabularis_postgresql_plu.Metadata.Queries.Tables.{tables_query}
use tabularis_postgresql_plu.Metadata.Grouping.{items_of}
use tabularis_postgresql_plu.Catalog.{Row, QueryRows, int4_cell, int8_cell, text_cell}
use tabularis_postgresql_plu.Rpc.{ok_response}
use tabularis_postgresql_plu.Query.Server.{ok}
use tabularis_postgresql_plu.Base.Integers.{pos}
use tabularis_postgresql_plu.Json.{null, number, pos_int, array, get}
use tabularis_postgresql_plu.Base.{
  ℕ, ◌≡◌, refl, ◌+◌, List, [], ◌∷◌, none, codes, map, text_eq, if◌then◌else◌,
}

abbrev table_rows : List Row
table_rows =
    ((codes "name", text_cell (codes "a")) ∷ []) ∷ ((codes "name", text_cell (codes "b")) ∷ []) ∷ []

-- The columns of `a` do not stand together.
abbrev column_rows : List Row
column_rows =
    ((codes "table_name", text_cell (codes "a"))
      ∷ (codes "column_name", text_cell (codes "id"))
      ∷ [])
    ∷ ((codes "table_name", text_cell (codes "b"))
        ∷ (codes "column_name", text_cell (codes "x"))
        ∷ [])
    ∷ ((codes "table_name", text_cell (codes "a"))
        ∷ (codes "column_name", text_cell (codes "note"))
        ∷ [])
    ∷ []

abbrev key_rows : List Row
key_rows =
    ((codes "table_name", text_cell (codes "b"))
      ∷ (codes "constraint_name", text_cell (codes "fk"))
      ∷ (codes "key_seq", int8_cell (pos 1))
      ∷ [])
    ∷ []

-- Answers the three queries of a snapshot and counts them.
abbrev catalogue : QueryRows ℕ
catalogue conn query query_params n = (
  ok (
      if text_eq query tables_query
      then table_rows
      else if text_eq query all_columns_query
      then column_rows
      else key_rows),
  1 + n,
)

get_schema_snapshot-entries_example : get_schema_snapshot catalogue (number (pos_int 1)) null 0 ≡ (
  ok_response
      (number (pos_int 1))
      (array (items_of (map (snapshot_entry column_rows key_rows) table_rows))),
  3,
)
unfolding text_eq
get_schema_snapshot-entries_example =
    get_schema_snapshot-entries catalogue (number (pos_int 1)) null table_rows column_rows key_rows
      0 1 2 3 refl refl refl

-- The catalogue's type of `character_maximum_length` is a domain over int4: the member is not sent.
length_of_varchar :
    get
      (row_to_table_column ((codes "character_maximum_length", int4_cell (pos 20)) ∷ []))
      (codes "character_maximum_length")
    ≡ none
unfolding row_to_table_column get
length_of_varchar = refl
