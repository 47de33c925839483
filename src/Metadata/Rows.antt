-- ===== src/Metadata/Rows.antt =====
-- src/handlers/metadata.rs: the objects that the handlers make of the rows of the catalogue.
use tabularis_postgresql_plu.Catalog.{
  Row, as_char, cell_of, text_at, bool_at, int4_at, int8_at, text_or_empty,
}
use tabularis_postgresql_plu.Metadata.{column_default_value}
use tabularis_postgresql_plu.Extract.Numbers.{json_of_ℤ}
use tabularis_postgresql_plu.Base.Integers.{ℤ, pos, negsuc}
use tabularis_postgresql_plu.Json.{Value, null, bool, string, object, Fields, end, field}
use tabularis_postgresql_plu.Base.{
  ◌^◌, Bool, false, ◌&&◌, ◌||◌, not, [], ◌++◌, Option, none, some, ◌>>=◌, Text, codes, ltb, ◌==◌,
  text_eq, contains_text, eq_ignore_ascii_case, is_nil, get_or_else, if◌then◌else◌, List, ◌∷◌,
}

-- An object from its members in the order of the keys, some of which may be missing.
unfoldable pub members : List (Text × Option Value) → Fields
members [] = end
members ((key, none) ∷ ms) = members ms
members ((key, some v) ∷ ms) = field key v (members ms)

abbrev text_member : Row → Text → Option Value
text_member r key = some (string (text_or_empty r key))

abbrev flag : Row → Text → Option Value
flag r key = some (bool (get_or_else (bool_at r key) false))

abbrev text_value : Option Text → Option Value
text_value o = do t ← o; some (string t)

abbrev text_or_null : Option Text → Value
text_or_null none = null
text_or_null (some t) = string t

abbrev int_value : Option ℤ → Option Value
int_value o = do n ← o; some (json_of_ℤ n)

-- `u64::try_from`.
abbrev not_negative : ℤ → Option ℤ
not_negative (pos n) = some (pos n)
not_negative (negsuc n) = none

-- `i32::try_from`.
unfoldable pub as_i32 : ℤ → Option ℤ
as_i32 (pos n) = if ltb n (2 ^ 31) then some (pos n) else none
as_i32 (negsuc n) = if ltb n (2 ^ 31) then some (negsuc n) else none

unfoldable pub row_to_table : Row → Value
unfolding members text_at text_or_empty
row_to_table r = object (
    members (
      (codes "comment", text_value (text_at r (codes "comment")))
      ∷ (codes "name", text_member r (codes "name"))
      ∷ []))

-- The labels of an enum, or the type's name.
unfoldable pub data_type_of : Option Text → Text → Text
data_type_of none raw = raw
data_type_of (some vals) raw = if is_nil vals then raw else codes "enum(" ++ (vals ++ codes ")")

abbrev is_yes : Text → Bool
is_yes t = text_eq t (codes "YES")

abbrev has_nextval : Option Text → Bool
has_nextval none = false
has_nextval (some d) = contains_text d (codes "nextval")

unfoldable pub auto_increment : Row → Bool
unfolding text_at text_or_empty text_eq contains_text
auto_increment r =
    is_yes (text_or_empty r (codes "is_identity"))
    || has_nextval (text_at r (codes "column_default"))

unfoldable pub row_to_table_column : Row → Value
unfolding members text_at text_or_empty bool_at int4_at int8_at data_type_of auto_increment
    column_default_value
row_to_table_column r = object (
    members (
      (
        codes "character_maximum_length",
        int_value (int8_at r (codes "character_maximum_length") >>= not_negative),
      )
      ∷ (codes "comment", text_value (text_at r (codes "comment")))
      ∷ (
        codes "data_type",
        some (
            string (
              data_type_of (text_at r (codes "enum_values"))
                (text_or_empty r (codes "data_type")))),
      )
      ∷ (
        codes "default_value",
        text_value (column_default_value (text_at r (codes "column_default")) (auto_increment r)),
      )
      ∷ (codes "is_auto_increment", some (bool (auto_increment r)))
      ∷ (codes "is_nullable", some (bool (is_yes (text_or_empty r (codes "is_nullable")))))
      ∷ (codes "is_pk", flag r (codes "is_pk"))
      ∷ (codes "name", text_member r (codes "column_name"))
      ∷ (codes "numeric_precision", int_value (int4_at r (codes "numeric_precision")))
      ∷ (codes "numeric_scale", int_value (int4_at r (codes "numeric_scale")))
      ∷ []))

unfoldable pub row_to_foreign_key : Row → Value
unfolding members text_at text_or_empty int8_at as_i32
row_to_foreign_key r = object (
    members (
      (codes "column_name", text_member r (codes "column_name"))
      ∷ (codes "name", text_member r (codes "constraint_name"))
      ∷ (codes "on_delete", some (text_or_null (text_at r (codes "delete_rule"))))
      ∷ (codes "on_update", some (text_or_null (text_at r (codes "update_rule"))))
      ∷ (codes "ref_column", text_member r (codes "foreign_column_name"))
      ∷ (codes "ref_table", text_member r (codes "foreign_table_name"))
      ∷ (codes "seq_in_fk", int_value (int8_at r (codes "key_seq") >>= as_i32))
      ∷ []))

unfoldable pub row_to_index : Row → Value
unfolding members text_or_empty bool_at int4_at
row_to_index r = object (
    members (
      (codes "column_name", text_member r (codes "column_name"))
      ∷ (codes "is_expression", flag r (codes "is_expression"))
      ∷ (codes "is_primary", flag r (codes "is_primary"))
      ∷ (codes "is_unique", flag r (codes "is_unique"))
      ∷ (codes "name", text_member r (codes "index_name"))
      ∷ (
        codes "seq_in_index",
        some (json_of_ℤ (get_or_else (int4_at r (codes "seq_in_index")) (pos 1))),
      )
      ∷ []))

-- A view by its name; the definition is fetched later.
unfoldable pub named_value : Text → Value
named_value n = object (field (codes "definition") null (field (codes "name") (string n) end))

unfoldable pub row_to_materialized_column : Row → Value
unfolding members text_or_empty bool_at
row_to_materialized_column r = object (
    members (
      (codes "data_type", text_member r (codes "data_type"))
      ∷ (codes "is_auto_increment", some (bool false))
      ∷ (codes "is_nullable", some (bool (not (get_or_else (bool_at r (codes "not_null")) false))))
      ∷ (codes "is_pk", some (bool false))
      ∷ (codes "name", text_member r (codes "column_name"))
      ∷ []))

unfoldable pub routine_type_of : Row → Text
unfolding cell_of
routine_type_of r =
    if get_or_else (cell_of r (codes "prokind") >>= as_char) b'f' == b'p'
    then codes "PROCEDURE"
    else codes "FUNCTION"

unfoldable pub row_to_routine : Row → Value
unfolding members text_or_empty routine_type_of
row_to_routine r = object (
    members (
      (codes "definition", some null)
      ∷ (codes "name", text_member r (codes "proname"))
      ∷ (codes "routine_type", some (string (routine_type_of r)))
      ∷ []))

abbrev pub parameter : Text → Text → Text → ℤ → Value
parameter data_type mode name ordinal_position = object (
    field (codes "data_type") (string data_type) (
      field (codes "mode") (string mode) (
        field (codes "name") (string name)
          (field (codes "ordinal_position") (json_of_ℤ ordinal_position) end))))

unfoldable pub row_to_parameter : Row → Value
unfolding text_or_empty int4_at
row_to_parameter r =
    parameter (text_or_empty r (codes "data_type")) (text_or_empty r (codes "parameter_mode"))
      (text_or_empty r (codes "parameter_name"))
      (get_or_else (int4_at r (codes "ordinal_position")) (pos 0))

-- The result of a function, but for procedures, `void` and triggers.
unfoldable pub result_parameter : List Row → List Value
unfolding text_or_empty eq_ignore_ascii_case text_eq
result_parameter [] = []
result_parameter (info ∷ rows) =
    let data_type = text_or_empty info (codes "data_type") in
    if text_eq (text_or_empty info (codes "routine_type")) (codes "FUNCTION")
      && not (eq_ignore_ascii_case data_type (codes "void"))
      && not (eq_ignore_ascii_case data_type (codes "trigger"))
    then parameter data_type (codes "OUT") [] (pos 0) ∷ []
    else []

unfoldable pub row_to_trigger : Row → Value
unfolding members text_or_empty
row_to_trigger r = object (
    members (
      (codes "definition", some null)
      ∷ (codes "event", text_member r (codes "event"))
      ∷ (codes "name", text_member r (codes "name"))
      ∷ (codes "table_name", text_member r (codes "table_name"))
      ∷ (codes "timing", text_member r (codes "timing"))
      ∷ []))
