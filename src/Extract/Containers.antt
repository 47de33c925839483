-- ===== src/Extract/Containers.antt =====
-- src/extract.rs, arrays and composites, and the dispatch over all kinds of types within them:
-- `ArrayValue`, `CompositeValue`, `extract_composite_fields`, `extract_kind_from_bytes`.
pub mod Encoding
use tabularis_postgresql_plu.Extract.Types.{
  Scalar, PgType, Columns, simple, enum, range, multirange, array, domain, composite, no_columns,
  column,
}
use tabularis_postgresql_plu.Extract.Bytes.{Bytes, take_i32}
use tabularis_postgresql_plu.Extract.Library.{Library}
use tabularis_postgresql_plu.Extract.Scalars.{
  extract_simple_kind_from_bytes, enum_label, value_or_null,
}
use tabularis_postgresql_plu.Extract.Ranges.{extract_range_or_null, extract_multirange}
use tabularis_postgresql_plu.Base.Integers.{ℤ, pos, negsuc}
use tabularis_postgresql_plu.Binding.Keys.{insert_key}
use tabularis_postgresql_plu.Json
use tabularis_postgresql_plu.Json.{Value, Items, Fields, null, nil, cons, end, field}
use tabularis_postgresql_plu.Base.{
  ℕ, zero, suc, ◌+◌, ◌*◌, ◌/◌, ◌%◌, ◌^◌, ◌≡◌, ◌<◌, refl, ap, ◌∙◌, Bool, true, false, List, [], ◌∷◌,
  ◌++◌, ◌||◌, text_eq, Option, none, some, ◌>>=◌, Text, codes, ◌==◌, ltb, if◌then◌else◌, length,
  take, drop, arith,
}

-- An element behind its length, where a negative one is a null; `rest` reads the others.
unfoldable pub element_from :
    (Bytes → Value) → (Bytes → Option Items) → Option (ℤ × Bytes) → Option Items
element_from decode rest (some (pos n, t)) =
    if ltb (length t) n
    then none
    else (do items ← rest (drop n t); some (cons (decode (take n t)) items))
element_from decode rest (some (negsuc n, t)) = do items ← rest t; some (cons null items)
element_from decode rest none = none

unfoldable pub elements : (Bytes → Value) → ℕ → Bytes → Option Items
unfolding element_from take_i32
elements decode zero s = some nil
elements decode (suc n) s = element_from decode (elements decode n) (take_i32 s)

-- The header of the one dimension: its length and its lower bound.
unfoldable pub dimension_from : (Bytes → Value) → Bytes → Option (ℤ × Bytes) → Option Items
unfolding elements
dimension_from decode s (some (pos len, t)) =
    if ltb (length s) 8 then none else elements decode len (drop 8 s)
dimension_from decode s _ = none

unfoldable pub array_from : (Bytes → Value) → Bytes → Option (ℤ × Bytes) → Option Items
unfolding dimension_from take_i32
array_from decode raw (some (pos zero, s)) = some nil
array_from decode raw (some (pos (suc zero), s)) =
    dimension_from decode (drop 12 raw) (take_i32 (drop 12 raw))
array_from decode raw _ = none

unfoldable pub extract_array : (Bytes → Value) → Bytes → Option Value
unfolding array_from take_i32
extract_array decode raw =
    if ltb (length raw) 12
    then none
    else (do items ← array_from decode raw (take_i32 raw); some (Json.array items))

unfoldable pub field_value_from : (Bytes → Value) → Option (ℤ × Bytes) → Option (Value × Bytes)
field_value_from decode (some (pos n, t)) =
    if ltb (length t) n then none else some (decode (take n t), drop n t)
field_value_from decode (some (negsuc n, t)) = some (null, t)
field_value_from decode none = none

unfoldable pub extract_composite_field_value : (Bytes → Value) → Bytes → Option (Value × Bytes)
unfolding field_value_from take_i32
extract_composite_field_value decode s = field_value_from decode (take_i32 s)

unfoldable pub fill_composite_nulls : Columns → Fields
fill_composite_nulls no_columns = end
fill_composite_nulls (column name ty cols) = field name null (fill_composite_nulls cols)

-- `serde_json::Map`: the members sorted by name, where a later one replaces an earlier one of its name.
unfoldable pub has_member : Text → Fields → Bool
unfolding text_eq
has_member k end = false
has_member k (field j v fs) = text_eq j k || has_member k fs

unfoldable pub add_earlier : Text → Value → Fields → Fields
unfolding has_member insert_key
add_earlier k v m = if has_member k m then m else insert_key k v m

unfoldable pub as_map : Fields → Fields
unfolding add_earlier
as_map end = end
as_map (field k v fs) = add_earlier k v (as_map fs)

-- A field and what follows it; without a value, all that follow are null.
unfoldable pub field_from : Text → Columns → (Bytes → Fields) → Option (Value × Bytes) → Fields
unfolding fill_composite_nulls
field_from name cols rest (some (v, t)) = field name v (rest t)
field_from name cols rest none = field name null (fill_composite_nulls cols)

module _ (lib : Library) where
  unfoldable mutual
    unfolding extract_range_or_null extract_multirange extract_simple_kind_from_bytes enum_label
        value_or_null extract_array extract_composite_field_value field_from fill_composite_nulls
        as_map

    pub extract_kind_from_bytes : PgType → Bytes → Value
    extract_kind_from_bytes (range builtin subtype) buf = (extract_range_or_null lib subtype buf).0
    extract_kind_from_bytes (multirange subtype) buf = extract_multirange lib subtype buf
    extract_kind_from_bytes (domain base) buf = extract_kind_from_bytes base buf
    extract_kind_from_bytes (composite cols) buf = Json.object (
        as_map (
          if ltb (length buf) 4
          then fill_composite_nulls cols
          else composite_fields cols (drop 4 buf)))
    extract_kind_from_bytes (array element) buf =
        value_or_null (extract_array (extract_kind_from_bytes element) buf)
    extract_kind_from_bytes enum buf = value_or_null (enum_label lib buf)
    extract_kind_from_bytes (simple s) buf = extract_simple_kind_from_bytes lib s buf

    -- The loop of `extract_composite_fields`. The members stand in the order of their insertion, from
    -- which `as_map` makes the map.
    pub composite_fields : Columns → Bytes → Fields
    composite_fields no_columns s = end
    composite_fields (column name ty cols) s =
        if ltb (length s) 4
        then fill_composite_nulls (column name ty cols)
        else field_from name cols (composite_fields cols)
            (extract_composite_field_value (extract_kind_from_bytes ty) (drop 4 s))
