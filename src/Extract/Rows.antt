-- ===== src/Extract/Rows.antt =====
-- src/extract.rs, a column of a row: `extract_value`, `extract_simple_kind`, `extract_array_kind`,
-- `extract_range_kind` and their fallbacks. A cell is the bytes the server sent, or none for NULL.
use tabularis_postgresql_plu.Extract.Types.{
  Scalar, PgType, boolean, int2, int4, int8, float4, float8, text, other, simple, enum, range,
  multirange, array, domain, composite,
}
use tabularis_postgresql_plu.Extract.Bytes.{Bytes}
use tabularis_postgresql_plu.Extract.Library.{Library}
use tabularis_postgresql_plu.Extract.Scalars.{decode_scalar, enum_label, text_or_null}
use tabularis_postgresql_plu.Extract.Ranges.{extract_range_or_null, extract_multirange}
use tabularis_postgresql_plu.Extract.Containers.{extract_array, extract_kind_from_bytes}
use tabularis_postgresql_plu.Json
use tabularis_postgresql_plu.Json.{Value, Items, nil, cons}
use tabularis_postgresql_plu.Base.{
  ◌≡◌, refl, Bool, true, false, List, [], ◌∷◌, Option, none, some, ◌>>=◌, Bool-cases, inl, inr,
  if◌then◌else◌,
}

abbrev pub Cell : Type 0
Cell = Option Bytes

unfoldable pub composite_value : (Bytes → Value) → Bytes → Value
composite_value decode [] = Json.null
composite_value decode (b ∷ s) = decode (b ∷ s)

unfoldable pub range_or_null : Value → Value
range_or_null (Json.string s) = Json.string s
range_or_null v = Json.null

-- The elements of a fast path, which fails as a whole if one of them does.
unfoldable pub decode_items : (Bytes → Option Value) → List (Option Bytes) → Option Items
decode_items decode [] = some nil
decode_items decode (none ∷ cells) = do
  items ← decode_items decode cells
  some (cons Json.null items)
decode_items decode (some b ∷ cells) = do
  v ← decode b
  items ← decode_items decode cells
  some (cons v items)

unfoldable pub is_other : Scalar → Bool
is_other other = true
is_other s = false

module _ (lib : Library) where
  -- The text of a cell that is read as a `String`, and null for NULL or another type.
  unfoldable pub extract_string_or_null_fallback : PgType → Cell → Value
  unfolding text_or_null
  extract_string_or_null_fallback ty none = Json.null
  extract_string_or_null_fallback ty (some raw) =
      if lib.accepts_text ty then text_or_null (lib.utf8 raw) else Json.null

  -- `accepted` is whether the decoder accepts the column's type.
  unfoldable pub decoded_or_fallback : PgType → Cell → Option Value → Value
  unfolding extract_string_or_null_fallback
  decoded_or_fallback ty cell (some v) = v
  decoded_or_fallback ty cell none = extract_string_or_null_fallback ty cell

  unfoldable pub try_extract : PgType → Bool → (Bytes → Option Value) → Cell → Value
  unfolding decoded_or_fallback
  try_extract ty accepted decode none = Json.null
  try_extract ty accepted decode (some raw) =
      decoded_or_fallback ty (some raw) (if accepted then decode raw else none)

  unfoldable pub extract_simple_kind : PgType → Bool → Scalar → Cell → Value
  unfolding try_extract decode_scalar extract_string_or_null_fallback
  extract_simple_kind ty accepted s cell =
      if is_other s
      then extract_string_or_null_fallback ty cell
      else try_extract ty accepted (decode_scalar lib s) cell

  -- The element types with a fast path.
  unfoldable pub is_fast : PgType → Bool
  is_fast (simple int2) = true
  is_fast (simple int4) = true
  is_fast (simple int8) = true
  is_fast (simple text) = true
  is_fast (simple float4) = true
  is_fast (simple float8) = true
  is_fast (simple boolean) = true
  is_fast ty = false

  unfoldable pub fast_elements : PgType → Bytes → Option Value
  unfolding decode_items decode_scalar
  fast_elements (simple s) raw = do
    cells ← lib.array_elements raw
    items ← decode_items (decode_scalar lib s) cells
    some (Json.array items)
  fast_elements ty raw = none

  unfoldable pub extract_array_kind : PgType → Cell → Value
  unfolding try_extract is_fast fast_elements extract_array extract_kind_from_bytes
  extract_array_kind element cell =
      try_extract (array element) true
        (if is_fast element
          then fast_elements element
          else extract_array (extract_kind_from_bytes lib element))
        cell

  unfoldable pub try_extract_range : PgType → Cell → Value
  unfolding extract_range_or_null range_or_null
  try_extract_range subtype none = Json.null
  try_extract_range subtype (some raw) = range_or_null ((extract_range_or_null lib subtype raw).0)

  unfoldable pub extract_value : PgType → Cell → Value
  unfolding extract_simple_kind try_extract enum_label extract_array_kind try_extract_range
      extract_multirange composite_value extract_kind_from_bytes extract_string_or_null_fallback
  extract_value (simple s) cell = extract_simple_kind (simple s) true s cell
  extract_value enum cell = try_extract enum true (enum_label lib) cell
  extract_value (array element) cell = extract_array_kind element cell
  extract_value (range builtin subtype) cell =
      if builtin
      then try_extract_range subtype cell
      else extract_string_or_null_fallback (range builtin subtype) cell
  extract_value (multirange subtype) cell =
      try_extract (multirange subtype) true (λ raw. some (extract_multirange lib subtype raw)) cell
  extract_value (domain (simple s)) cell = extract_simple_kind (domain (simple s)) false s cell
  extract_value (domain base) cell = extract_string_or_null_fallback (domain base) cell
  extract_value (composite cols) cell =
      try_extract (composite cols) true
        (λ raw. some (composite_value (extract_kind_from_bytes lib (composite cols)) raw)) cell

  simple-null :
      (ty : PgType) (accepted : Bool) (s : Scalar)
      → extract_simple_kind ty accepted s none ≡ Json.null
  unfolding extract_simple_kind
  simple-null ty accepted s = elim (Bool-cases (is_other s)) [
    | inl e ↦ rw e refl
    | inr e ↦ rw e refl
  ]

  -- NULL is null for every type.
  pub extract_value-null : (ty : PgType) → extract_value ty none ≡ Json.null
  unfolding extract_value
  extract_value-null (simple s) = simple-null (simple s) true s
  extract_value-null enum = refl
  extract_value-null (array element) = refl
  extract_value-null (range true subtype) = refl
  extract_value-null (range false subtype) = refl
  extract_value-null (multirange subtype) = refl
  extract_value-null (domain (simple s)) = simple-null (domain (simple s)) false s
  extract_value-null (domain enum) = refl
  extract_value-null (domain (array element)) = refl
  extract_value-null (domain (range b subtype)) = refl
  extract_value-null (domain (multirange subtype)) = refl
  extract_value-null (domain (domain base)) = refl
  extract_value-null (domain (composite cols)) = refl
  extract_value-null (composite cols) = refl
