-- ===== src/Tests/Values.antt =====
-- Runs of the decoders and of the theorems about them on concrete bytes.
use tabularis_postgresql_plu.Extract.Bytes.{Bytes, put_u32}
use tabularis_postgresql_plu.Extract.Library.{Library}
use tabularis_postgresql_plu.Extract.Types.{
  Columns, simple, int4, array, composite, no_columns, column,
}
use tabularis_postgresql_plu.Extract.Numbers.{i64_to_json}
use tabularis_postgresql_plu.Extract.BitString.{bit_string}
use tabularis_postgresql_plu.Extract.Intervals.{
  interval_of, show_interval, total, total-interval_of,
}
use tabularis_postgresql_plu.Extract.TextSearch.{ts_vector, show_ts_vector}
use tabularis_postgresql_plu.Extract.TextSearch.Positions.{
  PositionWeight, WireLexeme, IsSent, put_lexemes, lexeme_read, ts_vector-put,
}
use tabularis_postgresql_plu.Extract.TextSearch.Trees.Texts.{
  Query, operand, not_query, and_query, or_query, any_weight, weight_a, show_query,
}
use tabularis_postgresql_plu.Extract.Ranges.{bound_text, bound_value, extract_multirange}
use tabularis_postgresql_plu.Extract.Ranges.Encoding.{
  Range, IsRange, between, unbounded, at, put_ranges, show_range, extract_multirange-put,
}
use tabularis_postgresql_plu.Extract.Containers.{extract_array, extract_kind_from_bytes}
use tabularis_postgresql_plu.Extract.Containers.Encoding.{
  IsCell, put_array, cell_items, extract_array-put,
}
use tabularis_postgresql_plu.Extract.Rows.{extract_value, extract_value-null}
use tabularis_postgresql_plu.Base.Integers.{ℤ, pos, negsuc, scale, ◌+ℤ◌}
use tabularis_postgresql_plu.Base.Decimal.{to_decimal}
use tabularis_postgresql_plu.Json
use tabularis_postgresql_plu.Base.{
  ◌+◌, ◌-◌, ◌*◌, ◌^◌, ◌≡◌, refl, true, false, List, [], ◌∷◌, ◌++◌, Option, none, some, Text, codes,
  map, join, arith, All,
}

abbrev number_of : Bytes → Option ℤ
number_of (a ∷ b ∷ c ∷ d ∷ []) = some (pos (((a * 256 + b) * 256 + c) * 256 + d))
number_of s = none

abbrev text_of_number : Json.Value → Text
text_of_number (Json.number (Json.pos_int n)) = to_decimal n
text_of_number v = codes "null"

-- A library whose texts are ASCII; what no run below uses is empty.
abbrev library : Library
library = record {
  bool_from_sql = λ s. none;
  int2_from_sql = λ s. none;
  int4_from_sql = number_of;
  int8_from_sql = λ s. none;
  oid_from_sql = λ s. none;
  float4_from_sql = λ s. none;
  float8_from_sql = λ s. none;
  accepts_text = λ ty. false;
  array_elements = λ s. none;
  utf8 = some;
  json_to_text = text_of_number;
  json_from_sql = λ s. none;
  json_from_f64 = λ x. Json.null;
  show_f32 = to_decimal;
  show_f64 = to_decimal;
  parse_f64 = λ s. none;
  f32_of_f64 = λ x. x;
  f64_of_f32 = λ x. x;
  f32_eq = λ x y. true;
  f32_of_f16 = λ x. x;
  numeric_text = λ s. none;
  date_text = λ s. none;
  time_text = λ s. none;
  timestamp_text = λ s. none;
  timestamptz_text = λ s. none;
  uuid_text = λ s. none;
  hstore_value = λ s. none;
  ip_text = λ s. [];
  infer_mime = λ s. none;
  base64_encode = λ s. s;
}

-- One day and a half.
long_interval :
    show_interval (interval_of (pos 129600000000) (pos 1) (pos 14))
    ≡ codes "1 year 2 months 2 days 12:00:00"
unfolding show_interval interval_of
long_interval = refl

-- Minus 25 hours is printed as a day forward and an hour back.
negative_interval :
    show_interval (interval_of (negsuc 89999999999) (pos 0) (pos 0)) ≡ codes "1 day -01:00:00"
unfolding show_interval interval_of
negative_interval = refl

total-interval_of_example :
    (total (interval_of (pos 129600000000) (pos 1) (pos 14))
      ≡ scale 86400000000 (pos 1) +ℤ pos 129600000000)
    × (scale 12 ((interval_of (pos 129600000000) (pos 1) (pos 14)).years)
          +ℤ (interval_of (pos 129600000000) (pos 1) (pos 14)).months
        ≡ pos 14)
total-interval_of_example =
    total-interval_of 129600000000 (pos 1) (pos 14) (omega arith) (omega arith)

abbrev cat : Bytes
cat = codes "cat"

-- `!'cat' & ('cat' | 'cat':*A)`.
abbrev cats : Query
cats =
    and_query (not_query (operand cat cat false any_weight))
      (or_query (operand cat cat false any_weight) (operand cat cat true weight_a))

shown_cats : show_query cats ≡ codes "!'cat' & ('cat' | 'cat':*A)"
unfolding show_query
shown_cats = refl

abbrev sent_cat : WireLexeme
sent_cat = record {
  bytes = cat;
  text = cat;
  positions = (3, PositionWeight.weight_a) ∷ (7, PositionWeight.weight_d) ∷ [];
}

sent_cat-IsSent : IsSent library sent_cat
sent_cat-IsSent = record {
  bytes_are = ground arith;
  text_is = refl;
  has_positions = omega arith;
  few_positions = omega arith;
  positions_are = ground arith;
}

shown_cat : show_ts_vector (lexeme_read sent_cat ∷ []) ≡ codes "'cat':3A,7"
unfolding show_ts_vector lexeme_read
shown_cat = refl

ts_vector-put_example :
    ts_vector library (put_u32 1 ++ put_lexemes (sent_cat ∷ []))
    ≡ some (map lexeme_read (sent_cat ∷ []))
ts_vector-put_example = ts_vector-put library (sent_cat ∷ []) (omega arith) (sent_cat-IsSent, tt)

abbrev ranges : List Range
ranges =
    between (at (put_u32 1) (codes "1") true) (at (put_u32 5) (codes "5") false)
    ∷ between (at (put_u32 9) (codes "9") true) unbounded
    ∷ []

shown_ranges : map show_range ranges ≡ codes "[1, 5)" ∷ codes "[9, )" ∷ []
unfolding show_range
shown_ranges = refl

ranges_are : All (IsRange library (simple int4)) ranges
unfolding bound_text bound_value put_u32 to_decimal
ranges_are = (((omega arith, refl), (omega arith, refl)), (((omega arith, refl), tt), tt))

extract_multirange-put_example :
    extract_multirange library (simple int4) (put_u32 2 ++ put_ranges ranges)
    ≡ Json.string (codes "{" ++ (join (codes ",") (map show_range ranges) ++ codes "}"))
extract_multirange-put_example = extract_multirange-put library (simple int4) ranges ranges_are

abbrev cells : List (Option Bytes)
cells = some (put_u32 7) ∷ none ∷ some (put_u32 8) ∷ []

cells_fit : All IsCell cells
unfolding put_u32
cells_fit = ground arith

extract_array-put_example :
    extract_array (extract_kind_from_bytes library (simple int4)) (put_array 1 23 1 cells)
    ≡ some (Json.array (cell_items (extract_kind_from_bytes library (simple int4)) cells))
extract_array-put_example =
    extract_array-put (extract_kind_from_bytes library (simple int4)) 1 23 1 cells (omega arith)
      cells_fit

cells_are :
    cell_items (extract_kind_from_bytes library (simple int4)) cells
    ≡ Json.cons
        (Json.number (Json.pos_int 7))
        (Json.cons Json.null (Json.cons (Json.number (Json.pos_int 8)) Json.nil))
unfolding cell_items extract_kind_from_bytes put_u32
cells_are = refl

abbrev columns : Columns
columns = column (codes "id") (simple int4) (column (codes "tags") (array (simple int4)) no_columns)

ten_bits : bit_string (put_u32 10 ++ (0b10100001 ∷ 0b11000000 ∷ [])) ≡ some (codes "1010000111")
unfolding bit_string put_u32
ten_bits = refl

least_integer : i64_to_json (negsuc (2 ^ 63 - 1)) ≡ Json.number (Json.neg_int (2 ^ 63 - 1))
unfolding i64_to_json
least_integer = refl

null_cell : extract_value library (composite columns) none ≡ Json.null
null_cell = extract_value-null library (composite columns)
