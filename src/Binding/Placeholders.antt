-- ===== src/Binding/Placeholders.antt =====
-- src/binding.rs: the placeholder of a bound parameter stands in its fragment, and placeholders are
-- numbered as the parameters are.
pub mod Values
pub mod KeyValues
pub mod Predicates
pub mod Keyed
use tabularis_postgresql_plu.Binding.{
  Crates, BoundValue, BindOptions, TypedPgParam, int8_param, float8_param, numeric_param,
  text_param, uuid_param, bool_param, bytea_param, json_param, jsonb_param, hstore_param,
  placeholder, cast_to, bound, unbound,
}
use tabularis_postgresql_plu.Binding.Numbers.{
  as_i64, parsed_or, cannot_bind, bind_bigint, bind_double, bind_decimal, bind_pg_number,
  integer_or_float, float_or_error, bind_pg_numeric_string, bind_pg_temporal_string,
  temporal_target, integer_types, float_types, parse_i64,
}
use tabularis_postgresql_plu.Binding.Vectors.{
  bind_pg_vector_string, vector_literal, vector_literal_if, vector_type, is_vector_literal,
}
use tabularis_postgresql_plu.Binding.Arrays.{
  and_then, bind_array, json_array_to_pg_literal, hstore_map_from_json_object, bind_hstore_map,
  bind_hstore_text, bind_pg_hstore,
}
use tabularis_postgresql_plu.Binding.Strings.{
  or_else, bind_boolean, boolean_word, bind_pg_enum_string, is_raw_sql_function, is_wkt_geometry,
  literal_of_json, bind_by_shape, bind_by_type, bind_pg_string, bind_plain, is_text_or_null,
  is_type, base_type_of, bind_pg_value, ends_with, use_default_sentinel,
}
use tabularis_postgresql_plu.Blob.{decode_blob_wire_format}
use tabularis_postgresql_plu.Query.Server.{Result, ok, err}
use tabularis_postgresql_plu.Json.{Value, null, bool, number, string, array, object, Items, Fields}
use tabularis_postgresql_plu.Base.Integers.{ℤ}
use tabularis_postgresql_plu.Base.{
  ℕ, ◌≡◌, refl, ap, sym, Bool, true, false, ◌&&◌, not, List, [], ◌∷◌, ◌++◌, append_assoc,
  append-nil, Option, none, some, ◌>>=◌, Text, codes, text_eq, one_of, trim, starts_with,
  if◌then◌else◌,
}

abbrev pub HasPlaceholder : ℕ → Text → Type 0
HasPlaceholder idx sql = (pre : Text) × (post : Text) × (sql ≡ pre ++ (placeholder idx ++ post))

-- A fragment with a parameter has its placeholder.
abbrev pub IsPlaced : ℕ → Text → Option TypedPgParam → Type 0
IsPlaced idx sql none = Unit {0}
IsPlaced idx sql (some p) = HasPlaceholder idx sql

abbrev pub AllOk : ℕ → Result Text BoundValue → Type 0
AllOk idx (ok b) = IsPlaced idx (b.sql) (b.param)
AllOk idx (err e) = Unit {0}

abbrev pub AllSome : ℕ → Option (Result Text BoundValue) → Type 0
AllSome idx (some r) = AllOk idx r
AllSome idx none = Unit {0}

pub placeholder-placed : (idx : ℕ) → HasPlaceholder idx (placeholder idx)
placeholder-placed idx = ([], [], sym (append-nil (placeholder idx)))

pub cast_to-placed : (target : Text) (idx : ℕ) → HasPlaceholder idx (cast_to target idx)
unfolding cast_to
cast_to-placed target idx = (codes "CAST(", codes " AS " ++ (target ++ codes ")"), refl)

pub if-placed :
    (idx : ℕ) (b : Bool) (r s : Result Text BoundValue)
    → AllOk idx r
    → AllOk idx s
    → AllOk idx (if b then r else s)
if-placed idx true r s h k = h
if-placed idx false r s h k = k

pub if_some-placed :
    (idx : ℕ) (b : Bool) (r s : Option (Result Text BoundValue))
    → AllSome idx r
    → AllSome idx s
    → AllSome idx (if b then r else s)
if_some-placed idx true r s h k = h
if_some-placed idx false r s h k = k

pub or_else-placed :
    (idx : ℕ) (o : Option (Result Text BoundValue)) (r : Result Text BoundValue)
    → AllSome idx o
    → AllOk idx r
    → AllOk idx (or_else o r)
unfolding or_else
or_else-placed idx (some s) r h k = h
or_else-placed idx none r h k = k

pub bind_some-placed {ℓ} :
    {A : Type ℓ} (idx : ℕ) (f : A → Result Text BoundValue) (o : Option A)
    → ((a : A) → AllOk idx (f a))
    → AllSome idx (do a ← o; some (f a))
bind_some-placed idx f (some a) h = h a
bind_some-placed idx f none h = tt

pub and_then-placed {ℓ} :
    {A : Type ℓ} (idx : ℕ) (r : Result Text A) (f : A → Result Text BoundValue)
    → ((a : A) → AllOk idx (f a))
    → AllOk idx (and_then r f)
unfolding and_then
and_then-placed idx (ok a) f h = h a
and_then-placed idx (err e) f h = tt

pub parsed_or-placed {ℓ} :
    {A : Type ℓ} (idx : ℕ) (message : Text) (f : A → BoundValue) (o : Option A)
    → ((a : A) → AllOk idx (ok (f a)))
    → AllOk idx (parsed_or message f o)
unfolding parsed_or
parsed_or-placed idx message f (some a) h = h a
parsed_or-placed idx message f none h = tt

pub bigint-placed : (idx : ℕ) (i : ℤ) → AllOk idx (ok (bind_bigint idx i))
unfolding bind_bigint bound
bigint-placed idx i = cast_to-placed (codes "bigint") idx

pub double-placed : (idx f : ℕ) → AllOk idx (ok (bind_double idx f))
unfolding bind_double bound
double-placed idx f = cast_to-placed (codes "double precision") idx

pub decimal-placed : (idx : ℕ) (d : Text) → AllOk idx (ok (bind_decimal idx d))
unfolding bind_decimal bound
decimal-placed idx d = cast_to-placed (codes "numeric") idx

pub temporal-placed :
    (s base_type : Text) (idx : ℕ) → AllSome idx (bind_pg_temporal_string s base_type idx)
unfolding bind_pg_temporal_string bound
temporal-placed s base_type idx =
    bind_some-placed idx (λ t. ok (bound (cast_to t idx) (text_param s)))
      (temporal_target base_type) (λ t. cast_to-placed t idx)

pub vector_if-placed : (idx : ℕ) (b : Bool) (t ty : Text) → AllOk idx (vector_literal_if b t ty)
unfolding vector_literal_if unbound
vector_if-placed idx true t ty = tt
vector_if-placed idx false t ty = tt

pub vector-placed : (idx : ℕ) (s base_type : Text) → AllSome idx (bind_pg_vector_string s base_type)
unfolding bind_pg_vector_string vector_literal
vector-placed idx s base_type =
    bind_some-placed idx (vector_literal (trim s)) (vector_type base_type)
      (λ ty. vector_if-placed idx (is_vector_literal (trim s)) (trim s) ty)

pub boolean-placed : (s : Text) (idx : ℕ) (o : Option Bool) → AllOk idx (bind_boolean s idx o)
unfolding bind_boolean bound
boolean-placed s idx (some b) = placeholder-placed idx
boolean-placed s idx none = tt

module _ (crates : Crates) where
  pub numeric-placed :
      (s base_type : Text) (idx : ℕ) → AllSome idx (bind_pg_numeric_string crates s base_type idx)
  unfolding bind_pg_numeric_string
  numeric-placed s base_type idx =
      if_some-placed idx (one_of base_type integer_types) _ _
        (parsed_or-placed idx (cannot_bind s (codes "integer") base_type) (bind_bigint idx)
          (parse_i64 s) (bigint-placed idx))
        (if_some-placed idx (one_of base_type (codes "NUMERIC" ∷ codes "DECIMAL" ∷ [])) _ _
          (parsed_or-placed idx (cannot_bind s (codes "numeric") base_type) (bind_decimal idx)
            (crates.parse_decimal s) (decimal-placed idx))
          (if_some-placed idx (one_of base_type float_types) _ _
            (parsed_or-placed idx (cannot_bind s (codes "float") base_type) (bind_double idx)
              (crates.parse_f64 s) (double-placed idx))
            tt))
