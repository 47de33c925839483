-- ===== src/Binding/Arrays.antt =====
-- src/binding.rs, `json_array_to_pg_literal` and the values of hstore columns.
use tabularis_postgresql_plu.Binding.{Crates, BoundValue, hstore_param, placeholder, bound, unbound}
use tabularis_postgresql_plu.Identifiers.Literals.{quote_literal}
use tabularis_postgresql_plu.Query.Server.{Result, ok, err}
use tabularis_postgresql_plu.Json.{
  Value, null, bool, number, string, array, object, Items, nil, cons, Fields, end, field,
}
use tabularis_postgresql_plu.Base.{
  ℕ, true, false, List, [], ◌∷◌, ◌++◌, Option, none, some, Text, codes, join,
}

-- `?` in the loop: what is made of the first element, and of the others.
unfoldable pub and_then {ℓ κ} :
    {A : Type ℓ} {B : Type κ} → Result Text A → (A → Result Text B) → Result Text B
and_then (ok a) f = f a
and_then (err e) f = err e

unfoldable pub array_literal : List Text → Text
unfolding join
array_literal parts = codes "ARRAY[" ++ (join (codes ", ") parts ++ codes "]")

module _ (crates : Crates) where
  unfoldable mutual
    unfolding and_then array_literal quote_literal

    pub json_array_to_pg_literal : Items → Result Text Text
    json_array_to_pg_literal nil = ok (codes "'{}'")
    json_array_to_pg_literal (cons v items) =
        and_then (element_literal v)
          (λ part. and_then (element_literals items) (λ parts. ok (array_literal (part ∷ parts))))

    pub element_literal : Value → Result Text Text
    element_literal (string s) = ok (quote_literal s)
    element_literal (number n) = ok (crates.number_text n)
    element_literal (bool true) = ok (codes "TRUE")
    element_literal (bool false) = ok (codes "FALSE")
    element_literal null = ok (codes "NULL")
    element_literal (array nested) = json_array_to_pg_literal nested
    element_literal (object fs) = err (codes "Unsupported array element type")

    pub element_literals : Items → Result Text (List Text)
    element_literals nil = ok []
    element_literals (cons v items) =
        and_then (element_literal v)
          (λ part. and_then (element_literals items) (λ parts. ok (part ∷ parts)))

  unfoldable pub bind_array : Items → Result Text BoundValue
  unfolding and_then json_array_to_pg_literal unbound
  bind_array items = and_then (json_array_to_pg_literal items) (λ literal. ok (unbound literal))

  -- A later member of the same key would replace an earlier one; the members of a map have distinct keys.
  unfoldable pub hstore_entry : Text → Value → Result Text (Option Text)
  hstore_entry k (string s) = ok (some s)
  hstore_entry k null = ok none
  hstore_entry k other = err (
      codes "hstore value for key '"
      ++ (k ++ (codes "' must be a string or null, got " ++ crates.debug_value other)))

  unfoldable pub hstore_map_from_json_object : Fields → Result Text (List (Text × Option Text))
  unfolding and_then hstore_entry
  hstore_map_from_json_object end = ok []
  hstore_map_from_json_object (field k v fs) =
      and_then (hstore_entry k v)
        (λ e. and_then (hstore_map_from_json_object fs) (λ es. ok ((k, e) ∷ es)))

  unfoldable pub bind_hstore_map : ℕ → Option ℕ → Fields → Result Text BoundValue
  unfolding and_then hstore_map_from_json_object placeholder bound
  bind_hstore_map idx none fs =
      err (codes "Could not resolve the hstore type OID; is the hstore extension installed?")
  bind_hstore_map idx (some oid) fs =
      and_then (hstore_map_from_json_object fs)
        (λ hmap. ok (bound (placeholder idx) (hstore_param oid hmap)))

  unfoldable pub bind_hstore_text : Text → ℕ → Option ℕ → Option Value → Result Text BoundValue
  unfolding bind_hstore_map
  bind_hstore_text s idx oid (some (object fs)) = bind_hstore_map idx oid fs
  bind_hstore_text s idx oid other = err (
      codes "hstore column requires a JSON object value, got a string that is not valid JSON: "
      ++ crates.debug_text s)

  unfoldable pub bind_pg_hstore : Value → ℕ → Option ℕ → Result Text BoundValue
  unfolding bind_hstore_map bind_hstore_text unbound
  bind_pg_hstore null idx oid = ok (unbound (codes "NULL"))
  bind_pg_hstore (object fs) idx oid = bind_hstore_map idx oid fs
  bind_pg_hstore (string s) idx oid = bind_hstore_text s idx oid (crates.json_from_str s)
  bind_pg_hstore other idx oid =
      err (codes "hstore column requires a JSON object value, got " ++ crates.debug_value other)
