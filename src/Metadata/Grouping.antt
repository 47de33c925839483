-- ===== src/Metadata/Grouping.antt =====
-- src/handlers/metadata.rs: `group_rows_by_table` and `build_schema_snapshot`. A row is its table with
-- the value that is made of it; the map keeps one entry for a table, in the order of the first rows.
use tabularis_postgresql_plu.Json.{
  Value, string, array, object, Items, nil, cons, end, field, get_str,
}
use tabularis_postgresql_plu.Base.{
  ◌≡◌, refl, ap, sym, subst, ◌∙◌, append-nil, Bool, true, false, List, [], ◌∷◌, ◌++◌, append_assoc,
  Text, codes, text_eq, text_eq→eq, text_eq_refl, get_or_else, if◌then◌else◌, arith, Bool-cases,
  inl, inr,
}

abbrev pub Groups : Type 0
Groups = List (Text × List Value)

-- `entry(..).or_insert_with(..)` and the push.
unfoldable pub push_row : Text → Value → Groups → Groups
unfolding text_eq
push_row table v [] = (table, v ∷ []) ∷ []
push_row table v ((t, vs) ∷ m) =
    let rest = push_row table v m in
    if text_eq t table then (t, vs ++ (v ∷ [])) ∷ m else (t, vs) ∷ rest

-- The loop over the rows.
unfoldable pub group_from : Groups → List (Text × Value) → Groups
unfolding push_row
group_from m [] = m
group_from m ((t, v) ∷ rows) = group_from (push_row t v m) rows

unfoldable pub group_rows_by_table : List (Text × Value) → Groups
unfolding group_from
group_rows_by_table rows = group_from [] rows

-- The rows under a table, none without an entry: `get(..).unwrap_or_else(|| json!([]))`.
unfoldable pub group_of : Text → Groups → List Value
unfolding text_eq
group_of table [] = []
group_of table ((t, vs) ∷ m) = let rest = group_of table m in if text_eq t table then vs else rest

unfoldable pub items_of : List Value → Items
items_of [] = nil
items_of (v ∷ vs) = cons v (items_of vs)

unfoldable pub table_schema : Groups → Groups → Text → Value
unfolding group_of items_of
table_schema columns_map fks_map name = object (
    field (codes "columns") (array (items_of (group_of name columns_map))) (
      field (codes "foreign_keys") (array (items_of (group_of name fks_map)))
        (field (codes "name") (string name) end)))

unfoldable pub build_schema_snapshot : List Value → Groups → Groups → List Value
unfolding table_schema get_str
build_schema_snapshot [] columns_map fks_map = []
build_schema_snapshot (t ∷ tables) columns_map fks_map =
    table_schema columns_map fks_map (get_or_else (get_str t (codes "name")) [])
    ∷ build_schema_snapshot tables columns_map fks_map

-- The values of a table's rows, in the order of the rows.
unfoldable pub rows_of : Text → List (Text × Value) → List Value
unfolding text_eq
rows_of table [] = []
rows_of table ((t, v) ∷ rows) =
    let rest = rows_of table rows in if text_eq t table then v ∷ rest else rest

abbrev one_if : Bool → Value → List Value
one_if true v = v ∷ []
one_if false v = []

-- One entry: its own rows, or those of the entries behind it.
entry_hit :
    (table t : Text) (v : Value) (vs : List Value) (m : Groups)
    → group_of table ((t, vs ++ (v ∷ [])) ∷ m)
      ≡ group_of table ((t, vs) ∷ m) ++ one_if (text_eq t table) v
unfolding group_of
entry_hit table t v vs m = elim (Bool-cases (text_eq t table)) [
  | inl e ↦ rw e refl
  | inr e ↦ rw e (sym (append-nil (group_of table m)))
]

true_ne_false : true ≡ false → ⊥
true_ne_false e = ground (arith, e)

entry_new :
    (table t : Text) (v : Value)
    → group_of table ((t, v ∷ []) ∷ []) ≡ group_of table [] ++ one_if (text_eq t table) v
unfolding group_of
entry_new table t v = elim (Bool-cases (text_eq t table)) [ inl e ↦ rw e refl | inr e ↦ rw e refl ]

differs :
    (u t table : Text) → text_eq u t ≡ false → text_eq u table ≡ true → text_eq t table ≡ false
differs u t table h e = elim (Bool-cases (text_eq t table)) [
  | inl k ↦ absurd (
      true_ne_false (
        sym (text_eq_refl u)
        ∙ (ap (text_eq u) (text_eq→eq u table e ∙ sym (text_eq→eq t table k)) ∙ h)))
  | inr k ↦ k
]

entry_miss :
    (table t : Text) (v : Value) (u : Text) (vs : List Value) (m : Groups)
    → text_eq u t ≡ false
    → group_of table (push_row t v m) ≡ group_of table m ++ one_if (text_eq t table) v
    → group_of table ((u, vs) ∷ push_row t v m)
      ≡ group_of table ((u, vs) ∷ m) ++ one_if (text_eq t table) v
unfolding group_of
entry_miss table t v u vs m h ih = elim (Bool-cases (text_eq u table)) [
  | inl e ↦ rw (e, differs u t table h e) (sym (append-nil vs))
  | inr e ↦ rw e ih
]

group_of-push_row :
    (table t : Text) (v : Value) (m : Groups)
    → group_of table (push_row t v m) ≡ group_of table m ++ one_if (text_eq t table) v
unfolding push_row
group_of-push_row table t v [] = entry_new table t v
group_of-push_row table t v ((u, vs) ∷ m) = elim (Bool-cases (text_eq u t)) [
  | inl e ↦ rw e (
      subst
        (λ w.
          group_of table ((u, vs ++ (v ∷ [])) ∷ m)
          ≡ group_of table ((u, vs) ∷ m) ++ one_if (text_eq w table) v)
        (text_eq→eq u t e) (entry_hit table u v vs m))
  | inr e ↦ rw e (entry_miss table t v u vs m e (group_of-push_row table t v m))
]

one_if-append :
    (b : Bool) (v : Value) (vs : List Value) → one_if b v ++ vs ≡ (if b then v ∷ vs else vs)
one_if-append true v vs = refl
one_if-append false v vs = refl

group_from-rows_of :
    (table : Text) (m : Groups) (rows : List (Text × Value))
    → group_of table (group_from m rows) ≡ group_of table m ++ rows_of table rows
unfolding group_from rows_of
group_from-rows_of table m [] = sym (append-nil (group_of table m))
group_from-rows_of table m ((t, v) ∷ rows) =
    group_from-rows_of table (push_row t v m) rows
    ∙ (rw (group_of-push_row table t v m) (
        append_assoc (group_of table m) (one_if (text_eq t table) v) (rows_of table rows)
        ∙ ap (◌++◌ (group_of table m)) (one_if-append (text_eq t table) v (rows_of table rows))))

-- Under each table stand the values of its rows, all of them and in their order, whatever the order of
-- the tables: rows of one table need not stand together.
pub group_rows_by_table-rows_of :
    (table : Text) (rows : List (Text × Value))
    → group_of table (group_rows_by_table rows) ≡ rows_of table rows
unfolding group_rows_by_table group_of
group_rows_by_table-rows_of table rows = group_from-rows_of table [] rows
