-- ===== src/Routines/Calls.antt =====
-- src/handlers/routines.rs, `routine_call_sql`: a call read back the way PostgreSQL reads it.
use tabularis_postgresql_plu.Routines.{
  RoutineCallArg, render_value, render_sql_literal, kept_args, routine_call_sql,
}
use tabularis_postgresql_plu.Identifiers.{qualified}
use tabularis_postgresql_plu.Identifiers.Unquote.{read_qualified, read_qualified-qualified, Ends}
use tabularis_postgresql_plu.Identifiers.Literals.{read_literal, read_literal-quote}
use tabularis_postgresql_plu.Ddl.Names.{expect, expect-append}
use tabularis_postgresql_plu.Base.{
  ℕ, zero, suc, ◌≡◌, refl, ◌∙◌, Bool, true, false, not, ◌&&◌, List, [], ◌∷◌, ◌++◌, append_assoc,
  Option, none, some, ◌>>=◌, Text, codes, map, join, length, is_nil, eq_ignore_ascii_case, ◌==◌,
  if◌then◌else◌, arith, All, ap, subst, Bool-cases, inl, inr,
}

-- `NULL` or a string literal, with what is behind it.
unfoldable pub read_value : Text → Option (Option Text × Text)
read_value [] = none
read_value (c ∷ s) =
    if c == b'\''
    then (do (v, t) ← read_literal (c ∷ s); some (some v, t))
    else (do t ← expect (codes "NULL") (c ∷ s); some (none, t))

-- What follows a value: another one, or the end of the call.
unfoldable pub read_rest :
    (Text → Option (List (Option Text)))
    → Option Text
    → Text
    → Option Text
    → Option (List (Option Text))
unfolding expect
read_rest next v t (some s) = do vs ← next s; some (v ∷ vs)
read_rest next v t none = do s ← expect (codes ");") t; (if is_nil s then some (v ∷ []) else none)

unfoldable pub read_values : ℕ → Text → Option (List (Option Text))
unfolding read_rest expect read_value
read_values zero s = none
read_values (suc n) s = do
  (v, t) ← read_value s
  read_rest (read_values n) v t (expect (codes ", ") t)

unfoldable pub values_if : Bool → ℕ → Text → Option (List (Option Text))
values_if true n s = do t ← expect (codes ");") s; (if is_nil t then some [] else none)
values_if false n s = read_values n s

-- The keyword, the two names and at most `n` arguments.
unfoldable pub read_call : Text → ℕ → Text → Option (Text × Text × List (Option Text))
read_call keyword n s = do
  a ← expect keyword s
  (schema, name, b) ← read_qualified a
  c ← expect (codes "(") b
  vs ← values_if (n == 0) n c
  some (schema, name, vs)

front_assoc : (a b c d : Text) → ((a ++ b) ++ c) ++ d ≡ a ++ (b ++ (c ++ d))
front_assoc a b c d = append_assoc (a ++ b) c d ∙ append_assoc a b (c ++ d)

render_value-starts :
    (v : Option Text) (s : Text)
    → Ends b'\'' s
    → read_value (render_value v false ++ s) ≡ some (v, s)
unfolding read_value render_value
render_value-starts none s h = unfold expect in refl
render_value-starts (some v) s h = rw (read_literal-quote v s h) refl

abbrev pub rendered : List (Option Text) → List Text
rendered [] = []
rendered (v ∷ vs) = render_value v false ∷ rendered vs

read_rest-comma :
    (next : Text → Option (List (Option Text))) (v : Option Text) (s : Text)
    (vs : List (Option Text))
    → next s ≡ some vs
    → read_rest next v (codes ", " ++ s) (expect (codes ", ") (codes ", " ++ s)) ≡ some (v ∷ vs)
unfolding read_rest
read_rest-comma next v s vs h = rw h refl

read_values-join :
    (v : Option Text) (vs : List (Option Text))
    → read_values (length (v ∷ vs)) (join (codes ", ") (rendered (v ∷ vs)) ++ codes ");")
      ≡ some (v ∷ vs)
unfolding read_values join
read_values-join v [] =
    rw (render_value-starts v (codes ");") refl) (unfold expect read_rest in refl)
read_values-join v (w ∷ vs) =
    rw
      (front_assoc (render_value v false) (codes ", ") (join (codes ", ") (rendered (w ∷ vs)))
        (codes ");"))
      (rw
        (render_value-starts v (codes ", " ++ (join (codes ", ") (rendered (w ∷ vs)) ++ codes ");"))
          refl)
        (read_rest-comma (read_values (suc (length vs))) v
          (join (codes ", ") (rendered (w ∷ vs)) ++ codes ");") (w ∷ vs) (read_values-join w vs)))

suc_ne_zero : (n : ℕ) → (suc n == 0) ≡ false
suc_ne_zero n = ground arith

values_if-join :
    (vs : List (Option Text))
    → values_if (length vs == 0) (length vs) (join (codes ", ") (rendered vs) ++ codes ");")
      ≡ some vs
unfolding values_if
values_if-join [] = unfold join expect in refl
values_if-join (v ∷ vs) = rw (suc_ne_zero (length vs)) (read_values-join v vs)

abbrev pub IsValue : RoutineCallArg → Type 0
IsValue a = a.is_raw ≡ false

abbrev pub values : List RoutineCallArg → List (Option Text)
values [] = []
values (a ∷ args) = a.value ∷ values args

abbrev pub call_keyword : Bool → Text
call_keyword is_function = if is_function then codes "SELECT * FROM " else codes "CALL "

map-rendered :
    (args : List RoutineCallArg)
    → All IsValue args
    → map render_sql_literal args ≡ rendered (values args)
unfolding render_sql_literal
map-rendered [] h = refl
map-rendered (a ∷ args) h = rw (h.0, map-rendered args (h.1)) refl

All-if :
    (b : Bool) (a : RoutineCallArg) (args : List RoutineCallArg)
    → IsValue a
    → All IsValue args
    → All IsValue (if b then a ∷ args else args)
All-if true a args h k = (h, k)
All-if false a args h k = k

kept_args_step :
    (is_function : Bool) (a : RoutineCallArg) (args : List RoutineCallArg)
    → IsValue a
    → All IsValue (kept_args is_function args)
    → All IsValue (kept_args is_function (a ∷ args))
unfolding kept_args
kept_args_step is_function a args h k =
    All-if (not (is_function && eq_ignore_ascii_case (a.mode) (codes "OUT"))) a
      (kept_args is_function args) h k

kept_args-IsValue :
    (is_function : Bool) (args : List RoutineCallArg)
    → All IsValue args
    → All IsValue (kept_args is_function args)
kept_args-IsValue is_function [] h = unfold kept_args in tt
kept_args-IsValue is_function (a ∷ args) h =
    kept_args_step is_function a args (h.0) (kept_args-IsValue is_function args (h.1))

read_call-parts :
    (keyword schema routine_name : Text) (vs : List (Option Text))
    → read_call keyword (length vs) (
        keyword
        ++ (qualified schema routine_name
            ++ (codes "(" ++ (join (codes ", ") (rendered vs) ++ codes ");"))))
      ≡ some (schema, routine_name, vs)
unfolding read_call
read_call-parts keyword schema routine_name vs =
    rw
      (expect-append keyword (
        qualified schema routine_name
        ++ (codes "(" ++ (join (codes ", ") (rendered vs) ++ codes ");"))))
      (rw
        (read_qualified-qualified schema routine_name
          (codes "(" ++ (join (codes ", ") (rendered vs) ++ codes ");")) refl)
        (rw (expect-append (codes "(") (join (codes ", ") (rendered vs) ++ codes ");"))
          (rw (values_if-join vs) refl)))

-- The values that a call passes: a function takes none for its OUT parameters.
unfoldable pub inputs : Bool → List RoutineCallArg → List (Option Text)
inputs is_function [] = []
inputs false (a ∷ args) = a.value ∷ inputs false args
inputs true (a ∷ args) =
    let rest = inputs true args in
    if eq_ignore_ascii_case (a.mode) (codes "OUT") then rest else a.value ∷ rest

kept_args-inputs :
    (is_function : Bool) (args : List RoutineCallArg)
    → values (kept_args is_function args) ≡ inputs is_function args
unfolding kept_args inputs
kept_args-inputs is_function [] = refl
kept_args-inputs false (a ∷ args) = ap (◌∷◌ a.value) (kept_args-inputs false args)
kept_args-inputs true (a ∷ args) = elim (Bool-cases (eq_ignore_ascii_case (a.mode) (codes "OUT"))) [
  | inl out ↦ rw out (kept_args-inputs true args)
  | inr passed ↦ rw passed (ap (◌∷◌ a.value) (kept_args-inputs true args))
]

-- A call whose arguments are values, not raw SQL, is read back as the routine's schema and name and
-- the values of the arguments in their order, NULLs included, without those of a function's OUT
-- parameters: no name and no value can break out of its quotes.
pub routine_call_sql-read :
    (routine_name routine_type schema : Text) (args : List RoutineCallArg)
    → All IsValue args
    → read_call
        (call_keyword (eq_ignore_ascii_case routine_type (codes "FUNCTION")))
        (length (inputs (eq_ignore_ascii_case routine_type (codes "FUNCTION")) args))
        (routine_call_sql routine_name routine_type args schema)
      ≡ some
          (schema, routine_name, inputs (eq_ignore_ascii_case routine_type (codes "FUNCTION")) args)
routine_call_sql-read routine_name routine_type schema args h =
    let is_function = eq_ignore_ascii_case routine_type (codes "FUNCTION") in
    unfold routine_call_sql in
    rw (map-rendered (kept_args is_function args) (kept_args-IsValue is_function args h)) (
      subst
        (λ vs.
          read_call (call_keyword is_function) (length vs) (
            call_keyword is_function
            ++ (qualified schema routine_name
                ++ (codes "("
                    ++ (join (codes ", ") (rendered (values (kept_args is_function args)))
                        ++ codes ");"))))
          ≡ some (schema, routine_name, vs))
        (kept_args-inputs is_function args)
        (read_call-parts (call_keyword is_function) schema routine_name
          (values (kept_args is_function args))))
