-- ===== src/Rpc/Responses.antt =====
-- Which lines are answered, with which id, and that the reader's peek is the method that is served.
use tabularis_postgresql_plu.Rpc.Methods.{Handler, handler_of}
use tabularis_postgresql_plu.Rpc.{
  error_response, not_implemented, has_method, is_notification, object_required, method_required,
  id_of, method_of, params_of, dispatch, handle_request, handle_parsed, handle_line,
}
use tabularis_postgresql_plu.Query.Server.{Result, ok, err}
use tabularis_postgresql_plu.Json.{
  Value, null, number, string, bool, array, object, Fields, end, field, get, get_field, as_object,
  is_object, contains_key, contains_key-get_field,
}
use tabularis_postgresql_plu.Base.{
  ℕ, ◌≡◌, ◌↔◌, refl, ◌++◌, true, false, Option, none, some, Text, codes, arith, text_eq, Bool-cases,
  Option-cases, some_injective, inl, inr,
}

-- What a value of a field's presence says.
get_field-contains_key :
    (fs : Fields) (k : Text) → get_field k fs ≡ none → contains_key fs k ≡ false
unfolding contains_key get_field
get_field-contains_key end k h = refl
get_field-contains_key (field j v fs) k h = ground (arith, get_field-contains_key fs k)

ok_injective : {v w : Value} → ◌≡◌ {A = Result Text Value} (ok v) (ok w) → v ≡ w
ok_injective e = ground (arith, e)

none-ne-some {ℓ} : {A : Type ℓ} {a : A} → none ≡ some a → ⊥
none-ne-some e = ground (arith, e)

error_response-id :
    (id : Value) (n : ℕ) (message : Text) (r : Value)
    → ◌≡◌ {A = Option Value} (some (error_response id n message)) (some r)
    → get r (codes "id") ≡ some id
unfolding error_response get get_field text_eq
error_response-id id n message r h = rw (← some_injective h) refl

no_member : (v : Value) (k : Text) → is_object v ≡ false → get v k ≡ none
unfolding is_object get
no_member (object fs) k h = absurd (ground (arith, h))
no_member null k h = refl
no_member (bool b) k h = refl
no_member (number n) k h = refl
no_member (string t) k h = refl
no_member (array vs) k h = refl

id_of_other : (v : Value) → is_object v ≡ false → id_of v ≡ null
unfolding id_of
id_of_other v h = rw (no_member v (codes "id") h) refl

-- A valid request without an id.
abbrev pub IsNotification : Value → Type 0
IsNotification v = (has_method v ≡ true) × (get v (codes "id") ≡ none)

abbrev pub parsed_id : Result Text Value → Value
parsed_id (ok v) = id_of v
parsed_id (err e) = null

module _ {S : Type 0} (parse : Text → Result Text Value)
    (serve : Handler → Value → Value → S → Value × S) where
  handle_request-silent :
      (v : Value) (s : S) → ((handle_request parse serve v s).0 ≡ none) ↔ IsNotification v
  unfolding handle_request has_method is_notification as_object is_object get
  handle_request-silent (object fs) s =
      ground (arith, contains_key-get_field fs (codes "id"), get_field-contains_key fs (codes "id"))
  handle_request-silent null s = ground arith
  handle_request-silent (bool b) s = ground arith
  handle_request-silent (number n) s = ground arith
  handle_request-silent (string t) s = ground arith
  handle_request-silent (array vs) s = ground arith

  -- A line is left unanswered exactly when it is a notification: it parses, has a string method, and
  -- no id. Everything else, broken lines included, gets a response.
  pub handle_line-silent :
      (line : Text) (s : S)
      → ((handle_line parse serve line s).0 ≡ none)
        ↔ ((v : Value) × (parse line ≡ ok v) × IsNotification v)
  unfolding handle_line handle_parsed
  handle_line-silent line s = silent (parse line)
    where
      silent :
          (r : Result Text Value)
          → ((handle_parsed parse serve r s).0 ≡ none)
            ↔ ((v : Value) × (r ≡ ok v) × IsNotification v)
      silent (err e) = ground arith
      silent (ok v) = (
        λ h. (v, refl, (handle_request-silent v s).0 h),
        λ (w, e, n). (handle_request-silent v s).1 (rw (ok_injective e) n),
      )

  dispatch-id :
      ((h : Handler) (id params : Value) (s : S)
        → get (serve h id params s).0 (codes "id") ≡ some id)
      → (method : Text) (id params : Value) (s : S)
      → get (dispatch parse serve method id params s).0 (codes "id") ≡ some id
  unfolding dispatch not_implemented error_response get get_field text_eq
  dispatch-id echo method id params s = elim (Option-cases (handler_of method)) [
    | inl e ↦ rw e refl
    | inr (h, e) ↦ rw e (echo h id params s)
  ]

  handle_request-id :
      ((h : Handler) (id params : Value) (s : S)
        → get (serve h id params s).0 (codes "id") ≡ some id)
      → (v : Value) (s : S) (r : Value) → (handle_request parse serve v s).0 ≡ some r
      → get r (codes "id") ≡ some (id_of v)
  unfolding handle_request
  handle_request-id echo v s r h = elim (Bool-cases (is_object v)) [
    | inr other ↦
        rw (id_of_other v other) (error_response-id null 32599 object_required r (rw other at h))
    | inl obj ↦ elim (Bool-cases (has_method v)) [
      | inr nameless ↦ error_response-id (id_of v) 32599 method_required r (rw (obj, nameless) at h)
      | inl named ↦ elim (Bool-cases (is_notification v)) [
        | inl silent ↦ absurd (none-ne-some (rw (obj, named, silent) at h))
        | inr loud ↦
            rw (← some_injective (rw (obj, named, loud) at h))
              (dispatch-id echo (method_of v) (id_of v) (params_of v) s)
      ]
    ]
  ]

  -- Every response carries the id of its request, null where there is none, if the handlers answer with
  -- the id that they are given.
  pub handle_line-id :
      ((h : Handler) (id params : Value) (s : S)
        → get (serve h id params s).0 (codes "id") ≡ some id)
      → (line : Text) (s : S) (r : Value) → (handle_line parse serve line s).0 ≡ some r
      → get r (codes "id") ≡ some (parsed_id (parse line))
  unfolding handle_line handle_parsed
  handle_line-id echo line s r h = answered (parse line) h
    where
      answered :
          (p : Result Text Value)
          → (handle_parsed parse serve p s).0 ≡ some r
          → get r (codes "id") ≡ some (parsed_id p)
      answered (err e) h = error_response-id null 32699 (codes "parse error: " ++ e) r h
      answered (ok v) h = handle_request-id echo v s r h
