-- ===== src/Query/Batch/Handles.antt =====
-- src/handlers/query.rs, `run_batch_in_session`, on the registry of cancel actions.
use tabularis_postgresql_plu.Query.Server.{Server, Result, ok, err}
use tabularis_postgresql_plu.Query.Pooled.{OneShot, unavailable, stalled, fresh, select_schema}
use tabularis_postgresql_plu.Query.Batch.{
  Handles, Call, Run, Outcome, oneshot_handles, record_outcome, on_client, on_oneshot,
  run_statement, run_statements, settle, start, run_batch, run_batch_in_session,
}
use tabularis_postgresql_plu.Cancel.{
  remove_action, register, drop_guard, find_action, find_action-remove, find_action-drop_guard,
}
use tabularis_postgresql_plu.Statement.Shape.{returns_result_set}
use tabularis_postgresql_plu.Base.{
  ℕ, ◌≡◌, refl, sym, ◌∙◌, ◌&&◌, ◌||◌, not, true, false, Bool, List, [], ◌∷◌, Option, none, some,
  Text, length, arith, inl, inr, ==_iff, ◌==◌, Bool-cases,
}

-- No other request in flight has the id.
abbrev pub IsFresh : Option ℕ → Handles → Type 0
IsFresh none h = Unit {0}
IsFresh (some k) h = find_action k h ≡ none

drop_guard_twice :
    (id : Option ℕ) (j : ℕ) (h : Handles)
    → find_action j (drop_guard id (drop_guard id h)) ≡ find_action j (drop_guard id h)
unfolding drop_guard
drop_guard_twice none j h = refl
drop_guard_twice (some k) j h =
    ground (arith, find_action-remove k j (remove_action k h), find_action-remove k j h)

fresh_dropped :
    (id : Option ℕ) (h : Handles)
    → IsFresh id h
    → (j : ℕ) → find_action j (drop_guard id h) ≡ find_action j h
unfolding drop_guard
fresh_dropped none h f j = refl
fresh_dropped (some k) h f j = elim (Bool-cases (k == j)) [
  | inl e ↦ find_action-remove k j h ∙ rw (e, ← (==_iff k j).0 e) (sym f)
  | inr e ↦ find_action-remove k j h ∙ rw e refl
]

module _ (srv : Server) where
  open srv use {Session, cancel_token}

  module _ (call : Call Session) where
    -- The registries agree but for the id of the call.
    abbrev Same : Handles → Handles → Type 0
    Same h g =
        (j : ℕ)
        → find_action j (drop_guard call.request_id h)
          ≡ find_action j (drop_guard call.request_id g)

    registered-Same :
        (s : Session) (h : Handles) → Same (register call.request_id (cancel_token s) h) h
    registered-Same s h j = find_action-drop_guard call.request_id j (cancel_token s) h

    dropped-Same : (h : Handles) → Same (drop_guard call.request_id h) h
    dropped-Same h j = drop_guard_twice call.request_id j h

    oneshot_handles-Same :
        (shot : OneShot Session) (h : Handles) → Same (oneshot_handles srv call.request_id shot h) h
    unfolding oneshot_handles
    oneshot_handles-Same (unavailable e) h j = refl
    oneshot_handles-Same (stalled s) h j = dropped-Same _ j ∙ registered-Same s h j
    oneshot_handles-Same (fresh s) h j = dropped-Same _ j ∙ registered-Same s h j

    on_client-Same :
        (r : Run Session) (q : Text) (pre : Bool)
        → Same (Run.handles (on_client srv call r q pre)) r.handles
    unfolding on_client record_outcome
    on_client-Same r q pre j = refl

    on_oneshot-Same :
        (r : Run Session) (q : Text) → Same (Run.handles (on_oneshot srv call r q)) r.handles
    unfolding on_oneshot record_outcome
    on_oneshot-Same r q j =
        registered-Same r.client _ j
        ∙ oneshot_handles-Same (call.oneshot (length r.results)) _ j
        ∙ dropped-Same r.handles j

    run_statement-Same :
        (r : Run Session) (q : Text) → Same (Run.handles (run_statement srv call r q)) r.handles
    unfolding run_statement
    run_statement-Same r q = elim (Bool-cases (call.pooler && returns_result_set call.table q)) [
      | inl routed ↦ elim (Bool-cases (r.in_transaction || r.session_state_set)) [
        | inl held ↦ rw (routed, held) (on_client-Same r q true)
        | inr free ↦ rw (routed, free) (on_oneshot-Same r q)
      ]
      | inr direct ↦ rw direct (on_client-Same r q (not call.pooler))
    ]

    run_statements-Same :
        (qs : List Text) (r : Run Session)
        → Same (Run.handles (run_statements srv call qs r)) r.handles
    unfolding run_statements
    run_statements-Same [] r j = refl
    run_statements-Same (q ∷ qs) r j =
        run_statements-Same qs (run_statement srv call r q) j ∙ run_statement-Same r q j

    settled :
        (qs : List Text) (has_session : Bool) (r : Run Session) (h : Handles)
        → Same r.handles h
        → IsFresh call.request_id h
        → (j : ℕ)
        → find_action j (
            Outcome.handles (settle srv call.request_id has_session (run_statements srv call qs r)))
          ≡ find_action j h
    unfolding settle
    settled qs has_session r h same f j =
        run_statements-Same qs r j ∙ same j ∙ fresh_dropped call.request_id h f j

    run_batch-handles :
        (qs : List Text) (has_session : Bool) (s : Session) (h : Handles)
        (r : Result Text (Unit {0}) × Session)
        → IsFresh call.request_id h
        → (j : ℕ)
        → find_action j (
            Outcome.handles
              (run_batch srv call qs has_session (register call.request_id (cancel_token s) h) r))
          ≡ find_action j h
    unfolding run_batch
    run_batch-handles qs has_session s h (err e, t) f j =
        registered-Same s h j ∙ fresh_dropped call.request_id h f j
    run_batch-handles qs has_session s h (ok u, t) f j =
        settled qs has_session (start srv t false (register call.request_id (cancel_token s) h)) h
          (registered-Same s h) f j

    -- A batch leaves the registry of cancel actions as it found it, on every path and whatever its
    -- statements do, the one-shot transactions included, if its id was not in use: no action outlives
    -- the batch, and those of other requests stay.
    pub run_batch_in_session-handles :
        (qs : List Text) (has_session : Bool) (slot : Option Session)
        (acquired : Result Text Session) (h : Handles) (j : ℕ)
        → IsFresh call.request_id h
        → find_action j
            (Outcome.handles (run_batch_in_session srv call qs has_session slot acquired h))
          ≡ find_action j h
    unfolding run_batch_in_session
    run_batch_in_session-handles qs has_session (some s) acquired h j f =
        settled qs has_session (start srv s true (register call.request_id (cancel_token s) h)) h
          (registered-Same s h) f j
    run_batch_in_session-handles qs has_session none (err e) h j f = refl
    run_batch_in_session-handles qs has_session none (ok s) h j f =
        run_batch-handles qs has_session s h (select_schema srv call.schema false s) f j
