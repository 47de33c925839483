-- ===== src/SessionMap/Runs.antt =====
-- src/session.rs and `run_batch_in_session` of src/handlers/query.rs: the runs of the sessions over
-- the shared map and the pool, in any order. A run locks the slot of its session and takes its
-- connection, works on it alone, and pins it or gives it back; between two steps of a run other runs,
-- sweeps, releases and the shutdown may come. Left out is a run that waits for a slot when a shutdown
-- takes the slot out of the map.
pub mod Slots
pub mod Sound
use tabularis_postgresql_plu.SessionMap.{Slot, Sessions, sweep_idle, release_all}
use tabularis_postgresql_plu.Query.Server.{Server, Result, ok, err}
use tabularis_postgresql_plu.Query.Batch.{
  Handles, Call, Disposition, unacquired, pinned, pooled, Outcome, run_batch_in_session,
}
use tabularis_postgresql_plu.Query.Batch.Sync.{Transactions, IsTame}
use tabularis_postgresql_plu.Query.Batch.Sync.Disposal.{GivesIdle}
use tabularis_postgresql_plu.Base.{
  ℕ, ◌≡◌, Bool, true, false, not, List, [], ◌∷◌, ◌++◌, Option, none, some, Text, codes, text_eq,
  map, if◌then◌else◌, is_some, All,
}

module _ {S : Type 0} where
  unfoldable pub client_of : Option (S × ℕ) → Option S
  client_of none = none
  client_of (some (c, used)) = some c

  -- A slot that a run holds, its connection taken out.
  abbrev pub taken : Slot S
  taken = record { pinned = none; held = true; shared = true }

  -- A slot can be locked if it is new or no run holds it.
  unfoldable pub is_free : Text → Sessions S → Bool
  unfolding text_eq
  is_free sid [] = true
  is_free sid ((k, slot) ∷ m) =
      let rest = is_free sid m in if text_eq k sid then not slot.held else rest

  -- `lock` of a free slot and `Slot::take`.
  unfoldable pub lock_and_take : Text → Sessions S → Option S × Sessions S
  unfolding client_of text_eq
  lock_and_take sid [] = (none, (sid, taken) ∷ [])
  lock_and_take sid ((k, slot) ∷ m) =
      let rest = lock_and_take sid m in
      if text_eq k sid
      then (client_of slot.pinned, (k, taken) ∷ m)
      else (rest.0, (k, slot) ∷ rest.1)

  -- The end of a guard, behind `Slot::pin` or not; `waiting` says that another run waits for the slot.
  unfoldable pub unlock : Text → Option (S × ℕ) → Bool → Sessions S → Sessions S
  unfolding text_eq
  unlock sid p waiting [] = []
  unlock sid p waiting ((k, slot) ∷ m) =
      let rest = unlock sid p waiting m in
      if text_eq k sid
      then (k, record { pinned = p; held = false; shared = waiting }) ∷ m
      else (k, slot) ∷ rest

  -- `release` up to the rollback: the connection that it takes, and the map behind it.
  unfoldable pub release : Text → Bool → Sessions S → Option S × Sessions S
  unfolding lock_and_take unlock
  release sid waiting m = let (c, n) = lock_and_take sid m in (c, unlock sid none waiting n)

  -- A call without a session has no slot.
  unfoldable pub take_slot : Option Text → Sessions S → Option S × Sessions S
  unfolding lock_and_take
  take_slot none m = (none, m)
  take_slot (some sid) m = lock_and_take sid m

  unfoldable pub drop_slot : Option Text → Option (S × ℕ) → Bool → Sessions S → Sessions S
  unfolding unlock
  drop_slot none p waiting m = m
  drop_slot (some sid) p waiting m = unlock sid p waiting m

  abbrev pub can_start : Option Text → Sessions S → Bool
  can_start none m = true
  can_start (some sid) m = is_free sid m

  abbrev pub to_list : Option S → List S
  to_list none = []
  to_list (some c) = c ∷ []

-- A run under way: its session, what its slot held, and what the pool gave it.
pub record Running (S : Type 0) : Type 0 where
  pub session_id : Option Text
  pub slot : Option S
  pub acquired : Result Text S

pub record System (S : Type 0) : Type 0 where
  pub sessions : Sessions S
  pub pool : List S
  pub running : List (Running S)

module _ (srv : Server) where
  open srv use {Session, batch_execute}

  -- `rollback_and_release` of each client: a failing `ROLLBACK` is only logged.
  unfoldable pub rollback_and_release : List Session → List Session
  rollback_and_release [] = []
  rollback_and_release (c ∷ cs) = (batch_execute (codes "ROLLBACK") c).1 ∷ rollback_and_release cs

  -- What the end of a run does with the connection.
  unfoldable pub put_back :
      Option Text
      → ℕ
      → Bool
      → List (Running Session)
      → Disposition Session
      → System Session
      → System Session
  unfolding drop_slot
  put_back sid now waiting running unacquired w = record {
    sessions = drop_slot sid none waiting w.sessions;
    pool = w.pool;
    running = running;
  }
  put_back sid now waiting running (pinned s) w = record {
    sessions = drop_slot sid (some (s, now)) waiting w.sessions;
    pool = w.pool;
    running = running;
  }
  put_back sid now waiting running (pooled s) w = record {
    sessions = drop_slot sid none waiting w.sessions;
    pool = s ∷ w.pool;
    running = running;
  }

  unfoldable pub start_run :
      Option Text → Result Text Session → List Session → System Session → System Session
  unfolding take_slot
  start_run sid acquired pool w =
      let (c, m) = take_slot sid w.sessions in
      record {
        sessions = m;
        pool = pool;
        running = record { session_id = sid; slot = c; acquired = acquired } ∷ w.running;
      }

  unfoldable pub release_session : Text → Bool → System Session → System Session
  unfolding release rollback_and_release
  release_session sid waiting w =
      let (c, m) = release sid waiting w.sessions in
      record {
        sessions = m;
        pool = rollback_and_release (to_list c) ++ w.pool;
        running = w.running;
      }

  unfoldable pub sweep : ℕ → System Session → System Session
  unfolding sweep_idle rollback_and_release
  sweep now w =
      let (m, expired) = sweep_idle now w.sessions in
      record { sessions = m; pool = rollback_and_release expired ++ w.pool; running = w.running }

  unfoldable pub shut_down : System Session → System Session
  unfolding release_all rollback_and_release
  shut_down w =
      let (m, clients) = release_all w.sessions in
      record { sessions = m; pool = rollback_and_release clients ++ w.pool; running = w.running }

  module _ (tx : Transactions srv) where
    -- What `get_pool_client` does to the pool: it fails or is not called, opens a connection, or lends
    -- one of the pool's.
    pub data Acquire (pool : List Session) : Result Text Session → List Session → Type 0 where
      refused : (e : Text) → Acquire pool (err e) pool
      opened : (s : Session) → Transactions.block tx s ≡ false → Acquire pool (ok s) pool
      lent :
          (s : Session) (before behind : List Session)
          → pool ≡ before ++ s ∷ behind
          → Acquire pool (ok s) (before ++ behind)

    pub data Step (w : System Session) : System Session → Type 0 where
      starts :
          {acquired : Result Text Session} {pool : List Session} (sid : Option Text)
          → can_start sid w.sessions ≡ true
          → Acquire w.pool acquired pool
          → Step w (start_run sid acquired pool w)
      ends :
          (rs ts : List (Running Session)) (r : Running Session) (call : Call Session)
          (qs : List Text) (h : Handles) (now : ℕ) (waiting : Bool)
          → w.running ≡ rs ++ r ∷ ts
          → All (IsTame srv tx call) qs
          → Step w (
              put_back r.session_id now waiting
                (rs ++ ts)
                (Outcome.connection
                  (run_batch_in_session srv call qs (is_some r.session_id) r.slot r.acquired h))
                w)
      releases :
          (sid : Text) (waiting : Bool)
          → is_free sid w.sessions ≡ true
          → Step w (release_session sid waiting w)
      sweeps : (now : ℕ) → Step w (sweep now w)
      shuts_down : Step w (shut_down w)

    pub data Reach (v : System Session) : System Session → Type 0 where
      here : Reach v v
      next : {w x : System Session} → Reach v w → Step w x → Reach v x
