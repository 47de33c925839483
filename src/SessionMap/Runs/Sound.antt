-- ===== src/SessionMap/Runs/Sound.antt =====
-- src/session.rs: the transaction state of every connection, over all interleavings of the runs.
use tabularis_postgresql_plu.SessionMap.{Sessions}
use tabularis_postgresql_plu.SessionMap.Runs.{
  client_of, release, Running, System, rollback_and_release, put_back, start_run, release_session,
  sweep, shut_down, Acquire, refused, opened, lent, Step, starts, ends, releases, sweeps,
  shuts_down, Reach, here, next,
}
use tabularis_postgresql_plu.SessionMap.Runs.Slots.{
  IsIdle, HasTransaction, rollback_and_release-IsIdle, lock_and_take-HasTransaction,
  take_slot-HasTransaction, unlock-HasTransaction, drop_slot-HasTransaction,
  sweep_idle-HasTransaction, release_all-HasTransaction,
}
use tabularis_postgresql_plu.Query.Server.{Server, Result}
use tabularis_postgresql_plu.Query.Batch.{Disposition, unacquired, pinned, pooled}
use tabularis_postgresql_plu.Query.Batch.Sync.{Transactions}
use tabularis_postgresql_plu.Query.Batch.Sync.Disposal.{
  IsClean, HoldsTransaction, GivesIdle, run_batch_in_session-IsClean,
}
use tabularis_postgresql_plu.Base.{
  ℕ, ◌≡◌, subst, Bool, List, ◌∷◌, ◌++◌, Option, none, some, Text, is_some, All, All-append,
  All-append_left, All-append_right,
}

module _ (srv : Server) (tx : Transactions srv) where
  open srv use {Session, batch_execute}

  abbrev pub IsRunnable : Running Session → Type 0
  IsRunnable r = HoldsTransaction srv tx r.slot × GivesIdle srv tx r.acquired

  -- No connection of the pool is inside a transaction, every pinned one is, and so is every one that a
  -- run has taken from its slot.
  abbrev pub IsSound : System Session → Type 0
  IsSound w =
      All (IsIdle srv tx) w.pool × All (HasTransaction srv tx) w.sessions × All IsRunnable w.running

  Acquire-IsIdle :
      {pool left : List Session} {acquired : Result Text Session}
      → Acquire srv tx pool acquired left
      → All (IsIdle srv tx) pool
      → GivesIdle srv tx acquired × All (IsIdle srv tx) left
  Acquire-IsIdle (refused e) h = (tt, h)
  Acquire-IsIdle (opened s e) h = (e, h)
  Acquire-IsIdle (lent s before behind e) h =
      lent_idle s before behind (subst (All (IsIdle srv tx)) e h)
    where
      lent_idle :
          (s : Session) (before behind : List Session)
          → All (IsIdle srv tx) (before ++ s ∷ behind)
          → IsIdle srv tx s × All (IsIdle srv tx) (before ++ behind)
      lent_idle s before behind h = (
        (All-append_right (IsIdle srv tx) before (s ∷ behind) h).0,
        All-append (IsIdle srv tx) before behind
            (All-append_left (IsIdle srv tx) before (s ∷ behind) h)
            (All-append_right (IsIdle srv tx) before (s ∷ behind) h).1,
      )

  put_back-IsSound :
      (sid : Option Text) (now : ℕ) (waiting : Bool) (rs : List (Running Session))
      (d : Disposition Session) (w : System Session)
      → IsClean srv tx d
      → All IsRunnable rs
      → IsSound w
      → IsSound (put_back srv sid now waiting rs d w)
  unfolding put_back client_of
  put_back-IsSound sid now waiting rs unacquired w c k (p, m, r) =
      (p, drop_slot-HasTransaction srv tx sid none waiting w.sessions tt m, k)
  put_back-IsSound sid now waiting rs (pinned s) w c k (p, m, r) =
      (p, drop_slot-HasTransaction srv tx sid (some (s, now)) waiting w.sessions c m, k)
  put_back-IsSound sid now waiting rs (pooled s) w c k (p, m, r) =
      ((c, p), drop_slot-HasTransaction srv tx sid none waiting w.sessions tt m, k)

  -- A connection behind a rollback may join the pool.
  rolled_back-IsSound :
      (cs : List Session) (m : Sessions Session) (w : System Session)
      → All (HasTransaction srv tx) m
      → IsSound w
      → All (IsIdle srv tx) (rollback_and_release srv cs ++ w.pool)
        × All (HasTransaction srv tx) m
        × All IsRunnable w.running
  rolled_back-IsSound cs m w h (p, k, r) =
      (All-append (IsIdle srv tx) _ w.pool (rollback_and_release-IsIdle srv tx cs) p, h, r)

  end_run-IsSound :
      (w : System Session) (rs ts : List (Running Session)) (r : Running Session)
      → w.running ≡ rs ++ r ∷ ts
      → IsSound w
      → IsRunnable r × All IsRunnable (rs ++ ts)
  end_run-IsSound w rs ts r e (p, m, k) = split (subst (All IsRunnable) e k)
    where
      split : All IsRunnable (rs ++ r ∷ ts) → IsRunnable r × All IsRunnable (rs ++ ts)
      split h = (
        (All-append_right IsRunnable rs (r ∷ ts) h).0,
        All-append IsRunnable rs ts (All-append_left IsRunnable rs (r ∷ ts) h)
            (All-append_right IsRunnable rs (r ∷ ts) h).1,
      )

  pub Step-IsSound : {w x : System Session} → Step srv tx w x → IsSound w → IsSound x
  unfolding start_run release_session release sweep shut_down
  Step-IsSound {w} (starts {acquired} sid free a) (p, m, r) =
      let (idle, left) = Acquire-IsIdle a p in
      let (holds, rest) = take_slot-HasTransaction srv tx sid w.sessions m in
      (left, rest, ((holds, idle), r))
  Step-IsSound {w} (ends rs ts r call qs h now waiting e tame) k =
      let ((holds, idle), left) = end_run-IsSound w rs ts r e k in
      put_back-IsSound r.session_id now waiting (rs ++ ts) _ w
        (run_batch_in_session-IsClean srv tx call qs (is_some r.session_id) r.slot r.acquired h tame
          holds idle)
        left k
  Step-IsSound {w} (releases sid waiting free) (p, m, r) =
      rolled_back-IsSound _ _ w
        (unlock-HasTransaction srv tx sid none waiting _ tt
          (lock_and_take-HasTransaction srv tx sid w.sessions m).1)
        (p, m, r)
  Step-IsSound {w} (sweeps now) (p, m, r) =
      rolled_back-IsSound _ _ w (sweep_idle-HasTransaction srv tx now w.sessions m) (p, m, r)
  Step-IsSound {w} shuts_down (p, m, r) =
      rolled_back-IsSound _ _ w (release_all-HasTransaction srv tx w.sessions m) (p, m, r)

  -- In every state that runs, releases, sweeps and the shutdown can reach, in any order, with batches of
  -- tame statements: no connection of the pool is inside a transaction, and every connection that is
  -- pinned, or taken from its slot by a run, is.
  pub Reach-IsSound : {v w : System Session} → IsSound v → Reach srv tx v w → IsSound w
  Reach-IsSound h here = h
  Reach-IsSound h (next r s) = Step-IsSound s (Reach-IsSound h r)
