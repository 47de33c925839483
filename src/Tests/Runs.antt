-- ===== src/Tests/Runs.antt =====
-- A run of a session that opens a transaction, and a sweep long after it.
use tabularis_postgresql_plu.Tests.Backend.{
  backend, backend_transactions, fails_insert, call, begin_query, begin-IsTame,
}
use tabularis_postgresql_plu.SessionMap.{Sessions, max_idle}
use tabularis_postgresql_plu.SessionMap.Cleanup.{run_pool_cleanup, run_pool_cleanup-releases}
use tabularis_postgresql_plu.SessionMap.Sweep.{count, pinned_count, held_slots}
use tabularis_postgresql_plu.SessionMap.Runs.{
  Running, System, opened, is_free, starts, ends, sweeps, Reach, here, next, start_run, put_back,
  sweep,
}
use tabularis_postgresql_plu.SessionMap.Runs.Sound.{IsSound, Reach-IsSound}
use tabularis_postgresql_plu.Query.Server.{ok}
use tabularis_postgresql_plu.Query.Batch.{Outcome, run_batch_in_session}
use tabularis_postgresql_plu.Statement.Keywords.{leading_keywords}
use tabularis_postgresql_plu.Base.{
  ◌+◌, ◌≡◌, refl, Bool, true, false, [], ◌∷◌, none, some, codes, arith,
}

abbrev empty : System Bool
empty = record { sessions = []; pool = []; running = [] }

abbrev started : System Bool
started = start_run (backend fails_insert) (some (codes "tab")) (ok false) [] empty

abbrev begun : Running Bool
begun = record { session_id = some (codes "tab"); slot = none; acquired = ok false }

abbrev holding : System Bool
holding =
    put_back (backend fails_insert) (some (codes "tab")) 5 false []
      (Outcome.connection (
        run_batch_in_session (backend fails_insert) call (begin_query ∷ []) true none (ok false)
          []))
      started

abbrev swept : System Bool
swept = sweep (backend fails_insert) (6 + max_idle) holding

holding_one : holding ≡ record {
  sessions = (codes "tab", record { pinned = some (true, 5); held = false; shared = false }) ∷ [];
  pool = [];
  running = [];
}
unfolding put_back start_run run_batch_in_session leading_keywords
holding_one = refl

swept_none : swept ≡ record { sessions = []; pool = false ∷ []; running = [] }
unfolding sweep put_back start_run run_batch_in_session leading_keywords
swept_none = refl

swept-Reach : Reach (backend fails_insert) (backend_transactions fails_insert) empty swept
unfolding start_run is_free
swept-Reach =
    next
      (next (next here (starts (some (codes "tab")) refl (opened false refl)))
        (ends [] [] begun call (begin_query ∷ []) [] 5 false refl (begin-IsTame, tt)))
      (sweeps (6 + max_idle))

Reach-IsSound_example : IsSound (backend fails_insert) (backend_transactions fails_insert) swept
Reach-IsSound_example =
    Reach-IsSound (backend fails_insert) (backend_transactions fails_insert) (tt, tt, tt)
      swept-Reach

-- One session was left with its transaction, a run holds the other.
abbrev left_behind : Sessions Bool
left_behind =
    (codes "tab", record { pinned = some (true, 5); held = false; shared = false })
    ∷ (codes "other", record { pinned = some (true, 6); held = true; shared = true })
    ∷ []

released_once : (run_pool_cleanup 4 7 left_behind).1 ≡ true ∷ []
unfolding run_pool_cleanup
released_once = refl

run_pool_cleanup-releases_example :
    count (λ s. s) (run_pool_cleanup 4 7 left_behind).1
      + pinned_count (λ s. s) (held_slots left_behind)
    ≡ pinned_count (λ s. s) left_behind
run_pool_cleanup-releases_example =
    run_pool_cleanup-releases (λ s. s) 3 7 left_behind (omega arith)
      (omega arith, (omega arith, tt))
