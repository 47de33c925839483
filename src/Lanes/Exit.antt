-- ===== src/Lanes/Exit.antt =====
-- src/main.rs: the writer, and the end of `main` behind the end of the input. Times are nanoseconds.
pub mod Deadline
pub mod Lines
use tabularis_postgresql_plu.Base.{
  ℕ, ◌+◌, ◌*◌, ◌≤◌, ◌≢◌, ◌≡◌, refl, ap, ap₂, Bool, true, false, List, [], ◌∷◌, ◌++◌, Option, none,
  some, ◌>>=◌, Text, ltb, leb, ◌==◌, if◌then◌else◌, All, arith, length,
}

-- What `write_all` does with a body: all of it gets out, or a part before an error.
pub data Write : Type 0 where
  written : Text → Write
  broken : Text → Text → Write

-- What reaches the standard output.
unfoldable pub run_writer : List Write → Text
run_writer [] = []
run_writer (written body ∷ ws) = body ++ (b'\n' ∷ run_writer ws)
run_writer (broken body part ∷ ws) = part

abbrev pub shutdown_grace : ℕ
shutdown_grace = 5 * 1000000000

-- `timeout_at(deadline, handle)` at `now`: the time behind it, and whether the task finished.
unfoldable pub timeout_at : ℕ → Option ℕ → ℕ → ℕ × Bool
timeout_at deadline none now = (if ltb now deadline then deadline else now, false)
timeout_at deadline (some t) now =
    if leb t now
    then (now, true)
    else if leb t deadline
    then (t, true)
    else (if ltb now deadline then deadline else now, false)

-- A worker: when it would finish by itself, and how long after an abort it comes to an await point or to
-- its end, where the runtime drops it. Each is `none` if that never happens.
pub record Worker : Type 0 where
  pub finishes_at : Option ℕ
  pub yields_after : Option ℕ

-- What became of a worker: it finished, or was aborted and reaped.
pub data End : Type 0 where
  finished aborted : End

-- `handle.abort()` and `handle.await` of a worker that is overdue: the time behind them.
unfoldable pub reap : Bool → Worker → ℕ → Option (ℕ × End)
reap true w now = some (now, finished)
reap false w now = do delay ← w.yields_after; some (now + delay, aborted)

-- The time behind the loop, and what became of the workers; `none` if it waits for ever.
unfoldable pub drain_workers : ℕ → List Worker → ℕ → Option (ℕ × List End)
unfolding timeout_at reap
drain_workers deadline [] now = some (now, [])
drain_workers deadline (w ∷ ws) now = do
  let (at, in_time) = timeout_at deadline w.finishes_at now
  (reaped, end) ← reap in_time w at
  (exit, ends) ← drain_workers deadline ws reaped
  some (exit, end ∷ ends)

-- From the end of the input at `now`: the workers, then the writer and the cleanup task, which are not
-- aborted but left behind. A result is the time at which `main` returns.
unfoldable pub shut_down : List Worker → Option ℕ → Option ℕ → ℕ → Option (ℕ × List End)
unfolding drain_workers timeout_at
shut_down workers writer cleanup now = do
  let deadline = now + shutdown_grace
  (drained, ends) ← drain_workers deadline workers now
  let (flushed, wrote) = timeout_at deadline writer drained
  let (exit, cleaned) = timeout_at deadline cleanup flushed
  some (exit, ends)
