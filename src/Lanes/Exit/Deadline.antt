-- ===== src/Lanes/Exit/Deadline.antt =====
-- src/main.rs: when `main` returns, and what becomes of the workers.
use tabularis_postgresql_plu.Lanes.Exit.{
  shutdown_grace, timeout_at, Worker, End, finished, aborted, reap, drain_workers, shut_down,
}
use tabularis_postgresql_plu.Base.{
  ℕ, ◌+◌, ◌≤◌, ◌≡◌, refl, Bool, true, false, List, [], ◌∷◌, Option, none, some, leb, arith,
}

-- A task that finishes by itself by the deadline.
unfoldable pub is_in_time : ℕ → Option ℕ → Bool
is_in_time deadline none = false
is_in_time deadline (some t) = leb t deadline

-- Each worker is in time, or comes to an await point after an abort: in the given time in all.
pub data Yield (deadline : ℕ) : List Worker → ℕ → Type 0 where
  all_done : Yield deadline [] 0
  in_time :
      (w : Worker) (ws : List Worker) (d : ℕ)
      → is_in_time deadline w.finishes_at ≡ true
      → Yield deadline ws d
      → Yield deadline (w ∷ ws) d
  overdue :
      (w : Worker) (ws : List Worker) (e d : ℕ)
      → w.yields_after ≡ some e
      → Yield deadline ws d
      → Yield deadline (w ∷ ws) (e + d)

-- A worker that finished did so before `main` returned, and one that was aborted was not in time.
unfoldable pub IsSettled : ℕ → ℕ → Worker → End → Type 0
unfolding is_in_time
IsSettled deadline exit w finished = (t : ℕ) × (w.finishes_at ≡ some t) × (t ≤ exit)
IsSettled deadline exit w aborted = is_in_time deadline w.finishes_at ≡ false

-- What became of each worker, one by one.
unfoldable pub AreSettled : ℕ → ℕ → List Worker → List End → Type 0
unfolding IsSettled
AreSettled deadline exit [] [] = Unit {0}
AreSettled deadline exit (w ∷ ws) (e ∷ es) =
    IsSettled deadline exit w e × AreSettled deadline exit ws es
AreSettled deadline exit _ _ = ⊥

later_IsSettled :
    (deadline exit later : ℕ) (w : Worker) (e : End)
    → exit ≤ later
    → IsSettled deadline exit w e
    → IsSettled deadline later w e
unfolding IsSettled
later_IsSettled deadline exit later w finished h (t, e, k) = (t, e, omega (arith, h, k))
later_IsSettled deadline exit later w aborted h k = k

later_AreSettled :
    (deadline exit later : ℕ) (ws : List Worker) (es : List End)
    → exit ≤ later
    → AreSettled deadline exit ws es
    → AreSettled deadline later ws es
unfolding AreSettled
later_AreSettled deadline exit later [] [] h k = k
later_AreSettled deadline exit later [] (e ∷ es) h k = elim k [ ]
later_AreSettled deadline exit later (w ∷ ws) [] h k = elim k [ ]
later_AreSettled deadline exit later (w ∷ ws) (e ∷ es) h k = (
  later_IsSettled deadline exit later w e h k.0,
  later_AreSettled deadline exit later ws es h k.1,
)

timeout_at-le :
    (deadline now bound : ℕ) (t : Option ℕ)
    → now ≤ bound
    → deadline ≤ bound
    → (timeout_at deadline t now).0 ≤ bound
unfolding timeout_at
timeout_at-le deadline now bound none h k = ground arith
timeout_at-le deadline now bound (some t) h k = ground arith

timeout_at-in_time :
    (deadline now : ℕ) (t : Option ℕ)
    → is_in_time deadline t ≡ true
    → (timeout_at deadline t now).1 ≡ true
unfolding timeout_at is_in_time
timeout_at-in_time deadline now none h = ground (arith, h)
timeout_at-in_time deadline now (some t) h = ground (arith, h)

drained_one :
    (deadline now at reaped exit : ℕ) (b : Bool) (w : Worker) (ws : List Worker) (e : End)
    (es : List End)
    → timeout_at deadline w.finishes_at now ≡ (at, b)
    → reap b w at ≡ some (reaped, e)
    → drain_workers deadline ws reaped ≡ some (exit, es)
    → drain_workers deadline (w ∷ ws) now ≡ some (exit, e ∷ es)
unfolding drain_workers
drained_one deadline now at reaped exit b w ws e es h k l = rw (h, k, l) refl

timeout_at-ge : (deadline now : ℕ) (f : Option ℕ) → now ≤ (timeout_at deadline f now).0
unfolding timeout_at
timeout_at-ge deadline now none = ground arith
timeout_at-ge deadline now (some t) = ground arith

timeout_at-done :
    (deadline now : ℕ) (f : Option ℕ)
    → (timeout_at deadline f now).1 ≡ true
    → (t : ℕ) × (f ≡ some t) × (t ≤ (timeout_at deadline f now).0)
unfolding timeout_at
timeout_at-done deadline now none h = absurd (ground (arith, h))
timeout_at-done deadline now (some t) h = (t, refl, ground (arith, h))

timeout_at-late :
    (deadline now : ℕ) (f : Option ℕ)
    → (timeout_at deadline f now).1 ≡ false
    → is_in_time deadline f ≡ false
unfolding timeout_at is_in_time
timeout_at-late deadline now none h = refl
timeout_at-late deadline now (some t) h = ground (arith, h)

-- A worker that is waited for, and reaped if it is overdue.
reaped_one :
    (deadline now x : ℕ) (w : Worker) (b : Bool)
    → (timeout_at deadline w.finishes_at now).1 ≡ b
    → w.yields_after ≡ some x
    → (reaped : ℕ) × (end : End) × (reap b w (timeout_at deadline w.finishes_at now).0
        ≡ some (reaped, end))
      × (reaped ≤ (timeout_at deadline w.finishes_at now).0 + x)
      × ((timeout_at deadline w.finishes_at now).0 ≤ reaped)
      × IsSettled deadline reaped w end
unfolding reap IsSettled
reaped_one deadline now x w true h k = (
  (timeout_at deadline w.finishes_at now).0,
  finished,
  refl,
  omega arith,
  omega arith,
  timeout_at-done deadline now w.finishes_at h,
)
reaped_one deadline now x w false h k = (
  (timeout_at deadline w.finishes_at now).0 + x,
  aborted,
  rw k refl,
  omega arith,
  omega arith,
  timeout_at-late deadline now w.finishes_at h,
)

abbrev Drained : ℕ → List Worker → ℕ → ℕ → Type 0
Drained deadline ws now bound =
    (exit : ℕ) × (ends : List End) × (drain_workers deadline ws now ≡ some (exit, ends))
    × (exit ≤ bound)
    × (now ≤ exit)
    × AreSettled deadline exit ws ends

drain_workers-Drained :
    (deadline : ℕ) {ws : List Worker} {d : ℕ} (now bound : ℕ)
    → Yield deadline ws d
    → now ≤ bound
    → deadline ≤ bound
    → Drained deadline ws now (bound + d)
unfolding drain_workers AreSettled
drain_workers-Drained deadline now bound all_done h k =
    (now, [], refl, omega (arith, h), omega arith, tt)
drain_workers-Drained deadline now bound (in_time w ws d i y) h k =
    let (at, b) = timeout_at deadline w.finishes_at now in
    let at_le : at ≤ bound = timeout_at-le deadline now bound w.finishes_at h k in
    let done = timeout_at-in_time deadline now w.finishes_at i in
    let (exit, ends, e, l, m, s) = drain_workers-Drained deadline at bound y at_le k in
    (
      exit,
      finished ∷ ends,
      drained_one deadline now at at exit b w ws finished ends refl (unfold reap in rw done refl) e,
      l,
      omega (arith, m, timeout_at-ge deadline now w.finishes_at),
      (
        later_IsSettled deadline at exit w finished m
            (unfold IsSettled in timeout_at-done deadline now w.finishes_at done),
        s,
      ),
    )
drain_workers-Drained deadline now bound (overdue w ws x d i y) h k =
    let (at, b) = timeout_at deadline w.finishes_at now in
    let at_le : at ≤ bound = timeout_at-le deadline now bound w.finishes_at h k in
    let (reaped, end, f, m, n, c) = reaped_one deadline now x w b refl i in
    let (exit, ends, e, l, o, s) =
      drain_workers-Drained deadline reaped (bound + x) y (omega (arith, at_le, m))
        (omega (arith, k)) in
    (
      exit,
      end ∷ ends,
      drained_one deadline now at reaped exit b w ws end ends refl f e,
      omega (arith, l),
      omega (arith, n, o, timeout_at-ge deadline now w.finishes_at),
      (later_IsSettled deadline reaped exit w end o c, s),
    )

-- Behind the end of the input `main` waits for each worker, for five seconds in all, and aborts what is
-- overdue. If each overdue worker comes to an await point after its abort, within times that make `d`
-- together, then `main` returns, at the latest five seconds and `d` behind the end of the input, whatever
-- the writer and the cleanup task hang on; each worker has finished by then or was aborted, and only
-- workers that would not be done within the five seconds are aborted.
pub shut_down-exits :
    {workers : List Worker} {d : ℕ} (writer cleanup : Option ℕ) (now : ℕ)
    → Yield (now + shutdown_grace) workers d
    → (exit : ℕ) × (ends : List End) × (shut_down workers writer cleanup now ≡ some (exit, ends))
      × (exit ≤ now + shutdown_grace + d)
      × AreSettled (now + shutdown_grace) exit workers ends
unfolding shut_down
shut_down-exits {workers} {d} writer cleanup now y =
    let deadline = now + shutdown_grace in
    let (drained, ends, e, l, m, s) =
      drain_workers-Drained deadline now deadline y (omega arith) (omega arith) in
    let flushed = (timeout_at deadline writer drained).0 in
    let exit = (timeout_at deadline cleanup flushed).0 in
    (
      exit,
      ends,
      rw e refl,
      timeout_at-le deadline flushed (deadline + d) cleanup
          (timeout_at-le deadline drained (deadline + d) writer l (omega arith)) (omega arith),
      later_AreSettled deadline drained exit workers ends
          (omega
            (arith, timeout_at-ge deadline drained writer, timeout_at-ge deadline flushed cleanup))
          s,
    )
