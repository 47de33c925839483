-- ===== src/SessionMap/Cleanup.antt =====
-- src/main.rs, `run_pool_cleanup`: a sweep of the sessions at every tick of the timer, until the
-- shutdown. The sweep of the connection pools beside it is `cleanup_idle_pools` of Connections/Cache.
use tabularis_postgresql_plu.SessionMap.{Slot, Sessions, max_idle, is_idle, sweep_slot, sweep_idle}
use tabularis_postgresql_plu.SessionMap.Sweep.{
  count, count-append, pinned_count, IsSwept, held_slots, sweep_idle-count, sweep_idle-IsSwept,
  held_slots-sweep_idle,
}
use tabularis_postgresql_plu.Base.{
  ℕ, zero, suc, ◌+◌, ◌*◌, ◌≤◌, ◌<◌, ◌≡◌, refl, ap, ◌∙◌, Bool, true, false, ◌||◌, List, [], ◌∷◌,
  ◌++◌, Option, none, some, Text, is_some, arith, All, Bool-cases, inl, inr, ◌⊎◌,
}

abbrev pub cleanup_interval : ℕ
cleanup_interval = 600 * 1000000000

module _ {S : Type 0} where
  -- The connections that `n` ticks release, the first tick at `now`, while no run comes in between.
  unfoldable pub run_pool_cleanup : ℕ → ℕ → Sessions S → Sessions S × List S
  unfolding sweep_idle
  run_pool_cleanup zero now m = (m, [])
  run_pool_cleanup (suc n) now m =
      let (kept, expired) = sweep_idle now m in
      let (left, later) = run_pool_cleanup n (now + cleanup_interval) kept in
      (left, expired ++ later)

  abbrev pub PinUsedBefore : ℕ → Option (S × ℕ) → Type 0
  PinUsedBefore t none = Unit {0}
  PinUsedBefore t (some (c, used)) = used < t

  abbrev pub IsUsedBefore : ℕ → Text × Slot S → Type 0
  IsUsedBefore t (sid, slot) = PinUsedBefore t slot.pinned

  -- A run holds the slot, or it holds no connection.
  abbrev pub IsDone : Text × Slot S → Type 0
  IsDone (sid, slot) = (slot.held ≡ true) ⊎ (slot.pinned ≡ none)

  sweep_slot-IsUsedBefore :
      (t now : ℕ) (sid : Text) (slot : Slot S) (r : Sessions S × List S)
      → IsUsedBefore t (sid, slot)
      → All (IsUsedBefore t) r.0
      → All (IsUsedBefore t) (sweep_slot now sid slot r).0
  unfolding sweep_slot
  sweep_slot-IsUsedBefore t now sid slot (m, expired) p h = elim (Bool-cases slot.held) [
    | inl busy ↦ rw busy (p, h)
    | inr free ↦ elim (Bool-cases (is_idle now slot.pinned)) [
      | inl idle ↦ elim (Bool-cases slot.shared) [
        | inl waited ↦ rw (free, idle, waited) (tt, h)
        | inr alone ↦ rw (free, idle, alone) h
      ]
      | inr fresh ↦ elim (Bool-cases (is_some slot.pinned || slot.shared)) [
        | inl kept ↦ rw (free, fresh, kept) (p, h)
        | inr gone ↦ rw (free, fresh, gone) h
      ]
    ]
  ]

  sweep_idle-IsUsedBefore :
      (t now : ℕ) (m : Sessions S)
      → All (IsUsedBefore t) m
      → All (IsUsedBefore t) (sweep_idle now m).0
  unfolding sweep_idle
  sweep_idle-IsUsedBefore t now [] h = tt
  sweep_idle-IsUsedBefore t now ((sid, slot) ∷ m) (p, h) =
      sweep_slot-IsUsedBefore t now sid slot (sweep_idle now m) p
        (sweep_idle-IsUsedBefore t now m h)

  pin-IsDone :
      (t now : ℕ) (held : Bool) (pin : Option (S × ℕ))
      → t + max_idle ≤ now
      → PinUsedBefore t pin
      → (held ≡ true) ⊎ (is_idle now pin ≡ false)
      → (held ≡ true) ⊎ (pin ≡ none)
  pin-IsDone t now held none late u k = inr refl
  pin-IsDone t now held (some (c, used)) late u (inl busy) = inl busy
  pin-IsDone t now held (some (c, used)) late u (inr fresh) =
      absurd (ground (arith, late, u, fresh))

  swept-IsDone :
      (t now : ℕ) (m : Sessions S)
      → t + max_idle ≤ now
      → All (IsUsedBefore t) m
      → All (IsSwept now) m
      → All IsDone m
  swept-IsDone t now [] late u k = tt
  swept-IsDone t now ((sid, slot) ∷ m) late (u, us) (k, ks) =
      (pin-IsDone t now slot.held slot.pinned late u k, swept-IsDone t now m late us ks)

  cleanup-IsDone :
      (n t now : ℕ) (m : Sessions S)
      → t + max_idle ≤ now + n * cleanup_interval
      → All (IsUsedBefore t) m
      → All IsDone (run_pool_cleanup (suc n) now m).0
  unfolding run_pool_cleanup
  cleanup-IsDone zero t now m late u =
      swept-IsDone t now (sweep_idle now m).0 (omega (arith, late))
        (sweep_idle-IsUsedBefore t now m u) (sweep_idle-IsSwept now m)
  cleanup-IsDone (suc n) t now m late u =
      cleanup-IsDone n t (now + cleanup_interval) (sweep_idle now m).0 (omega (arith, late))
        (sweep_idle-IsUsedBefore t now m u)

  held-run_pool_cleanup :
      (n now : ℕ) (m : Sessions S) → held_slots (run_pool_cleanup n now m).0 ≡ held_slots m
  unfolding run_pool_cleanup
  held-run_pool_cleanup zero now m = refl
  held-run_pool_cleanup (suc n) now m =
      held-run_pool_cleanup n (now + cleanup_interval) (sweep_idle now m).0
      ∙ (held_slots-sweep_idle now m).0

  module _ (p : S → Bool) where
    run_pool_cleanup-count :
        (n now : ℕ) (m : Sessions S)
        → pinned_count p (run_pool_cleanup n now m).0 + count p (run_pool_cleanup n now m).1
          ≡ pinned_count p m
    unfolding run_pool_cleanup
    run_pool_cleanup-count zero now m = unfold count in omega arith
    run_pool_cleanup-count (suc n) now m = omega (
      arith,
      count-append p (sweep_idle now m).1
          (run_pool_cleanup n (now + cleanup_interval) (sweep_idle now m).0).1,
      sweep_idle-count p now m,
      run_pool_cleanup-count n (now + cleanup_interval) (sweep_idle now m).0,
    )

    done-count : (m : Sessions S) → All IsDone m → pinned_count p (held_slots m) ≡ pinned_count p m
    unfolding held_slots pinned_count
    done-count [] h = refl
    done-count ((sid, slot) ∷ m) (inl busy, h) = rw (busy, done-count m h) refl
    done-count ((sid, slot) ∷ m) (inr empty, h) = elim (Bool-cases slot.held) [
      | inl busy ↦ rw (busy, done-count m h) refl
      | inr free ↦ rw (free, empty) (omega (arith, done-count m h))
    ]

    -- An abandoned transaction does not live for ever: if no connection was used since the first tick,
    -- four ticks of the cleanup or more release every pinned connection but those in a slot that a run
    -- holds, each as often as it was pinned.
    pub run_pool_cleanup-releases :
        (n now : ℕ) (m : Sessions S)
        → 3 ≤ n
        → All (IsUsedBefore now) m
        → count p (run_pool_cleanup (suc n) now m).1 + pinned_count p (held_slots m)
          ≡ pinned_count p m
    run_pool_cleanup-releases n now m late u = omega (
      arith,
      run_pool_cleanup-count (suc n) now m,
      done-count (run_pool_cleanup (suc n) now m).0
          (cleanup-IsDone n now now m (omega (arith, late)) u),
      ap (pinned_count p) (held-run_pool_cleanup (suc n) now m),
    )
