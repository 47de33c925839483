-- ===== src/SessionMap/Runs/Slots.antt =====
-- src/session.rs: what the operations on the map of sessions do to the connections in its slots.
use tabularis_postgresql_plu.SessionMap.{
  Slot, Sessions, is_idle, sweep_slot, sweep_idle, release_slot, release_all,
}
use tabularis_postgresql_plu.SessionMap.Runs.{
  client_of, lock_and_take, unlock, take_slot, drop_slot, rollback_and_release,
}
use tabularis_postgresql_plu.Query.Server.{Server}
use tabularis_postgresql_plu.Query.Batch.Sync.{Transactions}
use tabularis_postgresql_plu.Query.Batch.Sync.Disposal.{HoldsTransaction}
use tabularis_postgresql_plu.Base.{
  ℕ, ◌≡◌, Bool, false, ◌||◌, List, [], ◌∷◌, Option, none, some, Text, text_eq, is_some, All,
  Bool-cases, inl, inr,
}

module _ (srv : Server) (tx : Transactions srv) where
  open srv use {Session, batch_execute}
  open tx use {block, rolled_back}

  abbrev pub IsIdle : Session → Type 0
  IsIdle s = block s ≡ false

  abbrev pub HasTransaction : Text × Slot Session → Type 0
  HasTransaction (sid, slot) = HoldsTransaction srv tx (client_of slot.pinned)

  pub rollback_and_release-IsIdle : (cs : List Session) → All IsIdle (rollback_and_release srv cs)
  unfolding rollback_and_release
  rollback_and_release-IsIdle [] = tt
  rollback_and_release-IsIdle (c ∷ cs) = (rolled_back c, rollback_and_release-IsIdle cs)

  pub lock_and_take-HasTransaction :
      (sid : Text) (m : Sessions Session)
      → All HasTransaction m
      → HoldsTransaction srv tx (lock_and_take sid m).0 × All HasTransaction (lock_and_take sid m).1
  unfolding lock_and_take client_of
  lock_and_take-HasTransaction sid [] h = (tt, (tt, tt))
  lock_and_take-HasTransaction sid ((k, slot) ∷ m) (p, h) = elim (Bool-cases (text_eq k sid)) [
    | inl found ↦ rw found (p, (tt, h))
    | inr other ↦
        rw other
          ((lock_and_take-HasTransaction sid m h).0, (p, (lock_and_take-HasTransaction sid m h).1))
  ]

  pub take_slot-HasTransaction :
      (sid : Option Text) (m : Sessions Session)
      → All HasTransaction m
      → HoldsTransaction srv tx (take_slot sid m).0 × All HasTransaction (take_slot sid m).1
  unfolding take_slot
  take_slot-HasTransaction none m h = (tt, h)
  take_slot-HasTransaction (some sid) m h = lock_and_take-HasTransaction sid m h

  pub unlock-HasTransaction :
      (sid : Text) (p : Option (Session × ℕ)) (waiting : Bool) (m : Sessions Session)
      → HoldsTransaction srv tx (client_of p)
      → All HasTransaction m
      → All HasTransaction (unlock sid p waiting m)
  unfolding unlock
  unlock-HasTransaction sid p waiting [] c h = tt
  unlock-HasTransaction sid p waiting ((k, slot) ∷ m) c (q, h) = elim (Bool-cases (text_eq k sid)) [
    | inl found ↦ rw found (c, h)
    | inr other ↦ rw other (q, unlock-HasTransaction sid p waiting m c h)
  ]

  pub drop_slot-HasTransaction :
      (sid : Option Text) (p : Option (Session × ℕ)) (waiting : Bool) (m : Sessions Session)
      → HoldsTransaction srv tx (client_of p)
      → All HasTransaction m
      → All HasTransaction (drop_slot sid p waiting m)
  unfolding drop_slot
  drop_slot-HasTransaction none p waiting m c h = h
  drop_slot-HasTransaction (some sid) p waiting m c h = unlock-HasTransaction sid p waiting m c h

  sweep_slot-HasTransaction :
      (now : ℕ) (sid : Text) (slot : Slot Session) (r : Sessions Session × List Session)
      → HasTransaction (sid, slot)
      → All HasTransaction r.0
      → All HasTransaction (sweep_slot now sid slot r).0
  unfolding sweep_slot client_of
  sweep_slot-HasTransaction now sid slot (m, expired) p h = elim (Bool-cases slot.held) [
    | inl busy ↦ rw busy (p, h)
    | inr free ↦ elim (Bool-cases (is_idle now slot.pinned)) [
      | inl idle ↦ elim (Bool-cases slot.shared) [
        | inl waited ↦ rw (free, idle, waited) (tt, h)
        | inr alone ↦ rw (free, idle, alone) h
      ]
      | inr fresh ↦ elim (Bool-cases (is_some slot.pinned || slot.shared)) [
        | inl kept ↦ rw (free, fresh, kept) (p, h)
        | inr gone ↦ rw (free, fresh, gone) h
      ]
    ]
  ]

  pub sweep_idle-HasTransaction :
      (now : ℕ) (m : Sessions Session)
      → All HasTransaction m
      → All HasTransaction (sweep_idle now m).0
  unfolding sweep_idle
  sweep_idle-HasTransaction now [] h = tt
  sweep_idle-HasTransaction now ((sid, slot) ∷ m) (p, h) =
      sweep_slot-HasTransaction now sid slot (sweep_idle now m) p
        (sweep_idle-HasTransaction now m h)

  pub release_all-HasTransaction :
      (m : Sessions Session) → All HasTransaction m → All HasTransaction (release_all m).0
  unfolding release_all release_slot
  release_all-HasTransaction [] h = tt
  release_all-HasTransaction ((sid, slot) ∷ m) (p, h) = elim (Bool-cases slot.held) [
    | inl busy ↦ rw busy (p, release_all-HasTransaction m h)
    | inr free ↦ rw free (release_all-HasTransaction m h)
  ]
