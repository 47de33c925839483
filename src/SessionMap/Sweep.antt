-- ===== src/SessionMap/Sweep.antt =====
-- src/session.rs: what a sweep and a shutdown do to the pinned connections.
use tabularis_postgresql_plu.SessionMap.{
  Slot, Sessions, is_idle, sweep_slot, sweep_idle, release_slot, release_all,
}
use tabularis_postgresql_plu.Base.{
  ℕ, ◌+◌, ◌≡◌, refl, Bool, true, false, List, [], ◌∷◌, ◌++◌, Option, none, some, Text,
  if◌then◌else◌, arith, All, is_some, ◌⊎◌, inl, inr, ap, Bool-cases, ◌∙◌, ◌||◌,
}

module _ {S : Type 0} (p : S → Bool) where
  abbrev weight : S → ℕ
  weight c = if p c then 1 else 0

  -- How many clients of a list satisfy `p`.
  unfoldable pub count : List S → ℕ
  count [] = 0
  count (c ∷ cs) = weight c + count cs

  pub count-append : (xs ys : List S) → count (xs ++ ys) ≡ count xs + count ys
  unfolding count
  count-append [] ys = omega arith
  count-append (c ∷ xs) ys = omega (arith, count-append xs ys)

  abbrev slot_count : Option (S × ℕ) → ℕ
  slot_count none = 0
  slot_count (some (c, used)) = weight c

  unfoldable pub pinned_count : Sessions S → ℕ
  pinned_count [] = 0
  pinned_count ((sid, slot) ∷ m) = slot_count slot.pinned + pinned_count m

  sweep_slot-count :
      (now : ℕ) (sid : Text) (slot : Slot S) (r : Sessions S × List S)
      → pinned_count (sweep_slot now sid slot r).0 + count (sweep_slot now sid slot r).1
        ≡ slot_count slot.pinned + (pinned_count r.0 + count r.1)
  unfolding sweep_slot pinned_count count
  sweep_slot-count now sid slot (m, expired) = ground arith

  -- A sweep loses no connection and makes none: each that was pinned is still pinned or among the
  -- released ones, as often as before.
  pub sweep_idle-count :
      (now : ℕ) (m : Sessions S)
      → pinned_count (sweep_idle now m).0 + count (sweep_idle now m).1 ≡ pinned_count m
  unfolding sweep_idle pinned_count
  sweep_idle-count now [] = unfold count in refl
  sweep_idle-count now ((sid, slot) ∷ m) =
      omega (arith, sweep_slot-count now sid slot (sweep_idle now m), sweep_idle-count now m)

  release_slot-count :
      (sid : Text) (slot : Slot S) (r : Sessions S × List S)
      → pinned_count (release_slot sid slot r).0 + count (release_slot sid slot r).1
        ≡ slot_count slot.pinned + (pinned_count r.0 + count r.1)
  unfolding release_slot pinned_count count
  release_slot-count sid slot (m, released) = ground arith

  -- A shutdown loses no connection either: each pinned one is released, or stays with the run that
  -- holds its slot.
  pub release_all-count :
      (m : Sessions S) → pinned_count (release_all m).0 + count (release_all m).1 ≡ pinned_count m
  unfolding release_all pinned_count
  release_all-count [] = unfold count in refl
  release_all-count ((sid, slot) ∷ m) =
      omega (arith, release_slot-count sid slot (release_all m), release_all-count m)

module _ {S : Type 0} where
  -- A slot as a sweep at `now` leaves it: a run holds it, or its connection is not idle.
  abbrev pub IsSwept : ℕ → Text × Slot S → Type 0
  IsSwept now (sid, slot) = (slot.held ≡ true) ⊎ (is_idle now slot.pinned ≡ false)

  sweep_slot-IsSwept :
      (now : ℕ) (sid : Text) (slot : Slot S) (r : Sessions S × List S)
      → All (IsSwept now) r.0
      → All (IsSwept now) (sweep_slot now sid slot r).0
  unfolding sweep_slot
  sweep_slot-IsSwept now sid slot (m, expired) h = elim (Bool-cases slot.held) [
    | inl busy ↦ rw busy (inl refl, h)
    | inr free ↦ elim (Bool-cases (is_idle now slot.pinned)) [
      | inl idle ↦ elim (Bool-cases slot.shared) [
        | inl waited ↦ rw (free, idle, waited) (inr refl, h)
        | inr alone ↦ rw (free, idle, alone) h
      ]
      | inr fresh ↦ elim (Bool-cases (is_some slot.pinned || slot.shared)) [
        | inl kept ↦ rw (free, fresh, kept) (inr fresh, h)
        | inr gone ↦ rw (free, fresh, gone) h
      ]
    ]
  ]

  -- Behind a sweep no connection is idle past the limit, but for those whose run still holds the slot.
  pub sweep_idle-IsSwept : (now : ℕ) (m : Sessions S) → All (IsSwept now) (sweep_idle now m).0
  unfolding sweep_idle
  sweep_idle-IsSwept now [] = tt
  sweep_idle-IsSwept now ((sid, slot) ∷ m) =
      sweep_slot-IsSwept now sid slot (sweep_idle now m) (sweep_idle-IsSwept now m)

  -- The slots that runs hold.
  unfoldable pub held_slots : Sessions S → Sessions S
  held_slots [] = []
  held_slots ((sid, slot) ∷ m) =
      let rest = held_slots m in if slot.held then (sid, slot) ∷ rest else rest

  held_slots-sweep_slot :
      (now : ℕ) (sid : Text) (slot : Slot S) (r : Sessions S × List S)
      → held_slots (sweep_slot now sid slot r).0 ≡ held_slots ((sid, slot) ∷ r.0)
  unfolding sweep_slot held_slots
  held_slots-sweep_slot now sid slot (m, expired) = ground arith

  held_cons :
      (sid : Text) (slot : Slot S) (m n : Sessions S)
      → held_slots m ≡ held_slots n
      → held_slots ((sid, slot) ∷ m) ≡ held_slots ((sid, slot) ∷ n)
  unfolding held_slots
  held_cons sid slot m n e = ap (λ r. if slot.held then (sid, slot) ∷ r else r) e

  held_sweep : (now : ℕ) (m : Sessions S) → held_slots (sweep_idle now m).0 ≡ held_slots m
  unfolding sweep_idle
  held_sweep now [] = refl
  held_sweep now ((sid, slot) ∷ m) =
      held_slots-sweep_slot now sid slot (sweep_idle now m)
      ∙ held_cons sid slot (sweep_idle now m).0 m (held_sweep now m)

  release_slot-held :
      (sid : Text) (slot : Slot S) (r : Sessions S × List S)
      → (release_slot sid slot r).0 ≡ (if slot.held then (sid, slot) ∷ r.0 else r.0)
  unfolding release_slot
  release_slot-held sid slot (m, released) = ground arith

  held_release : (m : Sessions S) → (release_all m).0 ≡ held_slots m
  unfolding release_all held_slots
  held_release [] = refl
  held_release ((sid, slot) ∷ m) =
      release_slot-held sid slot (release_all m)
      ∙ ap (λ r. if slot.held then (sid, slot) ∷ r else r) (held_release m)

  -- A sweep leaves every slot that a run holds in the map as it was, and a shutdown leaves those slots
  -- and no others.
  pub held_slots-sweep_idle :
      (now : ℕ) (m : Sessions S)
      → (held_slots (sweep_idle now m).0 ≡ held_slots m) × ((release_all m).0 ≡ held_slots m)
  held_slots-sweep_idle now m = (held_sweep now m, held_release m)
