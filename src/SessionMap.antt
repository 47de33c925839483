-- ===== src/SessionMap.antt =====
-- src/session.rs: the map of sessions with their pinned connections. Times are nanoseconds. The
-- clients that an operation releases are the second component; each is then rolled back by
-- `rollback_and_release`, and a failing `ROLLBACK` is only logged.
pub mod Sweep
pub mod Runs
pub mod Cleanup
use tabularis_postgresql_plu.Base.{
  ℕ, ◌*◌, ◌-◌, ◌≡◌, refl, Bool, true, false, ◌&&◌, ◌||◌, not, List, [], ◌∷◌, ◌++◌, Option, none,
  some, Text, ltb, if◌then◌else◌, is_some, text_eq,
}

abbrev pub max_idle : ℕ
max_idle = 30 * 60 * 1000000000

-- A slot with its lock: `held` while a run holds it, `shared` while anything but the map refers to it.
pub record Slot (S : Type 0) : Type 0 where
  pub pinned : Option (S × ℕ)
  pub held : Bool
  pub shared : Bool

abbrev pub Sessions : Type 0 → Type 0
Sessions S = List (Text × Slot S)

module _ {S : Type 0} where
  abbrev pub clients : Option (S × ℕ) → List S
  clients none = []
  clients (some (c, used)) = c ∷ []

  abbrev pub is_idle : ℕ → Option (S × ℕ) → Bool
  is_idle now none = false
  is_idle now (some (c, used)) = ltb max_idle (now - used)

  abbrev keep : Text → Slot S → Bool → Sessions S → Sessions S
  keep sid slot kept m = if kept then (sid, slot) ∷ m else m

  -- The closure of `retain`: a slot that a run holds is left alone, an idle one gives up its client.
  unfoldable pub sweep_slot : ℕ → Text → Slot S → Sessions S × List S → Sessions S × List S
  sweep_slot now sid slot (m, expired) =
      let idle = is_idle now slot.pinned in
      let left : Slot S = record {
        pinned = if idle then none else slot.pinned;
        held = false;
        shared = slot.shared;
      } in
      if slot.held then ((sid, slot) ∷ m, expired) else (
        keep sid left (is_some left.pinned || slot.shared) m,
        (if idle then clients slot.pinned else []) ++ expired,
      )

  unfoldable pub sweep_idle : ℕ → Sessions S → Sessions S × List S
  unfolding sweep_slot
  sweep_idle now [] = ([], [])
  sweep_idle now ((sid, slot) ∷ m) = sweep_slot now sid slot (sweep_idle now m)

  unfoldable pub release_slot : Text → Slot S → Sessions S × List S → Sessions S × List S
  release_slot sid slot (m, released) =
      if slot.held then ((sid, slot) ∷ m, released) else (m, clients slot.pinned ++ released)

  unfoldable pub release_all : Sessions S → Sessions S × List S
  unfolding release_slot
  release_all [] = ([], [])
  release_all ((sid, slot) ∷ m) = release_slot sid slot (release_all m)
