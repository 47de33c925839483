-- ===== src/Tests/Sweeps.antt =====
-- Sweeps over a map of three sessions: one idle, one idle but held by a run, one in use lately.
use tabularis_postgresql_plu.SessionMap.{Sessions, max_idle, sweep_idle, release_all}
use tabularis_postgresql_plu.SessionMap.Sweep.{held_slots, held_slots-sweep_idle}
use tabularis_postgresql_plu.Base.{ℕ, ◌+◌, ◌≡◌, refl, true, false, [], ◌∷◌, some, codes}

abbrev three_sessions : Sessions ℕ
three_sessions =
    (codes "a", record { pinned = some (11, 0); held = false; shared = false })
    ∷ (codes "b", record { pinned = some (12, 0); held = true; shared = true })
    ∷ (codes "c", record { pinned = some (13, max_idle); held = false; shared = false })
    ∷ []

abbrev now : ℕ
now = max_idle + 1

swept : (sweep_idle now three_sessions).1 ≡ 11 ∷ []
unfolding sweep_idle
swept = refl

held_slots-sweep_idle_example :
    (held_slots (sweep_idle now three_sessions).0 ≡ held_slots three_sessions)
    × ((release_all three_sessions).0 ≡ held_slots three_sessions)
held_slots-sweep_idle_example = held_slots-sweep_idle now three_sessions
