-- ===== src/Tests/Requests.antt =====
-- Histories of cancel actions.
use tabularis_postgresql_plu.Base.{ℕ, ◌≡◌, List, [], ◌∷◌, none, some}
use tabularis_postgresql_plu.Cancel.{cancel}
use tabularis_postgresql_plu.Cancel.History.{
  Event, registered, dropped, cancelled, replay, in_flight, cancel-replay,
}

-- Two requests interleave: 7 ends, 9 is cancelled while in flight. The latest event comes first.
abbrev two_requests : List (Event ℕ)
two_requests =
    registered (some 9) 71
    ∷ dropped (some 7)
    ∷ cancelled 9
    ∷ registered (some 9) 70
    ∷ registered (some 7) 50
    ∷ []

cancel-replay_example :
    ((cancel 9 (replay two_requests)).0 ≡ some 71)
    × ((cancel 9 (cancel 9 (replay two_requests)).1).0 ≡ none)
unfolding in_flight
cancel-replay_example = cancel-replay 9 two_requests
