-- ===== src/Cancel/History.antt =====
-- The registry against the history of its events.
use tabularis_postgresql_plu.Base.{
  ℕ, ◌≡◌, refl, List, [], ◌∷◌, Option, none, some, ◌==◌, if◌then◌else◌, arith,
}
use tabularis_postgresql_plu.Cancel.{
  register, drop_guard, cancel, find_action, find_action-insert, find_action-remove,
}

-- What happens to the registry: a guard is made or dropped, or a cancel notification arrives.
pub data Event {ℓ} (T : Type ℓ) : Type ℓ where
  registered : Option ℕ → T → Event T
  dropped : Option ℕ → Event T
  cancelled : ℕ → Event T

module _ {ℓ} {T : Type ℓ} where
  pub apply : Event T → List (ℕ × T) → List (ℕ × T)
  unfolding register drop_guard cancel
  apply (registered id t) m = register id t m
  apply (dropped id) m = drop_guard id m
  apply (cancelled k) m = (cancel k m).1

  -- The registry after the events, the latest first.
  unfoldable pub replay : List (Event T) → List (ℕ × T)
  unfolding apply
  replay [] = []
  replay (e ∷ es) = apply e (replay es)

  -- The latest event that is about `j` says what is registered under `j`.
  unfoldable pub in_flight : ℕ → List (Event T) → Option T
  in_flight j [] = none
  in_flight j (registered none t ∷ es) = in_flight j es
  in_flight j (registered (some k) t ∷ es) = if k == j then some t else in_flight j es
  in_flight j (dropped none ∷ es) = in_flight j es
  in_flight j (dropped (some k) ∷ es) = if k == j then none else in_flight j es
  in_flight j (cancelled k ∷ es) = if k == j then none else in_flight j es

  -- In any interleaving of guards and notifications, an id has a registered action exactly when the
  -- latest event about that id registered it: other requests never disturb it, and a finished or
  -- already cancelled request has none.
  find_action-replay : (j : ℕ) (es : List (Event T)) → find_action j (replay es) ≡ in_flight j es
  unfolding replay in_flight
  find_action-replay j [] = unfold find_action in refl
  find_action-replay j (registered none t ∷ es) = find_action-replay j es
  find_action-replay j (registered (some k) t ∷ es) =
      ground (arith, find_action-insert k j t (replay es), find_action-replay j es)
  find_action-replay j (dropped none ∷ es) = find_action-replay j es
  find_action-replay j (dropped (some k) ∷ es) =
      ground (arith, find_action-remove k j (replay es), find_action-replay j es)
  find_action-replay j (cancelled k ∷ es) =
      ground (arith, find_action-remove k j (replay es), find_action-replay j es)

  -- A cancel action runs at most once, and only for a request that is in flight: a notification
  -- finds what the history says, and a second one for the same id finds nothing.
  pub cancel-replay :
      (j : ℕ) (es : List (Event T))
      → ((cancel j (replay es)).0 ≡ in_flight j es) × ((cancel j (cancel j (replay es)).1).0 ≡ none)
  unfolding cancel
  cancel-replay j es = (find_action-replay j es, ground (arith, find_action-remove j j (replay es)))
