-- ===== src/Cancel.antt =====
-- src/cancel.rs: the registry of in-flight cancel actions, keyed by request id, and the guard that
-- registers an action when it is made and removes it when it is dropped. `T` is what an action is
-- built from: the backend's cancel token with the connection's parameters.
pub mod History
use tabularis_postgresql_plu.Base.{
  ℕ, ◌≡◌, refl, Bool, true, false, List, [], ◌∷◌, Option, none, some, ◌==◌, if◌then◌else◌, arith,
}

module _ {ℓ} {T : Type ℓ} where
  -- `handles.insert(request_id, action)`: a later action replaces an earlier one.
  unfoldable pub insert_action : ℕ → T → List (ℕ × T) → List (ℕ × T)
  insert_action k t [] = (k, t) ∷ []
  insert_action k t ((j, u) ∷ m) = if j == k then (k, t) ∷ m else (j, u) ∷ insert_action k t m

  unfoldable pub remove_action : ℕ → List (ℕ × T) → List (ℕ × T)
  remove_action k [] = []
  remove_action k ((j, u) ∷ m) = if j == k then remove_action k m else (j, u) ∷ remove_action k m

  unfoldable pub find_action : ℕ → List (ℕ × T) → Option T
  find_action k [] = none
  find_action k ((j, u) ∷ m) = if j == k then some u else find_action k m

  -- `CancelGuard::register`.
  unfoldable pub register : Option ℕ → T → List (ℕ × T) → List (ℕ × T)
  register none t m = m
  register (some k) t m = insert_action k t m

  -- `CancelGuard::drop`.
  unfoldable pub drop_guard : Option ℕ → List (ℕ × T) → List (ℕ × T)
  drop_guard none m = m
  drop_guard (some k) m = remove_action k m

  -- `cancel`: the action to run, if one is registered, and the registry without it.
  unfoldable pub cancel : ℕ → List (ℕ × T) → Option T × List (ℕ × T)
  unfolding find_action remove_action
  cancel k m = (find_action k m, remove_action k m)

  pub find_action-insert :
      (k j : ℕ) (t : T) (m : List (ℕ × T))
      → find_action j (insert_action k t m) ≡ (if k == j then some t else find_action j m)
  unfolding find_action insert_action
  find_action-insert k j t [] = refl
  find_action-insert k j t ((i, u) ∷ m) = ground (arith, find_action-insert k j t m)

  pub find_action-remove :
      (k j : ℕ) (m : List (ℕ × T))
      → find_action j (remove_action k m) ≡ (if k == j then none else find_action j m)
  unfolding find_action remove_action
  find_action-remove k j [] = ground arith
  find_action-remove k j ((i, u) ∷ m) = ground (arith, find_action-remove k j m)

  -- The life of a guard leaves its own id unregistered and every other id as it was.
  pub find_action-drop_guard :
      (id : Option ℕ) (j : ℕ) (t : T) (m : List (ℕ × T))
      → find_action j (drop_guard id (register id t m)) ≡ find_action j (drop_guard id m)
  unfolding register drop_guard
  find_action-drop_guard none j t m = refl
  find_action-drop_guard (some k) j t m = ground (
    arith,
    find_action-insert k j t m,
    find_action-remove k j (insert_action k t m),
    find_action-remove k j m,
  )
