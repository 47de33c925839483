-- ===== src/Lanes/Workers/Relief.antt =====
-- src/main.rs: how a lane gets through its lines.
use tabularis_postgresql_plu.Lanes.{Lane, general, lifecycle, cancel_lane}
use tabularis_postgresql_plu.Lanes.Workers.{
  LaneState, Plant, lane_of, put, Step, receives, takes, finishes, dies, Reach, here, next,
}
use tabularis_postgresql_plu.Rpc.Methods.{Handler}
use tabularis_postgresql_plu.Query.Server.{Result}
use tabularis_postgresql_plu.Json.{Value}
use tabularis_postgresql_plu.Base.{
  ℕ, Bool, true, false, if◌then◌else◌, ◌+◌, ◌*◌, ◌≡◌, ◌<◌, ◌⊎◌, inl, inr, refl, ap, List, [], ◌∷◌,
  Text, length, length-append, arith,
}

-- What a lane still has to do: a line is taken, and is done with.
abbrev pub steps_left : LaneState → ℕ
steps_left s = 2 * length s.queued + length s.busy

unfoldable pub is_lane : Lane → Lane → Bool
is_lane general general = true
is_lane lifecycle lifecycle = true
is_lane cancel_lane cancel_lane = true
is_lane _ _ = false

abbrev pub at_lane : Lane → Lane → ℕ → ℕ
at_lane k l n = if is_lane k l then n else 0

put-steps :
    (k l : Lane) (s : LaneState) (us bs : List Text) (p : Plant) (x y : ℕ)
    → steps_left s + x ≡ steps_left (lane_of k p) + y
    → steps_left (lane_of l (put k s us bs p)) + at_lane k l x
      ≡ steps_left (lane_of l p) + at_lane k l y
unfolding lane_of put is_lane
put-steps general general s us bs p x y h = h
put-steps general lifecycle s us bs p x y h = refl
put-steps general cancel_lane s us bs p x y h = refl
put-steps lifecycle general s us bs p x y h = refl
put-steps lifecycle lifecycle s us bs p x y h = h
put-steps lifecycle cancel_lane s us bs p x y h = refl
put-steps cancel_lane general s us bs p x y h = refl
put-steps cancel_lane lifecycle s us bs p x y h = refl
put-steps cancel_lane cancel_lane s us bs p x y h = h

at_lane-double : (k l : Lane) (n : ℕ) → at_lane k l (2 * n) ≡ 2 * at_lane k l n
at_lane-double k l n = ground arith

module _ {S : Type 0} {parse : Text → Result Text Value}
    {serve : Handler → Value → Value → S → Value × S} {to_string : Value → Result Text Text} where
  -- The steps that a worker makes: it takes a line, or is done with one.
  unfoldable pub work : {k : Lane} {p q : Plant} → Step parse serve to_string k p q → ℕ
  work (receives t ts e lane room) = 0
  work (takes t ts e free) = 1
  work (finishes t before behind s e) = 1
  work (dies t before behind e) = 1

  unfoldable pub arrives : {k : Lane} {p q : Plant} → Step parse serve to_string k p q → ℕ
  arrives (receives t ts e lane room) = 1
  arrives (takes t ts e free) = 0
  arrives (finishes t before behind s e) = 0
  arrives (dies t before behind e) = 0

  -- The steps of a lane's workers, and the lines that came to the lane.
  unfoldable pub worked : {p q : Plant} → Lane → Reach parse serve to_string p q → ℕ
  unfolding work is_lane
  worked l here = 0
  worked l (next k r s) = worked l r + at_lane k l (work s)

  unfoldable pub arrived : {p q : Plant} → Lane → Reach parse serve to_string p q → ℕ
  unfolding arrives is_lane
  arrived l here = 0
  arrived l (next k r s) = arrived l r + at_lane k l (arrives s)

  Step-steps :
      {k : Lane} {p q : Plant} (l : Lane) (s : Step parse serve to_string k p q)
      → steps_left (lane_of l q) + at_lane k l (work s)
        ≡ steps_left (lane_of l p) + at_lane k l (2 * arrives s)
  unfolding work arrives
  Step-steps {k} {p} l (receives t ts e lane room) =
      put-steps k l _ _ _ p 0 2 (omega (arith, length-append ((lane_of k p).queued) (t ∷ [])))
  Step-steps {k} {p} l (takes t ts e free) = put-steps k l _ _ _ p 1 0 (omega (arith, ap length e))
  Step-steps {k} {p} l (finishes t before behind s e) =
      put-steps k l _ _ _ p 1 0
        (omega (arith, ap length e, length-append before (t ∷ behind), length-append before behind))
  Step-steps {k} {p} l (dies t before behind e) =
      put-steps k l _ _ _ p 1 0
        (omega (arith, ap length e, length-append before (t ∷ behind), length-append before behind))

  Reach-steps :
      {p q : Plant} (l : Lane) (r : Reach parse serve to_string p q)
      → steps_left (lane_of l q) + worked l r ≡ steps_left (lane_of l p) + 2 * arrived l r
  unfolding worked arrived
  Reach-steps l here = omega arith
  Reach-steps l (next k r s) =
      omega (arith, Reach-steps l r, Step-steps l s, at_lane-double k l (arrives s))

module _ {S : Type 0} (parse : Text → Result Text Value)
    (serve : Handler → Value → Value → S → Value × S) (to_string : Value → Result Text Text) where
  -- Nothing is left, or a worker can make a step.
  abbrev pub IsServed : Lane → Plant → Type 0
  IsServed l p =
      (steps_left (lane_of l p) ≡ 0)
      ⊎ ((q : Plant) × (step : Step parse serve to_string l p q) × (work step ≡ 1))

  served :
      (l : Lane) (p : Plant) (s : S) (queued busy : List Text)
      → (lane_of l p).queued ≡ queued
      → (lane_of l p).busy ≡ busy
      → 0 < (lane_of l p).workers
      → IsServed l p
  unfolding work
  served l p s [] [] e f alive = inl (rw (e, f) refl)
  served l p s queued (t ∷ busy) e f alive = inr (_, finishes t [] busy s f, refl)
  served l p s (t ∷ queued) [] e f alive =
      inr (_, takes t queued e (omega (arith, ap length f, alive)), refl)

  -- A lane with a living worker gets through its queue without waiting for another lane: whatever the
  -- others do, each line that came to the lane's queue takes two steps of its own workers, so nothing is
  -- left when they have made that many, and until then one of them can make a step, if a handler that is
  -- at work ends in some state `s`. A line that is not read yet waits for the reader.
  pub Reach-IsServed :
      {p q : Plant} (l : Lane) (r : Reach parse serve to_string p q) (s : S)
      → 0 < (lane_of l q).workers
      → (steps_left (lane_of l q) + worked l r ≡ steps_left (lane_of l p) + 2 * arrived l r)
        × IsServed l q
  Reach-IsServed {p} {q} l r s alive =
      (Reach-steps l r, served l q s ((lane_of l q).queued) ((lane_of l q).busy) refl refl alive)
