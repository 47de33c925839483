-- ===== src/Lanes/Workers/Backlog.antt =====
-- src/main.rs: how many lines are queued or worked on at a time.
use tabularis_postgresql_plu.Lanes.{Lane, general, lifecycle, cancel_lane}
use tabularis_postgresql_plu.Lanes.Workers.{
  capacity, worker_count, LaneState, Plant, lane_of, put, start, Step, receives, takes, finishes,
  dies, Reach, here, next,
}
use tabularis_postgresql_plu.Rpc.Methods.{Handler}
use tabularis_postgresql_plu.Query.Server.{Result}
use tabularis_postgresql_plu.Json.{Value}
use tabularis_postgresql_plu.Base.{
  ℕ, ◌+◌, ◌≤◌, ap, List, [], ◌∷◌, Text, length, length-append, arith,
}

abbrev IsLaneBounded : Lane → LaneState → Type 0
IsLaneBounded l s =
    (length s.queued ≤ capacity l) × (length s.busy ≤ s.workers) × (s.workers ≤ worker_count l)

abbrev IsBounded : Plant → Type 0
IsBounded p =
    IsLaneBounded general p.general_lane
    × IsLaneBounded lifecycle p.lifecycle_lane
    × IsLaneBounded cancel_lane p.relief_lane

lane-IsBounded : (l : Lane) (p : Plant) → IsBounded p → IsLaneBounded l (lane_of l p)
unfolding lane_of
lane-IsBounded general p h = h.0
lane-IsBounded lifecycle p h = h.1
lane-IsBounded cancel_lane p h = h.2

put-IsBounded :
    (l : Lane) (s : LaneState) (us bs : List Text) (p : Plant)
    → IsBounded p
    → IsLaneBounded l s
    → IsBounded (put l s us bs p)
unfolding put
put-IsBounded general s us bs p (g, c, r) h = (h, c, r)
put-IsBounded lifecycle s us bs p (g, c, r) h = (g, h, r)
put-IsBounded cancel_lane s us bs p (g, c, r) h = (g, c, h)

-- The lines that are in a queue or with a worker.
abbrev open_in : LaneState → ℕ
open_in s = length s.queued + length s.busy

abbrev pub open_lines : Plant → ℕ
open_lines p = open_in p.general_lane + open_in p.lifecycle_lane + open_in p.relief_lane

module _ {S : Type 0} (parse : Text → Result Text Value)
    (serve : Handler → Value → Value → S → Value × S) (to_string : Value → Result Text Text) where
  Step-IsBounded :
      {l : Lane} {p q : Plant} → Step parse serve to_string l p q → IsBounded p → IsBounded q
  Step-IsBounded {l} {p} (receives t ts e lane room) h =
      let (queue, hands, alive) = lane-IsBounded l p h in
      put-IsBounded l _ _ _ p h
        (omega (arith, room, length-append ((lane_of l p).queued) (t ∷ [])), hands, alive)
  Step-IsBounded {l} {p} (takes t ts e free) h =
      let (queue, hands, alive) = lane-IsBounded l p h in
      put-IsBounded l _ _ _ p h (omega (arith, ap length e, queue), omega (arith, free), alive)
  Step-IsBounded {l} {p} (finishes t before behind s e) h =
      let (queue, hands, alive) = lane-IsBounded l p h in
      put-IsBounded l _ _ _ p h (
        queue,
        omega (
          arith,
          ap length e,
          length-append before (t ∷ behind),
          length-append before behind,
          hands,
        ),
        alive,
      )
  Step-IsBounded {l} {p} (dies t before behind e) h =
      let (queue, hands, alive) = lane-IsBounded l p h in
      put-IsBounded l _ _ _ p h (
        queue,
        omega (
          arith,
          ap length e,
          length-append before (t ∷ behind),
          length-append before behind,
          hands,
        ),
        omega (arith, alive),
      )

  Reach-IsBounded : {p q : Plant} → IsBounded p → Reach parse serve to_string p q → IsBounded q
  Reach-IsBounded h here = h
  Reach-IsBounded h (next l r s) = Step-IsBounded s (Reach-IsBounded h r)

  bounded-open : (p : Plant) → IsBounded p → open_lines p ≤ 103
  unfolding capacity worker_count
  bounded-open p h = omega (arith, h)

  start-IsBounded : (input : List Text) → IsBounded (start input)
  unfolding start capacity worker_count
  start-IsBounded input = (
    (omega arith, omega arith, omega arith),
    (omega arith, omega arith, omega arith),
    (omega arith, omega arith, omega arith),
  )

  -- Backpressure: however long the input is and whatever the interleaving, at most 103 lines are in the
  -- queues or with the workers.
  pub start-open_lines :
      (input : List Text) (p : Plant)
      → Reach parse serve to_string (start input) p
      → open_lines p ≤ 103
  start-open_lines input p r = bounded-open p (Reach-IsBounded (start-IsBounded input) r)
