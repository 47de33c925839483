-- ===== src/Lanes/Workers.antt =====
-- src/main.rs: the reader with the queues of the three lanes and their workers (`run_worker`), in any
-- interleaving, and the channel to the writer. The reader takes the lines of the input in their order: a
-- full queue stops it for every lane. The lines are those that it sends, trimmed and not empty.
pub mod Backlog
pub mod Relief
pub mod Conserved
use tabularis_postgresql_plu.Lanes.{Lane, general, lifecycle, cancel_lane, lane_for}
use tabularis_postgresql_plu.Rpc.{peek_method, handle_line}
use tabularis_postgresql_plu.Rpc.Methods.{Handler}
use tabularis_postgresql_plu.Query.Server.{Result, ok, err}
use tabularis_postgresql_plu.Json.{Value}
use tabularis_postgresql_plu.Base.{
  ℕ, ◌-◌, ◌<◌, ◌≡◌, List, [], ◌∷◌, ◌++◌, Option, none, some, Text, codes, length,
}

-- REQUEST_QUEUE_CAPACITY, LIFECYCLE_QUEUE_CAPACITY and CANCEL_QUEUE_CAPACITY.
unfoldable pub capacity : Lane → ℕ
capacity general = 64
capacity lifecycle = 16
capacity cancel_lane = 16

-- WORKER_POOL_SIZE, LIFECYCLE_WORKER_COUNT, and the one worker of the cancel lane.
unfoldable pub worker_count : Lane → ℕ
worker_count general = 4
worker_count lifecycle = 2
worker_count cancel_lane = 1

-- A lane: the lines in its queue, those its workers are on, and how many workers are alive.
pub record LaneState : Type 0 where
  pub queued : List Text
  pub busy : List Text
  pub workers : ℕ

-- The lines that are not read yet, the lanes, and the bodies sent to the writer so far.
pub record Plant : Type 0 where
  pub unread : List Text
  pub general_lane : LaneState
  pub lifecycle_lane : LaneState
  pub relief_lane : LaneState
  pub bodies : List Text

unfoldable pub lane_of : Lane → Plant → LaneState
lane_of general p = p.general_lane
lane_of lifecycle p = p.lifecycle_lane
lane_of cancel_lane p = p.relief_lane

-- The plant with another lane, input and output.
unfoldable pub put : Lane → LaneState → List Text → List Text → Plant → Plant
put general s unread bodies p = record p { unread = unread; general_lane = s; bodies = bodies }
put lifecycle s unread bodies p = record p { unread = unread; lifecycle_lane = s; bodies = bodies }
put cancel_lane s unread bodies p = record p { unread = unread; relief_lane = s; bodies = bodies }

abbrev idle : Lane → LaneState
idle l = record { queued = []; busy = []; workers = worker_count l }

-- All workers are started before the first line is read.
unfoldable pub start : List Text → Plant
unfolding worker_count
start input = record {
  unread = input;
  general_lane = idle general;
  lifecycle_lane = idle lifecycle;
  relief_lane = idle cancel_lane;
  bodies = [];
}

unfoldable pub serialized : (Value → Result Text Text) → Value → Text
serialized to_string response = elim (to_string response) [
  | ok s ↦ s
  | err e ↦
      codes "{\"jsonrpc\":\"2.0\",\"error\":{\"code\":-32603,\"message\":\"serialization failed: "
      ++ (e ++ codes "\"},\"id\":null}")
]

-- What a worker sends: nothing for a notification.
unfoldable pub reply : (Value → Result Text Text) → Option Value → List Text
unfolding serialized
reply to_string none = []
reply to_string (some response) = serialized to_string response ∷ []

module _ {S : Type 0} (parse : Text → Result Text Value)
    (serve : Handler → Value → Value → S → Value × S) (to_string : Value → Result Text Text) where
  -- A step of one lane: the reader queues the next line, a worker takes the first line, is done with its
  -- line in some state of the program, or dies on it: by a panic, or because the writer is gone. `main`
  -- keeps the receivers, so that a lane without workers still queues.
  pub data Step (l : Lane) (p : Plant) : Plant → Type 0 where
    receives :
        (t : Text) (ts : List Text)
        → p.unread ≡ t ∷ ts
        → lane_for (peek_method parse t) ≡ l
        → length ((lane_of l p).queued) < capacity l
        → Step l p
            (put l (record (lane_of l p) { queued = (lane_of l p).queued ++ t ∷ [] }) ts p.bodies p)
    takes :
        (t : Text) (ts : List Text)
        → (lane_of l p).queued ≡ t ∷ ts
        → length ((lane_of l p).busy) < (lane_of l p).workers
        → Step l p (
            put l
              (record (lane_of l p) { queued = ts; busy = t ∷ (lane_of l p).busy })
              p.unread
              p.bodies
              p)
    finishes :
        (t : Text) (before behind : List Text) (s : S)
        → (lane_of l p).busy ≡ before ++ t ∷ behind
        → Step l p (
            put l
              (record (lane_of l p) { busy = before ++ behind })
              p.unread
              (p.bodies ++ reply to_string (handle_line parse serve t s).0)
              p)
    dies :
        (t : Text) (before behind : List Text)
        → (lane_of l p).busy ≡ before ++ t ∷ behind
        → Step l p (
            put l
              (record (lane_of l p) {
                busy = before ++ behind;
                workers = (lane_of l p).workers - 1;
              })
              p.unread
              p.bodies
              p)

  pub data Reach (p : Plant) : Plant → Type 0 where
    here : Reach p p
    next : {q r : Plant} (l : Lane) → Reach p q → Step l q r → Reach p r
