-- ===== src/Tests/Workers.antt =====
-- A cancel and a broken line through the lanes, and the end of the process.
use tabularis_postgresql_plu.Lanes.{general, cancel_lane, lane_for}
use tabularis_postgresql_plu.Lanes.Workers.{
  LaneState, Plant, receives, takes, finishes, dies, Reach, here, next, put, lane_of, capacity,
  worker_count, start, serialized, reply,
}
use tabularis_postgresql_plu.Lanes.Workers.Backlog.{open_lines, start-open_lines}
use tabularis_postgresql_plu.Lanes.Workers.Relief.{
  steps_left, worked, arrived, IsServed, Reach-IsServed,
}
use tabularis_postgresql_plu.Lanes.Workers.Conserved.{
  line_of, sent, ended, pending, count, IsHandled, Reach-conserved,
}
use tabularis_postgresql_plu.Lanes.Exit.{shutdown_grace, Worker, End, finished, aborted, shut_down}
use tabularis_postgresql_plu.Lanes.Exit.Deadline.{
  is_in_time, Yield, all_done, in_time, overdue, AreSettled, shut_down-exits,
}
use tabularis_postgresql_plu.Rpc.{ok_response, handle_line, peek_method}
use tabularis_postgresql_plu.Rpc.Methods.{Handler}
use tabularis_postgresql_plu.Query.Server.{Result, ok, err}
use tabularis_postgresql_plu.Json.{
  Value, null, number, pos_int, string, object, end, field, get_field,
}
use tabularis_postgresql_plu.Base.{
  ℕ, suc, ◌+◌, ◌*◌, ◌≤◌, ◌≡◌, refl, List, [], ◌∷◌, ◌++◌, none, some, Text, codes, map, All, ◌==◌,
  if◌then◌else◌, text_eq, arith,
}

abbrev cancel_request : Value
cancel_request =
    object (
      field (codes "id") (number (pos_int 3))
        (field (codes "method") (string (codes "cancel")) end))

-- The line `c` cancels, and everything else is broken.
abbrev parse : Text → Result Text Value
parse [] = err (codes "EOF")
parse (c ∷ t) = if c == b'c' then ok cancel_request else err (codes "expected value")

-- The handlers count their calls.
abbrev serve : Handler → Value → Value → ℕ → Value × ℕ
serve h id params n = (ok_response id null, suc n)

abbrev to_string : Value → Result Text Text
to_string v = ok (codes "{}")

abbrev idle : ℕ → LaneState
idle n = record { queued = []; busy = []; workers = n }

abbrev cancel_queued : Plant
cancel_queued = record {
  unread = codes "e" ∷ [];
  general_lane = idle 4;
  lifecycle_lane = idle 2;
  relief_lane = record { queued = codes "c" ∷ []; busy = []; workers = 1 };
  bodies = [];
}

abbrev both_queued : Plant
both_queued = record {
  unread = [];
  general_lane = record { queued = codes "e" ∷ []; busy = []; workers = 4 };
  lifecycle_lane = idle 2;
  relief_lane = record { queued = codes "c" ∷ []; busy = []; workers = 1 };
  bodies = [];
}

abbrev cancel_taken : Plant
cancel_taken = record {
  unread = [];
  general_lane = record { queued = codes "e" ∷ []; busy = []; workers = 4 };
  lifecycle_lane = idle 2;
  relief_lane = record { queued = []; busy = codes "c" ∷ []; workers = 1 };
  bodies = [];
}

abbrev both_taken : Plant
both_taken = record {
  unread = [];
  general_lane = record { queued = []; busy = codes "e" ∷ []; workers = 4 };
  lifecycle_lane = idle 2;
  relief_lane = record { queued = []; busy = codes "c" ∷ []; workers = 1 };
  bodies = [];
}

abbrev general_died : Plant
general_died = record {
  unread = [];
  general_lane = idle 3;
  lifecycle_lane = idle 2;
  relief_lane = record { queued = []; busy = codes "c" ∷ []; workers = 1 };
  bodies = [];
}

abbrev cancelled : Plant
cancelled = record {
  unread = [];
  general_lane = idle 3;
  lifecycle_lane = idle 2;
  relief_lane = idle 1;
  bodies = codes "{}" ∷ [];
}

abbrev input : List Text
input = codes "c" ∷ codes "e" ∷ []

-- The cancel is answered behind the death of the general worker.
lanes_run : Reach parse serve to_string (start input) cancelled
unfolding start put lane_of capacity worker_count reply serialized lane_for peek_method get_field
    text_eq handle_line
lanes_run =
    next {q = general_died} cancel_lane
      (next {q = both_taken} general
        (next {q = cancel_taken} general
          (next {q = both_queued} cancel_lane
            (next {q = cancel_queued} general
              (next {q = start input} cancel_lane here
                (receives (codes "c") (codes "e" ∷ []) refl refl (omega arith)))
              (receives (codes "e") [] refl refl (omega arith)))
            (takes (codes "c") [] refl (omega arith)))
          (takes (codes "e") [] refl (omega arith)))
        (dies (codes "e") [] [] refl))
      (finishes (codes "c") [] [] 0 refl)

start-open_lines_example : open_lines cancelled ≤ 103
start-open_lines_example = start-open_lines parse serve to_string input cancelled lanes_run

Reach-IsServed_example :
    (steps_left (lane_of cancel_lane cancelled) + worked cancel_lane lanes_run
      ≡ steps_left (lane_of cancel_lane (start input)) + 2 * arrived cancel_lane lanes_run)
    × IsServed parse serve to_string cancel_lane cancelled
unfolding lane_of
Reach-IsServed_example = Reach-IsServed parse serve to_string cancel_lane lanes_run 0 (omega arith)

Reach-conserved_example :
    (cancelled.bodies ≡ (start input).bodies ++ sent to_string (ended lanes_run))
    × ((t : Text)
        → pending t cancelled + count t (map line_of (ended lanes_run)) ≡ pending t (start input))
    × All (IsHandled parse serve to_string) (ended lanes_run)
Reach-conserved_example = Reach-conserved parse serve to_string lanes_run

abbrev done_soon : Worker
done_soon = record { finishes_at = some 12; yields_after = none }

-- It hangs, and takes 7 nanoseconds to come to an await point.
abbrev hanging : Worker
hanging = record { finishes_at = none; yields_after = some 7 }

abbrev tasks : List Worker
tasks = done_soon ∷ hanging ∷ hanging ∷ []

tasks-Yield : Yield (10 + shutdown_grace) tasks 14
unfolding is_in_time
tasks-Yield =
    in_time done_soon _ 14 refl (overdue hanging _ 7 7 refl (overdue hanging [] 7 0 refl all_done))

shut_down-exits_example :
    (exit : ℕ) × (ends : List End) × (shut_down tasks (some 11) none 10 ≡ some (exit, ends))
    × (exit ≤ 10 + shutdown_grace + 14)
    × AreSettled (10 + shutdown_grace) exit tasks ends
shut_down-exits_example = shut_down-exits (some 11) none 10 tasks-Yield

two_aborted :
    shut_down tasks (some 11) none 10
    ≡ some (10 + shutdown_grace + 14, finished ∷ aborted ∷ aborted ∷ [])
unfolding shut_down
two_aborted = refl

-- A worker that never comes to an await point keeps the process.
never_ends : shut_down (record { finishes_at = none; yields_after = none } ∷ []) none none 10 ≡ none
unfolding shut_down
never_ends = refl
