-- ===== src/Lanes.antt =====
-- src/main.rs: the reader of the input, which routes each line to the queue of its lane.
pub mod Routing
pub mod Workers
pub mod Exit
use tabularis_postgresql_plu.Rpc.{peek_method}
use tabularis_postgresql_plu.Query.Server.{Result}
use tabularis_postgresql_plu.Json.{Value}
use tabularis_postgresql_plu.Base.{
  ◌≡◌, refl, Bool, true, false, ◌||◌, List, [], ◌∷◌, ◌++◌, Option, none, some, Text, codes,
  if◌then◌else◌, is_nil, trim, one_of, text_eq,
}

pub data Lane : Type 0 where
  general lifecycle cancel_lane : Lane

abbrev lifecycle_methods : List Text
lifecycle_methods =
    codes "ping" ∷ codes "test_connection" ∷ codes "initialize" ∷ codes "shutdown" ∷ []

unfoldable pub lane_for : Option Text → Lane
unfolding one_of text_eq
lane_for none = general
lane_for (some method) =
    if text_eq method (codes "cancel")
    then cancel_lane
    else if one_of method lifecycle_methods
    then lifecycle
    else general

-- What `next_line` gives, with the answer of the send behind a line: false if the lane's workers are
-- gone.
pub data Read : Type 0 where
  line : Text → Bool → Read
  end_of_input read_error : Read

-- The contents sent to the three channels so far.
pub record Queues : Type 0 where
  pub requests : List Text
  pub lifecycles : List Text
  pub cancels : List Text

unfoldable pub send : Lane → Text → Queues → Queues
send general t q = record {
  requests = q.requests ++ t ∷ [];
  lifecycles = q.lifecycles;
  cancels = q.cancels;
}
send lifecycle t q = record {
  requests = q.requests;
  lifecycles = q.lifecycles ++ t ∷ [];
  cancels = q.cancels;
}
send cancel_lane t q = record {
  requests = q.requests;
  lifecycles = q.lifecycles;
  cancels = q.cancels ++ t ∷ [];
}

module _ (parse : Text → Result Text Value) where
  unfoldable pub run_reader : List Read → Queues → Queues
  unfolding lane_for send peek_method trim
  run_reader [] q = q
  run_reader (end_of_input ∷ reads) q = q
  run_reader (read_error ∷ reads) q = q
  run_reader (line t taken ∷ reads) q =
      let skip = run_reader reads q in
      let sent = run_reader reads (send (lane_for (peek_method parse (trim t))) (trim t) q) in
      if is_nil (trim t) then skip else if taken then sent else q
