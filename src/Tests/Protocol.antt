-- ===== src/Tests/Protocol.antt =====
-- Lines of the protocol, through a parser that knows three of them.
use tabularis_postgresql_plu.Rpc.Methods.{Handler}
use tabularis_postgresql_plu.Rpc.{ok_response, handle_line, peek_method}
use tabularis_postgresql_plu.Rpc.Responses.{
  IsNotification, parsed_id, handle_line-silent, handle_line-id,
}
use tabularis_postgresql_plu.Lanes.{
  cancel_lane, lane_for, Read, line, end_of_input, Queues, run_reader,
}
use tabularis_postgresql_plu.Lanes.Routing.{lane_lines, taken_lines, queue, queue-run_reader}
use tabularis_postgresql_plu.Query.Server.{Result, ok, err}
use tabularis_postgresql_plu.Json.{
  Value, null, number, pos_int, string, object, end, field, get, get_field,
}
use tabularis_postgresql_plu.Base.{
  ℕ, suc, trim, ◌≡◌, ◌↔◌, refl, true, List, [], ◌∷◌, none, some, Text, codes, ◌==◌, if◌then◌else◌,
  text_eq,
}

abbrev cancel_request : Value
cancel_request =
    object (field (codes "method") (string (codes "cancel")) (field (codes "params") null end))

abbrev ping_request : Value
ping_request =
    object
      (field (codes "id") (number (pos_int 3)) (field (codes "method") (string (codes "ping")) end))

-- The line `c` cancels, `p` pings, and everything else is broken.
abbrev parse : Text → Result Text Value
parse [] = err (codes "EOF")
parse (c ∷ t) =
    if c == b'c'
    then ok cancel_request
    else if c == b'p'
    then ok ping_request
    else err (codes "expected value")

-- The handlers count their calls.
abbrev serve : Handler → Value → Value → ℕ → Value × ℕ
serve h id params n = (ok_response id null, suc n)

serve-id :
    (h : Handler) (id params : Value) (n : ℕ) → get (serve h id params n).0 (codes "id") ≡ some id
unfolding ok_response get get_field text_eq
serve-id h id params n = refl

handle_line-silent_example :
    ((handle_line parse serve (codes "c") 0).0 ≡ none)
    ↔ ((v : Value) × (parse (codes "c") ≡ ok v) × IsNotification v)
handle_line-silent_example = handle_line-silent parse serve (codes "c") 0

ping_response :
    (handle_line parse serve (codes "p") 0).0 ≡ some (ok_response (number (pos_int 3)) null)
unfolding handle_line get_field text_eq
ping_response = refl

handle_line-id_example :
    get (ok_response (number (pos_int 3)) null) (codes "id") ≡ some (parsed_id (parse (codes "p")))
handle_line-id_example =
    handle_line-id parse serve serve-id (codes "p") 0 (ok_response (number (pos_int 3)) null)
      ping_response

abbrev input : List Read
input =
    line (codes "p 1") true
    ∷ line (codes "  ") true
    ∷ line (codes " c") true
    ∷ line (codes "c 2") true
    ∷ end_of_input
    ∷ line (codes "c 3") true
    ∷ []

abbrev no_lines : Queues
no_lines = record { requests = []; lifecycles = []; cancels = [] }

queue-run_reader_example :
    queue cancel_lane (run_reader parse input no_lines)
    ≡ lane_lines parse cancel_lane (taken_lines input)
queue-run_reader_example = queue-run_reader parse cancel_lane input no_lines

two_cancels : lane_lines parse cancel_lane (taken_lines input) ≡ codes "c" ∷ codes "c 2" ∷ []
unfolding lane_lines taken_lines lane_for peek_method get_field text_eq trim
two_cancels = refl
