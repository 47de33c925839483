-- ===== src/Lanes/Routing.antt =====
-- The queues of the reader against its input, and the lanes against what is served.
use tabularis_postgresql_plu.Lanes.{
  Lane, general, lifecycle, cancel_lane, lane_for, Read, line, end_of_input, read_error, Queues,
  send, run_reader,
}
use tabularis_postgresql_plu.Rpc.{peek_method}
use tabularis_postgresql_plu.Query.Server.{Result}
use tabularis_postgresql_plu.Json.{Value}
use tabularis_postgresql_plu.Base.{
  ◌≡◌, refl, sym, ◌∙◌, Bool, true, false, List, [], ◌∷◌, ◌++◌, append_assoc, append-nil, Text,
  if◌then◌else◌, is_nil, trim, Bool-cases, inl, inr,
}

-- The lines that are read before the input ends, a read fails or a send is refused: trimmed, and the
-- empty ones left out.
unfoldable pub taken_lines : List Read → List Text
taken_lines [] = []
taken_lines (end_of_input ∷ reads) = []
taken_lines (read_error ∷ reads) = []
taken_lines (line t taken ∷ reads) =
    let rest = taken_lines reads in
    if is_nil (trim t) then rest else if taken then trim t ∷ rest else []

unfoldable pub same_lane : Lane → Lane → Bool
same_lane general general = true
same_lane lifecycle lifecycle = true
same_lane cancel_lane cancel_lane = true
same_lane _ _ = false

abbrev pub queue : Lane → Queues → List Text
queue general q = q.requests
queue lifecycle q = q.lifecycles
queue cancel_lane q = q.cancels

module _ (parse : Text → Result Text Value) where
  -- The lines of one lane, in their order.
  unfoldable pub lane_lines : Lane → List Text → List Text
  unfolding same_lane
  lane_lines lane [] = []
  lane_lines lane (t ∷ ts) =
      let rest = lane_lines lane ts in
      if same_lane (lane_for (peek_method parse t)) lane then t ∷ rest else rest

  queue-send :
      (lane : Lane) (t : Text) (q : Queues) (ts : List Text)
      → queue lane (send (lane_for (peek_method parse t)) t q) ++ lane_lines lane ts
        ≡ queue lane q ++ lane_lines lane (t ∷ ts)
  unfolding send lane_lines
  queue-send lane t q ts = sent (lane_for (peek_method parse t)) lane
    where
      sent :
          (to lane : Lane)
          → queue lane (send to t q) ++ lane_lines lane ts
            ≡ queue lane q
              ++ (if same_lane to lane then t ∷ lane_lines lane ts else lane_lines lane ts)
      sent general general = append_assoc q.requests (t ∷ []) (lane_lines general ts)
      sent general lifecycle = refl
      sent general cancel_lane = refl
      sent lifecycle general = refl
      sent lifecycle lifecycle = append_assoc q.lifecycles (t ∷ []) (lane_lines lifecycle ts)
      sent lifecycle cancel_lane = refl
      sent cancel_lane general = refl
      sent cancel_lane lifecycle = refl
      sent cancel_lane cancel_lane = append_assoc q.cancels (t ∷ []) (lane_lines cancel_lane ts)

  nothing_more : (lane : Lane) (q : Queues) → queue lane q ≡ queue lane q ++ lane_lines lane []
  unfolding lane_lines
  nothing_more lane q = sym (append-nil (queue lane q))

  -- Each queue gets exactly the lines of its lane, in the order of the input: no line is lost,
  -- repeated or overtaken within its lane.
  pub queue-run_reader :
      (lane : Lane) (reads : List Read) (q : Queues)
      → queue lane (run_reader parse reads q) ≡ queue lane q ++ lane_lines lane (taken_lines reads)
  unfolding run_reader taken_lines
  queue-run_reader lane [] q = nothing_more lane q
  queue-run_reader lane (end_of_input ∷ reads) q = nothing_more lane q
  queue-run_reader lane (read_error ∷ reads) q = nothing_more lane q
  queue-run_reader lane (line t taken ∷ reads) q = elim (Bool-cases (is_nil (trim t))) [
    | inl blank ↦ rw blank (queue-run_reader lane reads q)
    | inr full ↦
        elim taken
          as (λ b.
            queue lane (
              if is_nil (trim t)
              then run_reader parse reads q
              else if b
              then run_reader parse reads (send (lane_for (peek_method parse (trim t))) (trim t) q)
              else q)
            ≡ queue lane q
              ++ lane_lines lane (
                  if is_nil (trim t)
                  then taken_lines reads
                  else if b
                  then trim t ∷ taken_lines reads
                  else [])) [
                    | true ↦ rw full (
                        queue-run_reader lane reads
                          (send (lane_for (peek_method parse (trim t))) (trim t) q)
                        ∙ queue-send lane (trim t) q (taken_lines reads))
                    | false ↦ rw full (nothing_more lane q)
                  ]
  ]
