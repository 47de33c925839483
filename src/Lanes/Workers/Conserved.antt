-- ===== src/Lanes/Workers/Conserved.antt =====
-- src/main.rs: what becomes of the lines that are queued, whatever the interleaving of the workers.
use tabularis_postgresql_plu.Lanes.{Lane, general, lifecycle, cancel_lane}
use tabularis_postgresql_plu.Lanes.Workers.{
  LaneState, Plant, lane_of, put, serialized, reply, Step, receives, takes, finishes, dies, Reach,
  here, next,
}
use tabularis_postgresql_plu.Rpc.{handle_line}
use tabularis_postgresql_plu.Rpc.Methods.{Handler}
use tabularis_postgresql_plu.Query.Server.{Result}
use tabularis_postgresql_plu.Json.{Value}
use tabularis_postgresql_plu.Base.{
  ℕ, ◌+◌, ◌≡◌, refl, sym, ap, ◌∙◌, List, [], ◌∷◌, ◌++◌, append_assoc, append-nil, map, Option, none,
  some, Text, text_eq, if◌then◌else◌, All, arith,
}

-- How often a line stands in a list.
unfoldable pub count : Text → List Text → ℕ
unfolding text_eq
count t [] = 0
count t (x ∷ xs) = let rest = count t xs in if text_eq x t then 1 + rest else rest

count-append : (t : Text) (xs ys : List Text) → count t (xs ++ ys) ≡ count t xs + count t ys
unfolding count
count-append t [] ys = omega arith
count-append t (x ∷ xs) ys = ground (arith, count-append t xs ys)

count_middle :
    (t x : Text) (before behind : List Text)
    → count t (before ++ x ∷ behind) ≡ count t (before ++ behind) + count t (x ∷ [])
unfolding count
count_middle t x before behind =
    ground (arith, count-append t before (x ∷ behind), count-append t before behind)

-- In the queue of a lane or with one of its workers.
unfoldable pub in_lane : Text → LaneState → ℕ
unfolding count
in_lane t s = count t s.queued + count t s.busy

unfoldable pub in_hand : Text → Plant → ℕ
unfolding in_lane
in_hand t p = in_lane t p.general_lane + in_lane t p.lifecycle_lane + in_lane t p.relief_lane

-- Not queued yet, or in a lane.
unfoldable pub pending : Text → Plant → ℕ
unfolding in_hand count
pending t p = count t p.unread + in_hand t p

pending-put :
    (t : Text) (l : Lane) (s : LaneState) (us bs : List Text) (p : Plant) (x : ℕ)
    → count t us + in_lane t s + x ≡ count t p.unread + in_lane t (lane_of l p)
    → pending t (put l s us bs p) + x ≡ pending t p
unfolding pending in_hand put lane_of
pending-put t general s us bs p x h = omega (arith, h)
pending-put t lifecycle s us bs p x h = omega (arith, h)
pending-put t cancel_lane s us bs p x h = omega (arith, h)

bodies-put :
    (l : Lane) (s : LaneState) (us bs : List Text) (p : Plant) → (put l s us bs p).bodies ≡ bs
unfolding put
bodies-put general s us bs p = refl
bodies-put lifecycle s us bs p = refl
bodies-put cancel_lane s us bs p = refl

-- What became of a line that no worker is on any more: its response, if it has one, or its worker died.
pub data Ended : Type 0 where
  answered : Text → Option Value → Ended
  abandoned : Text → Ended

abbrev pub line_of : Ended → Text
line_of (answered t response) = t
line_of (abandoned t) = t

-- One body for a response, none without one.
unfoldable pub sent : (Value → Result Text Text) → List Ended → List Text
unfolding serialized
sent to_string [] = []
sent to_string (answered t (some response) ∷ es) = serialized to_string response ∷ sent to_string es
sent to_string (answered t none ∷ es) = sent to_string es
sent to_string (abandoned t ∷ es) = sent to_string es

sent-append :
    (to_string : Value → Result Text Text) (es fs : List Ended)
    → sent to_string (es ++ fs) ≡ sent to_string es ++ sent to_string fs
unfolding sent
sent-append to_string [] fs = refl
sent-append to_string (answered t (some response) ∷ es) fs =
    ap (◌∷◌ (serialized to_string response)) (sent-append to_string es fs)
sent-append to_string (answered t none ∷ es) fs = sent-append to_string es fs
sent-append to_string (abandoned t ∷ es) fs = sent-append to_string es fs

sent_one :
    (to_string : Value → Result Text Text) (t : Text) (response : Option Value)
    → reply to_string response ≡ sent to_string (answered t response ∷ [])
unfolding reply sent
sent_one to_string t none = refl
sent_one to_string t (some response) = refl

map_lines : (es fs : List Ended) → map line_of (es ++ fs) ≡ map line_of es ++ map line_of fs
map_lines [] fs = refl
map_lines (e ∷ es) fs = ap (◌∷◌ (line_of e)) (map_lines es fs)

module _ {S : Type 0} {parse : Text → Result Text Value}
    {serve : Handler → Value → Value → S → Value × S} {to_string : Value → Result Text Text} where
  unfoldable pub ended_by : {l : Lane} {p q : Plant} → Step parse serve to_string l p q → List Ended
  unfolding handle_line
  ended_by (receives t ts e lane room) = []
  ended_by (takes t ts e free) = []
  ended_by (finishes t before behind s e) = answered t (handle_line parse serve t s).0 ∷ []
  ended_by (dies t before behind e) = abandoned t ∷ []

  unfoldable pub ended : {p q : Plant} → Reach parse serve to_string p q → List Ended
  unfolding ended_by
  ended here = []
  ended (next l r s) = ended r ++ ended_by s

  Step-pending :
      {l : Lane} {p q : Plant} (s : Step parse serve to_string l p q) (t : Text)
      → pending t q + count t (map line_of (ended_by s)) ≡ pending t p
  unfolding ended_by in_lane count
  Step-pending {l} {p} (receives x xs e lane room) t =
      pending-put t l _ xs p.bodies p 0
        (ground (arith, ap (count t) e, count-append t ((lane_of l p).queued) (x ∷ [])))
  Step-pending {l} {p} (takes x xs e free) t =
      pending-put t l _ p.unread p.bodies p 0 (ground (arith, ap (count t) e))
  Step-pending {l} {p} (finishes x before behind s e) t =
      pending-put t l _ p.unread _ p (count t (x ∷ []))
        (ground (arith, ap (count t) e, count_middle t x before behind))
  Step-pending {l} {p} (dies x before behind e) t =
      pending-put t l _ p.unread p.bodies p (count t (x ∷ []))
        (ground (arith, ap (count t) e, count_middle t x before behind))

  Reach-pending :
      {p q : Plant} (r : Reach parse serve to_string p q) (t : Text)
      → pending t q + count t (map line_of (ended r)) ≡ pending t p
  unfolding ended
  Reach-pending here t = unfold count in omega arith
  Reach-pending (next l r s) t = omega (
    arith,
    Reach-pending r t,
    Step-pending s t,
    ap (count t) (map_lines (ended r) (ended_by s)),
    count-append t (map line_of (ended r)) (map line_of (ended_by s)),
  )

  Step-bodies :
      {l : Lane} {p q : Plant} (s : Step parse serve to_string l p q)
      → q.bodies ≡ p.bodies ++ sent to_string (ended_by s)
  unfolding ended_by sent
  Step-bodies {l} {p} (receives x xs e lane room) =
      bodies-put l _ xs p.bodies p ∙ sym (append-nil p.bodies)
  Step-bodies {l} {p} (takes x xs e free) =
      bodies-put l _ p.unread p.bodies p ∙ sym (append-nil p.bodies)
  Step-bodies {l} {p} (finishes x before behind s e) =
      bodies-put l _ p.unread _ p
      ∙ ap (◌++◌ p.bodies) (sent_one to_string x (handle_line parse serve x s).0)
  Step-bodies {l} {p} (dies x before behind e) =
      bodies-put l _ p.unread p.bodies p ∙ sym (append-nil p.bodies)

  Reach-bodies :
      {p q : Plant} (r : Reach parse serve to_string p q)
      → q.bodies ≡ p.bodies ++ sent to_string (ended r)
  unfolding ended sent
  Reach-bodies {p} here = sym (append-nil p.bodies)
  Reach-bodies {p} (next l r s) =
      Step-bodies s
      ∙ (rw (Reach-bodies r, sent-append to_string (ended r) (ended_by s))
          (append_assoc p.bodies (sent to_string (ended r)) (sent to_string (ended_by s))))

module _ {S : Type 0} (parse : Text → Result Text Value)
    (serve : Handler → Value → Value → S → Value × S) (to_string : Value → Result Text Text) where
  -- A response is that of `handle_line` for its line, in some state of the program.
  unfoldable pub IsHandled : Ended → Type 0
  IsHandled (answered t response) = (s : S) × (response ≡ (handle_line parse serve t s).0)
  IsHandled (abandoned t) = Unit {0}

  All-append : (es fs : List Ended) → All IsHandled es → All IsHandled fs → All IsHandled (es ++ fs)
  All-append [] fs h k = k
  All-append (e ∷ es) fs h k = (h.0, All-append es fs h.1 k)

  Step-IsHandled :
      {l : Lane} {p q : Plant} (s : Step parse serve to_string l p q) → All IsHandled (ended_by s)
  unfolding ended_by IsHandled
  Step-IsHandled (receives t ts e lane room) = tt
  Step-IsHandled (takes t ts e free) = tt
  Step-IsHandled (finishes t before behind s e) = ((s, refl), tt)
  Step-IsHandled (dies t before behind e) = (tt, tt)

  Reach-IsHandled : {p q : Plant} (r : Reach parse serve to_string p q) → All IsHandled (ended r)
  unfolding ended
  Reach-IsHandled here = tt
  Reach-IsHandled (next l r s) =
      All-append (ended r) (ended_by s) (Reach-IsHandled r) (Step-IsHandled s)

  -- Each line, as often as it stands in the input, is not read yet, queued, with a worker, answered once,
  -- or was left by a worker that died. The bodies sent are one for each response that `handle_line` gave,
  -- and none for a line without a response, in the order in which the workers were done with the lines.
  pub Reach-conserved :
      {p q : Plant} (r : Reach parse serve to_string p q)
      → (q.bodies ≡ p.bodies ++ sent to_string (ended r))
        × ((t : Text) → pending t q + count t (map line_of (ended r)) ≡ pending t p)
        × All IsHandled (ended r)
  Reach-conserved r = (Reach-bodies r, Reach-pending r, Reach-IsHandled r)
