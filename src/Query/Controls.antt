-- ===== src/Query/Controls.antt =====
-- src/handlers/query.rs: the handlers `release_session` and `cancel`. Whether other runs wait for the slot
-- enters as an argument; the action that `cancel` starts is given back.
use tabularis_postgresql_plu.SessionMap.Runs.{System, release_session}
use tabularis_postgresql_plu.Cancel.{cancel}
use tabularis_postgresql_plu.Query.Server.{Server}
use tabularis_postgresql_plu.Rpc.{ok_response, error_response}
use tabularis_postgresql_plu.Json.{Value, null, bool, object, end, field, get, get_str, as_u64}
use tabularis_postgresql_plu.Base.{ℕ, Bool, true, List, Option, none, some, ◌>>=◌, Text, codes}

module _ (srv : Server) where
  open srv use {Session}

  unfoldable pub released_by : Value → Option Text → Bool → System Session → Value × System Session
  unfolding release_session ok_response error_response
  released_by id none waiting w = (error_response id 32601 (codes "session_id is required"), w)
  released_by id (some session_id) waiting w = (
    ok_response id (object (field (codes "released") (bool true) end)),
    release_session srv session_id waiting w,
  )

  unfoldable pub release_session_handler :
      Value → Value → Bool → System Session → Value × System Session
  unfolding released_by get_str
  release_session_handler id params waiting w =
      released_by id (get_str params (codes "session_id")) waiting w

module _ {T : Type 0} where
  unfoldable pub cancelled_by : Value → Option ℕ → List (ℕ × T) → Value × Option T × List (ℕ × T)
  unfolding cancel ok_response error_response
  cancelled_by id none m = (error_response id 32601 (codes "id (a u64) is required"), none, m)
  cancelled_by id (some target_id) m =
      (ok_response id null, (cancel target_id m).0, (cancel target_id m).1)

  unfoldable pub cancel_handler : Value → Value → List (ℕ × T) → Value × Option T × List (ℕ × T)
  unfolding cancelled_by get as_u64
  cancel_handler id params m = cancelled_by id (get params (codes "id") >>= as_u64) m
