-- ===== src/Server/LeaseKept.antt =====
-- The lease during the turns of the control loop (server::run).
use server_engine_v.Common.{ℕ, ◌≡◌, refl, Option, none, some, List, arith}
use server_engine_v.Communication.RequestQueue.{wait_pop_until}
use server_engine_v.Communication.RequestQueue
use server_engine_v.Server.Engine.{Engine}
use server_engine_v.Text.{Text}
use server_engine_v.Policy.{RequestKind}
use server_engine_v.Policy
use server_engine_v.Communication.Protocol.{ClientMessage}
use server_engine_v.Communication.Connection.{ConnectionCall}
use server_engine_v.Server.Control
use server_engine_v.Server.Conditions
use server_engine_v.Server.Dispatch.{dispatch, execute, execute_message}
use server_engine_v.Server.Sessions.{execute_login, execute_connection_close, execute_client}
use server_engine_v.Server.State.{
  Server, ControlMessage, request_message, login_message, close_message, client_control_message,
  ServerRequest, RequestOrigin, connection_origin, next_operation,
}
use server_engine_v.Server.Loop.{handle_request, Round, turn, handle, handle_popped}

module _ {Project : Type 0} where
  login-lease :
      (s : Server Project) (a : Option ℕ) (request : ℕ) (name : Text)
      → (execute_login s a request name).lease ≡ s.lease
  unfolding execute_login next_operation
  login-lease s none request name = refl
  login-lease s (some a) request name = ground arith

  close-lease : (s : Server Project) (a : Option ℕ) → (execute_connection_close s a).lease ≡ s.lease
  unfolding execute_connection_close
  close-lease s none = refl
  close-lease s (some a) = refl

  client-lease :
      (s : Server Project) (a : Option ℕ) (request : ℕ) (m : ClientMessage)
      → (execute_client s a request m).lease ≡ s.lease
  unfolding execute_client next_operation
  client-lease s none request m = refl
  client-lease s (some a) request m = ground arith

module _ {Project Image : Type 0} (e : Engine Project Image) where
  dispatch-lease :
      (kind : RequestKind) (s : Server Project) (r : ServerRequest) (op : ℕ)
      → (dispatch e kind s r op).0.lease ≡ s.lease
  unfolding dispatch Control.load Control.publish Control.build Control.rebuild Control.unload
      Control.run_project Control.freeze_project Conditions.snap_ic Conditions.reset_ic
  dispatch-lease Policy.load s r op = ground arith
  dispatch-lease _ s r op = ground arith

  handle_request-lease :
      (s : Server Project) (r : ServerRequest) (o : RequestOrigin) (w : List ConnectionCall)
      → (handle_request e s r o w).lease ≡ s.lease
  unfolding handle_request execute_message execute next_operation
  handle_request-lease s r (connection_origin a request) w =
      ground (arith, dispatch-lease r.kind (next_operation s).0 r s.next_operation_value)
  handle_request-lease s r _ w =
      ground (arith, dispatch-lease r.kind (next_operation s).0 r s.next_operation_value)

  handle-lease :
      (s : Server Project) (m : ControlMessage) (w : List ConnectionCall)
      → (handle e s m w).lease ≡ s.lease
  unfolding handle
  handle-lease s (request_message r i o) w = handle_request-lease s r o w
  handle-lease s (login_message a request name) w = login-lease s a request name
  handle-lease s (close_message a) w = close-lease s a
  handle-lease s (client_control_message a request m) w = client-lease s a request m

  popped-lease :
      (s : Server Project) (m : Option ControlMessage) (round : Round)
      → (handle_popped e s m round).lease ≡ s.lease
  popped-lease s none round = refl
  popped-lease s (some m) round = ground (arith, handle-lease s m round.writer)

  pub turn-lease : (s : Server Project) (round : Round) → (turn e s round).lease ≡ s.lease
  unfolding turn
  turn-lease s round =
      let waited = wait_pop_until (RequestQueue.run s.requests round.arrivals) in
      ground (arith, popped-lease (record s { requests = waited.0 }) waited.1 round)
