-- ===== src/Server/Loop.antt =====
-- server::run and server::shutdown: the control loop. The clock readings of a round, the calls that
-- other threads make on the request queue and on a connection during a wait, and the end of each
-- wait are inputs.
use mathlib.Core.Option
use server_engine_v.Common.{
  ℕ, Bool, true, false, not, ◌++◌, Option, none, some, List, [], ◌∷◌, if◌then◌else◌,
}
use server_engine_v.Status.{unloaded}
use server_engine_v.Policy.{RequestKind, shutdown}
use server_engine_v.License.{valid_at, clear_lease, clear_license}
use server_engine_v.Communication.RequestQueue.{
  QueueCall, stop_accepting_and_discard, wait_pop_until,
}
use server_engine_v.Communication.RequestQueue
use server_engine_v.Communication.Protocol.{ServerResponse}
use server_engine_v.Communication.Connection.{
  Connection, ConnectionCall, arm_response_write_wait, wait_response_written,
}
use server_engine_v.Communication.Connection
use server_engine_v.Communication.Registry.{update, publish_server_state, stop}
use server_engine_v.Server.Engine.{Engine}
use server_engine_v.Server.State.{
  Server, ServerRequest, RequestOrigin, connection_origin, console_origin, no_origin,
  ControlMessage, request_message, login_message, close_message, client_control_message,
}
use server_engine_v.Server.Dispatch.{execute_message}
use server_engine_v.Server.Sessions.{reply, execute_login, execute_connection_close, execute_client}

-- One turn of the loop: the clock before the wait, what other threads do to the queue during it, the
-- clock after it, and what the writer does while a shutdown answer is awaited.
pub record Round : Type 0 where
  pub before : ℕ
  pub arrivals : List (QueueCall ControlMessage)
  pub after : ℕ
  pub writer : List ConnectionCall

unfoldable pub is_shutdown : RequestKind → Bool
is_shutdown shutdown = true
is_shutdown _ = false

module _ {Project : Type 0} where
  abbrev pub arm_written : Server Project → RequestOrigin → Server Project
  arm_written s (connection_origin a request) = record s {
    store = update s.store a (arm_response_write_wait (s.store a) request);
  }
  arm_written s console_origin = s
  arm_written s no_origin = s

  abbrev pub present : Server Project → RequestOrigin → ServerResponse → Server Project
  present s (connection_origin a request) r = reply s a request r
  present s console_origin r = record s { printed = s.printed ++ r ∷ [] }
  present s no_origin r = s

  abbrev pub wait_written : Server Project → RequestOrigin → List ConnectionCall → Server Project
  wait_written s (connection_origin a request) writer = record s {
    store = update s.store a (wait_response_written (Connection.run (s.store a) writer) request).0;
  }
  wait_written s console_origin writer = s
  wait_written s no_origin writer = s

  unfoldable pub shut_down : Server Project → Server Project
  shut_down s =
      let (store, registry) = stop s.store s.communications in
      record s {
        running = false;
        requests = stop_accepting_and_discard s.requests;
        store = store;
        communications = registry;
        project = none;
        project_state_value = unloaded;
        authentication_started = false;
        lease = clear_lease s.lease;
        identity_started = false;
        license = clear_license s.license;
      }

module _ {Project Image : Type 0} (e : Engine Project Image) where
  -- The branch of run for a server_request_message.
  unfoldable pub handle_request :
      Server Project → ServerRequest → RequestOrigin → List ConnectionCall → Server Project
  unfolding is_shutdown
  handle_request s request origin writer =
      let (s₁, result) = execute_message e s request in
      let ends = is_shutdown request.kind in
      let s₂ = if ends then arm_written s₁ origin else s₁ in
      let s₃ = present s₂ origin result in
      let s₄ = if ends then wait_written s₃ origin writer else s₃ in
      record s₄ {
        store =
            publish_server_state s₄.store s₄.communications s.project_state_value
              s₄.project_state_value;
      }

  unfoldable pub handle : Server Project → ControlMessage → List ConnectionCall → Server Project
  handle s (request_message request identity origin) writer = handle_request s request origin writer
  handle s (login_message connection request name) writer = execute_login s connection request name
  handle s (close_message connection) writer = execute_connection_close s connection
  handle s (client_control_message connection request m) writer =
      execute_client s connection request m

  abbrev pub handle_popped : Server Project → Option ControlMessage → Round → Server Project
  handle_popped s none round = record s { running = false }
  handle_popped s (some m) round =
      if not (valid_at s.lease round.after)
      then record s { running = false }
      else handle s m round.writer

  -- One turn of the loop, entered while the server runs.
  unfoldable pub turn : Server Project → Round → Server Project
  turn s round =
      if not (valid_at s.lease round.before)
      then record s { running = false }
      else let (requests, popped) = wait_pop_until (RequestQueue.run s.requests round.arrivals) in
        handle_popped (record s { requests = requests }) popped round

  -- The loop over the rounds that the environment provides; `none` while it still waits for more.
  unfoldable pub run_loop : Server Project → List Round → Option (Server Project)
  run_loop s [] = if s.running then none else some s
  run_loop s (round ∷ rounds) =
      let rest = run_loop (turn s round) rounds in if s.running then rest else some s

  -- The loop, and the shutdown behind it.
  unfoldable pub run : Server Project → List Round → Option (Server Project)
  run s rounds = Option.map shut_down (run_loop s rounds)
