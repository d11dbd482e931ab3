-- ===== src/Server/Invariant.antt =====
-- The invariant of the control thread's state, kept by every message.
use server_engine_v.Common.{
  ℕ, ◌<◌, ◌^◌, ◌≢◌, ◌||◌, ◌∙◌, Bool, true, false, not, none, some, List, arith, if◌then◌else◌,
  Bool-cases, inl, inr,
}
use server_engine_v.Text.{Text}
use server_engine_v.Communication.Session.{login_succeeded}
use server_engine_v.Communication.Protocol.{ClientMessage, ServerResponse}
use server_engine_v.Communication.Connection.{
  Connection, ConnectionCall, id, commit_login, begin_close, enqueue_response,
}
use server_engine_v.Communication.Connection
use server_engine_v.Communication.Connection.Identity.{
  id-commit_login, id-begin_close, id-enqueue_response, id-run, id-arm_response_write_wait,
  id-wait_response_written,
}
use server_engine_v.Communication.Registry.{Store, update, route_client}
use server_engine_v.Communication.Registry.Membership.{
  IsUnique, register_connection_lem, unregister_connection_lem,
}
use server_engine_v.Communication.Registry.Identity.{
  SameIds, SameIds-IsUnique, update-SameIds, publish_server_state-SameIds, route_client-SameIds,
}
use server_engine_v.Server.Engine.{Engine}
use server_engine_v.Server.State.{
  Server, ServerRequest, RequestOrigin, connection_origin, console_origin, no_origin,
  ControlMessage, request_message, login_message, close_message, client_control_message,
  next_operation,
}
use server_engine_v.Server.Lifecycle.{EngineLaws, Agrees, execute_message-Moves}
use server_engine_v.Server.Announce.{execute_message-store}
use server_engine_v.Server.Dispatch.{execute_message}
use server_engine_v.Server.Sessions.{
  reply, try_login, login_at, close_at, client_at, execute_login, execute_connection_close,
  execute_client,
}
use server_engine_v.Server.Loop.{
  is_shutdown, present, arm_written, wait_written, handle_request, handle,
}

-- The Project agrees with the state, operation ids are nonzero 64-bit numbers, and the registry has
-- distinct connections of distinct sessions.
pub record IsSound {Project : Type 0} (s : Server Project) : Type 0 where
  pub agrees : Agrees s
  pub numbered : (s.next_operation_value ≢ 0) × (s.next_operation_value < 2 ^ 64)
  pub unique : IsUnique s.store s.communications.connections

module _ {Project : Type 0} where
  next_operation-IsSound : (s : Server Project) → IsSound s → IsSound (next_operation s).0
  unfolding next_operation
  next_operation-IsSound s v = record {
    agrees = v.agrees;
    numbered = ground arith;
    unique = v.unique;
  }

  -- A change of the store that keeps the session ids.
  store-IsSound :
      (s : Server Project) (t : Store)
      → SameIds s.store t
      → IsSound s
      → IsSound (record s { store = t })
  store-IsSound s t h v = record {
    agrees = v.agrees;
    numbered = v.numbered;
    unique = SameIds-IsUnique s.store t s.communications.connections h v.unique;
  }

  reply-IsSound :
      (s : Server Project) (a request : ℕ) (r : ServerResponse)
      → IsSound s
      → IsSound (reply s a request r)
  reply-IsSound s a request r v =
      store-IsSound s _
        (update-SameIds s.store a (enqueue_response (s.store a) request r true).0
          (id-enqueue_response (s.store a) request r true))
        v

  try_login-IsSound :
      (s : Server Project) (a : ℕ) (name : Text) → IsSound s → IsSound (try_login s a name).0
  try_login-IsSound s a name v =
      let c = (commit_login (s.store a) name).0 in
      let t = update s.store a c in
      let w = store-IsSound s t (update-SameIds s.store a c (id-commit_login (s.store a) name)) v in
      elim (Bool-cases (login_succeeded (commit_login (s.store a) name).1)) [
        | inr failed ↦ rw failed w
        | inl done ↦ rw done (record {
          agrees = w.agrees;
          numbered = w.numbered;
          unique = (register_connection_lem t s.communications a w.unique).2;
        })
      ]

  login-IsSound :
      (s : Server Project) (a request : ℕ) (name : Text)
      → IsSound s
      → IsSound (login_at s a request name)
  login-IsSound s a request name v =
      let s₁ = (next_operation s).0 in
      let s₂ = (try_login s₁ a name).0 in
      reply-IsSound s₂ a request _ (try_login-IsSound s₁ a name (next_operation-IsSound s v))

  close-IsSound : (s : Server Project) (a : ℕ) → IsSound s → IsSound (close_at s a)
  close-IsSound s a v =
      let store = update s.store a (begin_close (s.store a)).0 in
      let closed =
        store-IsSound s store
          (update-SameIds s.store a (begin_close (s.store a)).0 (id-begin_close (s.store a))) v in
      record {
        agrees = v.agrees;
        numbered = v.numbered;
        unique =
            (unregister_connection_lem store s.communications (store a).session.session_id a
              closed.unique).2;
      }

  client-IsSound :
      (s : Server Project) (a request : ℕ) (m : ClientMessage)
      → IsSound s
      → IsSound (client_at s a request m)
  client-IsSound s a request m v =
      let s₁ = (next_operation s).0 in
      let w = next_operation-IsSound s v in
      let routed = (route_client s₁.store s₁.communications a m).0 in
      let sent : Server Project = record s₁ { store = routed } in
      elim (Bool-cases (not (s.store a).login_committed || (s.store a).close_started)) [
        | inl silent ↦ rw silent (reply-IsSound s₁ a request _ w)
        | inr speaks ↦ rw speaks (
            reply-IsSound sent a request _
              (store-IsSound s₁ routed (route_client-SameIds s₁.store s₁.communications a m) w))
      ]

  present-IsSound :
      (s : Server Project) (o : RequestOrigin) (r : ServerResponse)
      → IsSound s
      → IsSound (present s o r)
  present-IsSound s (connection_origin a request) r v = reply-IsSound s a request r v
  present-IsSound s console_origin r v = record {
    agrees = v.agrees;
    numbered = v.numbered;
    unique = v.unique;
  }
  present-IsSound s no_origin r v = v

  arm_written-IsSound :
      (s : Server Project) (o : RequestOrigin) → IsSound s → IsSound (arm_written s o)
  arm_written-IsSound s (connection_origin a request) v =
      store-IsSound s _
        (update-SameIds s.store a _ (id-arm_response_write_wait (s.store a) request)) v
  arm_written-IsSound s console_origin v = v
  arm_written-IsSound s no_origin v = v

  wait_written-IsSound :
      (s : Server Project) (o : RequestOrigin) (w : List ConnectionCall)
      → IsSound s
      → IsSound (wait_written s o w)
  wait_written-IsSound s (connection_origin a request) w v =
      store-IsSound s _
        (update-SameIds s.store a _
          (id-wait_response_written (Connection.run (s.store a) w) request ∙ id-run (s.store a) w))
        v
  wait_written-IsSound s console_origin w v = v
  wait_written-IsSound s no_origin w v = v

  if-IsSound :
      (b : Bool) (s t : Server Project) → IsSound s → IsSound t → IsSound (if b then s else t)
  if-IsSound true s t v w = v
  if-IsSound false s t v w = w

module _ {Project Image : Type 0} (e : Engine Project Image) (laws : EngineLaws e) where
  execute_message-IsSound :
      (s : Server Project) (r : ServerRequest) → IsSound s → IsSound (execute_message e s r).0
  execute_message-IsSound s r v =
      let kept = execute_message-store e s r in
      let next = next_operation-IsSound s v in
      record {
        agrees = (execute_message-Moves e s r laws v.agrees).agrees;
        numbered = rw kept.2 next.numbered;
        unique = rw (kept.0, kept.1) v.unique;
      }

  handle_request-IsSound :
      (s : Server Project) (r : ServerRequest) (o : RequestOrigin) (w : List ConnectionCall)
      → IsSound s
      → IsSound (handle_request e s r o w)
  unfolding handle_request
  handle_request-IsSound s r o w v =
      let s₁ = (execute_message e s r).0 in
      let ends = is_shutdown r.kind in
      let v₁ = execute_message-IsSound s r v in
      let s₂ : Server Project = if ends then arm_written s₁ o else s₁ in
      let v₂ = if-IsSound ends (arm_written s₁ o) s₁ (arm_written-IsSound s₁ o v₁) v₁ in
      let s₃ = present s₂ o (execute_message e s r).1 in
      let v₃ = present-IsSound s₂ o (execute_message e s r).1 v₂ in
      let s₄ : Server Project = if ends then wait_written s₃ o w else s₃ in
      let v₄ = if-IsSound ends (wait_written s₃ o w) s₃ (wait_written-IsSound s₃ o w v₃) v₃ in
      store-IsSound s₄ _
        (publish_server_state-SameIds s₄.store s₄.communications s.project_state_value
          s₄.project_state_value)
        v₄

  -- Every message keeps the server sound: a Project is present exactly in the states other than
  -- UNLOADED, the next operation id is a nonzero 64-bit number, and the registered connections
  -- have distinct addresses and distinct session ids. It is assumed that a construction that
  -- succeeds hands out a Project.
  pub handle-IsSound :
      (s : Server Project) (m : ControlMessage) (w : List ConnectionCall)
      → IsSound s
      → IsSound (handle e s m w)
  unfolding handle execute_login execute_connection_close execute_client
  handle-IsSound s (request_message r i o) w v = handle_request-IsSound s r o w v
  handle-IsSound s (login_message none request name) w v = v
  handle-IsSound s (login_message (some a) request name) w v = login-IsSound s a request name v
  handle-IsSound s (close_message none) w v = v
  handle-IsSound s (close_message (some a)) w v = close-IsSound s a v
  handle-IsSound s (client_control_message none request m) w v = v
  handle-IsSound s (client_control_message (some a) request m) w v = client-IsSound s a request m v
