-- ===== src/Server/Sessions.antt =====
-- server::execute_login, execute_connection_close and execute_client: the control messages of
-- connections. A connection is an address in the store.
use server_engine_v.Common.{ℕ, Bool, true, false, not, ◌||◌, Option, none, some, if◌then◌else◌}
use server_engine_v.Text.{Text}
use server_engine_v.Status.{success, communication_invalid_request}
use server_engine_v.Communication.Session.{login_succeeded}
use server_engine_v.Communication.Protocol.{ServerResponse, ClientMessage, state}
use server_engine_v.Communication.Connection.{commit_login, enqueue_response, begin_close}
use server_engine_v.Communication.Registry.{
  update, register_connection, unregister_connection, route_client,
}
use server_engine_v.Server.State.{Server, next_operation}
use server_engine_v.Server.Query.{new_response}

module _ {Project : Type 0} where
  -- (void)connection.enqueue_response(request, result)
  abbrev pub reply : Server Project → ℕ → ℕ → ServerResponse → Server Project
  reply s a request result = record s {
    store = update s.store a (enqueue_response (s.store a) request result true).0;
  }

  abbrev pub login_response : Server Project → ℕ → Bool → ServerResponse
  login_response s op true = record (new_response op) {
    status = success;
    payload = state;
    state_project = s.project_state_value;
  }
  login_response s op false = record (new_response op) { status = communication_invalid_request }

  -- The connection is registered only after its login is committed.
  abbrev pub try_login : Server Project → ℕ → Text → Server Project × Bool
  try_login s a name =
      let (c, result) = commit_login (s.store a) name in
      let s' : Server Project = record s { store = update s.store a c } in
      if not (login_succeeded result)
      then (s', false)
      else let (registry, done) = register_connection s'.store s'.communications a in
        (record s' { communications = registry }, done)

  abbrev pub login_at : Server Project → ℕ → ℕ → Text → Server Project
  login_at s a request name =
      let (s₁, op) = next_operation s in
      let (s₂, done) = try_login s₁ a name in reply s₂ a request (login_response s₂ op done)

  unfoldable pub execute_login : Server Project → Option ℕ → ℕ → Text → Server Project
  execute_login s none request name = s
  execute_login s (some a) request name = login_at s a request name

  abbrev pub close_at : Server Project → ℕ → Server Project
  close_at s a =
      let store = update s.store a (begin_close (s.store a)).0 in
      let (store', registry) =
        unregister_connection store s.communications (store a).session.session_id in
      record s { store = store'; communications = registry }

  unfoldable pub execute_connection_close : Server Project → Option ℕ → Server Project
  execute_connection_close s none = s
  execute_connection_close s (some a) = close_at s a

  abbrev pub client_at : Server Project → ℕ → ℕ → ClientMessage → Server Project
  client_at s a request m =
      let (s₁, op) = next_operation s in
      if not (s.store a).login_committed || (s.store a).close_started
      then reply s₁ a request (record (new_response op) { status = communication_invalid_request })
      else reply (record s₁ { store = (route_client s₁.store s₁.communications a m).0 }) a request
          (record (new_response op) { status = success })

  unfoldable pub execute_client : Server Project → Option ℕ → ℕ → ClientMessage → Server Project
  execute_client s none request m = s
  execute_client s (some a) request m = client_at s a request m
