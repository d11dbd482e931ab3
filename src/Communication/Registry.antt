-- ===== src/Communication/Registry.antt =====
-- communication/communication.{hpp,cpp}: the endpoints of a Server and the registry of logged-in
-- connections. A connection is an address in the store that the registry's pointers refer to.
-- Whether an endpoint's backend starts is the host's choice, a parameter. `start` is taken up to the first client:
-- the worker threads of endpoints that are started may already admit clients, which move the gate and the next session
-- id, while the later endpoints start.
pub mod Startup
pub mod Broadcast
pub mod Routing
pub mod Membership
pub mod Identity
use server_engine_v.Common.{
  ℕ, suc, ◌+◌, ◌≡◌, Bool, true, false, not, ◌&&◌, ◌||◌, List, [], ◌∷◌, ◌++◌, ◌==◌, if◌then◌else◌,
}
use server_engine_v.Text.{Text, codes, text_eq, text_empty}
use server_engine_v.Status.{
  ServerStatus, success, unsupported, communication_start_failed, succeeded, ProjectState,
  project_state_eq,
}
use server_engine_v.Policy.{ServerMode, full, demo}
use server_engine_v.Communication.Protocol.{ClientMessage, ClientAction}
use server_engine_v.Communication.Gate.{Gate}
use server_engine_v.Communication.Gate
use server_engine_v.Communication.Connection.{
  Connection, begin_close, teardown_subscriptions, enqueue_server_state, enqueue_client_action,
}

-- The connection objects, by address.
abbrev pub Store : Type 0
Store = ℕ → Connection

abbrev pub update : Store → ℕ → Connection → Store
update s a c b = if b == a then c else s b

pub data TransportKind : Type 0 where
  console tcp : TransportKind

pub record EndpointConfiguration : Type 0 where
  pub transport : TransportKind
  pub protocol : Text

-- An endpoint is named by its place in the configuration.
pub record Communication : Type 0 where
  pub consoles : List ℕ
  pub tcp_endpoints : List ℕ
  pub tcp_gate : Gate
  pub next_session_id : ℕ
  pub demo_minutes : ℕ
  pub connections : List ℕ

-- Whether tcp_endpoint::start and server_console::start succeed.
pub record Host : Type 0 where
  pub tcp_starts : ℕ → Bool
  pub console_starts : ℕ → Bool

-- begin_close and teardown_subscriptions on each registered connection.
unfoldable pub close_all : Store → List ℕ → Store
close_all s [] = s
close_all s (a ∷ as') = close_all (update s a (teardown_subscriptions (begin_close (s a)).0)) as'

unfoldable pub stop : Store → Communication → Store × Communication
stop s c =
    (close_all s c.connections, record c { consoles = []; tcp_endpoints = []; connections = [] })

unfoldable pub is_tcp : TransportKind → Bool
is_tcp console = false
is_tcp tcp = true

-- What one turn of the loop over the endpoints does: start it, or fail.
abbrev pub start_endpoint :
    Host → ℕ → EndpointConfiguration → Communication → Communication × ServerStatus
start_endpoint h i e c =
    if is_tcp e.transport
    then (if not (text_eq e.protocol (codes "json"))
        then (c, unsupported)
        else if not (h.tcp_starts i)
        then (c, communication_start_failed)
        else (record c { tcp_endpoints = c.tcp_endpoints ++ i ∷ [] }, success))
    else if not (h.console_starts i)
    then (c, communication_start_failed)
    else (record c { consoles = c.consoles ++ i ∷ [] }, success)

-- The loop, from the endpoint at index `i` on. A failure stops what was started.
unfoldable pub start_endpoints :
    Host
    → ℕ
    → List EndpointConfiguration
    → Store
    → Communication
    → (Store × Communication) × ServerStatus
start_endpoints h i [] s c = ((s, c), success)
start_endpoints h i (e ∷ es) s c =
    let (c', status) = start_endpoint h i e c in
    let rest = start_endpoints h (suc i) es s c' in
    if succeeded status then rest else (stop s c', status)

abbrev pub is_empty : List ℕ → Bool
is_empty [] = true
is_empty (x ∷ xs) = false

-- The console or the TCP endpoints must give at least one way in.
abbrev pub finish_start :
    (Store × Communication) × ServerStatus → (Store × Communication) × ServerStatus
finish_start ((s, c), status) =
    if not (succeeded status)
    then ((s, c), status)
    else if is_empty c.consoles && is_empty c.tcp_endpoints
    then ((s, c), communication_start_failed)
    else ((s, c), success)

unfoldable pub connection_limit : ServerMode → ℕ → ℕ
connection_limit full max_connections = max_connections
connection_limit demo max_connections = 1

unfoldable pub lifetime_minutes : ServerMode → ℕ
lifetime_minutes full = 0
lifetime_minutes demo = 5

-- The gate and the session ids are those that no client has used yet.
unfoldable pub start :
    Host
    → List EndpointConfiguration
    → ServerMode
    → ℕ
    → Store
    → Communication
    → (Store × Communication) × ServerStatus
start h endpoints mode max_connections s c =
    let (s', c') = stop s c in
    finish_start (
      start_endpoints h 0 endpoints s' (record c' {
        tcp_gate = Gate.reset c'.tcp_gate (connection_limit mode max_connections);
        next_session_id = 1;
        demo_minutes = lifetime_minutes mode;
      }))

-- The predicate of register_connection's find_if over the registered addresses.
unfoldable pub is_registered : Store → ℕ → List ℕ → Bool
is_registered s a [] = false
is_registered s a (b ∷ bs) =
    (b == a || (s b).session.session_id == (s a).session.session_id) || is_registered s a bs

unfoldable pub register_connection : Store → Communication → ℕ → Communication × Bool
register_connection s c a =
    if is_registered s a c.connections
    then (c, false)
    else (record c { connections = c.connections ++ a ∷ [] }, true)

-- unregister_connection: the first registered connection of that session id is torn down and
-- leaves the registry.
unfoldable pub unregister_first : Store → ℕ → List ℕ → Store × List ℕ
unregister_first s id [] = (s, [])
unregister_first s id (b ∷ bs) =
    let (s', rest) = unregister_first s id bs in
    if (s b).session.session_id == id
    then (update s b (teardown_subscriptions (s b)), bs)
    else (s', b ∷ rest)

unfoldable pub unregister_connection : Store → Communication → ℕ → Store × Communication
unregister_connection s c id =
    let (s', connections) = unregister_first s id c.connections in
    (s', record c { connections = connections })

abbrev pub notify_state : ProjectState → ProjectState → Connection → Connection
notify_state o n c = if c.login_committed then (enqueue_server_state c o n).0 else c

unfoldable pub publish_loop : ProjectState → ProjectState → List ℕ → Store → Store
publish_loop o n [] s = s
publish_loop o n (a ∷ as') s = publish_loop o n as' (update s a (notify_state o n (s a)))

unfoldable pub publish_server_state : Store → Communication → ProjectState → ProjectState → Store
publish_server_state s c o n = if project_state_eq o n then s else publish_loop o n c.connections s

-- One turn of route_client's loop: skip, or enqueue the action.
unfoldable pub deliver : Text → ClientMessage → Connection → Connection × Bool
deliver from m c =
    if not c.login_committed || c.close_started
    then (c, false)
    else if not (text_empty m.login) && not (text_eq c.session.client_name m.login)
    then (c, false)
    else enqueue_client_action c (record { from = from; arg = m.arg; parameters = m.parameters })

unfoldable pub route_loop : Text → ClientMessage → List ℕ → Store → ℕ → Store × ℕ
route_loop from m [] s routed = (s, routed)
route_loop from m (a ∷ as') s routed =
    let (c, sent) = deliver from m (s a) in
    route_loop from m as' (update s a c) (if sent then suc routed else routed)

unfoldable pub route_client : Store → Communication → ℕ → ClientMessage → Store × ℕ
route_client s c sender m =
    if not (s sender).login_committed || (s sender).close_started
    then (s, 0)
    else route_loop (s sender).session.client_name m c.connections s 0
