-- ===== src/Tests/Connections.antt =====
-- One connection, and the registry of connections, on concrete data.
use server_engine_v.Common.{
  ℕ, ◌+◌, ◌≡◌, refl, true, false, not, ◌&&◌, ◌||◌, List, [], ◌∷◌, ◌++◌, some, arith, ◌==◌,
  occurrences, contains, length, map, if◌then◌else◌, AllDistinct,
}
use server_engine_v.Text.{Text, codes, text_eq, text_empty}
use server_engine_v.Status.{unloaded, loaded, success, succeeded}
use server_engine_v.Policy.{demo}
use server_engine_v.Communication.Outbound.{OutboundMessage, OutboundWrite}
use server_engine_v.Communication.Session.{logged_in}
use server_engine_v.Communication.Protocol.{
  ServerResponse, ProtocolResponse, OutboundPayload, response, nothing, ClientMessage,
}
use server_engine_v.Communication.Connection.{
  Connection, ConnectionCall, commits_login, reserves_request, enqueues_response, takes_next,
  marks_written, begins_close, adds_subscription, removes_subscription, tears_down, create,
  reserve_request, request_outstanding, contains_request, commit_login, enqueue_response, try_next,
  arm_response_write_wait, wait_response_written,
}
use server_engine_v.Communication.Connection
use server_engine_v.Communication.Connection.Invariant.{IsWellFormed, run-create-IsWellFormed}
use server_engine_v.Communication.Connection.Requests.{
  reserve_request_lem, request_outstanding-try_next,
}
use server_engine_v.Communication.Connection.Subscriptions.{held, offered}
use server_engine_v.Communication.Connection.Registrations.{entries, held-run}
use server_engine_v.Communication.Connection.WriteWait.{reported, wait_response_written_lem}
use server_engine_v.Communication.Registry.{
  Store, Communication, EndpointConfiguration, TransportKind, Host, publish_server_state,
  route_client, register_connection, unregister_connection, start, connection_limit,
}
use server_engine_v.Communication.Registry.Startup.{is_startable, start_lem}
use server_engine_v.Communication.Registry.Broadcast.{Announces, publish_server_state_lem}
use server_engine_v.Communication.Registry.Routing.{Routes, is_target, recipients, route_client_lem}
use server_engine_v.Communication.Registry.Membership.{
  IsUnique, session_of, register_connection_lem, unregister_connection_lem,
}

abbrev result : ServerResponse
result = record {
  operation = 4;
  status = success;
  payload = nothing;
  state_project = unloaded;
  value = record { type = 0; size = 0; bits = 0 };
  diagnostics = [];
}

abbrev reply_to : ℕ → ProtocolResponse
reply_to request = record { request = request; result = result; release_request_id = true }

abbrev frame : ℕ → OutboundMessage OutboundPayload
frame request = record { estimated_bytes = 96; payload = response (reply_to request) }

abbrev write : ℕ → OutboundWrite OutboundPayload
write request = record { connection_sequence = 1; message = frame request }

abbrev life : List ConnectionCall
life =
    commits_login (codes "ada")
    ∷ reserves_request 5
    ∷ enqueues_response 5 result true
    ∷ takes_next
    ∷ marks_written (write 5)
    ∷ adds_subscription 3 (some 77)
    ∷ adds_subscription 4 (some 78)
    ∷ adds_subscription 4 (some 79)
    ∷ removes_subscription 3
    ∷ begins_close
    ∷ tears_down
    ∷ []

run-create-IsWellFormed_example : IsWellFormed (Connection.run (create 12 1000 true) life)
run-create-IsWellFormed_example = run-create-IsWellFormed 12 1000 true life (omega arith)

abbrev waiting : Connection
waiting = record {
  references = 1;
  session = record { session_id = 12; session_state = logged_in; client_name = codes "ada" };
  login_committed = true;
  close_started = false;
  has_notify = true;
  notified = 0;
  outbound = record {
    limit = 1000;
    queue = frame 5 ∷ [];
    bytes = 96;
    is_closing = false;
    next_sequence = 1;
    last_written = 0;
  };
  awaited_written_request = 0;
  awaited_written = false;
  outstanding_requests = 5 ∷ 6 ∷ [];
  subscriptions = record { id = 3; registration = some 77 } ∷ [];
  unregistered = [];
}

reserve_request_lem_example :
    ((reserve_request waiting 8).1
      ≡ (not (8 == 0) && not waiting.close_started && not (request_outstanding waiting 8)))
    × (request_outstanding (reserve_request waiting 8).0 6
        ≡ (request_outstanding waiting 6 || ((reserve_request waiting 8).1 && 8 == 6)))
reserve_request_lem_example = reserve_request_lem waiting 8 6

request_outstanding-try_next_example :
    request_outstanding (try_next waiting).0 5
    ≡ (request_outstanding waiting 5 && not (true && 5 == 5))
request_outstanding-try_next_example =
    request_outstanding-try_next waiting (frame 5) [] (reply_to 5) 5 refl refl refl

held-run_example :
    let c = Connection.run (create 7 1000 true) life in
    ((x : ℕ) → held x c ≡ occurrences x (offered life))
    × ((x : ℕ)
        → occurrences x (Connection.step c tears_down).unregistered ≡ occurrences x (offered life))
    × ((i j : ℕ)
        → entries j (Connection.step c (removes_subscription i)).subscriptions
          ≡ (if i == j then 0 else entries j c.subscriptions))
held-run_example = held-run 7 1000 true life

abbrev writing : List ConnectionCall
writing = reserves_request 9 ∷ takes_next ∷ marks_written (write 5) ∷ []

wait_response_written_lem_example :
    (wait_response_written (Connection.run (arm_response_write_wait waiting 5) writing) 5).1
    ≡ reported 5 writing
wait_response_written_lem_example =
    wait_response_written_lem 5 waiting writing (refl, (refl, (refl, tt)))

writing_reported : reported 5 writing ≡ true
unfolding reported
writing_reported = refl

-- Addresses 1 and 2 hold logged-in connections, every other address a new one.
abbrev named : ℕ → Text → Connection
named id name = record waiting {
  session = record { session_id = id; session_state = logged_in; client_name = name };
}

abbrev people : Store
people a =
    if a == 1
    then named 1 (codes "ada")
    else if a == 2
    then named 2 (codes "bob")
    else create a 1000 true

abbrev office : Communication
office = record {
  consoles = [];
  tcp_endpoints = 0 ∷ [];
  tcp_gate = record { active = 2; limit = 4 };
  next_session_id = 3;
  demo_minutes = 0;
  connections = 1 ∷ 2 ∷ [];
}

office-AllDistinct : AllDistinct office.connections
unfolding contains
office-AllDistinct = (refl, (refl, tt))

office-IsUnique : IsUnique people office.connections
unfolding contains
office-IsUnique = (office-AllDistinct, (refl, (refl, tt)))

publish_server_state_lem_example :
    Announces unloaded loaded
      (contains 2 office.connections)
      (people 2)
      (publish_server_state people office unloaded loaded 2)
publish_server_state_lem_example =
    publish_server_state_lem people office unloaded loaded 2 office-AllDistinct

abbrev hello : ClientMessage
hello = record { login = codes "bob"; arg = codes "hi"; parameters = [] }

route_client_lem_example :
    let r = route_client people office 1 hello in
    let speaks = (people 1).login_committed && not (people 1).close_started in
    let from = (people 1).session.client_name in
    Routes from hello (speaks && contains 2 office.connections) (people 2) (r.0 2)
    × (r.1 ≡ (if speaks then recipients from hello office.connections people else 0))
route_client_lem_example = route_client_lem people office 1 hello 2 office-AllDistinct

bob_alone : recipients (codes "ada") hello office.connections people ≡ 1
unfolding recipients is_target text_eq text_empty
bob_alone = refl

register_connection_lem_example :
    let r = register_connection people office 7 in
    (r.1
      ≡ not (
          contains 7 office.connections
          || contains (session_of people 7) (map (session_of people) office.connections)))
    × (r.0.connections ≡ (if r.1 then office.connections ++ 7 ∷ [] else office.connections))
    × IsUnique people r.0.connections
register_connection_lem_example = register_connection_lem people office 7 office-IsUnique

unregister_connection_lem_example :
    let r = unregister_connection people office 2 in
    (contains 1 r.1.connections ≡ (contains 1 office.connections && not (session_of people 1 == 2)))
    × (r.0 1 ≡ (
        if contains 1 office.connections && session_of people 1 == 2
        then Connection.teardown_subscriptions (people 1)
        else people 1))
    × IsUnique r.0 r.1.connections
unregister_connection_lem_example = unregister_connection_lem people office 2 1 office-IsUnique

abbrev endpoints : List EndpointConfiguration
endpoints =
    record { transport = TransportKind.console; protocol = [] }
    ∷ record { transport = TransportKind.tcp; protocol = codes "json" }
    ∷ []

-- The console starts, and the TCP endpoint does not.
abbrev half : Host
half = record { tcp_starts = λ i. false; console_starts = λ i. true }

start_lem_example :
    let r = start half endpoints demo 8 people office in
    (succeeded r.1 ≡ is_startable half endpoints)
    × (length r.0.1.consoles + length r.0.1.tcp_endpoints
        ≡ (if is_startable half endpoints then length endpoints else 0))
    × (r.0.1.connections ≡ [])
    × (r.0.1.tcp_gate ≡ record { active = 0; limit = connection_limit demo 8 })
    × (r.0.1.next_session_id ≡ 1)
start_lem_example = start_lem half endpoints demo 8 people office
