-- ===== src/Tests/Servers.antt =====
-- The server on concrete data: a Project is a number, an image the number that a reset installs.
use server_engine_v.Common.{
  ℕ, ◌<◌, ◌^◌, ◌≡◌, ◌≢◌, refl, true, false, ◌&&◌, List, [], ◌∷◌, none, some, arith, inl, inr,
  AllDistinct, contains,
}
use server_engine_v.Text.{Text, codes}
use server_engine_v.Status.{
  success, project_load_failed, unloaded, loaded, project_state_eq, succeeded,
}
use server_engine_v.Policy.{ServerMode, full, demo, is_demo_mutation}
use server_engine_v.Policy
use server_engine_v.License.{valid_at}
use server_engine_v.Communication.Session.{tcp, new_session}
use server_engine_v.Communication.RequestQueue.{pushes, new_queue}
use server_engine_v.Communication.Connection.{Connection, create}
use server_engine_v.Communication.Registry.{Store}
use server_engine_v.Communication.Registry.Membership.{IsUnique}
use server_engine_v.Server.Engine.{Engine, Outcome, QueryResult, ResetResult, OpenResult}
use server_engine_v.Server.State.{
  Server, ServerRequest, no_origin, request_message, login_message, next_operation,
}
use server_engine_v.Server.Control
use server_engine_v.Server.Dispatch.{dispatch, execute, execute_message}
use server_engine_v.Server.Loop.{Round, handle, run, turn}
use server_engine_v.Server.Lifecycle.{Agrees, EngineLaws, Moves, execute_message-Moves}
use server_engine_v.Server.Reports.{Reports, is_control, execute_message-Reports}
use server_engine_v.Server.Announce.{next_operation_lem}
use server_engine_v.Server.Ending.{IsDown, run-IsDown, turn_outside_lease}
use server_engine_v.Server.Invariant.{IsSound, handle-IsSound}

abbrev constructs : Text → ℕ → Outcome ℕ
constructs [] op = record { status = project_load_failed; candidate = none; reported = [] }
constructs (c ∷ cs) op = record { status = success; candidate = some c; reported = [] }

abbrev engine : Engine ℕ ℕ
engine = record {
  is_absolute = λ path. false;
  join = λ base path. path;
  lexically_normal = λ path. path;
  load_project = constructs;
  publish_project = constructs;
  build_project = constructs;
  rebuild_project = constructs;
  shm_size = λ p. 8;
  runtime_size = λ p. 8;
  get_runtime_value = λ p name. (QueryResult.success, record { type = 1; size = 1; bits = p });
  snapshot_runtime_ic = λ p. some (p ∷ []);
  create_file = λ path size. true;
  flush_file = λ path. true;
  open_file = λ path. OpenResult.opened path;
  bind_image = λ bytes. some 3;
  reset_runtime_ic = λ p image options. (ResetResult.success, image);
}

constructs_builds :
    (path : Text) (op : ℕ)
    → succeeded (constructs path op).status ≡ true
    → (constructs path op).candidate ≢ none
unfolding succeeded
constructs_builds [] op h = cc
constructs_builds (c ∷ cs) op h = λ e. cc

engine_laws : EngineLaws engine
engine_laws = record {
  load_builds = constructs_builds;
  publish_builds = constructs_builds;
  build_builds = constructs_builds;
  rebuild_builds = constructs_builds;
}

abbrev store : Store
store a = create a 1000 true

abbrev server : Server ℕ
server = record {
  configuration_directory = codes "/srv";
  license = record { expiration = 900; limits = record { max_connections = 4 }; loaded = true };
  identity_started = true;
  lease = record {
    lease_id = codes "l";
    not_before = 100;
    expiration = 200;
    limits = record { max_connections = 4 };
    loaded = true;
  };
  authentication_started = true;
  mode = full;
  requests = new_queue;
  communications = record {
    consoles = 0 ∷ [];
    tcp_endpoints = [];
    tcp_gate = record { active = 1; limit = 4 };
    next_session_id = 3;
    demo_minutes = 0;
    connections = 1 ∷ 2 ∷ [];
  };
  project = none;
  project_state_value = unloaded;
  next_operation_value = 0xffff_ffff_ffff_ffff;
  running = true;
  store = store;
  disk = [];
  printed = [];
}

abbrev request : Policy.RequestKind → ServerRequest
request kind = record {
  kind = kind;
  path = codes "plant";
  name = codes "x";
  snap_options = 0;
  reset_options = 0;
}

server-Agrees : Agrees server
unfolding project_state_eq
server-Agrees = refl

load_succeeds : (execute_message engine server (request Policy.load)).0.project_state_value ≡ loaded
unfolding execute_message Policy.allows execute dispatch Control.load next_operation Control.resolve
    succeeded
load_succeeds = refl

execute_message-Moves_example :
    let h = execute_message engine server (request Policy.load) in
    Moves Policy.load server h.0 h.1.status
execute_message-Moves_example =
    execute_message-Moves engine server (request Policy.load) engine_laws server-Agrees

abbrev demo_server : Server ℕ
demo_server = record server { mode = demo }

run-is_control : is_control Policy.run ≡ true
unfolding is_control
run-is_control = refl

execute_message-Reports_example :
    let h = execute_message engine server (request Policy.run) in
    Reports h.1.operation h.1.status h.1.diagnostics
execute_message-Reports_example =
    execute_message-Reports engine server (request Policy.run) run-is_control

next_operation_lem_example :
    ((next_operation server).1 ≢ 0)
    × ((next_operation server).0.next_operation_value ≢ 0)
    × ((next_operation server).0.next_operation_value < 2 ^ 64)
    × ((next_operation server).0.next_operation_value ≢ (next_operation server).1)
next_operation_lem_example = next_operation_lem server (λ e. ground arith) (omega arith)

-- Zero is skipped when the id wraps around.
operation_wraps : (next_operation server).0.next_operation_value ≡ 1
unfolding next_operation
operation_wraps = refl

registered-AllDistinct : AllDistinct server.communications.connections
unfolding contains
registered-AllDistinct = (refl, (refl, tt))

abbrev rounds : List Round
rounds =
    record {
      before = 150;
      arrivals =
          pushes (
            request_message (request Policy.load) (record { origin = tcp; name = codes "ada" })
              no_origin)
          ∷ [];
      after = 151;
      writer = [];
    }
    ∷ record { before = 200; arrivals = []; after = 200; writer = [] }
    ∷ []

run-IsDown_example : (t : Server ℕ) × (run engine server rounds ≡ some t) × IsDown t
run-IsDown_example = run-IsDown engine server rounds (inr (inl (omega arith)))

abbrev late : Round
late = record { before = 150; arrivals = []; after = 200; writer = [] }

late_outside : (valid_at server.lease 150 && valid_at server.lease 200) ≡ false
unfolding valid_at
late_outside = refl

turn_outside_lease_example :
    turn engine server late
    ≡ record server { running = false; requests = (turn engine server late).requests }
turn_outside_lease_example = turn_outside_lease engine server late late_outside

registered-IsUnique : IsUnique store server.communications.connections
unfolding create contains new_session
registered-IsUnique = (registered-AllDistinct, (refl, (refl, tt)))

server-IsSound : IsSound server
server-IsSound = record {
  agrees = server-Agrees;
  numbered = ((λ e. ground arith), omega arith);
  unique = registered-IsUnique;
}

handle-IsSound_example : IsSound (handle engine server (login_message (some 7) 5 (codes "eve")) [])
handle-IsSound_example =
    handle-IsSound engine engine_laws server (login_message (some 7) 5 (codes "eve")) []
      server-IsSound
