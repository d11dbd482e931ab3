-- ===== src/Tests/Startups.antt =====
-- Licence, lease and start on concrete files.
use server_engine_v.Common.{
  ℕ, ◌+◌, ◌*◌, ◌≡◌, refl, true, false, ◌&&◌, List, [], ◌∷◌, none, some, arith, leb, if◌then◌else◌,
}
use server_engine_v.Text.{Text, codes, text_eq}
use server_engine_v.Status.{success, unloaded}
use server_engine_v.Policy.{full}
use server_engine_v.License.{ServerLease, ServerLicense}
use server_engine_v.License.Datetime.{
  date_ok, day_number, parse_utc_datetime, parse_two, parse_four, parse_digits, days_through_month,
}
use server_engine_v.License.Datetime.Roundtrip.{
  print_utc_datetime, parse_utc_datetime-print_utc_datetime,
}
use server_engine_v.License.Loading.{JsonEvent, object_begin, object_end, key, value, Files}
use server_engine_v.License.LeaseLoader.{load_server_lease}
use server_engine_v.License.LeaseLoader.Authority.{LeaseOutcome, load_server_lease_lem}
use server_engine_v.License.LicenseLoader.{load_server_license}
use server_engine_v.License.LicenseLoader.Validity.{LicenseOutcome, load_server_license_lem}
use server_engine_v.Communication.RequestQueue.{new_queue}
use server_engine_v.Communication.Connection.{create}
use server_engine_v.Communication.Registry.{Host, TransportKind}
use server_engine_v.Server.Engine.{Engine, Outcome, QueryResult, ResetResult, OpenResult}
use server_engine_v.Server.State.{Server}
use server_engine_v.Server.Startup.{Boot, Clock, StartupMode, start}
use server_engine_v.Server.Startup.Outcome.{IsIdle, start-Outcome}
use server_engine_v.Server.Startup.Outcome

leap_day : parse_utc_datetime (print_utc_datetime 2024 2 29 23 59 59) ≡ some 63876470399
unfolding parse_utc_datetime parse_four parse_two parse_digits date_ok day_number days_through_month
leap_day = refl

no_leap_day : parse_utc_datetime (codes "2100-02-29T00:00:00Z") ≡ none
unfolding parse_utc_datetime parse_four parse_two parse_digits date_ok day_number days_through_month
no_leap_day = refl

parse_utc_datetime-print_utc_datetime_example :
    parse_utc_datetime (print_utc_datetime 2025 6 30 12 0 0) ≡ (
      if leb 12 23 && leb 0 59 && leb 0 59 && date_ok 2025 6 30
      then some (day_number 2025 6 30 * 86400 + 12 * 3600 + 0 * 60 + 0)
      else none)
parse_utc_datetime-print_utc_datetime_example =
    parse_utc_datetime-print_utc_datetime 2025 6 30 12 0 0 (omega arith) (omega arith) (omega arith)
      (omega arith) (omega arith) (omega arith)

abbrev number : ℕ → JsonEvent
number n = value (record { unsigned_value = some n; string_value = none })

abbrev string : Text → JsonEvent
string t = value (record { unsigned_value = none; string_value = some t })

abbrev lease_events : List JsonEvent
lease_events =
    object_begin
    ∷ key (codes "version")
    ∷ number 1
    ∷ key (codes "lease_id")
    ∷ string (codes "l7")
    ∷ key (codes "not_before")
    ∷ string (codes "2025-01-01T00:00:00Z")
    ∷ key (codes "expires_at")
    ∷ string (codes "2025-02-01T00:00:00Z")
    ∷ key (codes "max_connections")
    ∷ number 4
    ∷ object_end
    ∷ []

abbrev license_events : List JsonEvent
license_events =
    object_begin
    ∷ key (codes "version")
    ∷ number 1
    ∷ key (codes "expires_at")
    ∷ string (codes "2026-01-01T00:00:00Z")
    ∷ key (codes "max_connections")
    ∷ number 8
    ∷ object_end
    ∷ []

-- The text of a file is its path, and stands for its events.
abbrev files : Files
files = record {
  read = λ path. some path;
  parse_json = λ text. record {
    events = if text_eq text (codes "server.lease") then lease_events else license_events;
    error_message = none;
  };
}

-- 2025-01-15T00:00:00Z
abbrev january : ℕ
january = 63904118400

abbrev no_license : ServerLicense
no_license = record { expiration = 0; limits = record { max_connections = 0 }; loaded = false }

abbrev no_lease : ServerLease
no_lease = record {
  lease_id = [];
  not_before = 0;
  expiration = 0;
  limits = record { max_connections = 0 };
  loaded = false;
}

load_server_license_lem_example :
    LicenseOutcome january 9 []
      (load_server_license files (codes "server.license") january 9 [] no_license)
load_server_license_lem_example =
    load_server_license_lem files (codes "server.license") january 9 [] no_license

abbrev license : ServerLicense
license = record {
  expiration = 64000000000;
  limits = record { max_connections = 8 };
  loaded = true;
}

load_server_lease_lem_example :
    LeaseOutcome january license 9 []
      (load_server_lease files (codes "server.lease") january license 9 [] no_lease)
load_server_lease_lem_example =
    load_server_lease_lem files (codes "server.lease") january license 9 [] no_lease

abbrev constructs : Text → ℕ → Outcome ℕ
constructs path op = record { status = success; candidate = some 1; reported = [] }

abbrev engine : Engine ℕ ℕ
engine = record {
  is_absolute = λ path. true;
  join = λ base path. path;
  lexically_normal = λ path. path;
  load_project = constructs;
  publish_project = constructs;
  build_project = constructs;
  rebuild_project = constructs;
  shm_size = λ p. 8;
  runtime_size = λ p. 8;
  get_runtime_value = λ p name. (QueryResult.success, record { type = 1; size = 1; bits = p });
  snapshot_runtime_ic = λ p. some (p ∷ []);
  create_file = λ path size. true;
  flush_file = λ path. true;
  open_file = λ path. OpenResult.opened path;
  bind_image = λ bytes. some 3;
  reset_runtime_ic = λ p image options. (ResetResult.success, image);
}

abbrev boot : Boot
boot = record {
  absolute_normal = λ path. path;
  parent_path = λ path. [];
  in_directory = λ directory name. name;
  load_server_configuration = λ path op. record {
    status = success;
    value = record {
      endpoints = record { transport = TransportKind.console; protocol = [] } ∷ [];
      project = some (record { path = codes "plant"; startup = StartupMode.load });
    };
    reported = [];
  };
  files = files;
  start_identity = λ configuration now. record { status = success; detail = [] };
  start_authentication = λ configuration directory. record { status = success; detail = [] };
}

abbrev host : Host
host = record { tcp_starts = λ i. true; console_starts = λ i. true }

abbrev fresh : Server ℕ
fresh = record {
  configuration_directory = [];
  license = no_license;
  identity_started = false;
  lease = no_lease;
  authentication_started = false;
  mode = full;
  requests = new_queue;
  communications = record {
    consoles = [];
    tcp_endpoints = [];
    tcp_gate = record { active = 0; limit = 0 };
    next_session_id = 1;
    demo_minutes = 0;
    connections = [];
  };
  project = none;
  project_state_value = unloaded;
  next_operation_value = 1;
  running = false;
  store = λ a. create a 1000 false;
  disk = [];
  printed = [];
}

fresh-IsIdle : IsIdle fresh
fresh-IsIdle = record {
  not_running = refl;
  no_project = refl;
  no_state = refl;
  no_endpoint = refl;
  no_connection = refl;
  no_identity = refl;
  no_authentication = refl;
}

abbrev clock : Clock
clock = record { at_license = january; at_identity = january; at_lease = january }

start-Outcome_example :
    Outcome.Outcome clock.at_lease (start engine boot host fresh (codes "server.json") clock)
start-Outcome_example =
    start-Outcome engine boot host fresh (codes "server.json") clock fresh-IsIdle
