-- ===== src/Server/Query.antt =====
-- The GET_STATE and GET_VALUE cases of server::execute, and the response that each case fills in.
use server_engine_v.Common.{ℕ, none, some, [], ltb, if◌then◌else◌}
use server_engine_v.Text.{Text, codes}
use server_engine_v.Status.{
  ServerStatus, success, project_not_loaded, project_runtime_failed, runtime_query_invalid,
  runtime_query_not_found, unsupported, unloaded,
}
use server_engine_v.Diagnostics.{DiagnosticDescriptor, diagnostic, emit}
use server_engine_v.Diagnostics.Catalog
use server_engine_v.Communication.Protocol.{
  ServerResponse, RuntimeValue, nothing, state, runtime_value,
}
use server_engine_v.Server.Engine.{Engine, QueryResult}
use server_engine_v.Server.State.{Server, Handled}

abbrev pub no_value : RuntimeValue
no_value = record { type = 0; size = 0; bits = 0 }

-- A default server_response with its operation id.
abbrev pub new_response : ℕ → ServerResponse
new_response op = record {
  operation = op;
  status = success;
  payload = nothing;
  state_project = unloaded;
  value = no_value;
  diagnostics = [];
}

-- The response of a case that only sets the status and emits.
abbrev pub respond : {Project : Type 0} → ℕ → Handled Project → ServerResponse
respond op h = record (new_response op) { status = h.status; diagnostics = h.diagnostics }

abbrev pub refuse : ℕ → ServerStatus → DiagnosticDescriptor → Text → ServerResponse
refuse op status d text = record (new_response op) {
  status = status;
  diagnostics = emit [] (diagnostic d op text);
}

unfoldable pub get_state : {Project : Type 0} → Server Project → ℕ → ServerResponse
get_state s op = record (new_response op) {
  status = success;
  payload = state;
  state_project = s.project_state_value;
}

-- The switch on the result of get_runtime_value.
abbrev pub answer : ℕ → Text → QueryResult → RuntimeValue → ServerResponse
answer op name QueryResult.success v = record (new_response op) {
  status = success;
  payload = runtime_value;
  value = v;
}
answer op name QueryResult.invalid_input v =
    refuse op runtime_query_invalid Catalog.runtime_query_invalid name
answer op name QueryResult.not_found v =
    refuse op runtime_query_not_found Catalog.runtime_query_not_found name
answer op name QueryResult.unsupported_type v =
    refuse op unsupported Catalog.runtime_query_unsupported name
answer op name QueryResult.invalid_runtime v =
    refuse op project_runtime_failed Catalog.runtime_query_failed name

unfoldable pub get_value :
    {Project Image : Type 0} → Engine Project Image → Server Project → Text → ℕ → ServerResponse
get_value e s name op = elim s.project [
  | none ↦
      refuse op project_not_loaded Catalog.project_not_loaded
        (codes "GET_VALUE requires an active Project")
  | some p ↦
      if ltb (e.shm_size p) (e.runtime_size p)
      then refuse op project_runtime_failed Catalog.runtime_query_failed name
      else answer op name (e.get_runtime_value p name).0 (e.get_runtime_value p name).1
]
