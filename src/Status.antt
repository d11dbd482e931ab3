-- ===== src/Status.antt =====
-- server_status.hpp and server_state.hpp: the result codes of Server operations, and the state
-- of the Project that clients observe, with the tests on it.
use server_engine_v.Common.{Bool, true, false}

pub data ServerStatus : Type 0 where
  success invalid_configuration project_configuration_invalid io_error unsupported : ServerStatus
  license_read_failed license_invalid license_expired : ServerStatus
  server_lease_read_failed server_lease_invalid server_lease_not_active : ServerStatus
  server_lease_expired server_identity_start_failed authentication_start_failed : ServerStatus
  access_denied project_already_loaded project_not_loaded project_load_failed : ServerStatus
  project_artifact_invalid project_runtime_failed : ServerStatus
  runtime_query_invalid runtime_query_not_found : ServerStatus
  runtime_ic_invalid runtime_ic_not_found runtime_ic_type_mismatch runtime_ic_failed : ServerStatus
  runtime_state_invalid communication_invalid_request communication_start_failed : ServerStatus

unfoldable pub succeeded : ServerStatus → Bool
succeeded success = true
succeeded _ = false

pub data ProjectState : Type 0 where
  unloaded loaded run freeze : ProjectState

unfoldable pub project_state_eq : ProjectState → ProjectState → Bool
project_state_eq unloaded unloaded = true
project_state_eq loaded loaded = true
project_state_eq run run = true
project_state_eq freeze freeze = true
project_state_eq _ _ = false

unfoldable pub can_run : ProjectState → Bool
can_run loaded = true
can_run freeze = true
can_run _ = false

unfoldable pub can_freeze : ProjectState → Bool
can_freeze run = true
can_freeze _ = false

unfoldable pub can_unload : ProjectState → Bool
can_unload loaded = true
can_unload freeze = true
can_unload _ = false
