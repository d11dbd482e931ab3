-- ===== src/Server/Engine.antt =====
-- The parts of the program that the Server's control thread calls and that are not modelled: Project
-- construction, Runtime queries, the initial-condition codec, files and paths. They are parameters,
-- with the result types of project_load.hpp, runtime_query.hpp, runtime_ic_reset.hpp and
-- read_only_file_mapping.hpp.
use server_engine_v.Common.{ℕ, Bool, Option}
use server_engine_v.Text.{Text}
use server_engine_v.Status.{ServerStatus}
use server_engine_v.Diagnostics.{DiagnosticCollection}
use server_engine_v.Communication.Protocol.{RuntimeValue}

-- What load_project and its siblings return: a status, the candidate, and what they reported.
pub record Outcome (Project : Type 0) : Type 0 where
  pub status : ServerStatus
  pub candidate : Option Project
  pub reported : DiagnosticCollection

pub data QueryResult : Type 0 where
  success invalid_input not_found unsupported_type invalid_runtime : QueryResult

pub data ResetResult : Type 0 where
  success invalid_input invalid_image not_found unsupported_type : ResetResult
  type_mismatch invalid_runtime failed : ResetResult

pub data OpenResult : Type 0 where
  opened : Text → OpenResult
  not_found failed : OpenResult

pub record Engine (Project Image : Type 0) : Type 0 where
  pub is_absolute : Text → Bool
  pub join : Text → Text → Text
  pub lexically_normal : Text → Text
  pub load_project : Text → ℕ → Outcome Project
  pub publish_project : Text → ℕ → Outcome Project
  pub build_project : Text → ℕ → Outcome Project
  pub rebuild_project : Text → ℕ → Outcome Project
  pub shm_size : Project → ℕ
  pub runtime_size : Project → ℕ
  pub get_runtime_value : Project → Text → QueryResult × RuntimeValue
  -- The binary image, or none where snapshot_runtime_ic_binary does not succeed.
  pub snapshot_runtime_ic : Project → Option Text
  -- Whether writable_file_mapping::create and flush succeed.
  pub create_file : Text → ℕ → Bool
  pub flush_file : Text → Bool
  pub open_file : Text → OpenResult
  -- runtime_ic_binary_view::bind, where it succeeds.
  pub bind_image : Text → Option Image
  -- The result, and the Project with the Runtime bytes that the reset wrote.
  pub reset_runtime_ic : Project → Image → ℕ → ResetResult × Project
