-- ===== src/Server/Conditions.antt =====
-- server::snap_ic and server::reset_ic, and valid_reset_ic_options of project/runtime/runtime_ic.hpp.
use server_engine_v.Common.{
  ℕ, ◌/◌, Bool, not, ◌||◌, Option, none, some, ◌∷◌, ◌++◌, [], ◌==◌, ltb, length, if◌then◌else◌,
}
use server_engine_v.Text.{Text, codes, text_empty}
use server_engine_v.Status.{
  success, runtime_ic_invalid, project_not_loaded, runtime_ic_failed, io_error,
  runtime_ic_not_found, unsupported, runtime_ic_type_mismatch,
}
use server_engine_v.Diagnostics.{DiagnosticCollection}
use server_engine_v.Diagnostics.Catalog
use server_engine_v.Server.Engine.{Engine, ResetResult, OpenResult}
use server_engine_v.Server.State.{Server, Handled, fails, returns, wrote, removed}
use server_engine_v.Server.Control.{resolve}

-- No bit but the three of reset_ic_options_mask, 0x07, is set in the byte.
unfoldable pub valid_reset_ic_options : ℕ → Bool
valid_reset_ic_options options = options / 8 == 0

module _ {Project Image : Type 0} (e : Engine Project Image) where
  -- logical_size == 0 || logical_size > runtime.size()
  unfoldable pub bad_runtime : Project → Bool
  bad_runtime p = e.runtime_size p == 0 || ltb (e.shm_size p) (e.runtime_size p)

  -- The file part of snap_ic: create, copy, flush, and remove the file if the flush fails.
  abbrev pub write_image : Server Project → Text → Text → ℕ → DiagnosticCollection → Handled Project
  write_image s path image op ds =
      if not (e.create_file path (length image))
      then fails s io_error Catalog.runtime_ic_io_failed op path ds
      else if not (e.flush_file path)
      then fails (record s { disk = s.disk ++ wrote path image ∷ removed path ∷ [] }) io_error
          Catalog.runtime_ic_io_failed op path ds
      else returns (record s { disk = s.disk ++ wrote path image ∷ [] }) success ds

  abbrev pub write_snapshot :
      Server Project → Text → Option Text → ℕ → DiagnosticCollection → Handled Project
  write_snapshot s path none op ds =
      fails s runtime_ic_failed Catalog.runtime_ic_failed op
        (codes "SNAP_IC could not capture Runtime") ds
  write_snapshot s path (some image) op ds =
      write_image s (resolve e s.configuration_directory path) image op ds

  unfoldable pub snap_ic : Server Project → Text → ℕ → ℕ → DiagnosticCollection → Handled Project
  unfolding bad_runtime
  snap_ic s path options op ds =
      if not (options == 0)
      then fails s runtime_ic_invalid Catalog.runtime_ic_invalid op
          (codes "SNAP_IC options are invalid") ds
      else elim s.project [
        | none ↦
            fails s project_not_loaded Catalog.project_not_loaded op
              (codes "SNAP_IC requires an active Project") ds
        | some p ↦
            if text_empty path
            then fails s runtime_ic_invalid Catalog.runtime_ic_invalid op
                (codes "SNAP_IC requires a file path") ds
            else if bad_runtime p
            then fails s runtime_ic_failed Catalog.runtime_ic_failed op
                (codes "Runtime SHM size is invalid") ds
            else write_snapshot s path (e.snapshot_runtime_ic p) op ds
      ]

  -- The switch on the result of reset_runtime_ic_binary.
  abbrev pub report_reset :
      Server Project → ResetResult → Text → ℕ → DiagnosticCollection → Handled Project
  report_reset s ResetResult.success path op ds = returns s success ds
  report_reset s ResetResult.invalid_input path op ds =
      fails s runtime_ic_invalid Catalog.runtime_ic_invalid op path ds
  report_reset s ResetResult.invalid_image path op ds =
      fails s runtime_ic_invalid Catalog.runtime_ic_invalid op path ds
  report_reset s ResetResult.not_found path op ds =
      fails s runtime_ic_not_found Catalog.runtime_ic_not_found op path ds
  report_reset s ResetResult.unsupported_type path op ds =
      fails s unsupported Catalog.runtime_ic_failed op
        (codes "RESET_IC encountered an unsupported Runtime type") ds
  report_reset s ResetResult.type_mismatch path op ds =
      fails s runtime_ic_type_mismatch Catalog.runtime_ic_type_mismatch op path ds
  report_reset s ResetResult.invalid_runtime path op ds =
      fails s runtime_ic_failed Catalog.runtime_ic_failed op path ds
  report_reset s ResetResult.failed path op ds =
      fails s runtime_ic_failed Catalog.runtime_ic_failed op path ds

  abbrev pub apply_image :
      Server Project
      → Project
      → Option Image
      → ℕ
      → Text
      → ℕ
      → DiagnosticCollection
      → Handled Project
  apply_image s p none options path op ds =
      fails s runtime_ic_invalid Catalog.runtime_ic_invalid op path ds
  apply_image s p (some image) options path op ds =
      if bad_runtime p
      then fails s runtime_ic_failed Catalog.runtime_ic_failed op
          (codes "Runtime SHM size is invalid") ds
      else let (result, p') = e.reset_runtime_ic p image options in
        report_reset (record s { project = some p' }) result path op ds

  abbrev pub apply_file :
      Server Project → Project → OpenResult → ℕ → Text → ℕ → DiagnosticCollection → Handled Project
  apply_file s p (OpenResult.opened bytes) options path op ds =
      apply_image s p (e.bind_image bytes) options path op ds
  apply_file s p OpenResult.not_found options path op ds =
      fails s runtime_ic_not_found Catalog.runtime_ic_not_found op path ds
  apply_file s p OpenResult.failed options path op ds =
      fails s io_error Catalog.runtime_ic_io_failed op path ds

  unfoldable pub reset_ic : Server Project → Text → ℕ → ℕ → DiagnosticCollection → Handled Project
  unfolding valid_reset_ic_options bad_runtime
  reset_ic s path options op ds =
      if not (valid_reset_ic_options options)
      then fails s runtime_ic_invalid Catalog.runtime_ic_invalid op
          (codes "RESET_IC options are invalid") ds
      else elim s.project [
        | none ↦
            fails s project_not_loaded Catalog.project_not_loaded op
              (codes "RESET_IC requires an active Project") ds
        | some p ↦
            if text_empty path
            then fails s runtime_ic_invalid Catalog.runtime_ic_invalid op
                (codes "RESET_IC requires a file path") ds
            else let full = resolve e s.configuration_directory path in
              apply_file s p (e.open_file full) options full op ds
      ]
