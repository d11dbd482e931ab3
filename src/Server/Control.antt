-- ===== src/Server/Control.antt =====
-- server::load, publish, build, rebuild, unload, run_project and freeze_project: the lifecycle of the
-- one active Project.
use server_engine_v.Common.{ℕ, not, Option, none, some, ◌++◌, if◌then◌else◌}
use server_engine_v.Text.{Text, codes}
use server_engine_v.Status.{
  success, project_already_loaded, project_not_loaded, runtime_state_invalid, succeeded, unloaded,
  loaded, run, freeze, can_run, can_freeze, can_unload,
}
use server_engine_v.Diagnostics.{DiagnosticCollection}
use server_engine_v.Diagnostics.Catalog
use server_engine_v.Server.Engine.{Engine, Outcome}
use server_engine_v.Server.State.{Server, Handled, fails, returns}

module _ {Project Image : Type 0} (e : Engine Project Image) where
  -- server.cpp's resolve.
  unfoldable pub resolve : Text → Text → Text
  resolve base path =
      if e.is_absolute path then e.lexically_normal path else e.lexically_normal (e.join base path)

module _ {Project : Type 0} where
  -- The part of load, publish, build and rebuild behind the guard.
  abbrev pub install : Server Project → Outcome Project → DiagnosticCollection → Handled Project
  install s o ds =
      if not (succeeded o.status)
      then returns (record s { project = none; project_state_value = unloaded }) o.status
          (ds ++ o.reported)
      else returns (record s { project = o.candidate; project_state_value = loaded }) success
          (ds ++ o.reported)

  -- The guard: at most one Project is active.
  abbrev pub unless_loaded :
      Option Project
      → Server Project
      → Text
      → ℕ
      → DiagnosticCollection
      → Outcome Project
      → Handled Project
  unless_loaded none s text op ds o = install s o ds
  unless_loaded (some p) s text op ds o =
      fails s project_already_loaded Catalog.project_already_loaded op text ds

  unfoldable pub unload : Server Project → ℕ → DiagnosticCollection → Handled Project
  unload s op ds = elim s.project [
    | none ↦
        fails s project_not_loaded Catalog.project_not_loaded op
          (codes "UNLOAD requires an active Project") ds
    | some p ↦
        if not (can_unload s.project_state_value)
        then fails s runtime_state_invalid Catalog.runtime_state_invalid op
            (codes "UNLOAD requires LOADED or FREEZE") ds
        else returns (record s { project = none; project_state_value = unloaded }) success ds
  ]

  unfoldable pub run_project : Server Project → ℕ → DiagnosticCollection → Handled Project
  run_project s op ds = elim s.project [
    | none ↦
        fails s project_not_loaded Catalog.project_not_loaded op
          (codes "RUN requires an active Project") ds
    | some p ↦
        if not (can_run s.project_state_value)
        then fails s runtime_state_invalid Catalog.runtime_state_invalid op
            (codes "RUN requires LOADED or FREEZE") ds
        else returns (record s { project_state_value = run }) success ds
  ]

  unfoldable pub freeze_project : Server Project → ℕ → DiagnosticCollection → Handled Project
  freeze_project s op ds = elim s.project [
    | none ↦
        fails s project_not_loaded Catalog.project_not_loaded op
          (codes "FREEZE requires an active Project") ds
    | some p ↦
        if not (can_freeze s.project_state_value)
        then fails s runtime_state_invalid Catalog.runtime_state_invalid op
            (codes "FREEZE requires RUN") ds
        else returns (record s { project_state_value = freeze }) success ds
  ]

module _ {Project Image : Type 0} (e : Engine Project Image) where
  unfoldable pub load : Server Project → Text → ℕ → DiagnosticCollection → Handled Project
  load s path op ds =
      unless_loaded s.project s (codes "UNLOAD the active Project before LOAD") op ds
        (e.load_project (resolve e s.configuration_directory path) op)

  unfoldable pub publish : Server Project → Text → ℕ → DiagnosticCollection → Handled Project
  publish s path op ds =
      unless_loaded s.project s (codes "UNLOAD the active Project before PUBLISH") op ds
        (e.publish_project (resolve e s.configuration_directory path) op)

  unfoldable pub build : Server Project → Text → ℕ → DiagnosticCollection → Handled Project
  build s path op ds =
      unless_loaded s.project s (codes "UNLOAD the active Project before BUILD") op ds
        (e.build_project (resolve e s.configuration_directory path) op)

  unfoldable pub rebuild : Server Project → Text → ℕ → DiagnosticCollection → Handled Project
  rebuild s path op ds =
      unless_loaded s.project s (codes "UNLOAD the active Project before REBUILD") op ds
        (e.rebuild_project (resolve e s.configuration_directory path) op)
