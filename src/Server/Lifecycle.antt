-- ===== src/Server/Lifecycle.antt =====
-- The Project's life under requests: what each request does to the observable state, and the
-- agreement of the state with the Project that is loaded.
use server_engine_v.Common.{
  ℕ, ◌≡◌, ◌≢◌, refl, Bool, true, false, not, Option, none, some, [], arith, if◌then◌else◌,
  Bool-cases, inl, inr,
}
use server_engine_v.Text.{Text}
use server_engine_v.Status.{
  ServerStatus, success, succeeded, ProjectState, unloaded, loaded, project_state_eq, can_run,
  can_freeze, can_unload,
}
use server_engine_v.Status
use server_engine_v.Policy.{RequestKind, allows}
use server_engine_v.Policy
use server_engine_v.Diagnostics.{DiagnosticCollection}
use server_engine_v.Server.Engine.{Engine, Outcome}
use server_engine_v.Server.State.{Server, ServerRequest, next_operation}
use server_engine_v.Server.Control.{install, unless_loaded}
use server_engine_v.Server.Control
use server_engine_v.Server.Conditions
use server_engine_v.Server.Query
use server_engine_v.Server.Dispatch.{dispatch, execute, execute_message}

-- The candidate pointer is set where a construction succeeds.
abbrev pub IsBuilt : {Project : Type 0} → Outcome Project → Type 0
IsBuilt o = succeeded o.status ≡ true → o.candidate ≢ none

pub record EngineLaws {Project Image : Type 0} (e : Engine Project Image) : Type 0 where
  pub load_builds : (path : Text) (op : ℕ) → IsBuilt (e.load_project path op)
  pub publish_builds : (path : Text) (op : ℕ) → IsBuilt (e.publish_project path op)
  pub build_builds : (path : Text) (op : ℕ) → IsBuilt (e.build_project path op)
  pub rebuild_builds : (path : Text) (op : ℕ) → IsBuilt (e.rebuild_project path op)

abbrev is_some : {A : Type 0} → Option A → Bool
is_some none = false
is_some (some a) = true

-- A Project is present exactly in the states other than UNLOADED.
abbrev pub Agrees : {Project : Type 0} → Server Project → Type 0
Agrees s = is_some s.project ≡ not (project_state_eq s.project_state_value unloaded)

-- The state after a request that succeeded.
unfoldable pub state_after : RequestKind → ProjectState → ProjectState
state_after Policy.load old = loaded
state_after Policy.publish old = loaded
state_after Policy.build old = loaded
state_after Policy.rebuild old = loaded
state_after Policy.unload old = unloaded
state_after Policy.run old = Status.run
state_after Policy.freeze old = Status.freeze
state_after Policy.get_state old = old
state_after Policy.get_value old = old
state_after Policy.snap_ic old = old
state_after Policy.reset_ic old = old
state_after Policy.shutdown old = old

-- The states in which a request can succeed.
unfoldable pub enabled : RequestKind → ProjectState → Bool
enabled Policy.load old = project_state_eq old unloaded
enabled Policy.publish old = project_state_eq old unloaded
enabled Policy.build old = project_state_eq old unloaded
enabled Policy.rebuild old = project_state_eq old unloaded
enabled Policy.unload old = can_unload old
enabled Policy.run old = can_run old
enabled Policy.freeze old = can_freeze old
enabled Policy.get_state old = true
enabled Policy.get_value old = not (project_state_eq old unloaded)
enabled Policy.snap_ic old = not (project_state_eq old unloaded)
enabled Policy.reset_ic old = not (project_state_eq old unloaded)
enabled Policy.shutdown old = true

-- The outcome of one request: it keeps the agreement, succeeds only where it is enabled, and moves
-- the state only if it succeeds.
pub record Moves {Project : Type 0} (kind : RequestKind) (s s' : Server Project)
    (status : ServerStatus) : Type 0 where
  pub agrees : Agrees s'
  pub guarded : succeeded status ≡ true → enabled kind s.project_state_value ≡ true
  pub moved :
      s'.project_state_value
      ≡ (if succeeded status then state_after kind s.project_state_value else s.project_state_value)

module _ {Project : Type 0} where
  -- load, publish, build and rebuild.
  install-Moves :
      (kind : RequestKind) (s : Server Project) (text : Text) (op : ℕ) (ds : DiagnosticCollection)
      (o : Outcome Project)
      → ((old : ProjectState) → state_after kind old ≡ loaded)
      → ((old : ProjectState) → enabled kind old ≡ project_state_eq old unloaded)
      → IsBuilt o
      → Agrees s
      → let h = unless_loaded s.project s text op ds o in Moves kind s h.server h.status
  unfolding succeeded project_state_eq
  install-Moves kind s text op ds o k g b a =
      ground (arith, k s.project_state_value, g s.project_state_value)

  unload-Moves :
      (s : Server Project) (op : ℕ) (ds : DiagnosticCollection)
      → Agrees s
      → let h = Control.unload s op ds in Moves Policy.unload s h.server h.status
  unfolding Control.unload succeeded project_state_eq state_after enabled can_unload
  unload-Moves s op ds a = ground arith

  run_project-Moves :
      (s : Server Project) (op : ℕ) (ds : DiagnosticCollection)
      → Agrees s
      → let h = Control.run_project s op ds in Moves Policy.run s h.server h.status
  unfolding Control.run_project succeeded project_state_eq state_after enabled can_run
  run_project-Moves s op ds a = ground arith

  freeze_project-Moves :
      (s : Server Project) (op : ℕ) (ds : DiagnosticCollection)
      → Agrees s
      → let h = Control.freeze_project s op ds in Moves Policy.freeze s h.server h.status
  unfolding Control.freeze_project succeeded project_state_eq state_after enabled can_freeze
  freeze_project-Moves s op ds a = ground arith

module _ {Project Image : Type 0} (e : Engine Project Image) where
  snap_ic-Moves :
      (s : Server Project) (path : Text) (options op : ℕ) (ds : DiagnosticCollection)
      → Agrees s
      → let h = Conditions.snap_ic e s path options op ds in
        Moves Policy.snap_ic s h.server h.status
  unfolding Conditions.snap_ic succeeded project_state_eq state_after enabled
  snap_ic-Moves s path options op ds a = ground arith

  reset_ic-Moves :
      (s : Server Project) (path : Text) (options op : ℕ) (ds : DiagnosticCollection)
      → Agrees s
      → let h = Conditions.reset_ic e s path options op ds in
        Moves Policy.reset_ic s h.server h.status
  unfolding Conditions.reset_ic succeeded project_state_eq state_after enabled
  reset_ic-Moves s path options op ds a = ground arith

  dispatch-Moves :
      (kind : RequestKind) (s : Server Project) (r : ServerRequest) (op : ℕ)
      → EngineLaws e
      → Agrees s
      → let h = dispatch e kind s r op in Moves kind s h.0 h.1.status
  unfolding dispatch Control.load Control.publish Control.build Control.rebuild state_after enabled
      Query.get_state Query.get_value succeeded project_state_eq
  dispatch-Moves Policy.load s r op l a =
      install-Moves Policy.load s _ op [] _ (λ _. refl) (λ _. refl) (l.load_builds _ op) a
  dispatch-Moves Policy.publish s r op l a =
      install-Moves Policy.publish s _ op [] _ (λ _. refl) (λ _. refl) (l.publish_builds _ op) a
  dispatch-Moves Policy.build s r op l a =
      install-Moves Policy.build s _ op [] _ (λ _. refl) (λ _. refl) (l.build_builds _ op) a
  dispatch-Moves Policy.rebuild s r op l a =
      install-Moves Policy.rebuild s _ op [] _ (λ _. refl) (λ _. refl) (l.rebuild_builds _ op) a
  dispatch-Moves Policy.unload s r op l a = unload-Moves s op [] a
  dispatch-Moves Policy.run s r op l a = run_project-Moves s op [] a
  dispatch-Moves Policy.freeze s r op l a = freeze_project-Moves s op [] a
  dispatch-Moves Policy.snap_ic s r op l a = snap_ic-Moves s r.path r.snap_options op [] a
  dispatch-Moves Policy.reset_ic s r op l a = reset_ic-Moves s r.path r.reset_options op [] a
  dispatch-Moves Policy.get_state s r op l a = ground arith
  dispatch-Moves Policy.get_value s r op l a = ground arith
  dispatch-Moves Policy.shutdown s r op l a = ground arith

  -- A request from a client leaves a Project present exactly in the states other than UNLOADED. It
  -- succeeds only in a state that enables it (LOAD, PUBLISH, BUILD and REBUILD when unloaded; RUN
  -- when loaded or frozen; FREEZE when running; UNLOAD when loaded or frozen; GET_VALUE, SNAP_IC
  -- and RESET_IC when not unloaded), and the state moves to the one that the request aims at if it
  -- succeeds, and stays if not. It is assumed that a construction that succeeds hands out a
  -- Project, and that the agreement holds before.
  pub execute_message-Moves :
      (s : Server Project) (r : ServerRequest)
      → EngineLaws e
      → Agrees s
      → let h = execute_message e s r in Moves r.kind s h.0 h.1.status
  unfolding execute_message execute next_operation succeeded
  execute_message-Moves s r l a = elim (Bool-cases (allows s.mode r.kind)) [
    | inl ok ↦
        let m = dispatch-Moves r.kind (next_operation s).0 r s.next_operation_value l a in
        rw ok (record { agrees = m.agrees; guarded = m.guarded; moved = m.moved })
    | inr denied ↦ rw denied (ground arith)
  ]
