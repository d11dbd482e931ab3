-- ===== src/Server/Reports.antt =====
-- The diagnostics of a response (server.cpp) and its status.
use server_engine_v.Common.{ℕ, ◌≡◌, refl, Bool, true, false, [], ◌∷◌, arith, Bool-cases, inl, inr}
use server_engine_v.Text.{Text}
use server_engine_v.Status.{ServerStatus, succeeded}
use server_engine_v.Policy.{RequestKind, allows}
use server_engine_v.Policy
use server_engine_v.Diagnostics.{DiagnosticCollection, error, diagnostic, emit}
use server_engine_v.Diagnostics.Sort.{sort_deterministic, insert_record}
use server_engine_v.Server.Engine.{Engine}
use server_engine_v.Server.State.{Server, ServerRequest, next_operation}
use server_engine_v.Server.Control
use server_engine_v.Server.Conditions
use server_engine_v.Server.Conditions.{report_reset, apply_image, apply_file}
use server_engine_v.Server.Query
use server_engine_v.Server.Dispatch.{dispatch, execute, execute_message}

-- Success with no diagnostic, or failure with exactly one, an error of this operation.
abbrev pub Reports : ℕ → ServerStatus → DiagnosticCollection → Type 0
Reports op status [] = succeeded status ≡ true
Reports op status (d ∷ []) = (succeeded status ≡ false) × (d.severity ≡ error) × (d.operation ≡ op)
Reports op status (d ∷ x ∷ ds) = ⊥

-- The kinds whose diagnostics come from the Server alone, and not from Project construction.
unfoldable pub is_control : RequestKind → Bool
is_control Policy.load = false
is_control Policy.publish = false
is_control Policy.build = false
is_control Policy.rebuild = false
is_control _ = true

sorted-Reports :
    (op : ℕ) (status : ServerStatus) (ds : DiagnosticCollection)
    → Reports op status ds
    → Reports op status (sort_deterministic ds)
unfolding sort_deterministic insert_record
sorted-Reports op status [] h = h
sorted-Reports op status (d ∷ []) h = h
sorted-Reports op status (d ∷ x ∷ ds) h = absurd h

module _ {Project : Type 0} where
  unload-Reports :
      (s : Server Project) (op : ℕ)
      → let h = Control.unload s op [] in Reports op h.status h.diagnostics
  unfolding Control.unload succeeded emit diagnostic
  unload-Reports s op = ground arith

  run_project-Reports :
      (s : Server Project) (op : ℕ)
      → let h = Control.run_project s op [] in Reports op h.status h.diagnostics
  unfolding Control.run_project succeeded emit diagnostic
  run_project-Reports s op = ground arith

  freeze_project-Reports :
      (s : Server Project) (op : ℕ)
      → let h = Control.freeze_project s op [] in Reports op h.status h.diagnostics
  unfolding Control.freeze_project succeeded emit diagnostic
  freeze_project-Reports s op = ground arith

module _ {Project Image : Type 0} (e : Engine Project Image) where
  snap_ic-Reports :
      (s : Server Project) (path : Text) (options op : ℕ)
      → let h = Conditions.snap_ic e s path options op [] in Reports op h.status h.diagnostics
  unfolding Conditions.snap_ic succeeded emit diagnostic
  snap_ic-Reports s path options op = ground arith

  reset_ic-Reports :
      (s : Server Project) (path : Text) (options op : ℕ)
      → let h = Conditions.reset_ic e s path options op [] in Reports op h.status h.diagnostics
  unfolding Conditions.reset_ic succeeded emit diagnostic
  reset_ic-Reports s path options op = ground arith

  get_value-Reports :
      (s : Server Project) (name : Text) (op : ℕ)
      → let h = Query.get_value e s name op in Reports op h.status h.diagnostics
  unfolding Query.get_value succeeded emit diagnostic
  get_value-Reports s name op = ground arith

  dispatch-Reports :
      (kind : RequestKind) (s : Server Project) (r : ServerRequest) (op : ℕ)
      → is_control kind ≡ true
      → let h = dispatch e kind s r op in Reports op h.1.status h.1.diagnostics
  unfolding dispatch is_control Query.get_state succeeded
  dispatch-Reports Policy.load s r op h = cc
  dispatch-Reports Policy.publish s r op h = cc
  dispatch-Reports Policy.build s r op h = cc
  dispatch-Reports Policy.rebuild s r op h = cc
  dispatch-Reports Policy.unload s r op h = unload-Reports s op
  dispatch-Reports Policy.run s r op h = run_project-Reports s op
  dispatch-Reports Policy.freeze s r op h = freeze_project-Reports s op
  dispatch-Reports Policy.snap_ic s r op h = snap_ic-Reports s r.path r.snap_options op
  dispatch-Reports Policy.reset_ic s r op h = reset_ic-Reports s r.path r.reset_options op
  dispatch-Reports Policy.get_state s r op h = refl
  dispatch-Reports Policy.get_value s r op h = get_value-Reports s r.name op
  dispatch-Reports Policy.shutdown s r op h = refl

  pub dispatch-operation :
      (kind : RequestKind) (s : Server Project) (r : ServerRequest) (op : ℕ)
      → (dispatch e kind s r op).1.operation ≡ op
  unfolding dispatch Query.get_state Query.get_value
  dispatch-operation Policy.get_value s r op = ground arith
  dispatch-operation _ s r op = refl

  -- A request other than LOAD, PUBLISH, BUILD and REBUILD is answered with success and no
  -- diagnostic, or with a failure and exactly one diagnostic, of severity error and of the
  -- operation of the response.
  pub execute_message-Reports :
      (s : Server Project) (r : ServerRequest)
      → is_control r.kind ≡ true
      → let h = execute_message e s r in Reports h.1.operation h.1.status h.1.diagnostics
  unfolding execute_message execute next_operation sort_deterministic insert_record emit diagnostic
      succeeded
  execute_message-Reports s r k = elim (Bool-cases (allows s.mode r.kind)) [
    | inl ok ↦
        let s' = (next_operation s).0 in
        let op = s.next_operation_value in
        rw (ok, dispatch-operation r.kind s' r op)
          (sorted-Reports op _ _ (dispatch-Reports r.kind s' r op k))
    | inr denied ↦ rw denied (ground arith)
  ]
