-- ===== src/Server/Dispatch.antt =====
-- server::execute and server::execute_message: one client request from its policy check to its
-- response.
use server_engine_v.Common.{ℕ, false, [], if◌then◌else◌}
use server_engine_v.Text.{codes}
use server_engine_v.Status.{success, access_denied}
use server_engine_v.Policy.{
  RequestKind, load, publish, build, unload, rebuild, get_state, get_value, snap_ic, reset_ic, run,
  freeze, shutdown, allows,
}
use server_engine_v.Diagnostics.Catalog
use server_engine_v.Diagnostics.Sort.{sort_deterministic}
use server_engine_v.Communication.Protocol.{ServerResponse}
use server_engine_v.Server.Engine.{Engine}
use server_engine_v.Server.State.{Server, Handled, ServerRequest, next_operation}
use server_engine_v.Server.Control
use server_engine_v.Server.Conditions
use server_engine_v.Server.Query
use server_engine_v.Server.Query.{new_response, respond, refuse}

-- The end of execute and of execute_message's refusal.
abbrev pub sorted : ServerResponse → ServerResponse
sorted r = record r { diagnostics = sort_deterministic r.diagnostics }

module _ {Project : Type 0} where
  abbrev pub handled : ℕ → Handled Project → Server Project × ServerResponse
  handled op h = (h.server, respond op h)

module _ {Project Image : Type 0} (e : Engine Project Image) where
  -- The switch on the request's kind.
  unfoldable pub dispatch :
      RequestKind → Server Project → ServerRequest → ℕ → Server Project × ServerResponse
  dispatch load s r op = handled op (Control.load e s r.path op [])
  dispatch publish s r op = handled op (Control.publish e s r.path op [])
  dispatch build s r op = handled op (Control.build e s r.path op [])
  dispatch unload s r op = handled op (Control.unload s op [])
  dispatch rebuild s r op = handled op (Control.rebuild e s r.path op [])
  dispatch get_state s r op = (s, Query.get_state s op)
  dispatch get_value s r op = (s, Query.get_value e s r.name op)
  dispatch snap_ic s r op = handled op (Conditions.snap_ic e s r.path r.snap_options op [])
  dispatch reset_ic s r op = handled op (Conditions.reset_ic e s r.path r.reset_options op [])
  dispatch run s r op = handled op (Control.run_project s op [])
  dispatch freeze s r op = handled op (Control.freeze_project s op [])
  dispatch shutdown s r op =
      (record s { running = false }, record (new_response op) { status = success })

  unfoldable pub execute : Server Project → ServerRequest → Server Project × ServerResponse
  execute s r =
      let (s', op) = next_operation s in
      let (t, response) = dispatch r.kind s' r op in (t, sorted response)

  unfoldable pub execute_message : Server Project → ServerRequest → Server Project × ServerResponse
  execute_message s r =
      let (s', op) = next_operation s in
      if allows s.mode r.kind then execute s r else (
        s',
        sorted (
            refuse op access_denied Catalog.server_policy_denied
              (codes "Request is not allowed for this origin/client identity")),
      )
