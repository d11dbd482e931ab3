-- ===== src/Server/Access.antt =====
-- What a client can do in demo mode.
use server_engine_v.Common.{◌≡◌, ◌⊎◌, [], ◌∷◌}
use server_engine_v.Text.{codes}
use server_engine_v.Status.{access_denied}
use server_engine_v.Policy.{full, RequestKind, publish, build, rebuild, reset_ic, run, freeze}
use server_engine_v.Diagnostics.{diagnostic}
use server_engine_v.Diagnostics.Catalog
use server_engine_v.Server.Engine.{Engine}
use server_engine_v.Server.State.{Server, ServerRequest}
use server_engine_v.Server.Control
use server_engine_v.Server.Conditions
use server_engine_v.Server.Query
use server_engine_v.Server.Dispatch.{execute_message}

-- What a demo client may not do.
abbrev pub IsRestricted : RequestKind → Type 0
IsRestricted k =
    (k ≡ publish) ⊎ (k ≡ build) ⊎ (k ≡ rebuild) ⊎ (k ≡ reset_ic) ⊎ (k ≡ run) ⊎ (k ≡ freeze)

module _ {Project Image : Type 0} (e : Engine Project Image) where
  -- The server as it is, its answer and the one diagnostic.
  abbrev pub Refuses : Server Project → ServerRequest → Type 0
  Refuses s r =
      let h = execute_message e s r in
      (h.0 ≡ record s { next_operation_value = h.0.next_operation_value })
      × (h.1.status ≡ access_denied)
      × (h.1.operation ≡ s.next_operation_value)
      × (h.1.diagnostics
          ≡ diagnostic Catalog.server_policy_denied s.next_operation_value
              (codes "Request is not allowed for this origin/client identity")
            ∷ [])

  -- An allowed request does what it does in full mode.
  abbrev pub AsFull : Server Project → ServerRequest → Type 0
  AsFull s r =
      let h = execute_message e (record s { mode = full }) r in
      ((execute_message e s r).0 ≡ record h.0 { mode = s.mode }) × ((execute_message e s r).1 ≡ h.1)
