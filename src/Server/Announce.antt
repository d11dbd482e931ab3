-- ===== src/Server/Announce.antt =====
-- What the connections learn of a change of state, and the identities of operations.
use server_engine_v.Common.{ℕ, ◌<◌, ◌^◌, ◌≡◌, ◌≢◌, ◌⊎◌, arith}
use server_engine_v.Communication.Connection.{Connection}
use server_engine_v.Communication.Connection.Delivery.{Receives, response_message}
use server_engine_v.Server.Engine.{Engine}
use server_engine_v.Server.State.{
  Server, ServerRequest, RequestOrigin, console_origin, connection_origin, no_origin,
  next_operation,
}
use server_engine_v.Server.Dispatch.{execute, execute_message, dispatch}
use server_engine_v.Communication.Protocol.{ServerResponse}
use server_engine_v.Policy.{RequestKind}
use server_engine_v.Policy
use server_engine_v.Server.Control
use server_engine_v.Server.Conditions

-- The response goes to the connection that asked, and to no other one.
abbrev pub Answers : RequestOrigin → ServerResponse → ℕ → Connection → Connection → Type 0
Answers (connection_origin b request) r a c c' =
    ((a ≡ b) × Receives (response_message request r) c c') ⊎ ((a ≢ b) × (c' ≡ c))
Answers console_origin r a c c' = c' ≡ c
Answers no_origin r a c c' = c' ≡ c

module _ {Project : Type 0} where
  -- Operation ids are never zero and stay 64-bit numbers, and the next one differs.
  pub next_operation_lem :
      (s : Server Project)
      → s.next_operation_value ≢ 0
      → s.next_operation_value < 2 ^ 64
      → ((next_operation s).1 ≢ 0)
        × ((next_operation s).0.next_operation_value ≢ 0)
        × ((next_operation s).0.next_operation_value < 2 ^ 64)
        × ((next_operation s).0.next_operation_value ≢ (next_operation s).1)
  unfolding next_operation
  next_operation_lem s z w = ground arith

module _ {Project Image : Type 0} (e : Engine Project Image) where
  -- Executing a request touches neither the connections nor the registry.
  pub dispatch-store :
      (kind : RequestKind) (s : Server Project) (r : ServerRequest) (op : ℕ)
      → ((dispatch e kind s r op).0.store ≡ s.store)
        × ((dispatch e kind s r op).0.communications ≡ s.communications)
        × ((dispatch e kind s r op).0.next_operation_value ≡ s.next_operation_value)
  unfolding dispatch Control.load Control.publish Control.build Control.rebuild Control.unload
      Control.run_project Control.freeze_project Conditions.snap_ic Conditions.reset_ic
  dispatch-store Policy.load s r op = ground arith
  dispatch-store _ s r op = ground arith

  pub execute_message-store :
      (s : Server Project) (r : ServerRequest)
      → ((execute_message e s r).0.store ≡ s.store)
        × ((execute_message e s r).0.communications ≡ s.communications)
        × ((execute_message e s r).0.next_operation_value
            ≡ (next_operation s).0.next_operation_value)
  unfolding execute_message execute next_operation
  execute_message-store s r =
      ground (arith, dispatch-store r.kind (next_operation s).0 r s.next_operation_value)
