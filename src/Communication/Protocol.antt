-- ===== src/Communication/Protocol.antt =====
-- communication/protocol/protocol_contract.hpp, communication/server_response.hpp and the payload
-- types of communication/connection/outbound_channel.hpp.
use server_engine_v.Common.{ℕ, Bool}
use server_engine_v.Text.{Text}
use server_engine_v.Status.{ServerStatus, ProjectState}
use server_engine_v.Diagnostics.{DiagnosticCollection}

pub data ResponsePayloadKind : Type 0 where
  nothing state runtime_value : ResponsePayloadKind

-- runtime_query.hpp's runtime_value: the intrinsic type's number, its size and its bits.
pub record RuntimeValue : Type 0 where
  pub type : ℕ
  pub size : ℕ
  pub bits : ℕ

pub record ServerResponse : Type 0 where
  pub operation : ℕ
  pub status : ServerStatus
  pub payload : ResponsePayloadKind
  pub state_project : ProjectState
  pub value : RuntimeValue
  pub diagnostics : DiagnosticCollection

pub record ClientMessage : Type 0 where
  pub login : Text
  pub arg : Text
  pub parameters : Text

pub record ClientAction : Type 0 where
  pub from : Text
  pub arg : Text
  pub parameters : Text

pub record ProtocolResponse : Type 0 where
  pub request : ℕ
  pub result : ServerResponse
  pub release_request_id : Bool

pub record SubscriptionData : Type 0 where
  pub subscription : ℕ
  pub sequence : ℕ
  pub payload : Text

-- std::variant<protocol_response, server_state_action, client_action, subscription_data>
pub data OutboundPayload : Type 0 where
  response : ProtocolResponse → OutboundPayload
  server_state_action : ProjectState → ProjectState → OutboundPayload
  action : ClientAction → OutboundPayload
  subscription : SubscriptionData → OutboundPayload
