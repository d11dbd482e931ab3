-- ===== src/Server/State.antt =====
-- server.hpp, server_context.hpp and the messages of communication/control/communication_control.hpp
-- and communication/server_request_message.hpp.
use server_engine_v.Common.{ℕ, Bool, Option, List, add64, ◌==◌, if◌then◌else◌}
use server_engine_v.Text.{Text}
use server_engine_v.Status.{ServerStatus, ProjectState}
use server_engine_v.Policy.{ServerMode, RequestKind}
use server_engine_v.License.{ServerLease, ServerLicense}
use server_engine_v.Diagnostics.{DiagnosticCollection, DiagnosticDescriptor, diagnostic, emit}
use server_engine_v.Communication.RequestQueue.{RequestQueue}
use server_engine_v.Communication.Session.{RequestIdentity}
use server_engine_v.Communication.Protocol.{ServerResponse, ClientMessage}
use server_engine_v.Communication.Registry.{Store, Communication}

pub record ServerRequest : Type 0 where
  pub kind : RequestKind
  pub path : Text
  pub name : Text
  pub snap_options : ℕ
  pub reset_options : ℕ

-- server_request_origin: a connection with the request's id, which can wait for the response to be
-- written; an endpoint that is only shown the response; or no callbacks.
pub data RequestOrigin : Type 0 where
  connection_origin : ℕ → ℕ → RequestOrigin
  console_origin : RequestOrigin
  no_origin : RequestOrigin

-- The lifetime tokens, which keep a connection alive while its message waits, are left out. A null
-- connection pointer is `none`.
pub data ControlMessage : Type 0 where
  request_message : ServerRequest → RequestIdentity → RequestOrigin → ControlMessage
  login_message : Option ℕ → ℕ → Text → ControlMessage
  close_message : Option ℕ → ControlMessage
  client_control_message : Option ℕ → ℕ → ClientMessage → ControlMessage

pub data DiskEvent : Type 0 where
  wrote : Text → Text → DiskEvent
  removed : Text → DiskEvent

pub record Server (Project : Type 0) : Type 0 where
  pub configuration_directory : Text
  pub license : ServerLicense
  pub identity_started : Bool
  pub lease : ServerLease
  pub authentication_started : Bool
  pub mode : ServerMode
  pub requests : RequestQueue ControlMessage
  pub communications : Communication
  pub project : Option Project
  pub project_state_value : ProjectState
  pub next_operation_value : ℕ
  pub running : Bool
  -- The connections, the files written for IC snapshots, and the responses shown on consoles.
  pub store : Store
  pub disk : List DiskEvent
  pub printed : List ServerResponse

-- What a lifecycle method returns, with the collection that it emitted into.
pub record Handled (Project : Type 0) : Type 0 where
  pub server : Server Project
  pub status : ServerStatus
  pub diagnostics : DiagnosticCollection

module _ {Project : Type 0} where
  -- next_operation: the id, and the server with the next one; zero stays reserved.
  unfoldable pub next_operation : Server Project → Server Project × ℕ
  next_operation s =
      let next = add64 s.next_operation_value 1 in
      (record s { next_operation_value = if next == 0 then 1 else next }, s.next_operation_value)

  abbrev pub fails :
      Server Project
      → ServerStatus
      → DiagnosticDescriptor
      → ℕ
      → Text
      → DiagnosticCollection
      → Handled Project
  fails s status d op text ds = record {
    server = s;
    status = status;
    diagnostics = emit ds (diagnostic d op text);
  }

  abbrev pub returns : Server Project → ServerStatus → DiagnosticCollection → Handled Project
  returns s status ds = record { server = s; status = status; diagnostics = ds }
