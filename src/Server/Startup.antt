-- ===== src/Server/Startup.antt =====
-- server::start: configuration, licence, identity, lease, authentication, endpoints and the startup
-- Project, in this order. The configuration loader, the two services and the files are parameters; the
-- clock is read once before each of the three steps that take the time.
pub mod Outcome
use server_engine_v.Common.{
  ℕ, Bool, true, false, not, ◌++◌, Option, none, some, List, [], if◌then◌else◌,
}
use server_engine_v.Text.{Text, codes, text_empty}
use server_engine_v.Status.{ServerStatus, success, unsupported, succeeded}
use server_engine_v.Policy.{full, demo}
use server_engine_v.License.{clear_license}
use server_engine_v.License.Loading.{Loaded, Files}
use server_engine_v.License.LeaseLoader.{load_server_lease}
use server_engine_v.License.LicenseLoader.{load_server_license}
use server_engine_v.Diagnostics.{DiagnosticCollection, DiagnosticDescriptor, diagnostic, emit}
use server_engine_v.Diagnostics.Catalog
use server_engine_v.Communication.Registry.{EndpointConfiguration, Host}
use server_engine_v.Communication.Registry
use server_engine_v.Server.Engine.{Engine}
use server_engine_v.Server.State.{Server, Handled, next_operation, fails, returns}
use server_engine_v.Server.Control
use server_engine_v.Server.Loop.{shut_down}

pub data StartupMode : Type 0 where
  load publish rebuild : StartupMode

pub record ProjectStartup : Type 0 where
  pub path : Text
  pub startup : StartupMode

-- The parts of server_configuration that start reads itself.
pub record ServerConfiguration : Type 0 where
  pub endpoints : List EndpointConfiguration
  pub project : Option ProjectStartup

-- The status of a service's start, and its failure detail.
pub record ServiceStart : Type 0 where
  pub status : ServerStatus
  pub detail : Text

pub record Boot : Type 0 where
  pub absolute_normal : Text → Text
  pub parent_path : Text → Text
  pub in_directory : Text → Text → Text
  pub load_server_configuration : Text → ℕ → Loaded ServerConfiguration
  pub files : Files
  pub start_identity : ServerConfiguration → ℕ → ServiceStart
  pub start_authentication : ServerConfiguration → Text → ServiceStart

pub record Clock : Type 0 where
  pub at_license : ℕ
  pub at_identity : ℕ
  pub at_lease : ℕ

unfoldable pub is_unsupported : ServerStatus → Bool
is_unsupported unsupported = true
is_unsupported _ = false

abbrev pub text_or : Text → Text → Text
text_or text fallback = if text_empty text then fallback else text

module _ {Project Image : Type 0} (e : Engine Project Image) where
  abbrev pub start_mode :
      StartupMode → Server Project → Text → ℕ → DiagnosticCollection → Handled Project
  start_mode load s path op ds = Control.load e s path op ds
  start_mode publish s path op ds = Control.publish e s path op ds
  start_mode rebuild s path op ds = Control.rebuild e s path op ds

  abbrev pub finish_project : Handled Project → Handled Project
  finish_project h =
      if not (succeeded h.status)
      then returns (shut_down h.server) h.status h.diagnostics
      else returns h.server success h.diagnostics

  abbrev pub start_project :
      Option ProjectStartup → Server Project → ℕ → DiagnosticCollection → Handled Project
  start_project none s op ds = returns s success ds
  start_project (some p) s op ds = finish_project (start_mode p.startup s p.path op ds)

  unfoldable pub start_communications :
      Host → ServerConfiguration → Server Project → ℕ → DiagnosticCollection → Handled Project
  unfolding is_unsupported
  start_communications h configuration s op ds =
      let ((store, registry), status) =
        Registry.start h configuration.endpoints s.mode s.lease.limits.max_connections s.store
          s.communications in
      let s' : Server Project = record s { store = store; communications = registry } in
      if not (succeeded status)
      then fails (record s' { authentication_started = false; identity_started = false }) status
          (if is_unsupported status
            then Catalog.communication_unsupported_transport
            else Catalog.communication_start_failed)
          op
          (if is_unsupported status
            then codes "Configured communication transport has no backend"
            else codes "Failed to start configured communication endpoints")
          ds
      else start_project configuration.project (record s' { running = true }) op ds

module _ {Project Image : Type 0} (e : Engine Project Image) (b : Boot) (h : Host) where
  -- A failed authentication leaves the server in demo mode.
  abbrev pub authenticate :
      ServerConfiguration → Server Project → ℕ → DiagnosticCollection → Handled Project
  authenticate configuration s op ds =
      let a = b.start_authentication configuration s.configuration_directory in
      if succeeded a.status
      then start_communications e h configuration
          (record s { authentication_started = true; mode = full }) op ds
      else start_communications e h configuration
          (record s { authentication_started = false; mode = demo }) op
          (emit ds (
            diagnostic Catalog.server_demo_mode op
              (text_or a.detail (codes "Authentication unavailable"))))

  abbrev pub take_lease :
      ServerConfiguration → ℕ → Server Project → ℕ → DiagnosticCollection → Handled Project
  take_lease configuration now s op ds =
      let l =
        load_server_lease b.files (b.in_directory s.configuration_directory (codes "server.lease"))
          now s.license op ds s.lease in
      let s' : Server Project = record s { lease = l.value } in
      if not (succeeded l.status)
      then returns (record s' { identity_started = false; license = clear_license s'.license })
          l.status l.reported
      else authenticate configuration s' op l.reported

  abbrev pub identify :
      ServerConfiguration → Clock → Server Project → ℕ → DiagnosticCollection → Handled Project
  identify configuration clock s op ds =
      let i = b.start_identity configuration clock.at_identity in
      if not (succeeded i.status)
      then fails (record s { identity_started = false; license = clear_license s.license }) i.status
          (if is_unsupported i.status
            then Catalog.server_identity_unsupported
            else Catalog.server_identity_start_failed)
          op (text_or i.detail (codes "Failed to establish Server identity")) ds
      else take_lease configuration clock.at_lease (record s { identity_started = true }) op ds

  abbrev pub take_license :
      ServerConfiguration → Clock → Server Project → ℕ → DiagnosticCollection → Handled Project
  take_license configuration clock s op ds =
      let l =
        load_server_license b.files
          (b.in_directory s.configuration_directory (codes "server.license")) clock.at_license op ds
          s.license in
      let s' : Server Project = record s { license = l.value } in
      if not (succeeded l.status)
      then returns s' l.status l.reported
      else identify configuration clock s' op l.reported

  unfoldable pub start : Server Project → Text → Clock → Handled Project
  unfolding start_communications
  start s configuration_path clock =
      let (s₁, op) = next_operation s in
      let path = b.absolute_normal configuration_path in
      let s₂ : Server Project = record s₁ { configuration_directory = b.parent_path path } in
      let c = b.load_server_configuration path op in
      if not (succeeded c.status)
      then returns s₂ c.status c.reported
      else take_license c.value clock s₂ op c.reported
