-- ===== src/Server/Startup/Outcome.antt =====
-- The outcome of server::start (server.cpp): what runs after it.
use server_engine_v.Common.{
  ℕ, ◌+◌, ◌≡◌, ◌≢◌, refl, ◌∙◌, ap, Bool, true, false, Option, none, some, [], arith, length,
  if◌then◌else◌, Bool-cases, inl, inr,
}
use server_engine_v.Text.{Text, codes}
use server_engine_v.Status.{ServerStatus, succeeded, ProjectState, unloaded}
use server_engine_v.License.{clear_license}
use server_engine_v.License.LeaseLoader.{load_server_lease}
use server_engine_v.License.LeaseLoader.Authority.{IsAuthorised, load_server_lease_lem}
use server_engine_v.License.LicenseLoader.{load_server_license}
use server_engine_v.Policy.{full, demo}
use server_engine_v.Diagnostics.{DiagnosticCollection}
use server_engine_v.Communication.Registry.{
  Communication, Host, EndpointConfiguration, connection_limit, stop,
}
use server_engine_v.Communication.Registry
use server_engine_v.Communication.Registry.Startup.{start_lem}
use server_engine_v.Server.Engine.{Engine}
use server_engine_v.Server.State.{Server, Handled, next_operation}
use server_engine_v.Server.Control
use server_engine_v.Server.Loop.{shut_down}
use server_engine_v.Server.Startup.{
  Boot, Clock, ServerConfiguration, ProjectStartup, start_project, start_communications,
  authenticate, take_lease, identify, take_license, start,
}

abbrev endpoints_of : Communication → ℕ
endpoints_of c = length c.consoles + length c.tcp_endpoints

-- Nothing was started yet, or all of it was stopped again.
pub record IsIdle {Project : Type 0} (s : Server Project) : Type 0 where
  pub not_running : s.running ≡ false
  pub no_project : s.project ≡ none
  pub no_state : s.project_state_value ≡ unloaded
  pub no_endpoint : endpoints_of s.communications ≡ 0
  pub no_connection : s.communications.connections ≡ []
  pub no_identity : s.identity_started ≡ false
  pub no_authentication : s.authentication_started ≡ false

-- The server runs with an endpoint at least, the gate of its mode, and a lease in force at `now`.
pub record IsStarted {Project : Type 0} (now : ℕ) (s : Server Project) : Type 0 where
  pub is_running : s.running ≡ true
  pub has_endpoint : endpoints_of s.communications ≢ 0
  pub no_connection : s.communications.connections ≡ []
  pub has_identity : s.identity_started ≡ true
  pub has_mode : s.mode ≡ (if s.authentication_started then full else demo)
  pub has_gate :
      s.communications.tcp_gate
      ≡ record { active = 0; limit = connection_limit s.mode s.lease.limits.max_connections }
  pub authorised : IsAuthorised now s.license s.lease

abbrev pub Outcome : {Project : Type 0} → ℕ → Handled Project → Type 0
Outcome now h =
    (succeeded h.status ≡ true → IsStarted now h.server)
    × (succeeded h.status ≡ false → IsIdle h.server)

module _ {Project : Type 0} where
  -- What idleness looks at.
  abbrev resources :
      Server Project → Bool × Option Project × ProjectState × Communication × Bool × Bool
  resources s = (
    s.running, s.project, s.project_state_value, s.communications, s.identity_started,
    s.authentication_started,
  )

  kept-IsIdle : (s t : Server Project) → resources t ≡ resources s → IsIdle s → IsIdle t
  kept-IsIdle s t k v = record {
    not_running = ap (λ r. r.0) k ∙ v.not_running;
    no_project = ap (λ r. r.1) k ∙ v.no_project;
    no_state = ap (λ r. r.2) k ∙ v.no_state;
    no_endpoint = ap (λ r. endpoints_of r.3) k ∙ v.no_endpoint;
    no_connection = ap (λ r. r.3.connections) k ∙ v.no_connection;
    no_identity = ap (λ r. r.4) k ∙ v.no_identity;
    no_authentication = ap (λ r. r.5) k ∙ v.no_authentication;
  }

  -- Without an identity it is as idle.
  anonymous : (s : Server Project) → IsIdle s → IsIdle (record s { identity_started = false })
  anonymous s v = record {
    not_running = v.not_running;
    no_project = v.no_project;
    no_state = v.no_state;
    no_endpoint = v.no_endpoint;
    no_connection = v.no_connection;
    no_identity = refl;
    no_authentication = v.no_authentication;
  }

  failed-Outcome :
      (now : ℕ) (s : Server Project) (status : ServerStatus)
      → succeeded status ≡ false
      → IsIdle s
      → (succeeded status ≡ true → IsStarted now s) × (succeeded status ≡ false → IsIdle s)
  failed-Outcome now s status bad v = ((λ k. ground arith), (λ k. v))

module _ {Project Image : Type 0} (e : Engine Project Image) where
  start_project-Outcome :
      (now : ℕ) (p : Option ProjectStartup) (s : Server Project) (op : ℕ)
      (ds : DiagnosticCollection)
      → IsStarted now s
      → Outcome now (start_project e p s op ds)
  unfolding shut_down stop Control.load Control.publish Control.rebuild succeeded
  start_project-Outcome now none s op ds v = ground arith
  start_project-Outcome now (some p) s op ds v = ground arith

  start_communications-Outcome :
      (now : ℕ) (h : Host) (c : ServerConfiguration) (s : Server Project) (op : ℕ)
      (ds : DiagnosticCollection)
      → IsIdle (record s { identity_started = false; authentication_started = false })
      → s.identity_started ≡ true
      → s.mode ≡ (if s.authentication_started then full else demo)
      → IsAuthorised now s.license s.lease
      → Outcome now (start_communications e h c s op ds)
  unfolding start_communications
  start_communications-Outcome now h c s op ds v i m a =
      let r =
        Registry.start h c.endpoints s.mode s.lease.limits.max_connections s.store
          s.communications in
      let l =
        start_lem h c.endpoints s.mode s.lease.limits.max_connections s.store s.communications in
      elim (Bool-cases (succeeded r.1)) [
        | inl good ↦ rw good (
            start_project-Outcome now c.project
              (record s { store = r.0.0; communications = r.0.1; running = true }) op ds
              (record {
                is_running = refl;
                has_endpoint = ground (arith, l);
                no_connection = l.2;
                has_identity = i;
                has_mode = m;
                has_gate = l.3;
                authorised = a;
              }))
        | inr bad ↦
            rw (bad, bad)
              (
                (λ k. ground arith),
                λ k. record {
                  not_running = v.not_running;
                  no_project = v.no_project;
                  no_state = v.no_state;
                  no_endpoint = ground (arith, l);
                  no_connection = l.2;
                  no_identity = refl;
                  no_authentication = refl;
                },
              )
      ]

module _ {Project Image : Type 0} (e : Engine Project Image) (b : Boot) (h : Host) where
  authenticate-Outcome :
      (now : ℕ) (c : ServerConfiguration) (s : Server Project) (op : ℕ) (ds : DiagnosticCollection)
      → IsIdle (record s { identity_started = false })
      → s.identity_started ≡ true
      → IsAuthorised now s.license s.lease
      → Outcome now (authenticate e b h c s op ds)
  authenticate-Outcome now c s op ds v i w =
      let a = b.start_authentication c s.configuration_directory in
      elim (Bool-cases (succeeded a.status)) [
        | inl good ↦
            rw good
              (start_communications-Outcome e now h c _ op ds (kept-IsIdle _ _ (cc) v) i refl w)
        | inr bad ↦
            rw bad (start_communications-Outcome e now h c _ op _ (kept-IsIdle _ _ (cc) v) i refl w)
      ]

  take_lease-Outcome :
      (c : ServerConfiguration) (now : ℕ) (s : Server Project) (op : ℕ) (ds : DiagnosticCollection)
      → IsIdle (record s { identity_started = false })
      → s.identity_started ≡ true
      → Outcome now (take_lease e b h c now s op ds)
  take_lease-Outcome c now s op ds v i =
      let path = b.in_directory s.configuration_directory (codes "server.lease") in
      let l = load_server_lease b.files path now s.license op ds s.lease in
      let loads = load_server_lease_lem b.files path now s.license op ds s.lease in
      let s' : Server Project = record s { lease = l.value } in
      let ended : Server Project = record s' {
        identity_started = false;
        license = clear_license s'.license;
      } in
      elim (Bool-cases (succeeded l.status)) [
        | inl good ↦ rw good (
            authenticate-Outcome now c s' op l.reported
              (kept-IsIdle (record s { identity_started = false })
                (record s' { identity_started = false }) refl v)
              i (loads.granted good).0)
        | inr bad ↦ rw bad (
            failed-Outcome now ended l.status bad
              (kept-IsIdle (record s { identity_started = false }) ended refl v))
      ]

  identify-Outcome :
      (c : ServerConfiguration) (clock : Clock) (s : Server Project) (op : ℕ)
      (ds : DiagnosticCollection)
      → IsIdle s
      → Outcome clock.at_lease (identify e b h c clock s op ds)
  identify-Outcome c clock s op ds v =
      let i = b.start_identity c clock.at_identity in
      let ended : Server Project = record s {
        identity_started = false;
        license = clear_license s.license;
      } in
      let named : Server Project = record s { identity_started = true } in
      elim (Bool-cases (succeeded i.status)) [
        | inl good ↦ rw good (
            take_lease-Outcome c clock.at_lease named op ds
              (kept-IsIdle (record s { identity_started = false })
                (record named { identity_started = false }) refl (anonymous s v))
              refl)
        | inr bad ↦ rw bad (
            failed-Outcome clock.at_lease ended i.status bad
              (kept-IsIdle (record s { identity_started = false }) ended refl (anonymous s v)))
      ]

  take_license-Outcome :
      (c : ServerConfiguration) (clock : Clock) (s : Server Project) (op : ℕ)
      (ds : DiagnosticCollection)
      → IsIdle s
      → Outcome clock.at_lease (take_license e b h c clock s op ds)
  take_license-Outcome c clock s op ds v =
      let l =
        load_server_license b.files
          (b.in_directory s.configuration_directory (codes "server.license")) clock.at_license op ds
          s.license in
      let s' : Server Project = record s { license = l.value } in
      elim (Bool-cases (succeeded l.status)) [
        | inl good ↦ rw good (identify-Outcome c clock s' op l.reported (kept-IsIdle s s' refl v))
        | inr bad ↦ rw bad (failed-Outcome clock.at_lease s' l.status bad (kept-IsIdle s s' refl v))
      ]

  -- `start` on an idle server: if it succeeds, the server runs with at least one endpoint and no
  -- connection yet, its identity is established, it is in full mode exactly if authentication
  -- started, the gate has the limit of the mode and the lease, and the lease was in force when it
  -- was loaded and stays within the licence. If it fails at any step, the server is idle: not
  -- running, with no Project, no endpoint, no connection, no identity and no authentication.
  pub start-Outcome :
      (s : Server Project) (path : Text) (clock : Clock)
      → IsIdle s
      → Outcome clock.at_lease (start e b h s path clock)
  unfolding start next_operation
  start-Outcome s path clock v =
      let (s₁, op) = next_operation s in
      let loaded_configuration = b.load_server_configuration (b.absolute_normal path) op in
      let s₂ : Server Project = record s₁ {
        configuration_directory = b.parent_path (b.absolute_normal path);
      } in
      let idle : IsIdle s₂ = kept-IsIdle s s₂ refl v in
      elim (Bool-cases (succeeded loaded_configuration.status)) [
        | inl good ↦ rw good (
            take_license-Outcome loaded_configuration.value clock s₂ op
              loaded_configuration.reported idle)
        | inr bad ↦ rw bad (failed-Outcome clock.at_lease s₂ loaded_configuration.status bad idle)
      ]
