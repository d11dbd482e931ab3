-- ===== src/License/LeaseLoader/Authority.antt =====
-- What a loaded lease is worth.
use server_engine_v.Common.{
  ℕ, ◌≤◌, ◌≡◌, ◌≢◌, refl, ◌++◌, Bool, true, false, not, Option, none, some, [], ◌∷◌, arith, ltb,
  leb, ◌||◌, ◌==◌, if◌then◌else◌,
}
use server_engine_v.Text.{Text}
use server_engine_v.Status.{ServerStatus, server_lease_read_failed, succeeded}
use server_engine_v.Diagnostics.Catalog
use server_engine_v.Diagnostics.{
  DiagnosticRecord, DiagnosticDescriptor, DiagnosticCollection, fatal, diagnostic, emit,
}
use server_engine_v.License.{ServerLease, ServerLicense, clear_lease, assign_lease, valid_at}
use server_engine_v.License.Datetime.{parse_utc_datetime}
use server_engine_v.License.Loading.{Loaded, rejects, JsonRun, Files}
use server_engine_v.License.LeaseLoader.{
  ParseState, handle_events, new_state, check_times, check_state, check_run, is_complete,
  load_server_lease,
}

-- A lease in force now, inside the licence.
pub record IsAuthorised (now : ℕ) (license : ServerLicense) (l : ServerLease) : Type 0 where
  pub in_force : valid_at l now ≡ true
  pub within : l.expiration ≤ license.expiration
  pub connects : l.limits.max_connections ≢ 0
  pub limited : l.limits.max_connections ≤ license.limits.max_connections
  pub licensed : license.loaded ≡ true

-- The two outcomes of a load.
pub record LeaseOutcome (now : ℕ) (license : ServerLicense) (op : ℕ) (ds : DiagnosticCollection)
    (r : Loaded ServerLease) : Type 0 where
  pub granted : succeeded r.status ≡ true → IsAuthorised now license r.value × (r.reported ≡ ds)
  pub refused :
      succeeded r.status ≡ false
      → ((t : ℕ) → valid_at r.value t ≡ false)
        × (d : DiagnosticRecord) × (r.reported ≡ ds ++ d ∷ [])
        × (d.severity ≡ fatal)
        × (d.operation ≡ op)

refusal :
    {now : ℕ} {license : ServerLicense} {op : ℕ} {ds : DiagnosticCollection} (output : ServerLease)
    (status : ServerStatus) (d : DiagnosticDescriptor) (text : Text)
    → output.loaded ≡ false
    → succeeded status ≡ false
    → d.default_severity ≡ fatal
    → LeaseOutcome now license op ds (rejects output status d op text ds)
unfolding valid_at emit diagnostic
refusal {op = op} {ds = ds} output status d text o f w = record {
  granted = λ h. ground arith;
  refused = λ h. ((λ t. ground arith), diagnostic d op text, refl, w, refl);
}

either :
    {now : ℕ} {license : ServerLicense} {op : ℕ} {ds : DiagnosticCollection} (b : Bool)
    {r r' : Loaded ServerLease}
    → (b ≡ true → LeaseOutcome now license op ds r)
    → (b ≡ false → LeaseOutcome now license op ds r')
    → LeaseOutcome now license op ds (if b then r else r')
either true f g = f refl
either false f g = g refl

check_times-LeaseOutcome :
    (output : ServerLease) (s : ParseState) (from until : Option ℕ) (now : ℕ)
    (license : ServerLicense) (op : ℕ) (ds : DiagnosticCollection)
    → license.loaded ≡ true
    → s.connection_limit ≢ 0
    → s.connection_limit ≤ license.limits.max_connections
    → output.loaded ≡ false
    → LeaseOutcome now license op ds (check_times output s from until now license op ds)
unfolding succeeded assign_lease valid_at
check_times-LeaseOutcome output s none until now license op ds k z w o =
    refusal output _ _ _ o refl refl
check_times-LeaseOutcome output s (some from) none now license op ds k z w o =
    refusal output _ _ _ o refl refl
check_times-LeaseOutcome output s (some from) (some until) now license op ds k z w o =
    either (leb until from) (λ h. refusal output _ _ _ o refl refl)
      λ h₁.
        either (ltb license.expiration until) (λ h. refusal output _ _ _ o refl refl)
          λ h₂.
            either (ltb now from) (λ h. refusal output _ _ _ o refl refl)
              λ h₃.
                either (leb until now) (λ h. refusal output _ _ _ o refl refl)
                  λ h₄. record {
                    granted = λ h. (
                      record {
                        in_force = ground arith;
                        within = ground arith;
                        connects = z;
                        limited = w;
                        licensed = k;
                      },
                      refl,
                    );
                    refused = λ h. cc;
                  }

check_state-LeaseOutcome :
    (output : ServerLease) (s : ParseState) (now : ℕ) (license : ServerLicense) (op : ℕ)
    (ds : DiagnosticCollection)
    → license.loaded ≡ true
    → output.loaded ≡ false
    → LeaseOutcome now license op ds (check_state output s now license op ds)
unfolding succeeded
check_state-LeaseOutcome output s now license op ds k o =
    either (not s.valid) (λ h. refusal output _ _ _ o refl refl)
      λ h₁.
        either (not (is_complete s)) (λ h. refusal output _ _ _ o refl refl)
          λ h₂.
            either (not (s.version_number == 1)) (λ h. refusal output _ _ _ o refl refl)
              λ h₃.
                either
                  (s.connection_limit == 0 || ltb license.limits.max_connections s.connection_limit)
                  (λ h. refusal output _ _ _ o refl refl)
                  λ h₄.
                    check_times-LeaseOutcome output s (parse_utc_datetime s.not_before_text)
                      (parse_utc_datetime s.expires_at_text) now license op ds k (λ e. ground arith)
                      (ground arith) o

-- `load_server_lease` either succeeds, without a diagnostic, with a lease that is valid now, does not
-- outlive the licence, and allows at least one and at most the licensed number of connections; or it
-- fails with one fatal diagnostic of the operation and a lease that is valid at no time.
pub load_server_lease_lem :
    (files : Files) (path : Text) (now : ℕ) (license : ServerLicense) (op : ℕ)
    (ds : DiagnosticCollection) (old : ServerLease)
    → LeaseOutcome now license op ds (load_server_lease files path now license op ds old)
unfolding load_server_lease clear_lease succeeded is_complete
load_server_lease_lem files path now license op ds old =
    let output = clear_lease old in
    either (not license.loaded) (λ h. refusal output _ _ _ refl refl refl)
      λ h. read_lem (files.read path) (ground arith)
  where
    run_lem :
        (r : JsonRun) (m : Option Text)
        → r.error_message ≡ m
        → license.loaded ≡ true
        → LeaseOutcome now license op ds (check_run (clear_lease old) r now license op ds)
    run_lem r none e k = rw e (
        check_state-LeaseOutcome (clear_lease old) (handle_events new_state r.events) now license op
          ds k refl)
    run_lem r (some text) e k = rw e (refusal (clear_lease old) _ _ _ refl refl refl)

    read_lem :
        (m : Option Text)
        → license.loaded ≡ true
        → LeaseOutcome now license op ds (elim m [
          | none ↦
              rejects
                (clear_lease old)
                server_lease_read_failed
                Catalog.server_lease_read_failed
                op
                path
                ds
          | some text ↦ check_run (clear_lease old) (files.parse_json text) now license op ds
        ])
    read_lem none k = refusal (clear_lease old) _ _ _ refl refl refl
    read_lem (some text) k =
        run_lem (files.parse_json text) (files.parse_json text).error_message refl k
