-- ===== src/License/LicenseLoader/Validity.antt =====
-- What a loaded licence is worth.
use server_engine_v.Common.{
  ℕ, ◌<◌, ◌≡◌, ◌≢◌, refl, ◌++◌, Bool, true, false, not, Option, none, some, [], ◌∷◌, arith, leb,
  ◌==◌, if◌then◌else◌,
}
use server_engine_v.Text.{Text}
use server_engine_v.Status.{ServerStatus, license_read_failed, succeeded}
use server_engine_v.Diagnostics.Catalog
use server_engine_v.Diagnostics.{
  DiagnosticRecord, DiagnosticDescriptor, DiagnosticCollection, fatal, diagnostic, emit,
}
use server_engine_v.License.{ServerLicense, clear_license, assign_license}
use server_engine_v.License.Datetime.{parse_utc_datetime}
use server_engine_v.License.Loading.{Loaded, rejects, JsonRun, Files}
use server_engine_v.License.LicenseLoader.{
  ParseState, handle_events, new_state, check_time, check_state, check_run, is_complete,
  load_server_license,
}

-- A licence that has not run out and allows a connection.
pub record IsLicensed (now : ℕ) (l : ServerLicense) : Type 0 where
  pub is_loaded : l.loaded ≡ true
  pub in_force : now < l.expiration
  pub connects : l.limits.max_connections ≢ 0

-- The two outcomes of a load.
pub record LicenseOutcome (now op : ℕ) (ds : DiagnosticCollection) (r : Loaded ServerLicense)
    : Type 0 where
  pub granted : succeeded r.status ≡ true → IsLicensed now r.value × (r.reported ≡ ds)
  pub refused :
      succeeded r.status ≡ false
      → (r.value.loaded ≡ false)
        × (d : DiagnosticRecord) × (r.reported ≡ ds ++ d ∷ [])
        × (d.severity ≡ fatal)
        × (d.operation ≡ op)

refusal :
    {now op : ℕ} {ds : DiagnosticCollection} (output : ServerLicense) (status : ServerStatus)
    (d : DiagnosticDescriptor) (text : Text)
    → output.loaded ≡ false
    → succeeded status ≡ false
    → d.default_severity ≡ fatal
    → LicenseOutcome now op ds (rejects output status d op text ds)
unfolding emit diagnostic
refusal {op = op} output status d text o f w = record {
  granted = λ h. ground arith;
  refused = λ h. (o, diagnostic d op text, refl, w, refl);
}

either :
    {now op : ℕ} {ds : DiagnosticCollection} (b : Bool) {r r' : Loaded ServerLicense}
    → (b ≡ true → LicenseOutcome now op ds r)
    → (b ≡ false → LicenseOutcome now op ds r')
    → LicenseOutcome now op ds (if b then r else r')
either true f g = f refl
either false f g = g refl

check_time-LicenseOutcome :
    (output : ServerLicense) (s : ParseState) (until : Option ℕ) (now op : ℕ)
    (ds : DiagnosticCollection)
    → s.connection_limit ≢ 0
    → output.loaded ≡ false
    → LicenseOutcome now op ds (check_time output s until now op ds)
unfolding succeeded assign_license
check_time-LicenseOutcome output s none now op ds z o = refusal output _ _ _ o refl refl
check_time-LicenseOutcome output s (some until) now op ds z o =
    either (leb until now) (λ h. refusal output _ _ _ o refl refl)
      λ h. record {
        granted = λ k. (record { is_loaded = refl; in_force = ground arith; connects = z }, refl);
        refused = λ k. cc;
      }

check_state-LicenseOutcome :
    (output : ServerLicense) (s : ParseState) (now op : ℕ) (ds : DiagnosticCollection)
    → output.loaded ≡ false
    → LicenseOutcome now op ds (check_state output s now op ds)
unfolding succeeded
check_state-LicenseOutcome output s now op ds o =
    either (not s.valid) (λ h. refusal output _ _ _ o refl refl)
      λ h₁.
        either (not (is_complete s)) (λ h. refusal output _ _ _ o refl refl)
          λ h₂.
            either (not (s.version_number == 1)) (λ h. refusal output _ _ _ o refl refl)
              λ h₃.
                either (s.connection_limit == 0) (λ h. refusal output _ _ _ o refl refl)
                  λ h₄.
                    check_time-LicenseOutcome output s (parse_utc_datetime s.expires_at_text) now op
                      ds (λ e. ground arith) o

-- `load_server_license` either succeeds, without a diagnostic, with a loaded licence that expires
-- later than now and allows at least one connection; or it fails with one fatal diagnostic of the
-- operation, and no licence is loaded.
pub load_server_license_lem :
    (files : Files) (path : Text) (now op : ℕ) (ds : DiagnosticCollection) (old : ServerLicense)
    → LicenseOutcome now op ds (load_server_license files path now op ds old)
unfolding load_server_license clear_license succeeded is_complete
load_server_license_lem files path now op ds old = read_lem (files.read path)
  where
    run_lem :
        (r : JsonRun) (m : Option Text)
        → r.error_message ≡ m
        → LicenseOutcome now op ds (check_run (clear_license old) r now op ds)
    run_lem r none e = rw e (
        check_state-LicenseOutcome (clear_license old) (handle_events new_state r.events) now op ds
          refl)
    run_lem r (some text) e = rw e (refusal (clear_license old) _ _ _ refl refl refl)

    read_lem :
        (m : Option Text)
        → LicenseOutcome now op ds (elim m [
          | none ↦
              rejects (clear_license old) license_read_failed Catalog.license_read_failed op path ds
          | some text ↦ check_run (clear_license old) (files.parse_json text) now op ds
        ])
    read_lem none = refusal (clear_license old) _ _ _ refl refl refl
    read_lem (some text) =
        run_lem (files.parse_json text) (files.parse_json text).error_message refl
