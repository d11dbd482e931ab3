-- ===== src/License.antt =====
-- license/server_lease.{hpp,cpp} and license/server_license.{hpp,cpp}: the validity window of the
-- lease and the loaded licence. A time point is the number of whole seconds since the start of the
-- year 0: each comparison in the code has a bound of whole seconds, so finer clocks change nothing.
pub mod Datetime
pub mod Loading
pub mod LeaseLoader
pub mod LicenseLoader
use server_engine_v.Common.{ℕ, Bool, true, false, ◌&&◌, ltb, leb, []}
use server_engine_v.Text.{Text}

pub record ServerLimits : Type 0 where
  pub max_connections : ℕ

pub record ServerLease : Type 0 where
  pub lease_id : Text
  pub not_before : ℕ
  pub expiration : ℕ
  pub limits : ServerLimits
  pub loaded : Bool

pub record ServerLicense : Type 0 where
  pub expiration : ℕ
  pub limits : ServerLimits
  pub loaded : Bool

unfoldable pub clear_lease : ServerLease → ServerLease
clear_lease l = record {
  lease_id = [];
  not_before = 0;
  expiration = 0;
  limits = record { max_connections = 0 };
  loaded = false;
}

unfoldable pub assign_lease : ServerLease → Text → ℕ → ℕ → ServerLimits → ServerLease
assign_lease l lease_id not_before expires_at limits = record {
  lease_id = lease_id;
  not_before = not_before;
  expiration = expires_at;
  limits = limits;
  loaded = true;
}

unfoldable pub valid_at : ServerLease → ℕ → Bool
valid_at l now = l.loaded && leb l.not_before now && ltb now l.expiration

unfoldable pub clear_license : ServerLicense → ServerLicense
clear_license l = record { expiration = 0; limits = record { max_connections = 0 }; loaded = false }

unfoldable pub assign_license : ServerLicense → ℕ → ServerLimits → ServerLicense
assign_license l expires_at limits = record {
  expiration = expires_at;
  limits = limits;
  loaded = true;
}
