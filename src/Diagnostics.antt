-- ===== src/Diagnostics.antt =====
-- diagnostics/diagnostic.hpp, diagnostic_descriptor.hpp, diagnostic_builder.hpp and
-- diagnostic_collection.{hpp,cpp}: what one operation reports. The catalog holds the descriptors
-- that server.cpp uses.
pub mod Sort
pub mod Catalog
pub mod SourceCache
use server_engine_v.Common.{
  ℕ, ◌+◌, Bool, true, false, ◌||◌, List, [], ◌∷◌, ◌++◌, compare, Ordering, if◌then◌else◌,
}
use server_engine_v.Text.{Text}

pub data Severity : Type 0 where
  note warning error fatal : Severity

-- The static parts of diagnostic_descriptor that a record is built from.
pub record DiagnosticDescriptor : Type 0 where
  pub id : ℕ
  pub default_severity : Severity

pub record DiagnosticLocation : Type 0 where
  pub file : Text
  pub offset : ℕ
  pub length : ℕ
  pub line : ℕ
  pub column : ℕ
  pub file_id : ℕ

pub record DiagnosticRecord : Type 0 where
  pub id : ℕ
  pub severity : Severity
  pub operation : ℕ
  pub location : DiagnosticLocation
  pub detail : Text
  pub message : Text

abbrev pub no_location : DiagnosticLocation
no_location = record {
  file = [];
  offset = 0;
  length = 0;
  line = 0;
  column = 0;
  file_id = 0xffff_ffff;
}

-- diagnostic(descriptor, operation).detail(text).build()
unfoldable pub diagnostic : DiagnosticDescriptor → ℕ → Text → DiagnosticRecord
diagnostic d op text = record {
  id = d.id;
  severity = d.default_severity;
  operation = op;
  location = no_location;
  detail = text;
  message = [];
}

abbrev pub DiagnosticCollection : Type 0
DiagnosticCollection = List DiagnosticRecord

unfoldable pub emit : DiagnosticCollection → DiagnosticRecord → DiagnosticCollection
emit c r = c ++ r ∷ []

unfoldable pub is_error : Severity → Bool
is_error error = true
is_error fatal = true
is_error _ = false

unfoldable pub has_errors : DiagnosticCollection → Bool
has_errors [] = false
has_errors (r ∷ rs) = is_error r.severity || has_errors rs
