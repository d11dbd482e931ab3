-- ===== src/License/LicenseLoader.antt =====
-- license/server_license_loader.cpp: the handler of the JSON events and load_server_license.
pub mod Validity
use server_engine_v.Common.{
  ℕ, ◌+◌, Bool, true, false, not, ◌&&◌, ◌||◌, Option, none, some, List, [], ◌∷◌, ◌++◌, ltb, leb,
  ◌==◌, if◌then◌else◌,
}
use server_engine_v.Text.{Text, codes, text_eq, text_empty}
use server_engine_v.Status.{
  ServerStatus, success, license_read_failed, license_invalid, license_expired,
}
use server_engine_v.Diagnostics.{DiagnosticCollection, DiagnosticDescriptor, diagnostic, emit}
use server_engine_v.Diagnostics.Catalog
use server_engine_v.License.{ServerLease, ServerLicense, clear_license, assign_license}
use server_engine_v.License.Datetime.{parse_utc_datetime}
use server_engine_v.License.Loading.{
  Loaded, JsonValue, JsonEvent, object_begin, object_end, array_begin, array_end, key, value,
  JsonRun, Files, is_set, rejects,
}

pub data LicenseField : Type 0 where
  nothing version expires_at max_connections : LicenseField

unfoldable pub field_bit : LicenseField → ℕ
field_bit nothing = 0
field_bit version = 1
field_bit expires_at = 2
field_bit max_connections = 4

pub record ParseState : Type 0 where
  pub root_started : Bool
  pub root_completed : Bool
  pub valid : Bool
  pub seen : ℕ
  pub field : LicenseField
  pub version_number : ℕ
  pub expires_at_text : Text
  pub connection_limit : ℕ
  pub detail : Text

abbrev pub new_state : ParseState
new_state = record {
  root_started = false;
  root_completed = false;
  valid = true;
  seen = 0;
  field = nothing;
  version_number = 0;
  expires_at_text = [];
  connection_limit = 0;
  detail = [];
}

-- handler::fail
unfoldable pub fail : ParseState → Text → ParseState
fail s detail = if not s.valid then s else record s { valid = false; detail = detail }

unfoldable pub on_object_begin : ParseState → ParseState
unfolding fail
on_object_begin s =
    if not s.valid
    then s
    else if not s.root_started
    then record s { root_started = true }
    else fail s (codes "server.license fields must be scalar values")

unfoldable pub on_object_end : ParseState → ParseState
unfolding fail
on_object_end s =
    if not s.valid
    then s
    else if not s.root_started || s.root_completed
    then fail s (codes "server.license must contain exactly one root object")
    else record s { root_completed = true }

unfoldable pub field_named : Text → LicenseField
field_named name =
    if text_eq name (codes "version")
    then version
    else if text_eq name (codes "expires_at")
    then expires_at
    else if text_eq name (codes "max_connections")
    then max_connections
    else nothing

abbrev pub take_field : ParseState → LicenseField → Text → ParseState
take_field s nothing name = fail s (codes "unknown server.license property: " ++ name)
take_field s field name =
    if is_set s.seen (field_bit field)
    then fail s (codes "duplicate server.license property: " ++ name)
    else record s { seen = s.seen + field_bit field; field = field }

unfoldable pub on_key : ParseState → Text → ParseState
unfolding field_named fail field_bit
on_key s name = if not s.valid then s else take_field s (field_named name) name

-- The switch on the field, which a failed `get` leaves through fail.
abbrev pub store_value : ParseState → LicenseField → JsonValue → ParseState
store_value s nothing v = s
store_value s version v = elim v.unsigned_value [
  | none ↦ fail s (codes "server.license version must be an unsigned integer")
  | some n ↦ record s { version_number = n }
]
store_value s expires_at v = elim v.string_value [
  | none ↦ fail s (codes "server.license expires_at must be a UTC datetime string")
  | some t ↦ record s { expires_at_text = t }
]
store_value s max_connections v = elim v.unsigned_value [
  | none ↦ fail s (codes "server.license max_connections must be an unsigned integer")
  | some n ↦ record s { connection_limit = n }
]

abbrev pub is_nothing : LicenseField → Bool
is_nothing nothing = true
is_nothing _ = false

unfoldable pub on_value : ParseState → JsonValue → ParseState
unfolding fail
on_value s v =
    if not s.valid || is_nothing s.field
    then s
    else record (store_value s s.field v) { field = nothing }

unfoldable pub handle_event : ParseState → JsonEvent → ParseState
handle_event s object_begin = on_object_begin s
handle_event s object_end = on_object_end s
handle_event s array_begin = fail s (codes "server.license does not support arrays")
handle_event s array_end = fail s (codes "server.license does not support arrays")
handle_event s (key name) = on_key s name
handle_event s (value v) = on_value s v

unfoldable pub handle_events : ParseState → List JsonEvent → ParseState
handle_events s [] = s
handle_events s (e ∷ es) = handle_events (handle_event s e) es

abbrev pub has_field : ParseState → LicenseField → Bool
has_field s field = is_set s.seen (field_bit field)

-- The root object is closed, and each property was given.
unfoldable pub is_complete : ParseState → Bool
unfolding field_bit
is_complete s =
    s.root_started
    && s.root_completed
    && has_field s version
    && has_field s expires_at
    && has_field s max_connections

-- The expiration, once it is read.
abbrev pub check_time :
    ServerLicense → ParseState → Option ℕ → ℕ → ℕ → DiagnosticCollection → Loaded ServerLicense
check_time output s none now op ds =
    rejects output license_invalid Catalog.license_invalid op
      (codes "server.license expires_at must use YYYY-MM-DDTHH:MM:SSZ UTC format") ds
check_time output s (some expiration) now op ds =
    if leb expiration now
    then rejects output license_expired Catalog.license_expired op s.expires_at_text ds
    else record {
      status = success;
      value = assign_license output expiration (record { max_connections = s.connection_limit });
      reported = ds;
    }

-- The tests behind a successful parse.
abbrev pub check_state :
    ServerLicense → ParseState → ℕ → ℕ → DiagnosticCollection → Loaded ServerLicense
check_state output s now op ds =
    if not s.valid
    then rejects output license_invalid Catalog.license_invalid op s.detail ds
    else if not (is_complete s)
    then rejects output license_invalid Catalog.license_invalid op
        (codes "server.license requires version, expires_at, and max_connections") ds
    else if not (s.version_number == 1)
    then rejects output license_invalid Catalog.license_invalid op
        (codes "unsupported server.license version; expected version 1") ds
    else if s.connection_limit == 0
    then rejects output license_invalid Catalog.license_invalid op
        (codes "server.license max_connections must be greater than zero") ds
    else check_time output s (parse_utc_datetime s.expires_at_text) now op ds

abbrev pub check_run : ServerLicense → JsonRun → ℕ → ℕ → DiagnosticCollection → Loaded ServerLicense
check_run output r now op ds = elim r.error_message [
  | none ↦ check_state output (handle_events new_state r.events) now op ds
  | some text ↦ rejects output license_invalid Catalog.license_invalid op text ds
]

unfoldable pub load_server_license :
    Files → Text → ℕ → ℕ → DiagnosticCollection → ServerLicense → Loaded ServerLicense
unfolding is_complete
load_server_license files path now op ds old =
    let output = clear_license old in
    elim (files.read path) [
      | none ↦ rejects output license_read_failed Catalog.license_read_failed op path ds
      | some text ↦ check_run output (files.parse_json text) now op ds
    ]
