-- ===== src/License/LeaseLoader.antt =====
-- license/server_lease_loader.cpp: the handler of the JSON events and load_server_lease.
pub mod Authority
use server_engine_v.Common.{
  ℕ, ◌+◌, Bool, true, false, not, ◌&&◌, ◌||◌, Option, none, some, List, [], ◌∷◌, ◌++◌, ltb, leb,
  ◌==◌, if◌then◌else◌,
}
use server_engine_v.Text.{Text, codes, text_eq, text_empty}
use server_engine_v.Status.{
  ServerStatus, success, server_lease_invalid, server_lease_read_failed, server_lease_not_active,
  server_lease_expired,
}
use server_engine_v.Diagnostics.{DiagnosticCollection, DiagnosticDescriptor, diagnostic, emit}
use server_engine_v.Diagnostics.Catalog
use server_engine_v.License.{ServerLease, ServerLicense, clear_lease, assign_lease}
use server_engine_v.License.Datetime.{parse_utc_datetime}
use server_engine_v.License.Loading.{
  Loaded, JsonValue, JsonEvent, object_begin, object_end, array_begin, array_end, key, value,
  JsonRun, Files, is_set, rejects,
}

pub data LeaseField : Type 0 where
  nothing version lease_id not_before expires_at max_connections : LeaseField

unfoldable pub field_bit : LeaseField → ℕ
field_bit nothing = 0
field_bit version = 1
field_bit lease_id = 2
field_bit not_before = 4
field_bit expires_at = 8
field_bit max_connections = 16

pub record ParseState : Type 0 where
  pub root_started : Bool
  pub root_completed : Bool
  pub valid : Bool
  pub seen : ℕ
  pub field : LeaseField
  pub version_number : ℕ
  pub lease_name : Text
  pub not_before_text : Text
  pub expires_at_text : Text
  pub connection_limit : ℕ
  pub detail : Text

abbrev pub new_state : ParseState
new_state = record {
  root_started = false;
  root_completed = false;
  valid = true;
  seen = 0;
  field = nothing;
  version_number = 0;
  lease_name = [];
  not_before_text = [];
  expires_at_text = [];
  connection_limit = 0;
  detail = [];
}

-- handler::fail
unfoldable pub fail : ParseState → Text → ParseState
fail s detail = if not s.valid then s else record s { valid = false; detail = detail }

unfoldable pub on_object_begin : ParseState → ParseState
unfolding fail
on_object_begin s =
    if not s.valid
    then s
    else if not s.root_started
    then record s { root_started = true }
    else fail s (codes "server.lease fields must be scalar values")

unfoldable pub on_object_end : ParseState → ParseState
unfolding fail
on_object_end s =
    if not s.valid
    then s
    else if not s.root_started || s.root_completed
    then fail s (codes "server.lease must contain exactly one root object")
    else record s { root_completed = true }

unfoldable pub field_named : Text → LeaseField
field_named name =
    if text_eq name (codes "version")
    then version
    else if text_eq name (codes "lease_id")
    then lease_id
    else if text_eq name (codes "not_before")
    then not_before
    else if text_eq name (codes "expires_at")
    then expires_at
    else if text_eq name (codes "max_connections")
    then max_connections
    else nothing

abbrev pub take_field : ParseState → LeaseField → Text → ParseState
take_field s nothing name = fail s (codes "unknown server.lease property: " ++ name)
take_field s field name =
    if is_set s.seen (field_bit field)
    then fail s (codes "duplicate server.lease property: " ++ name)
    else record s { seen = s.seen + field_bit field; field = field }

unfoldable pub on_key : ParseState → Text → ParseState
unfolding field_named fail field_bit
on_key s name = if not s.valid then s else take_field s (field_named name) name

-- The switch on the field, which a failed `get` leaves through fail.
abbrev pub store_value : ParseState → LeaseField → JsonValue → ParseState
store_value s nothing v = s
store_value s version v = elim v.unsigned_value [
  | none ↦ fail s (codes "server.lease version must be an unsigned integer")
  | some n ↦ record s { version_number = n }
]
store_value s lease_id v = elim v.string_value [
  | none ↦ fail s (codes "server.lease lease_id must be a non-empty string")
  | some t ↦
      if text_empty t
      then fail (record s { lease_name = t })
          (codes "server.lease lease_id must be a non-empty string")
      else record s { lease_name = t }
]
store_value s not_before v = elim v.string_value [
  | none ↦ fail s (codes "server.lease not_before must be a UTC datetime string")
  | some t ↦ record s { not_before_text = t }
]
store_value s expires_at v = elim v.string_value [
  | none ↦ fail s (codes "server.lease expires_at must be a UTC datetime string")
  | some t ↦ record s { expires_at_text = t }
]
store_value s max_connections v = elim v.unsigned_value [
  | none ↦ fail s (codes "server.lease max_connections must be an unsigned integer")
  | some n ↦ record s { connection_limit = n }
]

abbrev pub is_nothing : LeaseField → Bool
is_nothing nothing = true
is_nothing _ = false

unfoldable pub on_value : ParseState → JsonValue → ParseState
unfolding fail
on_value s v =
    if not s.valid || is_nothing s.field
    then s
    else record (store_value s s.field v) { field = nothing }

unfoldable pub handle_event : ParseState → JsonEvent → ParseState
handle_event s object_begin = on_object_begin s
handle_event s object_end = on_object_end s
handle_event s array_begin = fail s (codes "server.lease does not support arrays")
handle_event s array_end = fail s (codes "server.lease does not support arrays")
handle_event s (key name) = on_key s name
handle_event s (value v) = on_value s v

unfoldable pub handle_events : ParseState → List JsonEvent → ParseState
handle_events s [] = s
handle_events s (e ∷ es) = handle_events (handle_event s e) es

abbrev pub has_field : ParseState → LeaseField → Bool
has_field s field = is_set s.seen (field_bit field)

-- The root object is closed, and each property was given.
unfoldable pub is_complete : ParseState → Bool
unfolding field_bit
is_complete s =
    s.root_started
    && s.root_completed
    && has_field s version
    && has_field s lease_id
    && has_field s not_before
    && has_field s expires_at
    && has_field s max_connections

-- The two times, once they are read.
abbrev pub check_times :
    ServerLease
    → ParseState
    → Option ℕ
    → Option ℕ
    → ℕ
    → ServerLicense
    → ℕ
    → DiagnosticCollection
    → Loaded ServerLease
check_times output s (some starts) (some expiration) now license op ds =
    if leb expiration starts
    then rejects output server_lease_invalid Catalog.server_lease_invalid op
        (codes "server.lease not_before must be earlier than expires_at") ds
    else if ltb license.expiration expiration
    then rejects output server_lease_invalid Catalog.server_lease_invalid op
        (codes "server.lease cannot outlive server.license") ds
    else if ltb now starts
    then rejects output server_lease_not_active Catalog.server_lease_not_active op s.not_before_text
        ds
    else if leb expiration now
    then rejects output server_lease_expired Catalog.server_lease_expired op s.expires_at_text ds
    else record {
      status = success;
      value =
          assign_lease output s.lease_name starts expiration
            (record { max_connections = s.connection_limit });
      reported = ds;
    }
check_times output s _ _ now license op ds =
    rejects output server_lease_invalid Catalog.server_lease_invalid op
      (codes "server.lease times must use YYYY-MM-DDTHH:MM:SSZ UTC format") ds

-- The tests behind a successful parse.
abbrev pub check_state :
    ServerLease → ParseState → ℕ → ServerLicense → ℕ → DiagnosticCollection → Loaded ServerLease
check_state output s now license op ds =
    if not s.valid
    then rejects output server_lease_invalid Catalog.server_lease_invalid op s.detail ds
    else if not (is_complete s)
    then rejects output server_lease_invalid Catalog.server_lease_invalid op
        (codes
          "server.lease requires version, lease_id, not_before, expires_at, and max_connections")
        ds
    else if not (s.version_number == 1)
    then rejects output server_lease_invalid Catalog.server_lease_invalid op
        (codes "unsupported server.lease version; expected version 1") ds
    else if s.connection_limit == 0 || ltb license.limits.max_connections s.connection_limit
    then rejects output server_lease_invalid Catalog.server_lease_invalid op
        (codes
          "server.lease max_connections must be greater than zero and cannot exceed server.license")
        ds
    else check_times output s (parse_utc_datetime s.not_before_text)
        (parse_utc_datetime s.expires_at_text) now license op ds

abbrev pub check_run :
    ServerLease → JsonRun → ℕ → ServerLicense → ℕ → DiagnosticCollection → Loaded ServerLease
check_run output r now license op ds = elim r.error_message [
  | none ↦ check_state output (handle_events new_state r.events) now license op ds
  | some text ↦ rejects output server_lease_invalid Catalog.server_lease_invalid op text ds
]

unfoldable pub load_server_lease :
    Files → Text → ℕ → ServerLicense → ℕ → DiagnosticCollection → ServerLease → Loaded ServerLease
unfolding is_complete
load_server_lease files path now license op ds old =
    let output = clear_lease old in
    if not license.loaded
    then rejects output server_lease_invalid Catalog.server_lease_invalid op
        (codes "server.license must be loaded before server.lease") ds
    else elim (files.read path) [
      | none ↦ rejects output server_lease_read_failed Catalog.server_lease_read_failed op path ds
      | some text ↦ check_run output (files.parse_json text) now license op ds
    ]
