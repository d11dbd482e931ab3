-- ===== src/Communication/Session.antt =====
-- communication/session/client_session.{hpp,cpp} and communication/request_identity.hpp: the login
-- state of one client session.
use server_engine_v.Common.{
  ℕ, Bool, true, false, ◌||◌, Option, none, some, [], ltb, ◌==◌, not, if◌then◌else◌, length,
}
use server_engine_v.Text.{Text, text_empty}

pub data SessionState : Type 0 where
  connected logged_in : SessionState

pub data LoginResult : Type 0 where
  success already_logged_in invalid_request : LoginResult

unfoldable pub login_succeeded : LoginResult → Bool
login_succeeded success = true
login_succeeded already_logged_in = false
login_succeeded invalid_request = false

pub record ClientSession : Type 0 where
  pub session_id : ℕ
  pub session_state : SessionState
  pub client_name : Text

pub data RequestOrigin : Type 0 where
  internal console tcp : RequestOrigin

pub record RequestIdentity : Type 0 where
  pub origin : RequestOrigin
  pub name : Text

abbrev pub max_name_size : ℕ
max_name_size = 128

-- `valid()` of a session, request or subscription id.
abbrev pub valid_id : ℕ → Bool
valid_id i = not (i == 0)

unfoldable pub new_session : ℕ → ClientSession
new_session i = record { session_id = i; session_state = connected; client_name = [] }

unfoldable pub is_logged_in : SessionState → Bool
is_logged_in connected = false
is_logged_in logged_in = true

unfoldable pub login : ClientSession → Text → ClientSession × LoginResult
unfolding is_logged_in text_empty
login s name =
    if is_logged_in s.session_state
    then (s, already_logged_in)
    else if not (valid_id s.session_id) || text_empty name || ltb max_name_size (length name)
    then (s, invalid_request)
    else (record s { client_name = name; session_state = logged_in }, success)

-- The out-parameter is written on success only.
unfoldable pub make_request_identity : ClientSession → Option RequestIdentity
unfolding is_logged_in
make_request_identity s =
    if is_logged_in s.session_state
    then some (record { origin = tcp; name = s.client_name })
    else none
