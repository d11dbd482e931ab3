-- ===== src/Communication/Connection.antt =====
-- communication/connection/communication_connection.{hpp,cpp} and subscription_registration: one
-- connection with its session, outbound channel, outstanding requests and subscriptions. A method
-- is one step on the record, also where the code enters several critical sections in turn (enqueue_response and the
-- other enqueue_ methods, begin_close, mark_written). The transport's notify callback is counted, and the contexts that
-- publishers are deregistered for are collected in `unregistered`.
pub mod Identity
pub mod Invariant
pub mod Requests
pub mod Delivery
pub mod Subscriptions
pub mod Registrations
pub mod WriteWait
use server_engine_v.Common.{
  ℕ, suc, ◌+◌, ◌%◌, ◌^◌, Bool, true, false, not, ◌&&◌, ◌||◌, Option, none, some, List, [], ◌∷◌,
  ◌++◌, ◌==◌, if◌then◌else◌, length, add64, sub64,
}
use server_engine_v.Text.{Text}
use server_engine_v.Status.{ProjectState}
use server_engine_v.Diagnostics.{DiagnosticCollection}
use server_engine_v.Communication.Session.{
  ClientSession, LoginResult, invalid_request, RequestIdentity, valid_id, new_session,
  login_succeeded,
}
use server_engine_v.Communication.Session
use server_engine_v.Communication.Outbound.{
  OutboundMessage, OutboundWrite, OutboundChannel, new_channel,
}
use server_engine_v.Communication.Outbound
use server_engine_v.Communication.Protocol.{
  ServerResponse, ProtocolResponse, ClientAction, SubscriptionData, OutboundPayload, response,
  server_state_action, action, subscription,
}

-- subscription_entry: the registration's context, or none for a registration without callback.
pub record SubscriptionEntry : Type 0 where
  pub id : ℕ
  pub registration : Option ℕ

pub record Connection : Type 0 where
  pub references : ℕ
  pub session : ClientSession
  pub login_committed : Bool
  pub close_started : Bool
  pub has_notify : Bool
  pub notified : ℕ
  pub outbound : OutboundChannel OutboundPayload
  pub awaited_written_request : ℕ
  pub awaited_written : Bool
  pub outstanding_requests : List ℕ
  pub subscriptions : List SubscriptionEntry
  pub unregistered : List ℕ

unfoldable pub create : ℕ → ℕ → Bool → Connection
create id outbound_byte_limit has_notify = record {
  references = 1;
  session = new_session id;
  login_committed = false;
  close_started = false;
  has_notify = has_notify;
  notified = 0;
  outbound = new_channel outbound_byte_limit;
  awaited_written_request = 0;
  awaited_written = false;
  outstanding_requests = [];
  subscriptions = [];
  unregistered = [];
}

abbrev pub id : Connection → ℕ
id c = c.session.session_id

-- outstanding_requests.find(request) != end()
unfoldable pub contains_request : ℕ → List ℕ → Bool
contains_request r [] = false
contains_request r (x ∷ xs) = x == r || contains_request r xs

-- outstanding_requests.erase(request), of a set
unfoldable pub erase_request : ℕ → List ℕ → List ℕ
erase_request r [] = []
erase_request r (x ∷ xs) = if x == r then erase_request r xs else x ∷ erase_request r xs

unfoldable pub make_request_identity : Connection → Option RequestIdentity
make_request_identity c =
    if c.login_committed then Session.make_request_identity c.session else none

unfoldable pub commit_login : Connection → Text → Connection × LoginResult
commit_login c name =
    if c.close_started
    then (c, invalid_request)
    else let (s, result) = Session.login c.session name in
      if login_succeeded result
      then (record c { session = s; login_committed = true }, result)
      else (record c { session = s }, result)

unfoldable pub reserve_request : Connection → ℕ → Connection × Bool
reserve_request c request =
    if not (valid_id request) || c.close_started
    then (c, false)
    else if contains_request request c.outstanding_requests
    then (c, false)
    else (record c { outstanding_requests = request ∷ c.outstanding_requests }, true)

unfoldable pub release_request : Connection → ℕ → Connection
release_request c request =
    if not (valid_id request)
    then c
    else record c { outstanding_requests = erase_request request c.outstanding_requests }

unfoldable pub request_outstanding : Connection → ℕ → Bool
request_outstanding c request = valid_id request && contains_request request c.outstanding_requests

unfoldable pub notify_transport : Connection → Connection
notify_transport c = if c.has_notify then record c { notified = suc c.notified } else c

-- outbound.close() is a no-op on a channel that is closing already.
unfoldable pub begin_close : Connection → Connection × Bool
begin_close c = (
  notify_transport (record c { close_started = true; outbound = (Outbound.close c.outbound).0 }),
  not c.close_started,
)

-- The end of each enqueue_ method: a message that does not fit closes the connection.
abbrev pub enqueue_message : Connection → OutboundMessage OutboundPayload → Connection × Bool
enqueue_message c m =
    let (channel, done) = Outbound.enqueue c.outbound m in
    let c' : Connection = record c { outbound = channel } in
    if done then (notify_transport c', true) else ((begin_close c').0, false)

unfoldable pub diagnostic_bytes : DiagnosticCollection → ℕ
diagnostic_bytes [] = 0
diagnostic_bytes (r ∷ rs) = length r.detail + length r.message + 64 + diagnostic_bytes rs

unfoldable pub estimate_response_bytes : ServerResponse → ℕ
estimate_response_bytes r = (96 + diagnostic_bytes r.diagnostics) % 2 ^ 64

unfoldable pub enqueue_response : Connection → ℕ → ServerResponse → Bool → Connection × Bool
enqueue_response c request result release_request_id = enqueue_message c (record {
  estimated_bytes = estimate_response_bytes result;
  payload =
      response
        (record { request = request; result = result; release_request_id = release_request_id });
})

unfoldable pub enqueue_server_state : Connection → ProjectState → ProjectState → Connection × Bool
enqueue_server_state c old_state new_state =
    if not c.login_committed
    then (c, false)
    else enqueue_message c
        (record { estimated_bytes = 64; payload = server_state_action old_state new_state })

unfoldable pub enqueue_client_action : Connection → ClientAction → Connection × Bool
enqueue_client_action c a =
    if not c.login_committed
    then (c, false)
    else enqueue_message c (record {
      estimated_bytes = (64 + length a.from + length a.arg + length a.parameters) % 2 ^ 64;
      payload = action a;
    })

unfoldable pub enqueue_subscription_data : Connection → SubscriptionData → Connection × Bool
enqueue_subscription_data c d =
    if not c.login_committed
    then (c, false)
    else enqueue_message c
        (record { estimated_bytes = (64 + length d.payload) % 2 ^ 64; payload = subscription d })

-- A response that became the next outbound frame frees its request id.
abbrev pub release_written : Connection → OutboundPayload → Connection
release_written c (response r) = if r.release_request_id then release_request c r.request else c
release_written c (server_state_action o n) = c
release_written c (action a) = c
release_written c (subscription d) = c

abbrev pub finish_next :
    Connection
    → Option (OutboundWrite OutboundPayload)
    → Connection × Option (OutboundWrite OutboundPayload)
finish_next c none = (c, none)
finish_next c (some w) = (release_written c w.message.payload, some w)

unfoldable pub try_next : Connection → Connection × Option (OutboundWrite OutboundPayload)
try_next c =
    let (channel, w) = Outbound.try_next c.outbound in
    finish_next (record c { outbound = channel }) w

abbrev pub awaited : Connection → OutboundPayload → Bool
awaited c (response r) = c.awaited_written_request == r.request
awaited c (server_state_action o n) = false
awaited c (action a) = false
awaited c (subscription d) = false

unfoldable pub mark_written : Connection → OutboundWrite OutboundPayload → Connection
mark_written c w =
    let c' : Connection = record c {
      outbound = Outbound.mark_written c.outbound w.connection_sequence;
    } in
    if awaited c' w.message.payload then record c' { awaited_written = true } else c'

unfoldable pub arm_response_write_wait : Connection → ℕ → Connection
arm_response_write_wait c request = record c {
  awaited_written_request = request;
  awaited_written = false;
}

-- wait_response_written from the moment at which its wait ends.
unfoldable pub wait_response_written : Connection → ℕ → Connection × Bool
wait_response_written c request =
    let completed = c.awaited_written_request == request && c.awaited_written in
    if c.awaited_written_request == request
    then (record c { awaited_written_request = 0; awaited_written = false }, completed)
    else (c, completed)

unfoldable pub has_subscription : ℕ → List SubscriptionEntry → Bool
has_subscription id [] = false
has_subscription id (e ∷ es) = e.id == id || has_subscription id es

-- The registration's destructor: the publisher's callback runs if there is one.
abbrev pub unregister : Option ℕ → List ℕ
unregister none = []
unregister (some context) = context ∷ []

-- The registration is passed by value: if it is refused, its destructor runs at the end of the call.
abbrev pub refuse_subscription : Connection → Option ℕ → Connection
refuse_subscription c registration = record c {
  unregistered = c.unregistered ++ unregister registration;
}

unfoldable pub add_subscription : Connection → ℕ → Option ℕ → Connection × Bool
add_subscription c id registration =
    if not (valid_id id) || c.close_started
    then (refuse_subscription c registration, false)
    else if has_subscription id c.subscriptions
    then (refuse_subscription c registration, false)
    else (
      record c {
        subscriptions = c.subscriptions ++ record { id = id; registration = registration } ∷ [];
      },
      true,
    )

-- subscriptions.erase(find_if(...)): the first entry of that id, with its registration.
unfoldable pub erase_subscription : ℕ → List SubscriptionEntry → List SubscriptionEntry
erase_subscription id [] = []
erase_subscription id (e ∷ es) = if e.id == id then es else e ∷ erase_subscription id es

unfoldable pub erased_context : ℕ → List SubscriptionEntry → List ℕ
erased_context id [] = []
erased_context id (e ∷ es) = if e.id == id then unregister e.registration else erased_context id es

unfoldable pub remove_subscription : Connection → ℕ → Connection × Bool
remove_subscription c id =
    if has_subscription id c.subscriptions
    then (
      record c {
        subscriptions = erase_subscription id c.subscriptions;
        unregistered = c.unregistered ++ erased_context id c.subscriptions;
      },
      true,
    )
    else (c, false)

unfoldable pub contexts : List SubscriptionEntry → List ℕ
contexts [] = []
contexts (e ∷ es) = unregister e.registration ++ contexts es

unfoldable pub teardown_subscriptions : Connection → Connection
teardown_subscriptions c = record c {
  subscriptions = [];
  unregistered = c.unregistered ++ contexts c.subscriptions;
}

-- retain(), and release() with whether the object deletes itself.
unfoldable pub retain : Connection → Connection
retain c = record c { references = add64 c.references 1 }

-- The new count, and whether this was the last reference, so that the object deletes itself.
unfoldable pub release : Connection → Connection × Bool
release c = (record c { references = sub64 c.references 1 }, c.references == 1)

pub data ConnectionCall : Type 0 where
  commits_login : Text → ConnectionCall
  reserves_request : ℕ → ConnectionCall
  releases_request : ℕ → ConnectionCall
  enqueues_response : ℕ → ServerResponse → Bool → ConnectionCall
  enqueues_server_state : ProjectState → ProjectState → ConnectionCall
  enqueues_client_action : ClientAction → ConnectionCall
  enqueues_subscription_data : SubscriptionData → ConnectionCall
  takes_next : ConnectionCall
  marks_written : OutboundWrite OutboundPayload → ConnectionCall
  arms_response_write_wait : ℕ → ConnectionCall
  ends_response_wait : ℕ → ConnectionCall
  begins_close : ConnectionCall
  adds_subscription : ℕ → Option ℕ → ConnectionCall
  removes_subscription : ℕ → ConnectionCall
  tears_down : ConnectionCall

unfoldable pub step : Connection → ConnectionCall → Connection
step c (commits_login name) = (commit_login c name).0
step c (reserves_request r) = (reserve_request c r).0
step c (releases_request r) = release_request c r
step c (enqueues_response r result release) = (enqueue_response c r result release).0
step c (enqueues_server_state o n) = (enqueue_server_state c o n).0
step c (enqueues_client_action a) = (enqueue_client_action c a).0
step c (enqueues_subscription_data d) = (enqueue_subscription_data c d).0
step c takes_next = (try_next c).0
step c (marks_written w) = mark_written c w
step c (arms_response_write_wait r) = arm_response_write_wait c r
step c (ends_response_wait r) = (wait_response_written c r).0
step c begins_close = (begin_close c).0
step c (adds_subscription i registration) = (add_subscription c i registration).0
step c (removes_subscription i) = (remove_subscription c i).0
step c tears_down = teardown_subscriptions c

-- The calls of all threads on one connection, in the order in which they took effect.
unfoldable pub run : Connection → List ConnectionCall → Connection
run c [] = c
run c (k ∷ ks) = run (step c k) ks
