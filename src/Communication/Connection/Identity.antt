-- ===== src/Communication/Connection/Identity.antt =====
-- No method of a connection changes its session id.
use server_engine_v.Common.{
  ℕ, ◌≡◌, refl, ◌∙◌, Option, none, some, List, [], ◌∷◌, Bool, true, false, arith, not,
  if◌then◌else◌,
}
use server_engine_v.Text.{Text}
use server_engine_v.Status.{ProjectState}
use server_engine_v.Communication.Session.{login}
use server_engine_v.Communication.Outbound.{OutboundMessage, OutboundWrite}
use server_engine_v.Communication.Outbound
use server_engine_v.Communication.Protocol.{
  ServerResponse, ClientAction, OutboundPayload, response, server_state_action, action,
  subscription,
}
use server_engine_v.Communication.Connection.{
  Connection, id, commit_login, enqueue_message, begin_close, notify_transport,
  teardown_subscriptions, enqueue_response, enqueue_server_state, enqueue_client_action,
  arm_response_write_wait, ConnectionCall, commits_login, reserves_request, releases_request,
  enqueues_response, enqueues_server_state, enqueues_client_action, enqueues_subscription_data,
  takes_next, marks_written, arms_response_write_wait, ends_response_wait, begins_close,
  adds_subscription, removes_subscription, tears_down, reserve_request, release_request, try_next,
  finish_next, release_written, mark_written, wait_response_written, add_subscription,
  remove_subscription, enqueue_subscription_data, step, run,
}

pub id-commit_login : (c : Connection) (name : Text) → id (commit_login c name).0 ≡ id c
unfolding commit_login login
id-commit_login c name = ground arith

pub id-begin_close : (c : Connection) → id (begin_close c).0 ≡ id c
unfolding begin_close notify_transport
id-begin_close c = ground arith

id-enqueue_message :
    (c : Connection) (m : OutboundMessage OutboundPayload) (skip : Bool)
    → id (if skip then (c, false) else enqueue_message c m).0 ≡ id c
unfolding begin_close notify_transport
id-enqueue_message c m true = refl
id-enqueue_message c m false = ground arith

pub id-enqueue_response :
    (c : Connection) (r : ℕ) (result : ServerResponse) (b : Bool)
    → id (enqueue_response c r result b).0 ≡ id c
unfolding enqueue_response
id-enqueue_response c r result b = id-enqueue_message c _ false

pub id-enqueue_server_state :
    (c : Connection) (o n : ProjectState) → id (enqueue_server_state c o n).0 ≡ id c
unfolding enqueue_server_state
id-enqueue_server_state c o n = id-enqueue_message c _ (not c.login_committed)

pub id-enqueue_client_action :
    (c : Connection) (a : ClientAction) → id (enqueue_client_action c a).0 ≡ id c
unfolding enqueue_client_action
id-enqueue_client_action c a = id-enqueue_message c _ (not c.login_committed)

pub id-arm_response_write_wait : (c : Connection) (r : ℕ) → id (arm_response_write_wait c r) ≡ id c
unfolding arm_response_write_wait
id-arm_response_write_wait c r = refl

pub id-wait_response_written : (c : Connection) (r : ℕ) → id (wait_response_written c r).0 ≡ id c
unfolding wait_response_written
id-wait_response_written c r = ground arith

id-finish_next :
    (c : Connection) (w : Option (OutboundWrite OutboundPayload)) → id (finish_next c w).0 ≡ id c
unfolding release_request
id-finish_next c none = refl
id-finish_next c (some w) = released w.message.payload
  where
    released : (p : OutboundPayload) → id (release_written c p) ≡ id c
    released (response r) = ground arith
    released (server_state_action o n) = refl
    released (action a) = refl
    released (subscription d) = refl

id-step : (c : Connection) (k : ConnectionCall) → id (step c k) ≡ id c
unfolding step reserve_request release_request try_next mark_written arm_response_write_wait
    wait_response_written add_subscription remove_subscription teardown_subscriptions
    enqueue_subscription_data
id-step c (commits_login name) = id-commit_login c name
id-step c (reserves_request r) = ground arith
id-step c (releases_request r) = ground arith
id-step c (enqueues_response r result release) = id-enqueue_response c r result release
id-step c (enqueues_server_state o n) = id-enqueue_server_state c o n
id-step c (enqueues_client_action a) = id-enqueue_client_action c a
id-step c (enqueues_subscription_data d) = id-enqueue_message c _ (not c.login_committed)
id-step c takes_next =
    id-finish_next (record c { outbound = (Outbound.try_next c.outbound).0 })
      (Outbound.try_next c.outbound).1
id-step c (marks_written w) = ground arith
id-step c (arms_response_write_wait r) = refl
id-step c (ends_response_wait r) = ground arith
id-step c begins_close = id-begin_close c
id-step c (adds_subscription i registration) = ground arith
id-step c (removes_subscription i) = ground arith
id-step c tears_down = refl

-- Whatever is called on a connection, its session id stays.
pub id-run : (c : Connection) (ks : List ConnectionCall) → id (run c ks) ≡ id c
unfolding run
id-run c [] = refl
id-run c (k ∷ ks) = id-run (step c k) ks ∙ id-step c k
