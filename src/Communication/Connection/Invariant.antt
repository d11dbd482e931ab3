-- ===== src/Communication/Connection/Invariant.antt =====
-- The well-formedness of a connection, and that each call keeps it.
use server_engine_v.Common.{
  ℕ, ◌≤◌, ◌<◌, ◌^◌, ◌≡◌, ◌≢◌, ◌∙◌, sym, refl, not, if◌then◌else◌, Bool, true, false, none, some,
  Option, List, [], ◌∷◌, arith, length,
}
use server_engine_v.Text.{Text, text_empty}
use server_engine_v.Communication.Session.{is_logged_in, login, login_succeeded, new_session}
use server_engine_v.Communication.Outbound.{OutboundChannel, OutboundMessage, OutboundWrite}
use server_engine_v.Communication.Outbound
use server_engine_v.Communication.Outbound.Accounting.{IsAccounted, step-IsAccounted}
use server_engine_v.Communication.Protocol.{
  OutboundPayload, response, server_state_action, action, subscription,
}
use server_engine_v.Communication.Connection.{
  Connection, ConnectionCall, create, commit_login, enqueue_message, begin_close, notify_transport,
  try_next, finish_next, release_written, release_request, mark_written, step, commits_login,
  reserves_request, releases_request, enqueues_response, enqueues_server_state,
  enqueues_client_action, enqueues_subscription_data, takes_next, marks_written,
  arms_response_write_wait, ends_response_wait, begins_close, adds_subscription,
  removes_subscription, tears_down, enqueue_response, enqueue_server_state, enqueue_client_action,
  enqueue_subscription_data, reserve_request, arm_response_write_wait, wait_response_written,
  add_subscription, remove_subscription, teardown_subscriptions, run,
}

-- A committed login has a valid session id and a name of 1 to 128 bytes; the connection and its
-- channel close together; and the channel's byte count is right.
pub record IsWellFormed (c : Connection) : Type 0 where
  pub agreed : c.close_started ≡ c.outbound.is_closing
  pub committed : c.login_committed ≡ is_logged_in c.session.session_state
  pub named :
      c.login_committed ≡ true
      → (c.session.session_id ≢ 0)
        × (0 < length c.session.client_name)
        × (length c.session.client_name ≤ 128)
  pub channel : IsAccounted c.outbound

text_empty-length : (name : Text) → text_empty name ≡ false → 0 < length name
unfolding text_empty
text_empty-length [] h = cc
text_empty-length (c ∷ cs) h = omega arith

commit_login-IsWellFormed :
    (c : Connection) (name : Text) → IsWellFormed c → IsWellFormed (commit_login c name).0
unfolding commit_login login login_succeeded is_logged_in
commit_login-IsWellFormed c name v = ground (arith, text_empty-length name)

-- What the calls on the channel do to `is_closing`.
close_fact : (ch : OutboundChannel OutboundPayload) → (Outbound.close ch).0.is_closing ≡ true
unfolding Outbound.close
close_fact ch = ground arith

enqueue_fact :
    (ch : OutboundChannel OutboundPayload) (m : OutboundMessage OutboundPayload)
    → (Outbound.enqueue ch m).1 ≡ true
    → (Outbound.enqueue ch m).0.is_closing ≡ ch.is_closing
unfolding Outbound.enqueue
enqueue_fact ch m h = ground arith

enqueue_message-IsWellFormed :
    (c : Connection) (m : OutboundMessage OutboundPayload)
    → IsWellFormed c
    → IsWellFormed (enqueue_message c m).0
unfolding begin_close notify_transport Outbound.step
enqueue_message-IsWellFormed c m v =
    let queued = step-IsAccounted c.outbound (Outbound.enqueues m) v.channel in
    let shut = step-IsAccounted (Outbound.enqueue c.outbound m).0 Outbound.closes queued in
    ground
      (arith, enqueue_fact c.outbound m, close_fact (Outbound.enqueue c.outbound m).0, queued, shut)

guarded-IsWellFormed :
    (c : Connection) (m : OutboundMessage OutboundPayload) (skip : Bool)
    → IsWellFormed c
    → IsWellFormed (if skip then (c, false) else enqueue_message c m).0
guarded-IsWellFormed c m true v = v
guarded-IsWellFormed c m false v = enqueue_message-IsWellFormed c m v

take_fact :
    (ch : OutboundChannel OutboundPayload) → (Outbound.try_next ch).0.is_closing ≡ ch.is_closing
unfolding Outbound.try_next
take_fact ch = take_queue ch ch.queue refl
  where
    take_queue :
        (ch : OutboundChannel OutboundPayload) (q : List (OutboundMessage OutboundPayload))
        → ch.queue ≡ q
        → (Outbound.try_next ch).0.is_closing ≡ ch.is_closing
    take_queue ch [] e = ground arith
    take_queue ch (m ∷ rest) e = ground arith

finish_next-IsWellFormed :
    (c : Connection) (w : Option (OutboundWrite OutboundPayload))
    → IsWellFormed c
    → IsWellFormed (finish_next c w).0
unfolding release_request
finish_next-IsWellFormed c none v = v
finish_next-IsWellFormed c (some w) v = released w.message.payload
  where
    released : (p : OutboundPayload) → IsWellFormed (release_written c p)
    released (response r) = ground arith
    released (server_state_action o n) = v
    released (action a) = v
    released (subscription d) = v

try_next-IsWellFormed : (c : Connection) → IsWellFormed c → IsWellFormed (try_next c).0
unfolding try_next Outbound.step
try_next-IsWellFormed c v =
    finish_next-IsWellFormed (record c { outbound = (Outbound.try_next c.outbound).0 })
      (Outbound.try_next c.outbound).1
      (record {
        agreed = v.agreed ∙ sym (take_fact c.outbound);
        committed = v.committed;
        named = v.named;
        channel = step-IsAccounted c.outbound Outbound.takes v.channel;
      })

mark_written-IsWellFormed :
    (c : Connection) (w : OutboundWrite OutboundPayload)
    → IsWellFormed c
    → IsWellFormed (mark_written c w)
unfolding mark_written Outbound.mark_written
mark_written-IsWellFormed c w v = ground arith

begin_close-IsWellFormed : (c : Connection) → IsWellFormed c → IsWellFormed (begin_close c).0
unfolding begin_close notify_transport Outbound.step
begin_close-IsWellFormed c v =
    ground (arith, close_fact c.outbound, step-IsAccounted c.outbound Outbound.closes v.channel)

step-IsWellFormed : (c : Connection) (k : ConnectionCall) → IsWellFormed c → IsWellFormed (step c k)
unfolding step enqueue_response enqueue_server_state enqueue_client_action enqueue_subscription_data
    reserve_request release_request arm_response_write_wait wait_response_written add_subscription
    remove_subscription teardown_subscriptions
step-IsWellFormed c (commits_login name) v = commit_login-IsWellFormed c name v
step-IsWellFormed c (reserves_request r) v = ground arith
step-IsWellFormed c (releases_request r) v = ground arith
step-IsWellFormed c (enqueues_response r result release) v = enqueue_message-IsWellFormed c _ v
step-IsWellFormed c (enqueues_server_state o n) v =
    guarded-IsWellFormed c _ (not c.login_committed) v
step-IsWellFormed c (enqueues_client_action a) v =
    guarded-IsWellFormed c _ (not c.login_committed) v
step-IsWellFormed c (enqueues_subscription_data d) v =
    guarded-IsWellFormed c _ (not c.login_committed) v
step-IsWellFormed c takes_next v = try_next-IsWellFormed c v
step-IsWellFormed c (marks_written w) v = mark_written-IsWellFormed c w v
step-IsWellFormed c (arms_response_write_wait r) v = ground arith
step-IsWellFormed c (ends_response_wait r) v = ground arith
step-IsWellFormed c begins_close v = begin_close-IsWellFormed c v
step-IsWellFormed c (adds_subscription i registration) v = ground arith
step-IsWellFormed c (removes_subscription i) v = ground arith
step-IsWellFormed c tears_down v = ground arith

run-IsWellFormed :
    (c : Connection) (ks : List ConnectionCall) → IsWellFormed c → IsWellFormed (run c ks)
unfolding run
run-IsWellFormed c [] v = v
run-IsWellFormed c (k ∷ ks) v = run-IsWellFormed (step c k) ks (step-IsWellFormed c k v)

create-IsWellFormed :
    (id limit : ℕ) (has_notify : Bool) → limit < 2 ^ 64 → IsWellFormed (create id limit has_notify)
unfolding create Outbound.new_channel new_session is_logged_in
create-IsWellFormed id limit has_notify h = ground arith

-- After any calls on a new connection: the connection and its channel close together; a committed
-- login has a nonzero session id and a name of 1 to 128 bytes; and the channel's byte count is the
-- sum over its queue, within the limit. The limit is a 64-bit number.
pub run-create-IsWellFormed :
    (id limit : ℕ) (has_notify : Bool) (ks : List ConnectionCall)
    → limit < 2 ^ 64
    → IsWellFormed (run (create id limit has_notify) ks)
run-create-IsWellFormed id limit has_notify ks h =
    run-IsWellFormed _ ks (create-IsWellFormed id limit has_notify h)
