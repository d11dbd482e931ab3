-- ===== src/Communication/Connection/WriteWait.antt =====
-- The wait for a response to be written, which the Server uses to let a SHUTDOWN answer leave.
use server_engine_v.Common.{
  ℕ, ◌≡◌, refl, ◌∙◌, Bool, true, false, not, ◌||◌, List, [], ◌∷◌, arith, ◌==◌, if◌then◌else◌,
  Option, none, some,
}
use server_engine_v.Communication.Outbound
use server_engine_v.Communication.Outbound.{OutboundWrite, OutboundMessage}
use server_engine_v.Communication.Protocol.{
  OutboundPayload, response, server_state_action, action, subscription,
}
use server_engine_v.Communication.Connection.{
  Connection, ConnectionCall, commits_login, reserves_request, releases_request, enqueues_response,
  enqueues_server_state, enqueues_client_action, enqueues_subscription_data, takes_next,
  marks_written, arms_response_write_wait, ends_response_wait, begins_close, adds_subscription,
  removes_subscription, tears_down, commit_login, reserve_request, release_request,
  enqueue_response, enqueue_server_state, enqueue_client_action, enqueue_subscription_data,
  try_next, finish_next, release_written, mark_written, arm_response_write_wait,
  wait_response_written, begin_close, notify_transport, enqueue_message, add_subscription,
  remove_subscription, teardown_subscriptions, step, run,
}

-- Whether a payload is a response to request `r`.
abbrev answers : ℕ → OutboundPayload → Bool
answers r (response p) = r == p.request
answers r (server_state_action o n) = false
answers r (action a) = false
answers r (subscription d) = false

-- Whether the writer reports the write of a response to `r` among these calls.
abbrev pub reports : ℕ → ConnectionCall → Bool
reports r (marks_written w) = answers r w.message.payload
reports r _ = false

unfoldable pub reported : ℕ → List ConnectionCall → Bool
reported r [] = false
reported r (k ∷ ks) = reports r k || reported r ks

-- No other wait is armed or ended among these calls.
abbrev touches_wait : ConnectionCall → Bool
touches_wait (arms_response_write_wait r) = true
touches_wait (ends_response_wait r) = true
touches_wait _ = false

abbrev pub IsQuiet : List ConnectionCall → Type 0
IsQuiet [] = Unit {0}
IsQuiet (k ∷ ks) = (touches_wait k ≡ false) × IsQuiet ks

-- A call that keeps the request waited for, and reports its write or not.
abbrev Waits : Connection → Connection → Bool → Type 0
Waits c c' b =
    (c'.awaited_written_request ≡ c.awaited_written_request)
    × (c'.awaited_written ≡ (c.awaited_written || b))

enqueue_message-Waits :
    (c : Connection) (m : OutboundMessage OutboundPayload) (skip : Bool)
    → Waits c (if skip then (c, false) else enqueue_message c m).0 false
unfolding begin_close notify_transport
enqueue_message-Waits c m true = ground arith
enqueue_message-Waits c m false = ground arith

finish_next-Waits :
    (c : Connection) (w : Option (OutboundWrite OutboundPayload))
    → Waits c (finish_next c w).0 false
unfolding release_request
finish_next-Waits c none = ground arith
finish_next-Waits c (some w) = released w.message.payload
  where
    released : (p : OutboundPayload) → Waits c (release_written c p) false
    released (response r) = ground arith
    released (server_state_action o n) = ground arith
    released (action a) = ground arith
    released (subscription d) = ground arith

mark_written-Waits :
    (c : Connection) (w : OutboundWrite OutboundPayload)
    → Waits c (mark_written c w) (answers c.awaited_written_request w.message.payload)
unfolding mark_written
mark_written-Waits c w = split w.message.payload refl
  where
    split :
        (p : OutboundPayload)
        → w.message.payload ≡ p
        → Waits c (mark_written c w) (answers c.awaited_written_request w.message.payload)
    split (response r) e = ground arith
    split (server_state_action o n) e = ground arith
    split (action a) e = ground arith
    split (subscription d) e = ground arith

step-Waits :
    (c : Connection) (k : ConnectionCall)
    → touches_wait k ≡ false
    → Waits c (step c k) (reports c.awaited_written_request k)
unfolding step commit_login reserve_request release_request try_next begin_close notify_transport
    add_subscription remove_subscription teardown_subscriptions enqueue_response
    enqueue_server_state enqueue_client_action enqueue_subscription_data
step-Waits c (commits_login name) h = ground arith
step-Waits c (reserves_request r) h = ground arith
step-Waits c (releases_request r) h = ground arith
step-Waits c (enqueues_response r result release) h = enqueue_message-Waits c _ false
step-Waits c (enqueues_server_state o n) h = enqueue_message-Waits c _ (not c.login_committed)
step-Waits c (enqueues_client_action a) h = enqueue_message-Waits c _ (not c.login_committed)
step-Waits c (enqueues_subscription_data d) h = enqueue_message-Waits c _ (not c.login_committed)
step-Waits c takes_next h =
    finish_next-Waits (record c { outbound = (Outbound.try_next c.outbound).0 })
      (Outbound.try_next c.outbound).1
step-Waits c (marks_written w) h = mark_written-Waits c w
step-Waits c (arms_response_write_wait r) h = cc
step-Waits c (ends_response_wait r) h = cc
step-Waits c begins_close h = ground arith
step-Waits c (adds_subscription i registration) h = ground arith
step-Waits c (removes_subscription i) h = ground arith
step-Waits c tears_down h = ground arith

run-Waits :
    (r : ℕ) (c : Connection) (ks : List ConnectionCall)
    → c.awaited_written_request ≡ r
    → IsQuiet ks
    → ((run c ks).awaited_written_request ≡ r)
      × ((run c ks).awaited_written ≡ (c.awaited_written || reported r ks))
unfolding run reported
run-Waits r c [] e q = ground arith
run-Waits r c (k ∷ ks) e q =
    let here = step-Waits c k q.0 in
    let rest = run-Waits r (step c k) ks (here.0 ∙ e) q.1 in ground (arith, here, rest)

-- After the wait for request `r` is armed, and as long as no other wait is armed or ended, the
-- wait reports completion exactly if the writer has marked a response to `r` as written.
pub wait_response_written_lem :
    (r : ℕ) (c : Connection) (ks : List ConnectionCall)
    → IsQuiet ks
    → (wait_response_written (run (arm_response_write_wait c r) ks) r).1 ≡ reported r ks
unfolding wait_response_written arm_response_write_wait
wait_response_written_lem r c ks q =
    ground (arith, run-Waits r (arm_response_write_wait c r) ks refl q)
