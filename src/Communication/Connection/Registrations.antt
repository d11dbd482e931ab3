-- ===== src/Communication/Connection/Registrations.antt =====
-- The subscriptions of communication_connection.cpp from its creation: their ids and their publishers.
use server_engine_v.Common.{
  ℕ, ◌+◌, ◌-◌, ◌≤◌, ◌==◌, ltb, ◌≡◌, refl, Bool, true, false, not, List, [], ◌∷◌, ◌++◌, arith,
  if◌then◌else◌, Option, none, some, occurrences, occurrences-append,
}
use server_engine_v.Communication.Outbound.{OutboundMessage, OutboundWrite}
use server_engine_v.Communication.Outbound
use server_engine_v.Communication.Protocol.{
  OutboundPayload, response, server_state_action, action, subscription,
}
use server_engine_v.Communication.Connection.{
  Connection, ConnectionCall, SubscriptionEntry, adds_subscription, removes_subscription,
  tears_down, commits_login, reserves_request, releases_request, enqueues_response,
  enqueues_server_state, enqueues_client_action, enqueues_subscription_data, takes_next,
  marks_written, arms_response_write_wait, ends_response_wait, begins_close, contexts,
  erase_subscription, has_subscription, create, add_subscription, remove_subscription,
  teardown_subscriptions, commit_login, reserve_request, release_request, enqueue_response,
  enqueue_server_state, enqueue_client_action, enqueue_subscription_data, try_next, finish_next,
  release_written, mark_written, arm_response_write_wait, wait_response_written, begin_close,
  notify_transport, enqueue_message, step, run,
}
use server_engine_v.Communication.Connection.Subscriptions.{offered, held, run-held}

-- How many entries stand under an id.
unfoldable pub entries : ℕ → List SubscriptionEntry → ℕ
entries i [] = 0
entries i (e ∷ es) = (if e.id == i then 1 else 0) + entries i es

entries-append :
    (i : ℕ) (es ds : List SubscriptionEntry) → entries i (es ++ ds) ≡ entries i es + entries i ds
unfolding entries
entries-append i [] ds = omega arith
entries-append i (e ∷ es) ds = ground (arith, entries-append i es ds)

entries-erase_subscription :
    (i j : ℕ) (es : List SubscriptionEntry)
    → entries j (erase_subscription i es) ≡ entries j es - (if i == j then 1 else 0)
unfolding entries erase_subscription
entries-erase_subscription i j [] = ground arith
entries-erase_subscription i j (e ∷ es) = ground (arith, entries-erase_subscription i j es)

has_subscription-entries :
    (i : ℕ) (es : List SubscriptionEntry) → has_subscription i es ≡ ltb 0 (entries i es)
unfolding has_subscription entries
has_subscription-entries i [] = ground arith
has_subscription-entries i (e ∷ es) = ground (arith, has_subscription-entries i es)

abbrev IsDistinct : Connection → Type 0
IsDistinct c = (i : ℕ) → entries i c.subscriptions ≤ 1

enqueue_message-subscriptions :
    (c : Connection) (m : OutboundMessage OutboundPayload) (skip : Bool)
    → (if skip then (c, false) else enqueue_message c m).0.subscriptions ≡ c.subscriptions
unfolding begin_close notify_transport
enqueue_message-subscriptions c m true = refl
enqueue_message-subscriptions c m false = ground arith

finish_next-subscriptions :
    (c : Connection) (w : Option (OutboundWrite OutboundPayload))
    → (finish_next c w).0.subscriptions ≡ c.subscriptions
unfolding release_request
finish_next-subscriptions c none = refl
finish_next-subscriptions c (some w) = released w.message.payload
  where
    released : (p : OutboundPayload) → (release_written c p).subscriptions ≡ c.subscriptions
    released (response r) = ground arith
    released (server_state_action o n) = refl
    released (action a) = refl
    released (subscription d) = refl

-- Under no id do two entries stand, whatever is called.
step-IsDistinct : (c : Connection) (k : ConnectionCall) → IsDistinct c → IsDistinct (step c k)
unfolding step commit_login reserve_request release_request try_next mark_written begin_close
    notify_transport arm_response_write_wait wait_response_written remove_subscription
    teardown_subscriptions enqueue_response enqueue_server_state enqueue_client_action
    enqueue_subscription_data
step-IsDistinct c (adds_subscription i registration) d j =
    unfold add_subscription entries in
    let entry : SubscriptionEntry = record { id = i; registration = registration } in
    ground (
      arith,
      d j,
      entries-append j c.subscriptions (entry ∷ []),
      has_subscription-entries i c.subscriptions,
    )
step-IsDistinct c (removes_subscription i) d j =
    ground (arith, d j, entries-erase_subscription i j c.subscriptions)
step-IsDistinct c tears_down d j = unfold entries in omega arith
step-IsDistinct c (commits_login name) d j = ground (arith, d j)
step-IsDistinct c (reserves_request r) d j = ground (arith, d j)
step-IsDistinct c (releases_request r) d j = ground (arith, d j)
step-IsDistinct c (enqueues_response r result release) d j =
    rw (enqueue_message-subscriptions c _ false) (d j)
step-IsDistinct c (enqueues_server_state o n) d j =
    rw (enqueue_message-subscriptions c _ (not c.login_committed)) (d j)
step-IsDistinct c (enqueues_client_action a) d j =
    rw (enqueue_message-subscriptions c _ (not c.login_committed)) (d j)
step-IsDistinct c (enqueues_subscription_data m) d j =
    rw (enqueue_message-subscriptions c _ (not c.login_committed)) (d j)
step-IsDistinct c takes_next d j =
    rw
      (finish_next-subscriptions (record c { outbound = (Outbound.try_next c.outbound).0 })
        (Outbound.try_next c.outbound).1)
      (d j)
step-IsDistinct c (marks_written w) d j = ground (arith, d j)
step-IsDistinct c (arms_response_write_wait r) d j = d j
step-IsDistinct c (ends_response_wait r) d j = ground (arith, d j)
step-IsDistinct c begins_close d j = ground (arith, d j)

run-IsDistinct : (c : Connection) (ks : List ConnectionCall) → IsDistinct c → IsDistinct (run c ks)
unfolding run
run-IsDistinct c [] d = d
run-IsDistinct c (k ∷ ks) d = run-IsDistinct (step c k) ks (step-IsDistinct c k d)

-- Over any calls on a new connection, each publisher's registration that a caller passed, accepted or refused, is
-- either live or was deregistered, and exactly once for each time it was passed. After a further teardown all of
-- them are deregistered, and after the removal of an id no subscription stands under it, while those under the
-- other ids stay.
pub held-run :
    (id limit : ℕ) (notify : Bool) (ks : List ConnectionCall)
    → let c = run (create id limit notify) ks in
      ((x : ℕ) → held x c ≡ occurrences x (offered ks))
      × ((x : ℕ) → occurrences x (step c tears_down).unregistered ≡ occurrences x (offered ks))
      × ((i j : ℕ)
          → entries j (step c (removes_subscription i)).subscriptions
            ≡ (if i == j then 0 else entries j c.subscriptions))
unfolding create step teardown_subscriptions remove_subscription contexts entries
held-run id limit notify ks =
    let c = run (create id limit notify) ks in
    let d = run-IsDistinct (create id limit notify) ks (λ i. omega arith) in
    (
      λ x. omega (arith, run-held x (create id limit notify) ks),
      λ x. omega (
        arith,
        run-held x (create id limit notify) ks,
        occurrences-append x c.unregistered (contexts c.subscriptions),
      ),
      λ i j. ground (
        arith,
        d j,
        entries-erase_subscription i j c.subscriptions,
        has_subscription-entries i c.subscriptions,
      ),
    )
