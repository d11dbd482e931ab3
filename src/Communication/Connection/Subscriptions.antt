-- ===== src/Communication/Connection/Subscriptions.antt =====
-- Publisher registrations of communication_connection.cpp, live and deregistered.
use server_engine_v.Common.{
  ℕ, ◌+◌, ◌≡◌, refl, Bool, true, false, not, List, [], ◌∷◌, ◌++◌, arith, if◌then◌else◌, Option,
  none, some, occurrences, occurrences-append,
}
use server_engine_v.Communication.Outbound.{OutboundMessage, OutboundWrite}
use server_engine_v.Communication.Outbound
use server_engine_v.Communication.Protocol.{
  OutboundPayload, response, server_state_action, action, subscription,
}
use server_engine_v.Communication.Connection.{
  Connection, ConnectionCall, SubscriptionEntry, adds_subscription, removes_subscription,
  tears_down, commits_login, reserves_request, releases_request, enqueues_response,
  enqueues_server_state, enqueues_client_action, enqueues_subscription_data, takes_next,
  marks_written, arms_response_write_wait, ends_response_wait, begins_close, contexts, unregister,
  erase_subscription, erased_context, add_subscription, remove_subscription, teardown_subscriptions,
  commit_login, reserve_request, release_request, enqueue_response, enqueue_server_state,
  enqueue_client_action, enqueue_subscription_data, try_next, finish_next, release_written,
  mark_written, arm_response_write_wait, wait_response_written, begin_close, notify_transport,
  enqueue_message, step, run,
}

-- How often a publisher's context is registered on the connection, or was deregistered.
abbrev pub held : ℕ → Connection → ℕ
held x c = occurrences x (contexts c.subscriptions) + occurrences x c.unregistered

occurrences-contexts-append :
    (x : ℕ) (es ds : List SubscriptionEntry)
    → occurrences x (contexts (es ++ ds))
      ≡ occurrences x (contexts es) + occurrences x (contexts ds)
unfolding contexts
occurrences-contexts-append x [] ds = omega arith
occurrences-contexts-append x (e ∷ es) ds = omega (
  arith,
  occurrences-contexts-append x es ds,
  occurrences-append x (unregister e.registration) (contexts (es ++ ds)),
  occurrences-append x (unregister e.registration) (contexts es),
)

occurrences-contexts-erase_subscription :
    (x i : ℕ) (es : List SubscriptionEntry)
    → occurrences x (erased_context i es) + occurrences x (contexts (erase_subscription i es))
      ≡ occurrences x (contexts es)
unfolding contexts erased_context erase_subscription
occurrences-contexts-erase_subscription x i [] = omega arith
occurrences-contexts-erase_subscription x i (e ∷ es) = ground (
  arith,
  occurrences-contexts-erase_subscription x i es,
  occurrences-append x (unregister e.registration) (contexts es),
  occurrences-append x (unregister e.registration) (contexts (erase_subscription i es)),
)

-- The publishers' contexts that callers pass to add_subscription.
abbrev pub offered_by : ConnectionCall → List ℕ
offered_by (adds_subscription i registration) = unregister registration
offered_by _ = []

unfoldable pub offered : List ConnectionCall → List ℕ
offered [] = []
offered (k ∷ ks) = offered_by k ++ offered ks

enqueue_message-held :
    (x : ℕ) (c : Connection) (m : OutboundMessage OutboundPayload) (skip : Bool)
    → held x (if skip then (c, false) else enqueue_message c m).0 ≡ held x c
unfolding begin_close notify_transport
enqueue_message-held x c m true = refl
enqueue_message-held x c m false = ground arith

finish_next-held :
    (x : ℕ) (c : Connection) (w : Option (OutboundWrite OutboundPayload))
    → held x (finish_next c w).0 ≡ held x c
unfolding release_request
finish_next-held x c none = refl
finish_next-held x c (some w) = released w.message.payload
  where
    released : (p : OutboundPayload) → held x (release_written c p) ≡ held x c
    released (response r) = ground arith
    released (server_state_action o n) = refl
    released (action a) = refl
    released (subscription d) = refl

add_subscription-held :
    (x : ℕ) (c : Connection) (i : ℕ) (registration : Option ℕ)
    → held x (add_subscription c i registration).0
      ≡ occurrences x (offered_by (adds_subscription i registration)) + held x c
unfolding add_subscription contexts
add_subscription-held x c i registration =
    let entry : SubscriptionEntry = record { id = i; registration = registration } in
    ground (
      arith,
      occurrences-contexts-append x c.subscriptions (entry ∷ []),
      occurrences-append x (unregister registration) [],
      occurrences-append x c.unregistered (unregister registration),
    )

step-held :
    (x : ℕ) (c : Connection) (k : ConnectionCall)
    → held x (step c k) ≡ occurrences x (offered_by k) + held x c
unfolding step commit_login reserve_request release_request try_next mark_written begin_close
    notify_transport arm_response_write_wait wait_response_written remove_subscription
    teardown_subscriptions enqueue_response enqueue_server_state enqueue_client_action
    enqueue_subscription_data
step-held x c (adds_subscription i registration) = add_subscription-held x c i registration
step-held x c (removes_subscription i) = ground (
  arith,
  occurrences-contexts-erase_subscription x i c.subscriptions,
  occurrences-append x c.unregistered (erased_context i c.subscriptions),
)
step-held x c tears_down =
    unfold contexts in
    ground (arith, occurrences-append x c.unregistered (contexts c.subscriptions))
step-held x c (commits_login name) = ground arith
step-held x c (reserves_request r) = ground arith
step-held x c (releases_request r) = ground arith
step-held x c (enqueues_response r result release) = omega (arith, enqueue_message-held x c _ false)
step-held x c (enqueues_server_state o n) =
    omega (arith, enqueue_message-held x c _ (not c.login_committed))
step-held x c (enqueues_client_action a) =
    omega (arith, enqueue_message-held x c _ (not c.login_committed))
step-held x c (enqueues_subscription_data d) =
    omega (arith, enqueue_message-held x c _ (not c.login_committed))
step-held x c takes_next = omega (
  arith,
  finish_next-held x (record c { outbound = (Outbound.try_next c.outbound).0 })
      (Outbound.try_next c.outbound).1,
)
step-held x c (marks_written w) = ground arith
step-held x c (arms_response_write_wait r) = ground arith
step-held x c (ends_response_wait r) = ground arith
step-held x c begins_close = ground arith

-- Each registration that was passed is held by the connection or was deregistered.
pub run-held :
    (x : ℕ) (c : Connection) (ks : List ConnectionCall)
    → held x (run c ks) ≡ occurrences x (offered ks) + held x c
unfolding run offered
run-held x c [] = omega arith
run-held x c (k ∷ ks) = omega (
  arith,
  run-held x (step c k) ks,
  step-held x c k,
  occurrences-append x (offered_by k) (offered ks),
)
