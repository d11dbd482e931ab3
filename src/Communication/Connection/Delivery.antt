-- ===== src/Communication/Connection/Delivery.antt =====
-- What a connection of communication_connection.cpp has of a message that is sent to it.
use server_engine_v.Common.{
  ℕ, ◌+◌, ◌%◌, ◌^◌, ◌≡◌, ◌⊎◌, sym, ap, subst, Bool, true, false, not, ◌&&◌, [], ◌∷◌, ◌++◌, arith,
  leb, if◌then◌else◌, length, Bool-cases, inl, inr,
}
use server_engine_v.Status.{ProjectState}
use server_engine_v.Communication.Outbound.{OutboundMessage, OutboundChannel}
use server_engine_v.Communication.Outbound
use server_engine_v.Communication.Protocol.{
  ServerResponse, ClientAction, OutboundPayload, response, server_state_action, action,
}
use server_engine_v.Communication.Connection.{
  Connection, enqueue_message, enqueue_server_state, enqueue_client_action, enqueue_response,
  begin_close, notify_transport, estimate_response_bytes,
}

-- The channel is open and the message fits in what its limit leaves.
abbrev pub has_room : Connection → OutboundMessage OutboundPayload → Bool
has_room c m =
    not c.outbound.is_closing && leb (m.estimated_bytes + c.outbound.bytes) c.outbound.limit

-- The message stands once more, at the end of the queue, or the connection is closed because it found no room. The
-- login stays.
pub record Receives (m : OutboundMessage OutboundPayload) (c c' : Connection) : Type 0 where
  pub session : c'.session ≡ c.session
  pub login : c'.login_committed ≡ c.login_committed
  pub outcome :
      ((has_room c m ≡ true)
        × (c'.outbound.queue ≡ c.outbound.queue ++ m ∷ [])
        × (c'.outbound.is_closing ≡ false)
        × (c'.close_started ≡ c.close_started))
      ⊎ ((has_room c m ≡ false)
          × (c'.outbound.queue ≡ (if c.outbound.is_closing then c.outbound.queue else []))
          × (c'.outbound.is_closing ≡ true)
          × (c'.close_started ≡ true))

module _ (m : OutboundMessage OutboundPayload) (c : Connection) where
  enqueue_message-outcome :
      (has_room c m ≡ (enqueue_message c m).1)
      × ((enqueue_message c m).0.session ≡ c.session)
      × ((enqueue_message c m).0.login_committed ≡ c.login_committed)
  unfolding Outbound.enqueue begin_close notify_transport Outbound.close
  enqueue_message-outcome = (ground arith, ground arith, ground arith)

  enqueue_message-room :
      has_room c m ≡ true
      → ((enqueue_message c m).0.outbound.queue ≡ c.outbound.queue ++ m ∷ [])
        × ((enqueue_message c m).0.outbound.is_closing ≡ false)
        × ((enqueue_message c m).0.close_started ≡ c.close_started)
  unfolding Outbound.enqueue begin_close notify_transport Outbound.close
  enqueue_message-room room = (ground arith, ground arith, ground arith)

  enqueue_message-full :
      has_room c m ≡ false
      → ((enqueue_message c m).0.outbound.queue
          ≡ (if c.outbound.is_closing then c.outbound.queue else []))
        × ((enqueue_message c m).0.outbound.is_closing ≡ true)
        × ((enqueue_message c m).0.close_started ≡ true)
  unfolding Outbound.enqueue begin_close notify_transport Outbound.close
  enqueue_message-full full = (ground arith, ground arith, ground arith)

  pub enqueue_message-Receives : Receives m c (enqueue_message c m).0
  enqueue_message-Receives = record {
    session = enqueue_message-outcome.1;
    login = enqueue_message-outcome.2;
    outcome = elim (Bool-cases (has_room c m)) [
      | inl room ↦ let r = enqueue_message-room room in inl (room, r.0, r.1, r.2)
      | inr none_left ↦ let r = enqueue_message-full none_left in inr (none_left, r.0, r.1, r.2)
    ];
  }

  pub enqueue_message-has_room : (enqueue_message c m).1 ≡ has_room c m
  enqueue_message-has_room = sym enqueue_message-outcome.0

-- The frames of a change of state, of a client's message and of a response.
abbrev pub state_message : ProjectState → ProjectState → OutboundMessage OutboundPayload
state_message o n = record { estimated_bytes = 64; payload = server_state_action o n }

abbrev pub action_message : ClientAction → OutboundMessage OutboundPayload
action_message a = record {
  estimated_bytes = (64 + length a.from + length a.arg + length a.parameters) % 2 ^ 64;
  payload = action a;
}

abbrev pub response_message : ℕ → ServerResponse → OutboundMessage OutboundPayload
response_message request r = record {
  estimated_bytes = estimate_response_bytes r;
  payload = response (record { request = request; result = r; release_request_id = true });
}

pub enqueue_server_state-Receives :
    (c : Connection) (o n : ProjectState)
    → c.login_committed ≡ true
    → Receives (state_message o n) c (enqueue_server_state c o n).0
unfolding enqueue_server_state
enqueue_server_state-Receives c o n login =
    let m = state_message o n in
    let sent = ap (λ b. if not b then (c, false) else enqueue_message c m) login in
    subst (λ r. Receives m c r.0) (sym sent) (enqueue_message-Receives m c)

pub enqueue_client_action-Receives :
    (c : Connection) (a : ClientAction)
    → c.login_committed ≡ true
    → Receives (action_message a) c (enqueue_client_action c a).0
      × ((enqueue_client_action c a).1 ≡ has_room c (action_message a))
unfolding enqueue_client_action
enqueue_client_action-Receives c a login =
    let m = action_message a in
    let sent = ap (λ b. if not b then (c, false) else enqueue_message c m) login in
    subst (λ r. Receives m c r.0 × (r.1 ≡ has_room c m)) (sym sent)
      (enqueue_message-Receives m c, enqueue_message-has_room m c)

pub enqueue_response-Receives :
    (c : Connection) (request : ℕ) (r : ServerResponse)
    → Receives (response_message request r) c (enqueue_response c request r true).0
unfolding enqueue_response
enqueue_response-Receives c request r = enqueue_message-Receives (response_message request r) c
