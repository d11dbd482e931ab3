-- ===== src/Communication/Registry/Routing.antt =====
-- What route_client does to each connection of the store.
use server_engine_v.Common.{
  ℕ, suc, ◌+◌, ◌≡◌, ◌⊎◌, refl, sym, ap, ◌∙◌, subst, Bool, true, false, not, ◌&&◌, ◌||◌, List, [],
  ◌∷◌, arith, if◌then◌else◌, contains, AllDistinct, Bool-cases, inl, inr,
}
use server_engine_v.Text.{Text, text_eq, text_empty}
use server_engine_v.Communication.Outbound.{OutboundMessage}
use server_engine_v.Communication.Protocol.{ClientMessage, OutboundPayload}
use server_engine_v.Communication.Connection.{Connection, enqueue_client_action}
use server_engine_v.Communication.Connection.Delivery.{
  Receives, has_room, action_message, enqueue_client_action-Receives,
}
use server_engine_v.Communication.Registry.{
  Store, Communication, update, deliver, route_loop, route_client,
}
use server_engine_v.Communication.Registry.Broadcast.{for_each, for_each_lem}

-- A logged-in connection that is not closing, of the login that the message names, if it names one.
unfoldable pub is_target : ClientMessage → Connection → Bool
is_target m c =
    c.login_committed
    && (not c.close_started && (text_empty m.login || text_eq c.session.client_name m.login))

-- The message as its receivers get it, under the sender's name.
abbrev pub routed_message : Text → ClientMessage → OutboundMessage OutboundPayload
routed_message from m =
    action_message (record { from = from; arg = m.arg; parameters = m.parameters })

-- The message is sent once to a target that it is offered to, and nothing happens to any other connection.
abbrev pub Routes : Text → ClientMessage → Bool → Connection → Connection → Type 0
Routes from m offered c c' =
    ((offered ≡ true) × (is_target m c ≡ true) × Receives (routed_message from m) c c')
    ⊎ (((offered ≡ false) ⊎ (is_target m c ≡ false)) × (c' ≡ c))

-- How many of the registered connections are targets with room for the message.
unfoldable pub recipients : Text → ClientMessage → List ℕ → Store → ℕ
recipients from m [] s = 0
recipients from m (b ∷ bs) s =
    (if is_target m (s b) && has_room (s b) (routed_message from m) then 1 else 0)
    + recipients from m bs s

deliver-other :
    (from : Text) (m : ClientMessage) (c : Connection)
    → is_target m c ≡ false
    → deliver from m c ≡ (c, false)
unfolding deliver is_target
deliver-other from m c other = ground arith

deliver-target :
    (from : Text) (m : ClientMessage) (c : Connection)
    → is_target m c ≡ true
    → deliver from m c
      ≡ enqueue_client_action c (record { from = from; arg = m.arg; parameters = m.parameters })
unfolding deliver is_target
deliver-target from m c target = ground arith

login-target :
    (m : ClientMessage) (c : Connection) → is_target m c ≡ true → c.login_committed ≡ true
unfolding is_target
login-target m c target = ground arith

deliver-taken :
    (from : Text) (m : ClientMessage) (c : Connection)
    → (deliver from m c).1 ≡ (is_target m c && has_room c (routed_message from m))
deliver-taken from m c = elim (Bool-cases (is_target m c)) [
  | inl target ↦
      ap (λ r. r.1) (deliver-target from m c target)
      ∙ (enqueue_client_action-Receives c _ (login-target m c target)).1
      ∙ rw target refl
  | inr other ↦ ap (λ r. r.1) (deliver-other from m c other) ∙ rw other refl
]

deliver-Routes :
    (from : Text) (m : ClientMessage) (offered : Bool) (c : Connection)
    → Routes from m offered c (if offered then (deliver from m c).0 else c)
deliver-Routes from m false c = inr (inl refl, refl)
deliver-Routes from m true c = elim (Bool-cases (is_target m c)) [
  | inl target ↦ inl (
    refl,
    target,
    subst (λ r. Receives (routed_message from m) c r.0) (sym (deliver-target from m c target))
        (enqueue_client_action-Receives c _ (login-target m c target)).0,
  )
  | inr other ↦ inr (inr other, ap (λ r. r.0) (deliver-other from m c other))
]

recipients-update :
    (from : Text) (m : ClientMessage) (bs : List ℕ) (s : Store) (a : ℕ) (c : Connection)
    → contains a bs ≡ false
    → recipients from m bs (update s a c) ≡ recipients from m bs s
unfolding recipients contains
recipients-update from m [] s a c h = refl
recipients-update from m (b ∷ bs) s a c h = ground (arith, recipients-update from m bs s a c)

route_loop_lem :
    (from : Text) (m : ClientMessage) (bs : List ℕ) (s : Store) (n : ℕ)
    → AllDistinct bs
    → ((route_loop from m bs s n).0 ≡ for_each (λ c. (deliver from m c).0) bs s)
      × ((route_loop from m bs s n).1 ≡ n + recipients from m bs s)
unfolding route_loop for_each recipients
route_loop_lem from m [] s n d = (refl, omega arith)
route_loop_lem from m (b ∷ bs) s n d =
    let rest =
      route_loop_lem from m bs (update s b (deliver from m (s b)).0)
        (if (deliver from m (s b)).1 then suc n else n) d.1 in
    (
      rest.0,
      ground (
        arith,
        rest.1,
        recipients-update from m bs s b (deliver from m (s b)).0 d.0,
        deliver-taken from m (s b),
      ),
    )

route_client_each :
    (s : Store) (c : Communication) (sender : ℕ) (m : ClientMessage) (a : ℕ)
    → AllDistinct c.connections
    → let r = route_client s c sender m in
      let speaks = (s sender).login_committed && not (s sender).close_started in
      let from = (s sender).session.client_name in
      (r.0 a ≡ (if speaks && contains a c.connections then (deliver from m (s a)).0 else s a))
      × (r.1 ≡ (if speaks then recipients from m c.connections s else 0))
unfolding route_client
route_client_each s c sender m a d =
    let from = (s sender).session.client_name in
    let loop = route_loop_lem from m c.connections s 0 d in
    let each = for_each_lem (λ k. (deliver from m k).0) c.connections s a d in
    (ground (arith, ap (λ t. t a) loop.0, each), ground (arith, loop.1))

-- A message of an open, logged-in sender is sent once, under the sender's login name, to each registered connection
-- that is logged in, not closing, and of the login that the message names, if it names one; nothing happens to any
-- other connection, and the result counts the receivers that had room for it. From any other sender nothing is
-- routed. The registered addresses are distinct.
pub route_client_lem :
    (s : Store) (c : Communication) (sender : ℕ) (m : ClientMessage) (a : ℕ)
    → AllDistinct c.connections
    → let r = route_client s c sender m in
      let speaks = (s sender).login_committed && not (s sender).close_started in
      let from = (s sender).session.client_name in
      Routes from m (speaks && contains a c.connections) (s a) (r.0 a)
      × (r.1 ≡ (if speaks then recipients from m c.connections s else 0))
route_client_lem s c sender m a d =
    let speaks = (s sender).login_committed && not (s sender).close_started in
    let from = (s sender).session.client_name in
    let each = route_client_each s c sender m a d in
    (
      subst (Routes from m (speaks && contains a c.connections) (s a)) (sym each.0)
          (deliver-Routes from m (speaks && contains a c.connections) (s a)),
      each.1,
    )
