-- ===== src/Communication/Registry/Identity.antt =====
-- No operation of the registry changes the session id at any address.
use mathlib.Core.Path.{fun_ext}
use server_engine_v.Common.{ℕ, ◌≡◌, refl, ◌∙◌, List, [], ◌∷◌, arith}
use server_engine_v.Text.{Text}
use server_engine_v.Status.{ProjectState}
use server_engine_v.Communication.Protocol.{ClientMessage}
use server_engine_v.Communication.Connection.{Connection, id}
use server_engine_v.Communication.Connection.Identity.{
  id-enqueue_server_state, id-enqueue_client_action,
}
use server_engine_v.Communication.Registry.{
  Store, Communication, update, notify_state, publish_loop, publish_server_state, deliver,
  route_loop, route_client,
}
use server_engine_v.Communication.Registry.Membership.{IsUnique, session_of}

-- The two stores hold connections of the same sessions.
abbrev pub SameIds : Store → Store → Type 0
SameIds s t = (a : ℕ) → session_of t a ≡ session_of s a

pub SameIds-IsUnique : (s t : Store) (bs : List ℕ) → SameIds s t → IsUnique s bs → IsUnique t bs
SameIds-IsUnique s t bs h u = rw (fun_ext h) u

pub update-SameIds :
    (s : Store) (a : ℕ) (c : Connection) → id c ≡ id (s a) → SameIds s (update s a c)
update-SameIds s a c h b = ground arith

publish_loop-SameIds :
    (o n : ProjectState) (bs : List ℕ) (s : Store) → SameIds s (publish_loop o n bs s)
unfolding publish_loop
publish_loop-SameIds o n [] s a = refl
publish_loop-SameIds o n (b ∷ bs) s a =
    publish_loop-SameIds o n bs (update s b (notify_state o n (s b))) a
    ∙ update-SameIds s b _ (ground (arith, id-enqueue_server_state (s b) o n)) a

pub publish_server_state-SameIds :
    (s : Store) (c : Communication) (o n : ProjectState) → SameIds s (publish_server_state s c o n)
unfolding publish_server_state
publish_server_state-SameIds s c o n a = ground (arith, publish_loop-SameIds o n c.connections s a)

id-deliver : (from : Text) (m : ClientMessage) (c : Connection) → id (deliver from m c).0 ≡ id c
unfolding deliver
id-deliver from m c = ground (
  arith,
  id-enqueue_client_action c (record { from = from; arg = m.arg; parameters = m.parameters }),
)

route_loop-SameIds :
    (from : Text) (m : ClientMessage) (bs : List ℕ) (s : Store) (n : ℕ)
    → SameIds s (route_loop from m bs s n).0
unfolding route_loop
route_loop-SameIds from m [] s n a = refl
route_loop-SameIds from m (b ∷ bs) s n a =
    route_loop-SameIds from m bs (update s b (deliver from m (s b)).0) _ a
    ∙ update-SameIds s b _ (id-deliver from m (s b)) a

pub route_client-SameIds :
    (s : Store) (c : Communication) (sender : ℕ) (m : ClientMessage)
    → SameIds s (route_client s c sender m).0
unfolding route_client
route_client-SameIds s c sender m a =
    ground (arith, route_loop-SameIds (s sender).session.client_name m c.connections s 0 a)
