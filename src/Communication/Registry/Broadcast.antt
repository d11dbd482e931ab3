-- ===== src/Communication/Registry/Broadcast.antt =====
-- What publish_server_state does to each connection of the store.
use server_engine_v.Common.{
  ℕ, ◌≡◌, ◌≢◌, ◌⊎◌, refl, sym, ap, ◌∙◌, subst, Bool, true, false, not, ◌&&◌, List, [], ◌∷◌, arith,
  if◌then◌else◌, contains, AllDistinct, Bool-cases, inl, inr,
}
use server_engine_v.Status.{ProjectState, unloaded, loaded, run, freeze, project_state_eq}
use server_engine_v.Communication.Connection.{Connection, enqueue_server_state}
use server_engine_v.Communication.Connection.Delivery.{
  Receives, state_message, enqueue_server_state-Receives,
}
use server_engine_v.Communication.Registry.{
  Store, Communication, update, notify_state, publish_loop, publish_server_state,
}

-- The loop that runs `f` on each connection in turn.
unfoldable pub for_each : (Connection → Connection) → List ℕ → Store → Store
for_each f [] s = s
for_each f (a ∷ bs) s = for_each f bs (update s a (f (s a)))

-- No address stands twice in the registry, so `f` runs once on each, and on no other.
pub for_each_lem :
    (f : Connection → Connection) (bs : List ℕ) (s : Store) (a : ℕ)
    → AllDistinct bs
    → for_each f bs s a ≡ (if contains a bs then f (s a) else s a)
unfolding for_each contains
for_each_lem f [] s a d = refl
for_each_lem f (b ∷ bs) s a d = ground (arith, for_each_lem f bs (update s b (f (s b))) a d.1)

pub publish_loop-for_each :
    (o n : ProjectState) (bs : List ℕ) (s : Store)
    → publish_loop o n bs s ≡ for_each (notify_state o n) bs s
unfolding publish_loop for_each
publish_loop-for_each o n [] s = refl
publish_loop-for_each o n (b ∷ bs) s = publish_loop-for_each o n bs _

project_state_eq_refl : (o : ProjectState) → project_state_eq o o ≡ true
unfolding project_state_eq
project_state_eq_refl unloaded = refl
project_state_eq_refl loaded = refl
project_state_eq_refl run = refl
project_state_eq_refl freeze = refl

project_state_eq_sound : (o n : ProjectState) → project_state_eq o n ≡ true → o ≡ n
unfolding project_state_eq
project_state_eq_sound unloaded unloaded h = refl
project_state_eq_sound loaded loaded h = refl
project_state_eq_sound run run h = refl
project_state_eq_sound freeze freeze h = refl
project_state_eq_sound _ _ h = absurd (let z : false ≡ true = h in cc)

-- A change from `o` to `n` is sent once to a registered connection that has logged in, and nothing happens to any
-- other connection or without a change.
abbrev pub Announces : ProjectState → ProjectState → Bool → Connection → Connection → Type 0
Announces o n registered c c' =
    ((o ≢ n) × (registered ≡ true) × (c.login_committed ≡ true) × Receives (state_message o n) c c')
    ⊎ (((o ≡ n) ⊎ (registered ≡ false) ⊎ (c.login_committed ≡ false)) × (c' ≡ c))

publish_server_state_each :
    (s : Store) (c : Communication) (o n : ProjectState) (a : ℕ)
    → AllDistinct c.connections
    → publish_server_state s c o n a ≡ (
        if not (project_state_eq o n) && contains a c.connections
        then notify_state o n (s a)
        else s a)
unfolding publish_server_state
publish_server_state_each s c o n a d = ground (
  arith,
  ap (λ t. t a) (publish_loop-for_each o n c.connections s),
  for_each_lem (notify_state o n) c.connections s a d,
)

notify_state-Announces :
    (o n : ProjectState) (registered : Bool) (c : Connection)
    → Announces o n registered c
        (if not (project_state_eq o n) && registered then notify_state o n c else c)
notify_state-Announces o n registered c = elim (Bool-cases (project_state_eq o n)) [
  | inl same ↦ inr (inl (project_state_eq_sound o n same), rw same refl)
  | inr different ↦ elim (Bool-cases registered) [
    | inr stranger ↦ inr (inr (inl stranger), rw (different, stranger) refl)
    | inl member ↦ elim (Bool-cases c.login_committed) [
      | inr new ↦ inr (inr (inr new), rw (different, member, new) refl)
      | inl login ↦
          let reached : (if not (project_state_eq o n) && registered then notify_state o n c else c)
              ≡ (enqueue_server_state c o n).0 =
            ap (λ b. if not b && registered then notify_state o n c else c) different
            ∙ ap (λ b. if b then notify_state o n c else c) member
            ∙ ap (λ b. if b then (enqueue_server_state c o n).0 else c) login in
          inl (
            λ e. let z = ap (λ x. project_state_eq o x) e in let y = project_state_eq_refl o in cc,
            member,
            login,
            subst (Receives (state_message o n) c) (sym reached)
                (enqueue_server_state-Receives c o n login),
          )
    ]
  ]
]

-- What publish_server_state does to each connection of the store: a change of state is sent once to each registered
-- connection that has logged in, and nothing else happens. The registered addresses are distinct.
pub publish_server_state_lem :
    (s : Store) (c : Communication) (o n : ProjectState) (a : ℕ)
    → AllDistinct c.connections
    → Announces o n (contains a c.connections) (s a) (publish_server_state s c o n a)
publish_server_state_lem s c o n a d =
    subst (Announces o n (contains a c.connections) (s a))
      (sym (publish_server_state_each s c o n a d))
      (notify_state-Announces o n (contains a c.connections) (s a))
