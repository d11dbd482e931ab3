-- ===== src/Communication/Registry/Membership.antt =====
-- Which connections the registry of communication.cpp holds.
use mathlib.Core.Path.{fun_ext}
use server_engine_v.Common.{
  ℕ, ◌≡◌, refl, true, false, not, ◌&&◌, ◌||◌, List, [], ◌∷◌, ◌++◌, arith, ◌==◌, if◌then◌else◌,
  contains, AllDistinct, map, Bool-cases, inl, inr,
}
use server_engine_v.Communication.Connection.{Connection}
use server_engine_v.Communication.Connection
use server_engine_v.Communication.Registry.{
  Store, Communication, is_registered, register_connection, unregister_first, unregister_connection,
}

abbrev pub session_of : Store → ℕ → ℕ
session_of s a = (s a).session.session_id

-- Addresses and session ids are unique among the registered connections.
abbrev pub IsUnique : Store → List ℕ → Type 0
IsUnique s bs = AllDistinct bs × AllDistinct (map (session_of s) bs)

contains-snoc : (a b : ℕ) (bs : List ℕ) → contains a (bs ++ b ∷ []) ≡ (contains a bs || b == a)
unfolding contains
contains-snoc a b [] = ground arith
contains-snoc a b (x ∷ bs) = ground (arith, contains-snoc a b bs)

AllDistinct-snoc :
    (b : ℕ) (bs : List ℕ) → contains b bs ≡ false → AllDistinct bs → AllDistinct (bs ++ b ∷ [])
unfolding contains
AllDistinct-snoc b [] h d = (refl, tt)
AllDistinct-snoc b (x ∷ bs) h d =
    (ground (arith, contains-snoc x b bs), AllDistinct-snoc b bs (ground arith) d.1)

map-snoc :
    (s : Store) (b : ℕ) (bs : List ℕ)
    → map (session_of s) (bs ++ b ∷ []) ≡ map (session_of s) bs ++ session_of s b ∷ []
map-snoc s b [] = refl
map-snoc s b (x ∷ bs) = ground (arith, map-snoc s b bs)

is_registered_lem :
    (s : Store) (a : ℕ) (bs : List ℕ)
    → is_registered s a bs ≡ (contains a bs || contains (session_of s a) (map (session_of s) bs))
unfolding is_registered contains
is_registered_lem s a [] = refl
is_registered_lem s a (b ∷ bs) = ground (arith, is_registered_lem s a bs)

-- `register_connection` succeeds exactly if neither the address nor the session id is registered;
-- then the connection is added at the end, and the registry stays unique. A refused connection
-- changes nothing.
pub register_connection_lem :
    (s : Store) (c : Communication) (a : ℕ)
    → IsUnique s c.connections
    → let r = register_connection s c a in
      (r.1
        ≡ not (
            contains a c.connections
            || contains (session_of s a) (map (session_of s) c.connections)))
      × (r.0.connections ≡ (if r.1 then c.connections ++ a ∷ [] else c.connections))
      × IsUnique s r.0.connections
unfolding register_connection
register_connection_lem s c a u = elim (Bool-cases (is_registered s a c.connections)) [
  | inl there ↦ (ground (arith, is_registered_lem s a c.connections), ground arith, rw there u)
  | inr free ↦ (
    ground (arith, is_registered_lem s a c.connections),
    ground arith,
    rw (free, map-snoc)
        (
          AllDistinct-snoc a c.connections (ground (arith, is_registered_lem s a c.connections))
              u.0,
          AllDistinct-snoc (session_of s a) (map (session_of s) c.connections)
              (ground (arith, is_registered_lem s a c.connections)) u.1,
        ),
  )
]

-- Tearing down subscriptions keeps the session.
unregister_first_lem :
    (s : Store) (id : ℕ) (bs : List ℕ) (a : ℕ)
    → session_of (unregister_first s id bs).0 a ≡ session_of s a
unfolding unregister_first Connection.teardown_subscriptions
unregister_first_lem s id [] a = refl
unregister_first_lem s id (b ∷ bs) a = ground (arith, unregister_first_lem s id bs a)

session_absent :
    (s : Store) (i a : ℕ) (bs : List ℕ)
    → contains i (map (session_of s) bs) ≡ false
    → contains a bs ≡ true
    → (session_of s a == i) ≡ false
unfolding contains
session_absent s i a [] h k = cc
session_absent s i a (b ∷ bs) h k = ground (arith, session_absent s i a bs)

contains-unregister_first :
    (s : Store) (id : ℕ) (bs : List ℕ) (a : ℕ)
    → IsUnique s bs
    → contains a (unregister_first s id bs).1 ≡ (contains a bs && not (session_of s a == id))
unfolding unregister_first contains
contains-unregister_first s id [] a u = refl
contains-unregister_first s id (b ∷ bs) a u =
    ground (arith, contains-unregister_first s id bs a (u.0.1, u.1.1), session_absent s id a bs)

sessions-unregister_first :
    (s : Store) (id : ℕ) (bs : List ℕ) (i : ℕ)
    → contains i (map (session_of s) bs) ≡ false
    → contains i (map (session_of s) (unregister_first s id bs).1) ≡ false
unfolding unregister_first contains
sessions-unregister_first s id [] i h = refl
sessions-unregister_first s id (b ∷ bs) i h = ground (arith, sessions-unregister_first s id bs i)

unregister_first-IsUnique :
    (s : Store) (id : ℕ) (bs : List ℕ) → IsUnique s bs → IsUnique s (unregister_first s id bs).1
unfolding unregister_first
unregister_first-IsUnique s id [] u = u
unregister_first-IsUnique s id (b ∷ bs) u =
    let rest = unregister_first-IsUnique s id bs (u.0.1, u.1.1) in
    elim (Bool-cases (session_of s b == id)) [
      | inl hit ↦ rw hit (u.0.1, u.1.1)
      | inr miss ↦ rw miss (
        (ground (arith, contains-unregister_first s id bs b (u.0.1, u.1.1)), rest.0),
        (sessions-unregister_first s id bs (session_of s b) u.1.0, rest.1),
      )
    ]

store-unregister_first :
    (s : Store) (id : ℕ) (bs : List ℕ) (a : ℕ)
    → IsUnique s bs
    → (unregister_first s id bs).0 a ≡ (
        if contains a bs && session_of s a == id
        then Connection.teardown_subscriptions (s a)
        else s a)
unfolding unregister_first contains
store-unregister_first s id [] a u = refl
store-unregister_first s id (b ∷ bs) a u =
    ground (arith, store-unregister_first s id bs a (u.0.1, u.1.1), session_absent s id a bs)

-- On a unique registry, `unregister_connection` removes exactly the connection of that session id,
-- tears its subscriptions down, leaves every other connection as it was, and the registry unique.
pub unregister_connection_lem :
    (s : Store) (c : Communication) (id a : ℕ)
    → IsUnique s c.connections
    → let r = unregister_connection s c id in
      (contains a r.1.connections ≡ (contains a c.connections && not (session_of s a == id)))
      × (r.0 a ≡ (
          if contains a c.connections && session_of s a == id
          then Connection.teardown_subscriptions (s a)
          else s a))
      × IsUnique r.0 r.1.connections
unfolding unregister_connection
unregister_connection_lem s c id a u = (
  contains-unregister_first s id c.connections a u,
  store-unregister_first s id c.connections a u,
  rw (fun_ext (unregister_first_lem s id c.connections))
      (unregister_first-IsUnique s id c.connections u),
)
