-- ===== src/Communication/Registry/Startup.antt =====
-- When communication::start succeeds, and what it owns then.
use server_engine_v.Common.{
  ℕ, suc, ◌+◌, ◌≡◌, refl, sym, ◌∙◌, inl, inr, Bool, true, not, ◌&&◌, List, [], ◌∷◌, arith, length,
  length-append, if◌then◌else◌, ◌==◌, ap, Bool-cases,
}
use server_engine_v.Text.{codes, text_eq}
use server_engine_v.Status.{ServerStatus, succeeded}
use server_engine_v.Policy.{ServerMode}
use server_engine_v.Communication.Gate
use server_engine_v.Communication.Registry.{
  Store, Communication, EndpointConfiguration, Host, is_tcp, start_endpoint, start_endpoints, stop,
  finish_start, start, connection_limit, lifetime_minutes, close_all, is_empty,
}

-- An endpoint that is supported and whose backend starts.
abbrev pub starts : Host → ℕ → EndpointConfiguration → Bool
starts h i e =
    if is_tcp e.transport
    then text_eq e.protocol (codes "json") && h.tcp_starts i
    else h.console_starts i

unfoldable pub all_start : Host → ℕ → List EndpointConfiguration → Bool
all_start h i [] = true
all_start h i (e ∷ es) = starts h i e && all_start h (suc i) es

abbrev owned : Communication → ℕ
owned c = length c.consoles + length c.tcp_endpoints

abbrev SameSettings : Communication → Communication → Type 0
SameSettings c d =
    (c.connections ≡ d.connections)
    × (c.tcp_gate ≡ d.tcp_gate)
    × (c.next_session_id ≡ d.next_session_id)

start_endpoint_lem :
    (h : Host) (i : ℕ) (e : EndpointConfiguration) (c : Communication)
    → (succeeded (start_endpoint h i e c).1 ≡ starts h i e)
      × (SameSettings (start_endpoint h i e c).0 c)
      × (starts h i e ≡ true → owned (start_endpoint h i e c).0 ≡ owned c + 1)
unfolding succeeded
start_endpoint_lem h i e c =
    ground (arith, length-append c.tcp_endpoints (i ∷ []), length-append c.consoles (i ∷ []))

start_endpoints_lem :
    (h : Host) (i : ℕ) (es : List EndpointConfiguration) (s : Store) (c : Communication)
    → c.connections ≡ []
    → let r = start_endpoints h i es s c in
      (succeeded r.1 ≡ all_start h i es)
      × (SameSettings r.0.1 c)
      × (owned r.0.1 ≡ (if all_start h i es then owned c + length es else 0))
unfolding start_endpoints all_start stop succeeded
start_endpoints_lem h i [] s c e0 = ground arith
start_endpoints_lem h i (e ∷ es) s c e0 =
    let one = start_endpoint_lem h i e c in
    let rest = start_endpoints_lem h (suc i) es s (start_endpoint h i e c).0 (one.1.0 ∙ e0) in
    elim (Bool-cases (starts h i e)) [
      | inl good ↦
          rw (one.0 ∙ good, good)
            (
              rest.0,
              (rest.1.0 ∙ one.1.0, rest.1.1 ∙ one.1.1, rest.1.2 ∙ one.1.2),
              ground (arith, rest.2, one.2 good),
            )
      | inr bad ↦ rw (one.0 ∙ bad, bad) (one.0 ∙ bad, (sym e0, one.1.1, one.1.2), refl)
    ]

is_empty-length : (l : List ℕ) → is_empty l ≡ (length l == 0)
is_empty-length [] = refl
is_empty-length (x ∷ xs) = ground arith

abbrev pub is_startable : Host → List EndpointConfiguration → Bool
is_startable h endpoints = all_start h 0 endpoints && not (length endpoints == 0)

finish_start_lem :
    (r : (Store × Communication) × ServerStatus) (all : Bool) (n : ℕ)
    → succeeded r.1 ≡ all
    → owned r.0.1 ≡ (if all then n else 0)
    → (succeeded (finish_start r).1 ≡ (all && not (n == 0)))
      × (owned (finish_start r).0.1 ≡ (if all && not (n == 0) then n else 0))
      × ((finish_start r).0.1 ≡ r.0.1)
unfolding succeeded
finish_start_lem ((s, c), status) all n e o =
    ground (arith, is_empty-length c.consoles, is_empty-length c.tcp_endpoints)

-- `start` succeeds exactly if the configuration has an endpoint, and each endpoint is supported and
-- its backend starts. Then all of them are owned; otherwise none is. Either way no connection is
-- registered, session ids begin at 1, and the gate is empty with the limit of the mode: one
-- connection in demo mode, the licensed number in full mode, as long as no client has come.
pub start_lem :
    (h : Host) (endpoints : List EndpointConfiguration) (mode : ServerMode) (n : ℕ) (s : Store)
    (c : Communication)
    → let r = start h endpoints mode n s c in
      (succeeded r.1 ≡ is_startable h endpoints)
      × (length r.0.1.consoles + length r.0.1.tcp_endpoints
          ≡ (if is_startable h endpoints then length endpoints else 0))
      × (r.0.1.connections ≡ [])
      × (r.0.1.tcp_gate ≡ record { active = 0; limit = connection_limit mode n })
      × (r.0.1.next_session_id ≡ 1)
unfolding start Gate.reset stop
start_lem h endpoints mode n s c =
    let first : Communication = record c {
      consoles = [];
      tcp_endpoints = [];
      connections = [];
      tcp_gate = record { active = 0; limit = connection_limit mode n };
      next_session_id = 1;
      demo_minutes = lifetime_minutes mode;
    } in
    let s' = close_all s c.connections in
    let r = start_endpoints h 0 endpoints s' first in
    let loop = start_endpoints_lem h 0 endpoints s' first refl in
    let done =
      finish_start_lem r (all_start h 0 endpoints) (length endpoints) loop.0
        (ground (arith, loop.2)) in
    (
      done.0,
      done.1,
      ap (λ d. d.connections) done.2 ∙ loop.1.0,
      ap (λ d. d.tcp_gate) done.2 ∙ loop.1.1,
      ap (λ d. d.next_session_id) done.2 ∙ loop.1.2,
    )
