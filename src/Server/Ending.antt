-- ===== src/Server/Ending.antt =====
-- How the control loop ends, and what the shutdown behind it leaves.
use mathlib.Core.Option
use server_engine_v.Common.{
  ℕ, ◌≤◌, ◌≡◌, ◌⊎◌, inl, inr, refl, ap, ◌∙◌, false, ◌&&◌, Option, none, some, List, [], ◌∷◌, arith,
  Bool-cases,
}
use server_engine_v.Status.{unloaded}
use server_engine_v.License.{ServerLease, valid_at, clear_lease}
use server_engine_v.Communication.RequestQueue.{wait_pop_until, stop_accepting_and_discard}
use server_engine_v.Communication.RequestQueue
use server_engine_v.Communication.Registry.{stop}
use server_engine_v.Server.Engine.{Engine}
use server_engine_v.Server.State.{Server, ControlMessage}
use server_engine_v.Server.LeaseKept.{turn-lease}
use server_engine_v.Server.Loop.{Round, turn, handle_popped, run_loop, run, shut_down}

module _ {Project : Type 0} where
  -- Nothing runs, waits, is owned or is authorised.
  pub record IsDown (s : Server Project) : Type 0 where
    pub stopped : s.running ≡ false
    pub refusing : s.requests.accepting ≡ false
    pub drained : s.requests.queue ≡ []
    pub released : s.project ≡ none
    pub state : s.project_state_value ≡ unloaded
    pub no_consoles : s.communications.consoles ≡ []
    pub no_tcp : s.communications.tcp_endpoints ≡ []
    pub no_connections : s.communications.connections ≡ []
    pub unauthenticated : s.authentication_started ≡ false
    pub anonymous : s.identity_started ≡ false
    pub expired : (now : ℕ) → valid_at s.lease now ≡ false

  shut_down-IsDown : (s : Server Project) → IsDown (shut_down s)
  unfolding shut_down stop stop_accepting_and_discard clear_lease valid_at
  shut_down-IsDown s = record {
    stopped = refl;
    refusing = refl;
    drained = refl;
    released = refl;
    state = refl;
    no_consoles = refl;
    no_tcp = refl;
    no_connections = refl;
    unauthenticated = refl;
    anonymous = refl;
    expired = λ now. refl;
  }

-- Some round begins when the lease has run out.
abbrev pub Expires : ServerLease → List Round → Type 0
Expires l [] = ⊥
Expires l (round ∷ rounds) = (l.expiration ≤ round.before) ⊎ Expires l rounds

module _ {Project Image : Type 0} (e : Engine Project Image) where
  -- A turn that begins outside the lease stops the loop.
  turn-running :
      (s : Server Project) (round : Round)
      → s.lease.expiration ≤ round.before
      → (turn e s round).running ≡ false
  unfolding turn valid_at
  turn-running s round h = ground arith

  stopped-run_loop :
      (s : Server Project) (rounds : List Round) → s.running ≡ false → run_loop e s rounds ≡ some s
  unfolding run_loop
  stopped-run_loop s [] h = ground arith
  stopped-run_loop s (round ∷ rounds) h = ground arith

  run_loop-cons :
      (s t : Server Project) (round : Round) (rounds : List Round)
      → run_loop e (turn e s round) rounds ≡ some t
      → (u : Server Project) × (run_loop e s (round ∷ rounds) ≡ some u)
  unfolding run_loop
  run_loop-cons s t round rounds h = elim (Bool-cases s.running) [
    | inl on ↦ (t, ground arith)
    | inr off ↦ (s, ground arith)
  ]

  run_loop_ends :
      (s : Server Project) (l : ServerLease) (rounds : List Round)
      → s.lease ≡ l
      → Expires l rounds
      → (t : Server Project) × (run_loop e s rounds ≡ some t)
  run_loop_ends s l [] k h = absurd h
  run_loop_ends s l (round ∷ rounds) k (inl now) =
      run_loop-cons s _ round rounds
        (stopped-run_loop (turn e s round) rounds (turn-running s round (rw k now)))
  run_loop_ends s l (round ∷ rounds) k (inr later) =
      let (t, returned) =
        run_loop_ends (turn e s round) l rounds (turn-lease e s round ∙ k) later in
      run_loop-cons s t round rounds returned

  -- Once some round begins at or after the end of the lease, `run` returns, and then the server is
  -- down: not running, with a closed and empty request queue, no Project, state UNLOADED, no
  -- endpoint and no registered connection, no authentication, no identity, and no valid lease.
  pub run-IsDown :
      (s : Server Project) (rounds : List Round)
      → Expires s.lease rounds
      → (t : Server Project) × (run e s rounds ≡ some t) × IsDown t
  unfolding run
  run-IsDown s rounds h =
      let (t, returned) = run_loop_ends s s.lease rounds refl h in
      (shut_down t, ap (Option.map shut_down) returned, shut_down-IsDown t)

  popped_outside_lease :
      (s : Server Project) (m : Option ControlMessage) (round : Round)
      → valid_at s.lease round.after ≡ false
      → handle_popped e s m round ≡ record s { running = false }
  popped_outside_lease s none round h = refl
  popped_outside_lease s (some m) round h = ground arith

  -- A turn whose clock reads outside the lease before or after its wait executes no message: of
  -- the server only `running`, which becomes false, and the request queue change.
  pub turn_outside_lease :
      (s : Server Project) (round : Round)
      → (valid_at s.lease round.before && valid_at s.lease round.after) ≡ false
      → turn e s round ≡ record s { running = false; requests = (turn e s round).requests }
  unfolding turn
  turn_outside_lease s round h =
      let waited = wait_pop_until (RequestQueue.run s.requests round.arrivals) in
      ground (arith, popped_outside_lease (record s { requests = waited.0 }) waited.1 round)
