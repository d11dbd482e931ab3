-- ===== src/Communication/Gate.antt =====
-- tcp_connection_gate of communication/tcp/tcp_endpoint.{hpp,cpp}: a limit on the connections that
-- several threads hold at once, kept in one atomic counter. A step is one atomic access, and a
-- schedule chooses the thread of each step and whether the weak compare-exchange may succeed.
pub mod Admission
use server_engine_v.Common.{
  ℕ, ◌+◌, ◌-◌, ◌%◌, ◌^◌, Bool, true, false, ◌&&◌, List, [], ◌∷◌, ltb, ◌==◌, if◌then◌else◌, get_or,
  set, length,
}

pub record Gate : Type 0 where
  pub active : ℕ
  pub limit : ℕ

unfoldable pub reset : Gate → ℕ → Gate
reset g value = record { active = 0; limit = value }

-- Where a thread stands: outside, in acquire's loop with the value that it read last, as the owner
-- of one admitted connection, or in release behind a fetch_sub that read zero.
pub data Position : Type 0 where
  idle : Position
  acquiring : ℕ → Position
  holding : Position
  clearing : Position

-- One turn of acquire's loop: the test `current < limit`, then the compare-exchange, which may
-- fail for no reason and then reloads `current`.
abbrev pub acquire_turn : Gate → ℕ → Bool → Gate × Position
acquire_turn g current lucky =
    if ltb current g.limit
    then (if lucky && g.active == current
        then (record g { active = (current + 1) % 2 ^ 32 }, holding)
        else (g, acquiring g.active))
    else (g, idle)

-- release: fetch_sub(1) wraps at zero, and then the count is set back to zero.
abbrev pub release_turn : Gate → Gate × Position
release_turn g = (
  record g { active = (g.active + 2 ^ 32 - 1) % 2 ^ 32 },
  if g.active == 0 then clearing else idle,
)

-- The next atomic step of a thread. An idle thread starts to acquire, and a holder releases.
unfoldable pub turn : Gate → Position → Bool → Gate × Position
turn g idle lucky = (g, acquiring g.active)
turn g (acquiring current) lucky = acquire_turn g current lucky
turn g holding lucky = release_turn g
turn g clearing lucky = (record g { active = 0 }, idle)

pub record System : Type 0 where
  pub gate : Gate
  pub threads : List Position

unfoldable pub step : System → ℕ × Bool → System
step s (t, lucky) =
    let (g, p) = turn s.gate (get_or s.threads t idle) lucky in
    if ltb t (length s.threads) then record { gate = g; threads = set s.threads t p } else s

unfoldable pub run : System → List (ℕ × Bool) → System
run s [] = s
run s (k ∷ ks) = run (step s k) ks

unfoldable pub holders : List Position → ℕ
holders [] = 0
holders (idle ∷ ps) = holders ps
holders (acquiring n ∷ ps) = holders ps
holders (holding ∷ ps) = holders ps + 1
holders (clearing ∷ ps) = holders ps
