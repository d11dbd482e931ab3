-- ===== src/Communication/Gate/Admission.antt =====
-- The number of connections that tcp_connection_gate admits at once, over all schedules.
use server_engine_v.Common.{
  ℕ, zero, suc, ◌+◌, ◌≤◌, ◌<◌, ◌^◌, ◌≡◌, ◌≢◌, refl, Bool, List, [], ◌∷◌, arith, ltb, get_or, set,
  length, replicate, Bool-cases, inl, inr,
}
use server_engine_v.Communication.Gate.{
  Gate, Position, idle, acquiring, holding, clearing, System, reset, turn, step, run, holders,
}

abbrev weight : Position → ℕ
weight idle = 0
weight (acquiring n) = 0
weight holding = 1
weight clearing = 0

holders-cons : (p : Position) (ps : List Position) → holders (p ∷ ps) ≡ holders ps + weight p
unfolding holders
holders-cons idle ps = omega arith
holders-cons (acquiring n) ps = omega arith
holders-cons holding ps = omega arith
holders-cons clearing ps = omega arith

holders-set :
    (ps : List Position) (t : ℕ) (p : Position)
    → t < length ps
    → holders (set ps t p) + weight (get_or ps t idle) ≡ holders ps + weight p
holders-set [] t p h = absurd (omega arith)
holders-set (q ∷ ps) zero p h = omega (arith, holders-cons q ps, holders-cons p ps)
holders-set (q ∷ ps) (suc t) p h =
    omega (arith, holders-cons q ps, holders-cons q (set ps t p), holders-set ps t p (omega arith))

-- No thread is in the corrective part of release.
abbrev NoneClearing : List Position → Type 0
NoneClearing [] = Unit {0}
NoneClearing (p ∷ ps) = (p ≢ clearing) × NoneClearing ps

NoneClearing-set :
    (ps : List Position) (t : ℕ) (p : Position)
    → p ≢ clearing
    → NoneClearing ps
    → NoneClearing (set ps t p)
NoneClearing-set [] t p h n = tt
NoneClearing-set (q ∷ ps) zero p h n = (h, n.1)
NoneClearing-set (q ∷ ps) (suc t) p h n = (n.0, NoneClearing-set ps t p h n.1)

NoneClearing-get_or : (ps : List Position) (t : ℕ) → NoneClearing ps → get_or ps t idle ≢ clearing
NoneClearing-get_or [] t n = λ e. cc
NoneClearing-get_or (q ∷ ps) zero n = n.0
NoneClearing-get_or (q ∷ ps) (suc t) n = NoneClearing-get_or ps t n.1

pub record IsAdmitting (limit : ℕ) (s : System) : Type 0 where
  pub counted : s.gate.active ≡ holders s.threads
  pub bounded : s.gate.active ≤ s.gate.limit
  pub word : limit < 2 ^ 32
  pub kept : s.gate.limit ≡ limit
  pub corrected : NoneClearing s.threads

turn_lem :
    (g : Gate) (p : Position) (lucky : Bool) (n : ℕ)
    → p ≢ clearing
    → g.active ≡ n + weight p
    → g.active ≤ g.limit
    → g.limit < 2 ^ 32
    → ((turn g p lucky).0.active ≡ n + weight (turn g p lucky).1)
      × ((turn g p lucky).0.active ≤ g.limit)
      × ((turn g p lucky).0.limit ≡ g.limit)
      × ((turn g p lucky).1 ≢ clearing)
unfolding turn
turn_lem g idle lucky n h e b w = ground arith
turn_lem g (acquiring current) lucky n h e b w = ground arith
turn_lem g holding lucky n h e b w = ground arith
turn_lem g clearing lucky n h e b w = absurd (h refl)

step-IsAdmitting :
    {limit : ℕ} (s : System) (k : ℕ × Bool) → IsAdmitting limit s → IsAdmitting limit (step s k)
unfolding step
step-IsAdmitting s (t, lucky) v = elim (Bool-cases (ltb t (length s.threads))) [
  | inr outside ↦ rw outside v
  | inl inside ↦
      let h : t < length s.threads = ground arith in
      let p = get_or s.threads t idle in
      let others = holders (set s.threads t idle) in
      let q = turn s.gate p lucky in
      let split = holders-set s.threads t idle h in
      let moved = holders-set s.threads t q.1 h in
      let now =
        turn_lem s.gate p lucky others (NoneClearing-get_or s.threads t v.corrected) (omega arith)
          v.bounded (omega arith) in
      rw inside (record {
        counted = omega arith;
        bounded = omega arith;
        word = v.word;
        kept = omega arith;
        corrected = NoneClearing-set s.threads t q.1 now.3 v.corrected;
      })
]

run-IsAdmitting :
    {limit : ℕ} (s : System) (ks : List (ℕ × Bool))
    → IsAdmitting limit s
    → IsAdmitting limit (run s ks)
unfolding run
run-IsAdmitting s [] v = v
run-IsAdmitting s (k ∷ ks) v = run-IsAdmitting (step s k) ks (step-IsAdmitting s k v)

-- All threads start outside.
abbrev pub outside : ℕ → List Position
outside n = replicate n idle

outside_lem : (n : ℕ) → (holders (outside n) ≡ 0) × NoneClearing (outside n)
unfolding holders
outside_lem zero = (refl, tt)
outside_lem (suc n) = let rest = outside_lem n in (rest.0, ((λ e. cc), rest.1))

-- From a gate that was reset to a 32-bit limit, with any number of threads outside, every schedule
-- of atomic steps leaves `active` at the number of admitted connections, and at most the limit.
pub run-reset-admits :
    (g : Gate) (limit n : ℕ) (ks : List (ℕ × Bool))
    → limit < 2 ^ 32
    → let s = run (record { gate = reset g limit; threads = outside n }) ks in
      (s.gate.active ≡ holders s.threads) × (holders s.threads ≤ limit)
unfolding reset
run-reset-admits g limit n ks h =
    let v =
      run-IsAdmitting (record { gate = reset g limit; threads = outside n }) ks
        (record {
          counted = omega (arith, (outside_lem n).0);
          bounded = omega arith;
          word = h;
          kept = refl;
          corrected = (outside_lem n).1;
        }) in
    (v.counted, omega (arith, v.counted, v.bounded, v.kept))
