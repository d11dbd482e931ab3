-- ===== src/Communication/RequestQueue.antt =====
-- communication/request_queue.{hpp,cpp}: the queue from the endpoint threads to the Server's
-- control thread. Each operation is one critical section of the mutex; a wait is modelled by what
-- it returns in the state in which it ends.
pub mod Fifo
use server_engine_v.Common.{
  ◌≡◌, ◌≢◌, refl, ◌∙◌, sym, ap, Bool, true, false, not, ◌||◌, Option, none, some, List, [], ◌∷◌,
  ◌++◌, arith, if◌then◌else◌,
}

pub record RequestQueue (M : Type 0) : Type 0 where
  pub queue : List M
  pub accepting : Bool

pub data QueueCall (M : Type 0) : Type 0 where
  pushes : M → QueueCall M
  stops : QueueCall M
  pops : QueueCall M

module _ {M : Type 0} where
  unfoldable pub new_queue : RequestQueue M
  new_queue = record { queue = []; accepting = true }

  unfoldable pub push : RequestQueue M → M → RequestQueue M × Bool
  push q m = if not q.accepting then (q, false) else (record q { queue = q.queue ++ m ∷ [] }, true)

  unfoldable pub stop_accepting_and_discard : RequestQueue M → RequestQueue M
  stop_accepting_and_discard q = record { queue = []; accepting = false }

  abbrev pub is_empty : List M → Bool
  is_empty [] = true
  is_empty (m ∷ ms) = false

  -- What both waits wait for.
  unfoldable pub wakes : RequestQueue M → Bool
  wakes q = not (is_empty q.queue) || not q.accepting

  abbrev pub pop_front : RequestQueue M → List M → RequestQueue M × Option M
  pop_front q [] = (q, none)
  pop_front q (m ∷ ms) = (record q { queue = ms }, some m)

  -- The end of wait_pop, and of wait_pop_until: its deadline can end the wait only in a state that
  -- does not wake it, where the queue is empty and so `none` is returned as well.
  unfoldable pub wait_pop : RequestQueue M → RequestQueue M × Option M
  wait_pop q = pop_front q q.queue

  unfoldable pub wait_pop_until : RequestQueue M → RequestQueue M × Option M
  unfolding wakes
  wait_pop_until q = if not (wakes q) then (q, none) else pop_front q q.queue

  unfoldable pub step : RequestQueue M → QueueCall M → RequestQueue M
  step q (pushes m) = (push q m).0
  step q stops = stop_accepting_and_discard q
  step q pops = (wait_pop_until q).0

  -- The messages that a call accepted, and those that it handed out.
  abbrev accepted_by : Bool → M → List M
  accepted_by b m = if b then m ∷ [] else []

  abbrev popped_by : Option M → List M
  popped_by none = []
  popped_by (some m) = m ∷ []

  unfoldable pub accepted : RequestQueue M → List (QueueCall M) → List M
  accepted q [] = []
  accepted q (pushes m ∷ ks) = accepted_by (push q m).1 m ++ accepted (step q (pushes m)) ks
  accepted q (stops ∷ ks) = accepted (step q stops) ks
  accepted q (pops ∷ ks) = accepted (step q pops) ks

  unfoldable pub popped : RequestQueue M → List (QueueCall M) → List M
  popped q [] = []
  popped q (pushes m ∷ ks) = popped (step q (pushes m)) ks
  popped q (stops ∷ ks) = popped (step q stops) ks
  popped q (pops ∷ ks) = popped_by (wait_pop_until q).1 ++ popped (step q pops) ks

  unfoldable pub run : RequestQueue M → List (QueueCall M) → RequestQueue M
  run q [] = q
  run q (k ∷ ks) = run (step q k) ks
