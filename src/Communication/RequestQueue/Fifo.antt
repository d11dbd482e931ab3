-- ===== src/Communication/RequestQueue/Fifo.antt =====
-- The order of messages through the request queue, and what a stop discards.
use mathlib.Core.List.{append-nil, append_assoc}
use server_engine_v.Common.{◌≡◌, refl, false, List, [], ◌∷◌, ◌++◌, arith, inl, inr, ◌⊎◌}
use server_engine_v.Communication.RequestQueue.{
  RequestQueue, QueueCall, pushes, stops, pops, push, stop_accepting_and_discard, pop_front,
  wait_pop, wait_pop_until, step, accepted, popped, run,
}

module _ {M : Type 0} where
  pub wait_pop_until-pop_front :
      (q : RequestQueue M) (l : List M) → q.queue ≡ l → wait_pop_until q ≡ pop_front q l
  unfolding wait_pop_until wait_pop
  wait_pop_until-pop_front q [] e = ground arith
  wait_pop_until-pop_front q (m ∷ ms) e = ground arith

  -- A stopped queue takes nothing in and hands nothing out.
  stopped_lem :
      (q : RequestQueue M) (ks : List (QueueCall M))
      → q.accepting ≡ false
      → q.queue ≡ []
      → (accepted q ks ≡ []) × (popped q ks ≡ []) × ((run q ks).accepting ≡ false)
  unfolding accepted popped run step push stop_accepting_and_discard
  stopped_lem q [] a e = (refl, refl, a)
  stopped_lem q (pushes m ∷ ks) a e = ground (arith, stopped_lem (push q m).0 ks)
  stopped_lem q (stops ∷ ks) a e = stopped_lem (stop_accepting_and_discard q) ks refl refl
  stopped_lem q (pops ∷ ks) a e =
      ground (arith, wait_pop_until-pop_front q [] e, stopped_lem (wait_pop_until q).0 ks)

  abbrev pub Flow : RequestQueue M → List (QueueCall M) → Type 0
  Flow q ks =
      (rest : List M) × (q.queue ++ accepted q ks ≡ popped q ks ++ rest)
      × (((run q ks).accepting ≡ false) ⊎ (rest ≡ (run q ks).queue))

  push-Flow :
      (q : RequestQueue M) (m : M) (ks : List (QueueCall M))
      → Flow (push q m).0 ks
      → Flow q (pushes m ∷ ks)
  unfolding accepted popped run step push
  push-Flow q m ks f =
      (f.0, ground (arith, f.1, append_assoc q.queue (m ∷ []) (accepted (push q m).0 ks)), f.2)

  pops-Flow :
      (q : RequestQueue M) (l : List M) (ks : List (QueueCall M))
      → q.queue ≡ l
      → Flow (wait_pop_until q).0 ks
      → Flow q (pops ∷ ks)
  unfolding accepted popped run step
  pops-Flow q [] ks e f = (f.0, ground (arith, f.1, wait_pop_until-pop_front q [] e), f.2)
  pops-Flow q (m ∷ ms) ks e f =
      (f.0, ground (arith, f.1, wait_pop_until-pop_front q (m ∷ ms) e), f.2)

  -- The messages handed out, in order, are the first of those queued before and accepted later; as
  -- long as the queue still accepts at the end, the rest of them are exactly what it holds.
  pub run-Flow : (q : RequestQueue M) (ks : List (QueueCall M)) → Flow q ks
  unfolding accepted popped run step stop_accepting_and_discard
  run-Flow q [] = (q.queue, append-nil q.queue, inr refl)
  run-Flow q (pushes m ∷ ks) = push-Flow q m ks (run-Flow (push q m).0 ks)
  run-Flow q (stops ∷ ks) =
      let dead = stopped_lem (stop_accepting_and_discard q) ks refl refl in
      (q.queue, ground (arith, dead, append-nil q.queue), inl dead.2)
  run-Flow q (pops ∷ ks) = pops-Flow q q.queue ks refl (run-Flow (wait_pop_until q).0 ks)
