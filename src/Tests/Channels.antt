-- ===== src/Tests/Channels.antt =====
-- The outbound channel, the request queue and the connection gate on concrete data.
use server_engine_v.Common.{ℕ, ◌≤◌, ◌≡◌, refl, Bool, true, false, List, [], ◌∷◌, arith}
use server_engine_v.Communication.Outbound.{
  OutboundMessage, OutboundChannel, ChannelCall, enqueues, takes, marks, closes, new_channel,
  enqueue,
}
use server_engine_v.Communication.Outbound
use server_engine_v.Communication.Outbound.Accounting.{IsAccounted, run-new_channel-IsAccounted}
use server_engine_v.Communication.Outbound.Order.{
  IsOrdered, observe, observe_all, start, messages, observe_all-start-IsOrdered,
}
use server_engine_v.Communication.RequestQueue.{
  RequestQueue, QueueCall, pushes, stops, pops, new_queue, push, wait_pop_until,
  stop_accepting_and_discard, wakes,
}
use server_engine_v.Communication.RequestQueue
use server_engine_v.Communication.RequestQueue.Fifo.{Flow, run-Flow}
use server_engine_v.Communication.Gate.{
  Gate, System, idle, acquiring, holding, reset, turn, holders,
}
use server_engine_v.Communication.Gate
use server_engine_v.Communication.Gate.Admission.{outside, run-reset-admits}

abbrev sized : ℕ → ℕ → OutboundMessage ℕ
sized bytes payload = record { estimated_bytes = bytes; payload = payload }

abbrev busy : List (ChannelCall ℕ)
busy = enqueues (sized 40 1) ∷ enqueues (sized 50 2) ∷ takes ∷ marks 1 ∷ []

abbrev overflowing : List (ChannelCall ℕ)
overflowing =
    enqueues (sized 40 1) ∷ takes ∷ enqueues (sized 60 2) ∷ enqueues (sized 41 3) ∷ takes ∷ []

busy_bytes : (Outbound.run (new_channel 100) busy).bytes ≡ 50
unfolding Outbound.run Outbound.step new_channel enqueue Outbound.try_next Outbound.mark_written
busy_bytes = refl

overflow_closes : (Outbound.run (new_channel 100) overflowing).is_closing ≡ true
unfolding Outbound.run Outbound.step new_channel enqueue Outbound.try_next
overflow_closes = refl

run-new_channel-IsAccounted_example : IsAccounted (Outbound.run (new_channel 100) overflowing)
run-new_channel-IsAccounted_example = run-new_channel-IsAccounted 100 overflowing (omega arith)

written_first : messages (observe_all (start 100) busy).writes ≡ sized 40 1 ∷ []
unfolding observe_all observe start new_channel Outbound.step enqueue Outbound.try_next
    Outbound.mark_written
written_first = refl

observe_all-start-IsOrdered_example : IsOrdered (observe_all (start 100) busy)
observe_all-start-IsOrdered_example = observe_all-start-IsOrdered 100 busy

abbrev traffic : List (QueueCall ℕ)
traffic = pushes 7 ∷ pushes 8 ∷ pops ∷ pushes 9 ∷ stops ∷ pushes 10 ∷ pops ∷ []

traffic-popped : RequestQueue.popped new_queue traffic ≡ 7 ∷ []
unfolding RequestQueue.popped RequestQueue.step new_queue push wait_pop_until wakes
    stop_accepting_and_discard
traffic-popped = refl

run-Flow_example : Flow new_queue traffic
run-Flow_example = run-Flow new_queue traffic

abbrev old_gate : Gate
old_gate = record { active = 5; limit = 9 }

-- Two threads race for one place, with one spurious failure, and the loser gives up.
abbrev race : List (ℕ × Bool)
race = (0, true) ∷ (1, true) ∷ (0, false) ∷ (1, true) ∷ (0, true) ∷ (0, true) ∷ []

race_admits_one :
    holders (Gate.run (record { gate = reset old_gate 1; threads = outside 2 }) race).threads ≡ 1
unfolding Gate.run Gate.step reset turn holders
race_admits_one = refl

run-reset-admits_example :
    let s = Gate.run (record { gate = reset old_gate 1; threads = outside 2 }) race in
    (s.gate.active ≡ holders s.threads) × (holders s.threads ≤ 1)
run-reset-admits_example = run-reset-admits old_gate 1 2 race (omega arith)
