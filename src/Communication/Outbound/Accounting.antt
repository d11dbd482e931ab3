-- ===== src/Communication/Outbound/Accounting.antt =====
-- The byte accounting of the outbound channel (communication/connection/outbound_channel.cpp).
use server_engine_v.Common.{ℕ, ◌+◌, ◌≤◌, ◌<◌, ◌^◌, ◌≡◌, true, List, [], ◌∷◌, ◌++◌, arith}
use server_engine_v.Communication.Outbound.{
  OutboundMessage, OutboundChannel, ChannelCall, enqueues, takes, marks, closes, new_channel,
  enqueue, try_next, mark_written, close, step, run,
}

module _ {P : Type 0} where
  abbrev pub total : List (OutboundMessage P) → ℕ
  total [] = 0
  total (m ∷ ms) = m.estimated_bytes + total ms

  pub total-append :
      (ms : List (OutboundMessage P)) (ns : List (OutboundMessage P))
      → total (ms ++ ns) ≡ total ms + total ns
  total-append [] ns = omega arith
  total-append (m ∷ ms) ns = omega (arith, total-append ms ns)

  pub record IsAccounted (c : OutboundChannel P) : Type 0 where
    pub counted : c.bytes ≡ total c.queue
    pub within : c.bytes ≤ c.limit
    pub word : c.limit < 2 ^ 64
    pub silent : c.is_closing ≡ true → c.queue ≡ []

  new_channel-IsAccounted : (limit : ℕ) → limit < 2 ^ 64 → IsAccounted (new_channel limit)
  unfolding new_channel
  new_channel-IsAccounted limit h = ground arith

  enqueue-IsAccounted :
      (c : OutboundChannel P) (m : OutboundMessage P) → IsAccounted c → IsAccounted (enqueue c m).0
  unfolding enqueue
  enqueue-IsAccounted c m v = ground (arith, total-append c.queue (m ∷ []))

  try_next-IsAccounted : (c : OutboundChannel P) → IsAccounted c → IsAccounted (try_next c).0
  unfolding try_next
  try_next-IsAccounted c v = ground arith

  pub step-IsAccounted :
      (c : OutboundChannel P) (k : ChannelCall P) → IsAccounted c → IsAccounted (step c k)
  unfolding step mark_written close
  step-IsAccounted c (enqueues m) v = enqueue-IsAccounted c m v
  step-IsAccounted c takes v = try_next-IsAccounted c v
  step-IsAccounted c (marks s) v = ground arith
  step-IsAccounted c closes v = ground arith

  run-IsAccounted :
      (c : OutboundChannel P) (ks : List (ChannelCall P)) → IsAccounted c → IsAccounted (run c ks)
  unfolding run
  run-IsAccounted c [] v = v
  run-IsAccounted c (k ∷ ks) v = run-IsAccounted (step c k) ks (step-IsAccounted c k v)

  -- After any calls on a fresh channel whose limit is a 64-bit number, `bytes` is the sum of the
  -- estimates of the queued messages, is at most the limit, and a closing channel queues nothing.
  pub run-new_channel-IsAccounted :
      (limit : ℕ) (ks : List (ChannelCall P))
      → limit < 2 ^ 64
      → IsAccounted (run (new_channel limit) ks)
  run-new_channel-IsAccounted limit ks h = run-IsAccounted _ ks (new_channel-IsAccounted limit h)
