-- ===== src/Communication/Outbound.antt =====
-- communication/connection/outbound_channel.{hpp,cpp}: the bounded queue of messages that one
-- connection has yet to write. Each operation runs under the channel's mutex, so that it is one
-- step on the state; a wait is modelled by its result at the moment it returns.
pub mod Accounting
pub mod Order
use server_engine_v.Common.{
  ℕ, ◌-◌, add64, sub64, Bool, true, false, ◌||◌, Option, none, some, List, [], ◌∷◌, ◌++◌, ltb, leb,
  if◌then◌else◌,
}

pub record OutboundMessage (P : Type 0) : Type 0 where
  pub estimated_bytes : ℕ
  pub payload : P

pub record OutboundWrite (P : Type 0) : Type 0 where
  pub connection_sequence : ℕ
  pub message : OutboundMessage P

pub record OutboundChannel (P : Type 0) : Type 0 where
  pub limit : ℕ
  pub queue : List (OutboundMessage P)
  pub bytes : ℕ
  pub is_closing : Bool
  pub next_sequence : ℕ
  pub last_written : ℕ

pub data ChannelCall (P : Type 0) : Type 0 where
  enqueues : OutboundMessage P → ChannelCall P
  takes : ChannelCall P
  marks : ℕ → ChannelCall P
  closes : ChannelCall P

module _ {P : Type 0} where
  unfoldable pub new_channel : ℕ → OutboundChannel P
  new_channel byte_limit = record {
    limit = byte_limit;
    queue = [];
    bytes = 0;
    is_closing = false;
    next_sequence = 1;
    last_written = 0;
  }

  -- is_closing = true; queue.clear(); bytes = 0;
  abbrev pub closed : OutboundChannel P → OutboundChannel P
  closed c = record c { is_closing = true; queue = []; bytes = 0 }

  unfoldable pub enqueue : OutboundChannel P → OutboundMessage P → OutboundChannel P × Bool
  enqueue c m =
      if c.is_closing
      then (c, false)
      else if ltb c.limit m.estimated_bytes || ltb (c.limit - m.estimated_bytes) c.bytes
      then (closed c, false)
      else (record c { bytes = add64 c.bytes m.estimated_bytes; queue = c.queue ++ m ∷ [] }, true)

  -- The part that wait_next and try_next share, once the queue is known not to be empty.
  abbrev pub dequeue :
      OutboundChannel P → List (OutboundMessage P) → OutboundChannel P × Option (OutboundWrite P)
  dequeue c [] = (c, none)
  dequeue c (m ∷ rest) = (
    record c {
      next_sequence = add64 c.next_sequence 1;
      bytes = sub64 c.bytes m.estimated_bytes;
      queue = rest;
    },
    some (record { connection_sequence = c.next_sequence; message = m }),
  )

  unfoldable pub try_next : OutboundChannel P → OutboundChannel P × Option (OutboundWrite P)
  try_next c = if c.is_closing then (c, none) else dequeue c c.queue

  -- The condition that wait_next waits for.
  unfoldable pub ready_to_write : OutboundChannel P → Bool
  ready_to_write c = c.is_closing || elim c.queue [ [] ↦ false | _ ∷ _ ↦ true ]

  unfoldable pub mark_written : OutboundChannel P → ℕ → OutboundChannel P
  mark_written c s = if ltb c.last_written s then record c { last_written = s } else c

  -- What wait_until_written returns when its wait ends in the state `c`.
  unfoldable pub is_written : OutboundChannel P → ℕ → Bool
  is_written c s = leb s c.last_written

  unfoldable pub close : OutboundChannel P → OutboundChannel P × Bool
  close c = if c.is_closing then (c, false) else (closed c, true)

  -- One critical section of the channel.
  unfoldable pub step : OutboundChannel P → ChannelCall P → OutboundChannel P
  step c (enqueues m) = (enqueue c m).0
  step c takes = (try_next c).0
  step c (marks s) = mark_written c s
  step c closes = (close c).0

  -- The calls of all threads, in the order in which they took the mutex.
  unfoldable pub run : OutboundChannel P → List (ChannelCall P) → OutboundChannel P
  run c [] = c
  run c (k ∷ ks) = run (step c k) ks
