-- ===== src/Communication/Outbound/Order.antt =====
-- The order of messages through the outbound channel (communication/connection/outbound_channel.cpp),
-- and the sequence numbers of its writes.
use mathlib.Core.List.{append-nil, append_assoc}
use server_engine_v.Common.{
  ℕ, ◌+◌, ◌%◌, ◌^◌, ◌≡◌, refl, ap, ◌∙◌, Bool-cases, inl, inr, Bool, false, Option, none, some, List,
  [], ◌∷◌, ◌++◌, arith, map, length, length-append, if◌then◌else◌,
}
use server_engine_v.Communication.Outbound.{
  OutboundMessage, OutboundWrite, OutboundChannel, ChannelCall, enqueues, takes, marks, closes,
  new_channel, enqueue, try_next, mark_written, close, step,
}

-- A channel with the messages that `enqueue` took and the writes that `try_next` handed out.
pub record History (P : Type 0) : Type 0 where
  pub channel : OutboundChannel P
  pub accepted : List (OutboundMessage P)
  pub writes : List (OutboundWrite P)

module _ {P : Type 0} where
  abbrev accepted_by : Bool → OutboundMessage P → List (OutboundMessage P)
  accepted_by b m = if b then m ∷ [] else []

  abbrev taken_by : Option (OutboundWrite P) → List (OutboundWrite P)
  taken_by none = []
  taken_by (some w) = w ∷ []

  unfoldable pub observe : History P → ChannelCall P → History P
  unfolding step
  observe h (enqueues m) = record {
    channel = step h.channel (enqueues m);
    accepted = h.accepted ++ accepted_by (enqueue h.channel m).1 m;
    writes = h.writes;
  }
  observe h takes = record {
    channel = step h.channel takes;
    accepted = h.accepted;
    writes = h.writes ++ taken_by (try_next h.channel).1;
  }
  observe h (marks s) = record h { channel = step h.channel (marks s) }
  observe h closes = record h { channel = step h.channel closes }

  unfoldable pub observe_all : History P → List (ChannelCall P) → History P
  observe_all h [] = h
  observe_all h (k ∷ ks) = observe_all (observe h k) ks

  unfoldable pub start : ℕ → History P
  start limit = record { channel = new_channel limit; accepted = []; writes = [] }

  -- The sequence numbers of the writes count up from `n`, as 64-bit numbers.
  abbrev pub Numbered : ℕ → List (OutboundWrite P) → Type 0
  Numbered n [] = Unit {0}
  Numbered n (w ∷ ws) = (w.connection_sequence ≡ n % 2 ^ 64) × Numbered (n + 1) ws

  Numbered-snoc :
      (n k : ℕ) (ws : List (OutboundWrite P)) (w : OutboundWrite P)
      → n + length ws ≡ k
      → Numbered n ws
      → w.connection_sequence ≡ k % 2 ^ 64
      → Numbered n (ws ++ w ∷ [])
  Numbered-snoc n k [] w e h p = ground arith
  Numbered-snoc n k (v ∷ ws) w e h p = (h.0, Numbered-snoc (n + 1) k ws w (omega arith) h.1 p)

  abbrev pub messages : List (OutboundWrite P) → List (OutboundMessage P)
  messages = map λ w. w.message

  messages-snoc :
      (ws : List (OutboundWrite P)) (w : OutboundWrite P)
      → messages (ws ++ w ∷ []) ≡ messages ws ++ w.message ∷ []
  messages-snoc [] w = refl
  messages-snoc (v ∷ ws) w = ground (arith, messages-snoc ws w)

  pub record IsOrdered (h : History P) : Type 0 where
    pub unwritten : List (OutboundMessage P)
    pub split : h.accepted ≡ messages h.writes ++ unwritten
    pub open_queue : h.channel.is_closing ≡ false → unwritten ≡ h.channel.queue
    pub numbered : Numbered 1 h.writes
    pub next : h.channel.next_sequence ≡ (1 + length h.writes) % 2 ^ 64

  enqueue-IsOrdered :
      (h : History P) (m : OutboundMessage P) → IsOrdered h → IsOrdered (observe h (enqueues m))
  unfolding observe enqueue
  enqueue-IsOrdered h m v = record {
    unwritten = v.unwritten ++ accepted_by (enqueue h.channel m).1 m;
    split =
        ap (λ l. l ++ accepted_by (enqueue h.channel m).1 m) v.split
        ∙ append_assoc (messages h.writes) v.unwritten (accepted_by (enqueue h.channel m).1 m);
    open_queue = ground arith;
    numbered = v.numbered;
    next = ground arith;
  }

  take_open :
      (h : History P) (q : List (OutboundMessage P))
      → IsOrdered h
      → h.channel.is_closing ≡ false
      → h.channel.queue ≡ q
      → IsOrdered (observe h takes)
  unfolding observe try_next
  take_open h [] v o e = record {
    unwritten = v.unwritten;
    split = ground (arith, append-nil h.writes);
    open_queue = ground arith;
    numbered = rw (o, e, append-nil) v.numbered;
    next = ground (arith, append-nil h.writes);
  }
  take_open h (m ∷ rest) v o e = record {
    unwritten = rest;
    split = ground (
      arith,
      messages-snoc h.writes
          (record { connection_sequence = h.channel.next_sequence; message = m }),
      append_assoc (messages h.writes) (m ∷ []) rest,
    );
    open_queue = ground arith;
    numbered = rw (o, e) (Numbered-snoc 1 _ h.writes _ refl v.numbered v.next);
    next = ground (
      arith,
      length-append h.writes
          (record { connection_sequence = h.channel.next_sequence; message = m } ∷ []),
    );
  }

  take-IsOrdered : (h : History P) → IsOrdered h → IsOrdered (observe h takes)
  unfolding observe try_next
  take-IsOrdered h v = elim (Bool-cases h.channel.is_closing) [
    | inl e ↦ record {
      unwritten = v.unwritten;
      split = ground (arith, append-nil h.writes);
      open_queue = ground arith;
      numbered = rw (e, append-nil) v.numbered;
      next = ground (arith, append-nil h.writes);
    }
    | inr e ↦ take_open h h.channel.queue v e refl
  ]

  observe-IsOrdered : (h : History P) (k : ChannelCall P) → IsOrdered h → IsOrdered (observe h k)
  unfolding observe mark_written close
  observe-IsOrdered h (enqueues m) v = enqueue-IsOrdered h m v
  observe-IsOrdered h takes v = take-IsOrdered h v
  observe-IsOrdered h (marks s) v = record {
    unwritten = v.unwritten;
    split = v.split;
    open_queue = ground arith;
    numbered = v.numbered;
    next = ground arith;
  }
  observe-IsOrdered h closes v = record {
    unwritten = v.unwritten;
    split = v.split;
    open_queue = ground arith;
    numbered = v.numbered;
    next = ground arith;
  }

  observe_all-IsOrdered :
      (h : History P) (ks : List (ChannelCall P)) → IsOrdered h → IsOrdered (observe_all h ks)
  unfolding observe_all
  observe_all-IsOrdered h [] v = v
  observe_all-IsOrdered h (k ∷ ks) v =
      observe_all-IsOrdered (observe h k) ks (observe-IsOrdered h k v)

  start-IsOrdered : (limit : ℕ) → IsOrdered (start limit)
  unfolding start new_channel
  start-IsOrdered limit = record {
    unwritten = [];
    split = refl;
    open_queue = λ _. refl;
    numbered = tt;
    next = refl;
  }

  -- Over any calls on a fresh channel, the messages that were written are the first of those that
  -- were accepted, in the order of acceptance; what is left is the queue as long as the channel is
  -- not closing; and the writes carry the sequence numbers 1, 2, 3 and so on (as 64-bit numbers).
  pub observe_all-start-IsOrdered :
      (limit : ℕ) (ks : List (ChannelCall P)) → IsOrdered (observe_all (start limit) ks)
  observe_all-start-IsOrdered limit ks =
      observe_all-IsOrdered (start limit) ks (start-IsOrdered limit)
