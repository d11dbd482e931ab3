-- ===== src/Communication/Connection/Requests.antt =====
-- The outstanding request ids of a connection as a set: what each call does to membership.
use server_engine_v.Common.{ℕ, ◌≡◌, false, not, ◌&&◌, ◌||◌, List, [], ◌∷◌, arith, ◌==◌}
use server_engine_v.Communication.Outbound.{OutboundMessage, OutboundWrite}
use server_engine_v.Communication.Outbound
use server_engine_v.Communication.Protocol.{ProtocolResponse, OutboundPayload, response}
use server_engine_v.Communication.Connection.{
  Connection, contains_request, erase_request, reserve_request, release_request,
  request_outstanding, try_next,
}

contains_request-erase_request :
    (r q : ℕ) (xs : List ℕ)
    → contains_request q (erase_request r xs) ≡ (not (r == q) && contains_request q xs)
unfolding contains_request erase_request
contains_request-erase_request r q [] = ground arith
contains_request-erase_request r q (x ∷ xs) = ground (arith, contains_request-erase_request r q xs)

-- `reserve_request` succeeds exactly for a nonzero id that is not outstanding on an open
-- connection; after that the id is outstanding, and no other id changes.
pub reserve_request_lem :
    (c : Connection) (r q : ℕ)
    → ((reserve_request c r).1
        ≡ (not (r == 0) && not c.close_started && not (request_outstanding c r)))
      × (request_outstanding (reserve_request c r).0 q
          ≡ (request_outstanding c q || ((reserve_request c r).1 && r == q)))
unfolding reserve_request request_outstanding contains_request
reserve_request_lem c r q = (ground arith, ground arith)

-- A response that the writer takes out frees its own request id if it says so, and no other id; it
-- is the head of the queue of an open channel.
pub request_outstanding-try_next :
    (c : Connection) (m : OutboundMessage OutboundPayload)
    (rest : List (OutboundMessage OutboundPayload)) (p : ProtocolResponse) (q : ℕ)
    → c.outbound.is_closing ≡ false
    → c.outbound.queue ≡ m ∷ rest
    → m.payload ≡ response p
    → request_outstanding (try_next c).0 q
      ≡ (request_outstanding c q && not (p.release_request_id && p.request == q))
unfolding request_outstanding try_next Outbound.try_next release_request
request_outstanding-try_next c m rest p q o e f =
    ground (arith, contains_request-erase_request p.request q c.outstanding_requests)
