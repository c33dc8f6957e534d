-- ===== src/Account/Processor/Retry.antt =====
-- What `eval` decides once it has evaluated a response.
use relayer2_public.Base.{
  ℕ, String, ◌<◌, ◌≡◌, Bool, ◌&&◌, true, false, some, arith, if◌then◌else◌, ok, Keeps, Returns,
  get_elem?, set,
}
use relayer2_public.Account.Status.{
  eth_nonce_error, same_status, status_actions, success_case_for_retransmit,
}
use relayer2_public.Account.Value.{text}
use relayer2_public.Account.Request.{TxnReq, Response}
use relayer2_public.Account.Nonce.{Node, lookup, get_nonce, update_eth_nonce_cache}
use relayer2_public.Account.Nonce.Entries.{IsDue, update_eth_nonce_cache_stores}
use relayer2_public.Account.Processor.{TxnProcessor, Clock}
use relayer2_public.Account.Processor.Eval.{settle, needs_lock}

module _ {Q : Type 0} (node : Node Q) (clock : Clock) (req : TxnReq) (resp : Response)
    (tp : TxnProcessor) where
  abbrev updates : Bool
  updates = (update_eth_nonce_cache node clock.second_ clock.third req.sender tp.eth_nonce_cache).1

  -- Where the status asks for the nonce of the sender and it cannot be had, because the last update is
  -- too recent or the node does not answer, the request is tried again, also for a status that is
  -- otherwise final.
  settle_unreached :
      (key : String)
      → (status_actions resp.status).update_eth_cache ≡ true
      → get_elem? tp.keys req.processor_index ≡ some key
      → updates ≡ false
      → Returns (λ s. (s.retry ≡ true) × (s.resp ≡ resp)) (settle node clock req resp tp)
  unfolding settle
  settle_unreached key asks inside silent = ground arith

  -- The updates leave the queues alone and the circuit breaker of the key off, and change no other.
  settle-circuit_breaker :
      needs_lock (status_actions resp.status) ≡ true
      → Keeps
          (λ s.
            (s.processor.circuit_breaker ≡ set tp.circuit_breaker req.processor_index false)
            × (s.processor.ordered ≡ tp.ordered)
            × (s.processor.unordered ≡ tp.unordered))
          (settle node clock req resp tp)
  unfolding settle
  settle-circuit_breaker locks = ground arith

  -- Where the status asks for the nonce of the sender, and the node tells one above that of the
  -- request, the request is not tried again. The response stays as it is; but a nonce error after a
  -- retransmission, which shows that the first transmission has succeeded, becomes a success.
  pub settle_used :
      (n : ℕ) (key : String)
      → (status_actions resp.status).update_eth_cache ≡ true
      → get_elem? tp.keys req.processor_index ≡ some key
      → IsDue clock.second_ (lookup req.sender.hex tp.eth_nonce_cache)
      → get_nonce node req.sender ≡ ok n
      → req.nonce < n
      → Returns
          (λ s.
            (s.retry ≡ false)
            × (s.resp ≡ (
                if req.retransmit && same_status resp.status eth_nonce_error
                then record resp { resp = text success_case_for_retransmit }
                else resp)))
          (settle node clock req resp tp)
  unfolding settle
  settle_used n key asks inside due told used = ground (
    arith,
    update_eth_nonce_cache_stores node clock.second_ clock.third n req.sender tp.eth_nonce_cache due
        told,
  )
