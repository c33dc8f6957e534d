-- ===== src/Account/Processor/Settling.antt =====
-- What becomes of a response leaves the processor live.
use relayer2_public.Base.{
  ap, ◌∙◌, Returns-mono, ◌<◌, ◌≡◌, true, false, arith, length, length-set, get_elem?-lt, Returns,
  Bool-cases, inl, inr,
}
use relayer2_public.Account.Status.{status_actions}
use relayer2_public.Account.Request.{TxnReq, Response}
use relayer2_public.Account.Nonce.{Node}
use relayer2_public.Account.Nonce.Entries.{update_eth_nonce_cache_updated}
use relayer2_public.Account.Processor.{TxnProcessor, Clock}
use relayer2_public.Account.Processor.Eval.{settle, open_breaker, needs_lock}
use relayer2_public.Account.Processor.Liveness.{IsLive}

-- The queues and the keys are those from before, and so is the number of circuit breakers.
abbrev IsSettled : TxnProcessor → TxnProcessor → Type 0
IsSettled tp tp' =
    (tp'.keys ≡ tp.keys)
    × (tp'.ordered ≡ tp.ordered)
    × (tp'.unordered ≡ tp.unordered)
    × (length tp'.circuit_breaker ≡ length tp.circuit_breaker)

module _ {Q : Type 0} (node : Node Q) (clock : Clock) (req : TxnReq) (resp : Response)
    (tp : TxnProcessor) where
  settle-IsSettled :
      req.processor_index < length tp.keys
      → Returns (λ s. IsSettled tp s.processor) (settle node clock req resp tp)
  unfolding settle
  settle-IsSettled inside =
      let (key, known) = get_elem?-lt tp.keys req.processor_index inside in
      ground (
        arith,
        known,
        length-set tp.circuit_breaker req.processor_index false,
        update_eth_nonce_cache_updated node clock.second_ clock.third req.sender tp.eth_nonce_cache,
      )

IsLive-IsSettled : (tp tp' : TxnProcessor) → IsLive tp → IsSettled tp tp' → IsLive tp'
IsLive-IsSettled tp tp' (lu, lo, lb, us, os) (k, o, u, b) = (
  omega (arith, ap length u, ap length k, lu),
  omega (arith, ap length o, ap length k, lo),
  omega (arith, b, ap length k, lb),
  rw (k, u) us,
  rw (k, o) os,
)

opened-IsLive :
    (req : TxnReq) (resp : Response) (tp : TxnProcessor)
    → IsLive tp
    → IsLive (open_breaker req resp tp)
opened-IsLive req resp tp (lu, lo, lb, us, os) =
    elim (Bool-cases (needs_lock (status_actions resp.status))) [
      | inl locks ↦
          rw locks
            (lu, lo, omega (arith, length-set tp.circuit_breaker req.processor_index true), us, os)
      | inr free ↦ rw free (lu, lo, lb, us, os)
    ]

opened-keys :
    (req : TxnReq) (resp : Response) (tp : TxnProcessor) → (open_breaker req resp tp).keys ≡ tp.keys
opened-keys req resp tp = ground arith

-- The last part of `eval` returns, with the processor live and its keys the same.
pub settle-IsLive :
    {Q : Type 0} (node : Node Q) (clock : Clock) (req : TxnReq) (resp : Response)
    (tp : TxnProcessor)
    → IsLive tp
    → req.processor_index < length tp.keys
    → Returns
        (λ s. IsLive s.processor × (length s.processor.keys ≡ length tp.keys))
        (settle node clock req resp (open_breaker req resp tp))
settle-IsLive node clock req resp tp live inside =
    let same = opened-keys req resp tp in
    Returns-mono _ _ (settle node clock req resp (open_breaker req resp tp))
      (settle-IsSettled node clock req resp (open_breaker req resp tp)
        (omega (arith, ap length same)))
      (λ s h. (
        IsLive-IsSettled (open_breaker req resp tp) s.processor (opened-IsLive req resp tp live) h,
        ap length (h.0 ∙ same),
      ))
