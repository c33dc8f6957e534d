-- ===== src/Account/Reads/Submission.antt =====
-- What account/account.go answers to a submitted transaction.
use relayer2_public.Base.{
  ℕ, String, ◌<◌, ◌≡◌, true, Option, none, some, bind-same, List, refl, arith, ok, Outcome, err,
  Returns, Returns-mono, get_elem?,
}
use relayer2_public.Account.Status.{eth_nonce_error}
use relayer2_public.Account.Value.{Value}
use relayer2_public.Account.Request.{TxnReq, Response}
use relayer2_public.Account.Nonce.{Node, lookup, get_nonce}
use relayer2_public.Account.Nonce.Entries.{IsDue}
use relayer2_public.Account.Processor.{TxnProcessor, Clock, Decoder, new_txn_req}
use relayer2_public.Account.Processor.Eval.{settle}
use relayer2_public.Account.Processor.Retry.{settle_used}
use relayer2_public.Account.Reads.{reply, Decoders, answer_sync, submit_req, send_raw_transaction}

-- A response of the engine without an error, that was evaluated to a nonce error, for a retransmitted
-- request of a key that the processor has: where the nonce of the sender is due for an update, and the
-- node tells one above that of the request, what `eval` leaves is answered to the client, who waits for
-- it, as a success, with the hash of the transaction.
pub retransmit_answer :
    {Q T S R : Type 0} (d : Decoders Q T S) (node : Node R) (clock : Clock) (req : TxnReq)
    (resp : Response) (tp : TxnProcessor) (n : ℕ) (key : String)
    → req.retransmit ≡ true
    → resp.status ≡ eth_nonce_error
    → resp.err ≡ none
    → get_elem? tp.keys req.processor_index ≡ some key
    → IsDue clock.second_ (lookup req.sender.hex tp.eth_nonce_cache)
    → get_nonce node req.sender ≡ ok n
    → req.nonce < n
    → Returns
        (λ s. answer_sync d req.hash (s.resp.resp, s.resp.err) ≡ reply req.hash)
        (settle node clock req resp tp)
unfolding answer_sync
retransmit_answer d node clock req resp tp n key again nonce clean inside due told used =
    Returns-mono _ _ (settle node clock req resp tp)
      (settle_used node clock req resp tp n key (rw nonce refl) inside due told used)
      (λ s h. ground (arith, h, again, nonce, clean))

submit_req_async :
    {Q T S : Type 0} (d : Decoders Q T S) (get get' : TxnReq → Value × Option String)
    (tp : TxnProcessor) (req : Outcome TxnReq)
    → submit_req d true get req tp ≡ submit_req d true get' req tp
unfolding submit_req
submit_req_async d get get' tp (ok req) = refl
submit_req_async d get get' tp (err e) = refl

-- With asyncSendRawTxs set the answer and the queues do not depend on what becomes of the request.
send_raw_transaction_async :
    {Q T S : Type 0} (d : Decoders Q T S) (decoder : Decoder) (now : ℕ)
    (get get' : TxnReq → Value × Option String) (txn : List ℕ) (tp : TxnProcessor)
    → send_raw_transaction d decoder now true get txn tp
      ≡ send_raw_transaction d decoder now true get' txn tp
unfolding send_raw_transaction submit_req
send_raw_transaction_async d decoder now get get' txn tp =
    bind-same (new_txn_req decoder now txn tp) (λ req. submit_req d true get req tp)
      (λ req. submit_req d true get' req tp) (submit_req_async d get get' tp)
