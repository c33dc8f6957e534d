-- ===== src/Account/Processor/Answers.antt =====
-- How requests end: what the processor answers by itself, and what becomes of the answer.
use relayer2_public.Base.{
  ℕ, ◌+◌, ◌*◌, ◌<◌, ◌≡◌, true, false, none, arith, is_some, if◌then◌else◌, done, Keeps,
}
use relayer2_public.Account.Status.{
  Status, near_nonce_error, time_out_error3, same_status, status_actions,
}
use relayer2_public.Account.Request.{TxnReq, TxnResp, respond_with_status, second, timeout_seconds}
use relayer2_public.Account.Nonce.{Node}
use relayer2_public.Account.Processor.{
  TxnProcessor, Clock, Sorted, responded, Sent, answered, sort, requeue, send,
}
use relayer2_public.Account.Processor.Eval.{evaluate, submit_round}

-- An answer of the processor itself carries an error.
abbrev pub HasError : Sorted → Type 0
HasError (responded status) = is_some (status_actions status).error ≡ true
HasError _ = Unit

abbrev pub SentHasError : Sent → Type 0
SentHasError (answered status) = is_some (status_actions status).error ≡ true
SentHasError _ = Unit

-- `sort`, the function that it leaves to the timer and `send` answer with an error only.
pub answers-HasError :
    {Q : Type 0} (node : Node Q) (clock : Clock) (req : TxnReq) (tp : TxnProcessor)
    → Keeps (λ r. HasError r.1) (sort node clock req tp)
      × Keeps (λ r. HasError r.1) (requeue req tp)
      × Keeps (λ r. SentHasError r.1) (send node clock req tp)
unfolding sort requeue send
answers-HasError node clock req tp = (ground arith, ground arith, ground arith)

-- An answer that carries an error is evaluated without panic, and keeps its status; only for a Near
-- nonce error is the request marked as a retransmission.
pub evaluate-respond_with_status :
    (now : ℕ) (status : Status) (req : TxnReq)
    → is_some (status_actions status).error ≡ true
    → evaluate req (respond_with_status now status)
      ≡ done (record {
        req = record req {
          retransmit = if same_status status near_nonce_error then true else req.retransmit;
        };
        resp = respond_with_status now status;
        succeeded = false;
      })
unfolding evaluate respond_with_status
evaluate-respond_with_status now status req h = ground arith

-- An expired request ends: `sort` answers it at once and changes nothing, and the goroutine that
-- waits for it takes the answer as the final one.
pub expired_ends :
    {Q : Type 0} (node : Node Q) (clock clock' : Clock) (now : ℕ) (req : TxnReq) (r : TxnResp)
    (tp tp' : TxnProcessor)
    → (req.timestamp + timeout_seconds) * second < clock.first
    → (sort node clock req tp ≡ done (tp, responded time_out_error3))
      × (submit_round node clock' req (respond_with_status now time_out_error3) r tp'
          ≡ done (record {
            resp = record { txn_resp = respond_with_status now time_out_error3; received = true };
            processor = tp';
            waiting = none;
            echoed = false;
          }))
unfolding sort submit_round respond_with_status
expired_ends node clock clock' now req r tp tp' late = (ground arith, ground arith)
