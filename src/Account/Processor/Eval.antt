-- ===== src/Account/Processor/Eval.antt =====
-- `eval` and the waiting goroutine of `Submit` in account/txnProcessor.go. `eval` runs partly under
-- the mutex of the key: `evaluate` is what it does before, `settle` what it does then.
use relayer2_public.Base.{
  String, Bool, true, false, not, ◌&&◌, ◌||◌, Option, none, some, ltb, ◌==◌, contains, get_elem?,
  set, if◌then◌else◌, Run, done, ◌>>=◌, deref,
}
use relayer2_public.Account.Status.{
  Status, any, near_nonce_error, near_nonce_too_large, near_time_out_error, unhandled_error,
  eth_nonce_error, same_status, Action, status_actions, success_case_for_retransmit,
}
use relayer2_public.Account.Value.{text}
use relayer2_public.Account.Failure.{
  FailureCheck, failure, success, invalid, is_txn_response_failure, get_txn_status_for_failure_type,
}
use relayer2_public.Account.Request.{TxnReq, Response, TxnResp, set_resp, notify}
use relayer2_public.Account.Nonce.{lookup, Node, update_near_nonce_cache, update_eth_nonce_cache}
use relayer2_public.Account.Processor.{TxnProcessor, Clock, try_enqueue_unordered}

-- A request with its response, and whether the transaction has succeeded, in which case `eval` ends.
pub record Evaluated : Type 0 where
  pub req : TxnReq
  pub resp : Response
  pub succeeded : Bool

abbrev with_status : Status → Response → Response
with_status status resp = record resp { status = status }

evaluate_result : FailureCheck → TxnReq → Response → Run Evaluated
evaluate_result success req resp = done (record { req = req; resp = resp; succeeded = true })
evaluate_result invalid req resp =
    done (record { req = req; resp = with_status unhandled_error resp; succeeded = false })
evaluate_result (failure map_failure) req resp = do
  status ← get_txn_status_for_failure_type map_failure
  done (record { req = req; resp = with_status status resp; succeeded = false })

abbrev set_retransmit : TxnReq → TxnReq
set_retransmit req = record req { retransmit = true }

abbrev failed_with : TxnReq → Response → Evaluated
failed_with req resp = record { req = req; resp = resp; succeeded = false }

evaluate_error : String → TxnReq → Response → Evaluated
evaluate_error err req resp =
    if same_status resp.status near_nonce_error
    then failed_with (set_retransmit req) resp
    else if not (same_status resp.status any)
    then failed_with req resp
    else if contains err "InvalidNonce:map"
    then failed_with req (with_status near_nonce_error resp)
    else if contains err "NonceTooLarge"
    then failed_with req (with_status near_nonce_too_large resp)
    else if contains err "Server error: Timeout"
    then failed_with (set_retransmit req) (with_status near_time_out_error resp)
    else failed_with req (with_status unhandled_error resp)

evaluate_by : Option String → TxnReq → Response → Run Evaluated
unfolding evaluate_result evaluate_error
evaluate_by none req resp = do
  check ← is_txn_response_failure resp.resp
  evaluate_result check req resp
evaluate_by (some err) req resp = done (evaluate_error err req resp)

unfoldable pub evaluate : TxnReq → Response → Run Evaluated
unfolding evaluate_by
evaluate req resp = evaluate_by resp.err req resp

-- `echoed` says that a response with `txnStatus_Any` was put into the channel of the request, which
-- nobody reads any more.
pub record Settled : Type 0 where
  pub req : TxnReq
  pub resp : Response
  pub processor : TxnProcessor
  pub retry : Bool
  pub echoed : Bool

abbrev pub needs_lock : Action → Bool
needs_lock act = act.update_near_cache || act.update_eth_cache || not (act.backoff_ms == 0)

-- The circuit breaker of the key, on before the updates and off after them.
abbrev pub set_breaker : Bool → TxnReq → TxnProcessor → TxnProcessor
set_breaker b req tp = record tp { circuit_breaker = set tp.circuit_breaker req.processor_index b }

abbrev settled : Bool → TxnReq → Response → TxnProcessor → Settled
settled retry req resp tp = record {
  req = req;
  resp = resp;
  processor = tp;
  retry = retry;
  echoed = false;
}

-- After an update: has the nonce of the request been used?
compare_nonce : Action → TxnReq → Response → TxnProcessor → Run Settled
unfolding lookup
compare_nonce act req resp tp = do
  nc ← deref (lookup req.sender.hex tp.eth_nonce_cache)
  done (
      if ltb req.nonce nc.nonce
      then (if req.retransmit && same_status resp.status eth_nonce_error
          then record {
            req = req;
            resp = record resp { resp = text success_case_for_retransmit };
            processor = tp;
            retry = false;
            echoed = true;
          }
          else settled false req resp tp)
      else settled act.retry req resp tp)

update_near : {Q : Type 0} → Node Q → Clock → Action → TxnReq → TxnProcessor → Run TxnProcessor
update_near node clock act req tp =
    if act.update_near_cache
    then (deref (get_elem? tp.keys req.processor_index) >>= λ key. done (record tp {
      near_nonce_cache =
          update_near_nonce_cache node clock.first clock.second_ key tp.near_nonce_cache;
    }))
    else done tp

update_eth : {Q : Type 0} → Node Q → Clock → Action → TxnReq → Response → TxnProcessor → Run Settled
unfolding compare_nonce
update_eth node clock act req resp tp =
    if act.update_eth_cache
    then (let (cache, updated) =
          update_eth_nonce_cache node clock.second_ clock.third req.sender tp.eth_nonce_cache in
        let tp' = record tp { eth_nonce_cache = cache } in
        if not updated then done (settled true req resp tp') else compare_nonce act req resp tp')
    else done (settled act.retry req resp tp)

abbrev close_breaker : Action → Settled → Settled
close_breaker act s =
    if needs_lock act then record s { processor = set_breaker false s.req s.processor } else s

unfoldable pub settle :
    {Q : Type 0} → Node Q → Clock → TxnReq → Response → TxnProcessor → Run Settled
unfolding update_near update_eth
settle node clock req resp tp =
    let act = status_actions resp.status in
    (update_near node clock act req tp >>= λ tp'.
    (update_eth node clock act req resp tp' >>= λ s. done (close_breaker act s)))

abbrev pub open_breaker : TxnReq → Response → TxnProcessor → TxnProcessor
open_breaker req resp tp =
    if needs_lock (status_actions resp.status) then set_breaker true req tp else tp

unfoldable pub eval : {Q : Type 0} → Node Q → Clock → TxnReq → Response → TxnProcessor → Run Settled
unfolding evaluate settle
eval node clock req resp tp = do
  e ← evaluate req resp
  if e.succeeded
      then done (settled false e.req e.resp tp)
      else settle node clock e.req e.resp (open_breaker e.req e.resp tp)

-- A round of the goroutine in `Submit`, for a response `r` out of the channel: whether it goes on
-- waiting, for a request that it has put into the unordered queue again, and whether `eval` has left a
-- response in the channel.
pub record Submitted : Type 0 where
  pub resp : TxnResp
  pub processor : TxnProcessor
  pub waiting : Option TxnReq
  pub echoed : Bool

unfoldable pub submit_round :
    {Q : Type 0} → Node Q → Clock → TxnReq → Response → TxnResp → TxnProcessor → Run Submitted
unfolding eval set_resp notify
submit_round node clock req r resp tp = do
  s ← eval node clock req r tp
  let after = set_resp s.resp resp
  if not s.retry
      then done (record {
        resp = notify after;
        processor = s.processor;
        waiting = none;
        echoed = s.echoed;
      })
      else do
        q ← try_enqueue_unordered s.req s.processor
        done (
            if q.1
            then record { resp = after; processor = q.0; waiting = some s.req; echoed = s.echoed }
            else record { resp = notify after; processor = q.0; waiting = none; echoed = s.echoed })
