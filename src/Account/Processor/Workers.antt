-- ===== src/Account/Processor/Workers.antt =====
-- The processor at work: what `StartWorker` runs on each queue of `NewTxnProcessor`, what `Submit` sends to
-- it, the timers that put a request back, and what becomes of the responses, as events in any order.
pub mod Steps
pub mod Safety
use relayer2_public.Base.{ℕ, Bool, List, [], ◌∷◌, get_elem?, set, Run, done, ◌>>=◌, deref}
use relayer2_public.Account.Queue.{TxnQ, Round, waits, ends, works, worker_round}
use relayer2_public.Account.Request.{TxnReq, Response}
use relayer2_public.Account.Processor.Eval.{settle, open_breaker}
use relayer2_public.Account.Nonce.{Node}
use relayer2_public.Account.Processor.{TxnProcessor, Clock, sort, requeue, send, enqueue_unordered}

-- `settles` is the last part of `eval`, for a request and a response that have been evaluated.
-- The number is that of the key whose worker makes a round; `prefer_cancel` is the choice of its `select`.
pub data Event : Type 0 where
  submits : TxnReq → Event
  sorts : Bool → Clock → ℕ → Event
  requeues : TxnReq → Event
  sends : Bool → Clock → ℕ → Event
  settles : Clock → TxnReq → Response → Event

module _ {Q : Type 0} (node : Node Q) where
  unfoldable pub sort_received : Clock → ℕ → TxnProcessor → Round TxnReq → Run TxnProcessor
  sort_received clock i tp waits = done tp
  sort_received clock i tp ends = done tp
  sort_received clock i tp (works req q stop) = do
    r ← sort node clock req (record tp { unordered = set tp.unordered i q })
    done r.0

  unfoldable pub send_received : Clock → ℕ → TxnProcessor → Round TxnReq → Run TxnProcessor
  send_received clock i tp waits = done tp
  send_received clock i tp ends = done tp
  send_received clock i tp (works req q stop) = do
    r ← send node clock req (record tp { ordered = set tp.ordered i q })
    done r.0

  unfoldable pub perform : Event → TxnProcessor → Run TxnProcessor
  unfolding sort_received send_received
  perform (submits req) tp = enqueue_unordered req tp
  perform (sorts prefer_cancel clock i) tp = do
    q ← deref (get_elem? tp.unordered i)
    sort_received clock i tp (worker_round prefer_cancel q)
  perform (requeues req) tp = do r ← requeue req tp; done r.0
  perform (sends prefer_cancel clock i) tp = do
    q ← deref (get_elem? tp.ordered i)
    send_received clock i tp (worker_round prefer_cancel q)
  perform (settles clock req resp) tp = do
    s ← settle node clock req resp (open_breaker req resp tp)
    done s.processor

  unfoldable pub work : List Event → TxnProcessor → Run TxnProcessor
  unfolding perform
  work [] tp = done tp
  work (a ∷ events) tp = do tp' ← perform a tp; work events tp'
