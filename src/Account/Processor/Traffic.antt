-- ===== src/Account/Processor/Traffic.antt =====
-- A processor with all that is under way for it: the timers of `sort`, the goroutines of `send` that call
-- the engine, the answers in the channels of the requests, and the goroutines of `Submit`, which take them.
-- They take their steps in any order.
pub mod Tally
pub mod Moves
pub mod Conserved
pub mod Rounds
pub mod Safety
pub mod Lifecycle
pub mod Late
pub mod Progress
pub mod Flows
pub mod Waits
pub mod Drain
pub mod Bound
pub mod Ends
pub mod Channel
mod Tests
use relayer2_public.Base.{
  ℕ, String, zero, suc, Bool, false, Option, none, some, List, [], ◌∷◌, get_elem?, set,
  if◌then◌else◌, Run, done, ◌>>=◌, deref,
}
use relayer2_public.Account.Status.{Status, any}
use relayer2_public.Account.Value.{Value, null}
use relayer2_public.Account.Queue.{TxnQ, Round, waits, ends, works, worker_round}
use relayer2_public.Account.Request.{TxnReq, Response, TxnResp, respond_with_status, respond}
use relayer2_public.Account.Nonce.{Node}
use relayer2_public.Account.Processor.{
  TxnProcessor, Clock, Sorted, queued, delayed, responded, Sent, answered, called, sort, requeue,
  send, enqueue_unordered,
}
use relayer2_public.Account.Processor.Eval.{Submitted, submit_round}

-- The response that `Submit` begins with. The zero time is not read.
abbrev pub new_txn_resp : TxnResp
new_txn_resp = record {
  txn_resp = record { status = any; resp = null; err = none; ts = 0 };
  received = false;
}

-- `finished` are the requests whose goroutine has notified, with the response that it has left; `echoes`
-- those in whose channel a response stays that `eval` itself has put there, which nobody takes.
pub record Traffic : Type 0 where
  pub processor : TxnProcessor
  pub timers : List TxnReq
  pub calls : List TxnReq
  pub answers : List (TxnReq × Response)
  pub finished : List (TxnReq × TxnResp)
  pub echoes : List TxnReq

-- The numbers choose a worker by its key, or a timer, a call or an answer by its place.
pub data Event : Type 0 where
  submits : TxnReq → Event
  sorts : Bool → Clock → ℕ → ℕ → Event
  elapses : ℕ → ℕ → Event
  sends : Bool → Clock → ℕ → ℕ → Event
  replies : ℕ → ℕ → Value → Option String → Event
  evaluates : ℕ → Clock → Event

-- The element at a place, and the others.
abbrev pub take_out {ℓ} : {A : Type ℓ} → ℕ → List A → Option (A × List A)
take_out i [] = none
take_out zero (x ∷ xs) = some (x, xs)
take_out (suc i) (x ∷ xs) = elim (take_out i xs) [ none ↦ none | some p ↦ some (p.0, x ∷ p.1) ]

-- Where a request goes that `sort` or its timer has dealt with, at the time `now`.
unfoldable pub after_sort : ℕ → TxnReq → Sorted → Traffic → Traffic
after_sort now req queued t = t
after_sort now req delayed t = record t { timers = req ∷ t.timers }
after_sort now req (responded status) t = record t {
  answers = (req, respond_with_status now status) ∷ t.answers;
}

unfoldable pub after_send : ℕ → TxnReq → Sent → Traffic → Traffic
after_send now req (answered status) t = record t {
  answers = (req, respond_with_status now status) ∷ t.answers;
}
after_send now req (called key nonce) t = record t { calls = req ∷ t.calls }

-- A goroutine of `Submit` after a round: it waits on, or it has ended.
unfoldable pub after_round : TxnReq → Option TxnReq → TxnResp → Traffic → Traffic
after_round req (some again) resp t = t
after_round req none resp t = record t { finished = (req, resp) ∷ t.finished }

module _ {Q : Type 0} (node : Node Q) where
  unfoldable pub sort_received : Clock → ℕ → ℕ → Round TxnReq → Traffic → Run Traffic
  unfolding after_sort
  sort_received clock now i waits t = done t
  sort_received clock now i ends t = done t
  sort_received clock now i (works req q stop) t = do
    r ← sort node clock req (record (t.processor) { unordered = set (t.processor).unordered i q })
    done (after_sort now req r.1 (record t { processor = r.0 }))

  unfoldable pub send_received : Clock → ℕ → ℕ → Round TxnReq → Traffic → Run Traffic
  unfolding after_send
  send_received clock now i waits t = done t
  send_received clock now i ends t = done t
  send_received clock now i (works req q stop) t = do
    r ← send node clock req (record (t.processor) { ordered = set (t.processor).ordered i q })
    done (after_send now req r.1 (record t { processor = r.0 }))

  unfoldable pub timer_elapsed : ℕ → Option (TxnReq × List TxnReq) → Traffic → Run Traffic
  unfolding after_sort
  timer_elapsed now none t = done t
  timer_elapsed now (some (req, rest)) t = do
    r ← requeue req t.processor
    done (after_sort now req r.1 (record t { processor = r.0; timers = rest }))

  unfoldable pub call_replied :
      ℕ → Value → Option String → Option (TxnReq × List TxnReq) → Traffic → Traffic
  call_replied now value error none t = t
  call_replied now value error (some (req, rest)) t = record t {
    calls = rest;
    answers = (req, respond now value error) ∷ t.answers;
  }

  -- `Set` overwrites what an earlier round has left in the response.
  unfoldable pub answer_taken :
      Clock → Option ((TxnReq × Response) × List (TxnReq × Response)) → Traffic → Run Traffic
  unfolding after_round
  answer_taken clock none t = done t
  answer_taken clock (some ((req, resp), rest)) t = do
    s ← submit_round node clock req resp new_txn_resp t.processor
    done (
        after_round req s.waiting s.resp (record t {
          processor = s.processor;
          answers = rest;
          echoes = if s.echoed then req ∷ t.echoes else t.echoes;
        }))

  unfoldable pub perform : Event → Traffic → Run Traffic
  unfolding sort_received send_received timer_elapsed call_replied answer_taken
  perform (submits req) t = do
    tp ← enqueue_unordered req t.processor
    done (record t { processor = tp })
  perform (sorts prefer_cancel clock now i) t = do
    q ← deref (get_elem? (t.processor).unordered i)
    sort_received clock now i (worker_round prefer_cancel q) t
  perform (elapses now k) t = timer_elapsed now (take_out k t.timers) t
  perform (sends prefer_cancel clock now i) t = do
    q ← deref (get_elem? (t.processor).ordered i)
    send_received clock now i (worker_round prefer_cancel q) t
  perform (replies now k value error) t = done (call_replied now value error (take_out k t.calls) t)
  perform (evaluates k clock) t = answer_taken clock (take_out k t.answers) t

-- An event with what the Near node answers at that moment.
abbrev pub Moment : Type 0 → Type 0
Moment Q = Node Q × Event

unfoldable pub run : {Q : Type 0} → List (Moment Q) → Traffic → Run Traffic
unfolding perform
run [] t = done t
run ((node, a) ∷ moments) t = do t' ← perform node a t; run moments t'
