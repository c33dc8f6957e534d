-- ===== src/Account/Processor/Traffic/Waits.antt =====
-- No step on expired requests waits, whatever else is under way.
use relayer2_public.Base.{
  ℕ, ◌≤◌, ◌≡◌, refl, Bool, Option, none, some, List, arith, get_elem?, set, ◌>>=◌, deref,
}
use relayer2_public.Account.Queue.{TxnQ, Round, waits, ends, works, worker_round}
use relayer2_public.Account.Request.{TxnReq, Response}
use relayer2_public.Account.Nonce.{Node}
use relayer2_public.Account.Processor.{Clock, requeue, send}
use relayer2_public.Account.Processor.Eval.{submit_round, evaluate}
use relayer2_public.Account.Processor.Traffic.{
  Traffic, Event, submits, sorts, elapses, sends, replies, evaluates, take_out, new_txn_resp,
  sort_received, send_received, timer_elapsed, answer_taken, perform,
}
use relayer2_public.Account.Processor.Traffic.Tally.{tally, holds}
use relayer2_public.Account.Processor.Traffic.Moves.{IsReceived, worker_round-IsReceived}
use relayer2_public.Account.Processor.Traffic.Flows.{
  Flows, Flows-bind, Flows-deref, Returns-Flows, requeue-Flows, send-Flows, submit_round-Flows,
}
use relayer2_public.Account.Processor.Traffic.Late.{early, tally-le, sort_late}
use relayer2_public.Account.Processor.Traffic.Safety.{
  IsSteady, IsAnswer, IsTakenFrom, take_out-IsTakenFrom,
}
use relayer2_public.Account.Processor.Traffic.Progress.{IsLate}

module _ {Q : Type 0} (node : Node Q) (late : ℕ) (t : Traffic)
    (over : holds (early late) t ≡ 0) where
  sort_received-Flows :
      (clock : Clock) (now i : ℕ) (q : TxnQ TxnReq) (r : Round TxnReq)
      → late ≤ clock.first
      → get_elem? (t.processor).unordered i ≡ some q
      → IsReceived (early late) (tally (early late) q.items) r
      → Flows (sort_received node clock now i r t)
  unfolding sort_received
  sort_received-Flows clock now i q waits after found e = tt
  sort_received-Flows clock now i q ends after found e = tt
  sort_received-Flows clock now i q (works req q' stop) after found e =
      rw
        (sort_late node late clock after req
          (omega (arith, e, over, tally-le (early late) (t.processor).unordered i q found))
          (record (t.processor) { unordered = set (t.processor).unordered i q' }))
        tt

  pub sorts-Flows :
      (clock : Clock) (now i : ℕ) (prefer_cancel : Bool) (o : Option (TxnQ TxnReq))
      → late ≤ clock.first
      → get_elem? (t.processor).unordered i ≡ o
      → Flows (deref o >>= λ q. sort_received node clock now i (worker_round prefer_cancel q) t)
  sorts-Flows clock now i prefer_cancel none after found = tt
  sorts-Flows clock now i prefer_cancel (some q) after found =
      sort_received-Flows clock now i q (worker_round prefer_cancel q) after found
        (worker_round-IsReceived (early late) prefer_cancel q)

module _ {Q : Type 0} (node : Node Q) (t : Traffic) where
  send_received-Flows :
      (clock : Clock) (now i : ℕ) (r : Round TxnReq) → Flows (send_received node clock now i r t)
  unfolding send_received
  send_received-Flows clock now i waits = tt
  send_received-Flows clock now i ends = tt
  send_received-Flows clock now i (works req q stop) =
      Flows-bind (send node clock req _) _ (send-Flows node clock req _) (λ r. tt)

  timer_elapsed-Flows :
      (now : ℕ) (o : Option (TxnReq × List TxnReq)) → Flows (timer_elapsed node now o t)
  unfolding timer_elapsed
  timer_elapsed-Flows now none = tt
  timer_elapsed-Flows now (some (req, rest)) =
      Flows-bind (requeue req t.processor) _ (requeue-Flows req t.processor) (λ r. tt)

  answer_taken-Flows :
      (n : ℕ) (clock : Clock) (o : Option ((TxnReq × Response) × List (TxnReq × Response)))
      → IsTakenFrom (IsAnswer n) o
      → Flows (answer_taken node clock o t)
  unfolding answer_taken
  answer_taken-Flows n clock none h = tt
  answer_taken-Flows n clock (some ((req, resp), rest)) ((inside, readable), hs) =
      Flows-bind (submit_round node clock req resp new_txn_resp t.processor) _
        (submit_round-Flows node clock req resp new_txn_resp t.processor
          (Returns-Flows _ (evaluate req resp) readable))
        (λ s. tt)

  -- A step on expired requests ends, or it panics.
  pub perform-Flows :
      (n late : ℕ) (a : Event)
      → holds (early late) t ≡ 0
      → IsSteady n t
      → IsLate late a
      → Flows (perform node a t)
  unfolding perform
  perform-Flows n late (submits req) over steady h = elim h [ ]
  perform-Flows n late (sorts prefer_cancel clock now i) over steady after =
      sorts-Flows node late t over clock now i prefer_cancel (get_elem? (t.processor).unordered i)
        after refl
  perform-Flows n late (elapses now k) over steady h = timer_elapsed-Flows now (take_out k t.timers)
  perform-Flows n late (sends prefer_cancel clock now i) over steady after =
      Flows-bind (deref (get_elem? (t.processor).ordered i)) _ (Flows-deref _)
        (λ q. send_received-Flows clock now i (worker_round prefer_cancel q))
  perform-Flows n late (replies now k value error) over steady h = tt
  perform-Flows n late (evaluates k clock) over steady h =
      answer_taken-Flows n clock (take_out k t.answers)
        (take_out-IsTakenFrom (IsAnswer n) k t.answers steady.4)
