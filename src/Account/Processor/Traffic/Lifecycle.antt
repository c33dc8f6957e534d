-- ===== src/Account/Processor/Traffic/Lifecycle.antt =====
-- The way of a transaction from its submission to its answer.
use relayer2_public.Base.{
  ℕ, String, ◌≡◌, refl, List, [], ◌∷◌, arith, length, get_elem?-lt, All, Survives, Survives-bind,
  Survives-Keeps,
}
use relayer2_public.Account.Queue.{new_txn_q, worker_round}
use relayer2_public.Account.Request.{TxnReq}
use relayer2_public.Account.Nonce.{Node, q_cap}
use relayer2_public.Account.Processor.{
  TxnProcessor, for_each_key, new_txn_processor, enqueue_unordered,
}
use relayer2_public.Account.Processor.Liveness.{new_txn_processor-IsLive}
use relayer2_public.Account.Processor.Workers.Steps.{Stays, submit-Stays}
use relayer2_public.Account.Processor.Workers.Safety.{round_of}
use relayer2_public.Account.Processor.Traffic.{
  Traffic, Event, Moment, submits, sorts, elapses, sends, replies, evaluates, take_out, perform,
  run,
}
use relayer2_public.Account.Processor.Traffic.Tally.{is_of, tally_queues, holds}
use relayer2_public.Account.Processor.Traffic.Conserved.{submitted, run-holds}
use relayer2_public.Account.Processor.Traffic.Safety.{
  IsSteady, IsSound, IsInside, IsAnswer, take_out-IsTakenFrom, sort_received-IsSteady,
  send_received-IsSteady, timer_elapsed-IsSteady, call_replied-IsSteady, answer_taken-IsSteady,
}

-- A processor for which nothing is under way besides its queues.
abbrev pub begun : TxnProcessor → Traffic
begun tp = record {
  processor = tp;
  timers = [];
  calls = [];
  answers = [];
  finished = [];
  echoes = [];
}

module _ {Q : Type 0} (node : Node Q) (n : ℕ) where
  pub perform-IsSteady :
      (a : Event) (t : Traffic)
      → IsSteady n t
      → IsSound n a
      → Survives (IsSteady n) (perform node a t)
  unfolding perform
  perform-IsSteady (submits req) t steady inside =
      let (l, k, ts, cs, as_, fs) = steady in
      Survives-bind (Stays t.processor) (IsSteady n) (enqueue_unordered req t.processor) _
        (submit-Stays node t.processor l req (omega (arith, k)))
        (λ tp h. (h.0, omega (arith, k, h), ts, cs, as_, fs))
  perform-IsSteady (sorts prefer_cancel clock now i) t steady inside =
      let ((u, o, b, us, os), k, ts, cs, as_, fs) = steady in
      let (q, found) = get_elem?-lt (t.processor).unordered i (omega (arith, k)) in
      rw found (
        sort_received-IsSteady n node t steady clock now i (worker_round prefer_cancel q)
          (round_of node t.processor steady.0 prefer_cancel i (t.processor).unordered q us found))
  perform-IsSteady (elapses now k) t steady h =
      timer_elapsed-IsSteady n node t steady (record { first = now; second_ = now; third = now })
        now (take_out k t.timers) (take_out-IsTakenFrom (IsInside n) k t.timers steady.2)
  perform-IsSteady (sends prefer_cancel clock now i) t steady inside =
      let ((u, o, b, us, os), k, ts, cs, as_, fs) = steady in
      let (q, found) = get_elem?-lt (t.processor).ordered i (omega (arith, k)) in
      rw found (
        send_received-IsSteady n node t steady clock now i (worker_round prefer_cancel q)
          (round_of node t.processor steady.0 prefer_cancel i (t.processor).ordered q os found))
  perform-IsSteady (replies now k value error) t steady readable =
      call_replied-IsSteady n node t steady now value error (take_out k t.calls) readable
        (take_out-IsTakenFrom (IsInside n) k t.calls steady.3)
  perform-IsSteady (evaluates k clock) t steady h =
      answer_taken-IsSteady n node t steady clock (take_out k t.answers)
        (take_out-IsTakenFrom (IsAnswer n) k t.answers steady.4)

run-IsSteady :
    {Q : Type 0} (n : ℕ) (moments : List (Moment Q)) (t : Traffic)
    → IsSteady n t
    → All (λ m. IsSound n m.1) moments
    → Survives (IsSteady n) (run moments t)
unfolding run
run-IsSteady n [] t steady h = steady
run-IsSteady n ((node, a) ∷ moments) t steady (h, hs) =
    Survives-bind (IsSteady n) (IsSteady n) (perform node a t) _
      (perform-IsSteady node n a t steady h) (λ t' k. run-IsSteady n moments t' k hs)

tally_queues-new :
    (weight : TxnReq → ℕ) (keys : List String)
    → tally_queues weight (for_each_key (new_txn_q q_cap) keys) ≡ 0
unfolding new_txn_q
tally_queues-new weight [] = refl
tally_queues-new weight (key ∷ keys) = omega (arith, tally_queues-new weight keys)

pub begun-holds :
    (mapper : String) (price limit : ℕ) (keys : List String) (weight : TxnReq → ℕ)
    → holds weight (begun (new_txn_processor mapper price limit keys)) ≡ 0
unfolding new_txn_processor
begun-holds mapper price limit keys weight = omega (arith, tally_queues-new weight keys)

module _ {Q : Type 0} (mapper : String) (price limit : ℕ) (keys : List String)
    (events : List (Moment Q)) (sound : All (λ m. IsSound (length keys) m.1) events)
    (hash : String) where
  abbrev first : Traffic
  first = begun (new_txn_processor mapper price limit keys)

  -- Let requests be submitted to a new processor for keys that it has, let its workers, its timers, the
  -- calls of the engine and the goroutines that wait take their steps in any order, let the Near node
  -- answer each of them as it will, and let each reply of the engine be one that can be evaluated. Then
  -- nothing panics; the processor stays live, and every request that is under way has a key; each
  -- goroutine that has ended has notified; and for the transaction with any one hash, the requests
  -- under way and the answered ones together are as many as were submitted.
  pub run-IsConserved :
      Survives
        (λ t. IsSteady (length keys) t × (holds (is_of hash) t ≡ submitted (is_of hash) events))
        (run events first)
  run-IsConserved =
      Survives-Keeps _ _ _ (run events first)
        (run-IsSteady (length keys) events first
          (unfold new_txn_processor in
            (new_txn_processor-IsLive mapper price limit keys, refl, tt, tt, tt, tt))
          sound)
        (run-holds (is_of hash) (λ req. refl) events first)
        (λ t steady h. (steady, omega (arith, h, begun-holds mapper price limit keys (is_of hash))))
