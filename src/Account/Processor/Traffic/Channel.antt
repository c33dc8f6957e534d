-- ===== src/Account/Processor/Traffic/Channel.antt =====
-- What the channels of the requests hold: the answers that wait for their evaluation, and the responses
-- that `eval` itself has put there.
use relayer2_public.Base.{
  ℕ, String, ◌+◌, ◌≤◌, ◌≡◌, refl, Bool, true, false, not, ◌&&◌, Option, none, some, List, [], ◌∷◌,
  arith, get_elem?, All, length, if◌then◌else◌, Run, done, deref, Survives, Survives-Keeps, Keeps,
  Keeps-bind, Keeps-any, Keeps-if, Keeps-mono, Bool-cases, inl, inr,
}
use relayer2_public.Account.Value.{Value}
use relayer2_public.Account.Queue.{Round, waits, ends, works, worker_round}
use relayer2_public.Account.Request.{TxnReq, Response, TxnResp}
use relayer2_public.Account.Nonce.{Node}
use relayer2_public.Account.Processor.{
  TxnProcessor, Clock, Sorted, queued, delayed, responded, Sent, answered, called, sort, requeue,
  send, new_txn_processor, enqueue_unordered, try_enqueue_unordered,
}
use relayer2_public.Account.Processor.Eval.{evaluate, settle, eval, open_breaker, submit_round}
use relayer2_public.Account.Processor.Traffic.{
  Traffic, Event, Moment, submits, sorts, elapses, sends, replies, evaluates, take_out,
  new_txn_resp, after_sort, after_send, after_round, sort_received, send_received, timer_elapsed,
  call_replied, answer_taken, perform, run,
}
use relayer2_public.Account.Processor.Traffic.Tally.{is_of, tally, tally_with}
use relayer2_public.Account.Processor.Traffic.Moves.{is_waiting}
use relayer2_public.Account.Processor.Traffic.Conserved.{submitted}
use relayer2_public.Account.Processor.Traffic.Safety.{IsSound}
use relayer2_public.Account.Processor.Traffic.Lifecycle.{begun, run-IsConserved}

module _ {Q : Type 0} (node : Node Q) (clock : Clock) where
  settle-echoed :
      (req : TxnReq) (resp : Response) (tp : TxnProcessor)
      → Keeps (λ s. (s.echoed && s.retry) ≡ false) (settle node clock req resp tp)
  unfolding settle
  settle-echoed req resp tp = ground arith

  eval-echoed :
      (req : TxnReq) (resp : Response) (tp : TxnProcessor)
      → Keeps (λ s. (s.echoed && s.retry) ≡ false) (eval node clock req resp tp)
  unfolding eval
  eval-echoed req resp tp =
      Keeps-bind _ _ (evaluate req resp) _ (Keeps-any (evaluate req resp)) (λ e u.
        Keeps-if _ e.succeeded (done _) _ refl
          (settle-echoed e.req e.resp (open_breaker e.req e.resp tp)))

  -- A goroutine that waits on has had nothing put into its channel by `eval`.
  submit_round-echoed :
      (req : TxnReq) (resp : Response) (r : TxnResp) (tp : TxnProcessor)
      → Keeps
          (λ s. (s.echoed && is_waiting s.waiting) ≡ false)
          (submit_round node clock req resp r tp)
  unfolding submit_round
  submit_round-echoed req resp r tp =
      Keeps-bind _ _ (eval node clock req resp tp) _ (eval-echoed req resp tp) (λ s h.
        elim (Bool-cases (not s.retry)) [
          | inl stops ↦ rw stops (ground arith)
          | inr retries ↦ rw retries (
              Keeps-bind _ _ (try_enqueue_unordered s.req s.processor) _
                (Keeps-any (try_enqueue_unordered s.req s.processor))
                (λ q u. ground (arith, h, retries)))
        ])

module _ (weight : TxnReq → ℕ) where
  -- A response of `eval` itself stays in the channel only of a request that is finished.
  abbrev IsEchoed : Traffic → Type 0
  IsEchoed t = tally weight t.echoes ≤ tally_with weight t.finished

  -- Neither changes.
  abbrev Same : Traffic → Traffic → Type 0
  Same t t' = (t'.echoes ≡ t.echoes) × (t'.finished ≡ t.finished)

  after_sort-Same :
      (now : ℕ) (req : TxnReq) (s : Sorted) (t : Traffic) → Same t (after_sort now req s t)
  unfolding after_sort
  after_sort-Same now req queued t = (refl, refl)
  after_sort-Same now req delayed t = (refl, refl)
  after_sort-Same now req (responded status) t = (refl, refl)

  after_send-Same :
      (now : ℕ) (req : TxnReq) (s : Sent) (t : Traffic) → Same t (after_send now req s t)
  unfolding after_send
  after_send-Same now req (answered status) t = (refl, refl)
  after_send-Same now req (called key nonce) t = (refl, refl)

  after_round-IsEchoed :
      (req : TxnReq) (w : Option TxnReq) (b : Bool) (resp : TxnResp) (t : Traffic)
      → (b && is_waiting w) ≡ false
      → IsEchoed t
      → IsEchoed
          (after_round req w resp (record t { echoes = if b then req ∷ t.echoes else t.echoes }))
  unfolding after_round
  after_round-IsEchoed req none true resp t h k = omega (arith, k)
  after_round-IsEchoed req none false resp t h k = omega (arith, k)
  after_round-IsEchoed req (some again) true resp t h k = cc
  after_round-IsEchoed req (some again) false resp t h k = k

  module _ {Q : Type 0} (node : Node Q) (t : Traffic) where
    sort_received-Same :
        (clock : Clock) (now i : ℕ) (r : Round TxnReq)
        → Keeps (Same t) (sort_received node clock now i r t)
    unfolding sort_received
    sort_received-Same clock now i waits = (refl, refl)
    sort_received-Same clock now i ends = (refl, refl)
    sort_received-Same clock now i (works req q stop) =
        Keeps-bind _ _ (sort node clock req _) _ (Keeps-any _)
          (λ r u. after_sort-Same now req r.1 (record t { processor = r.0 }))

    send_received-Same :
        (clock : Clock) (now i : ℕ) (r : Round TxnReq)
        → Keeps (Same t) (send_received node clock now i r t)
    unfolding send_received
    send_received-Same clock now i waits = (refl, refl)
    send_received-Same clock now i ends = (refl, refl)
    send_received-Same clock now i (works req q stop) =
        Keeps-bind _ _ (send node clock req _) _ (Keeps-any _)
          (λ r u. after_send-Same now req r.1 (record t { processor = r.0 }))

    timer_elapsed-Same :
        (now : ℕ) (o : Option (TxnReq × List TxnReq)) → Keeps (Same t) (timer_elapsed node now o t)
    unfolding timer_elapsed
    timer_elapsed-Same now none = (refl, refl)
    timer_elapsed-Same now (some (req, rest)) =
        Keeps-bind _ _ (requeue req t.processor) _ (Keeps-any _)
          (λ r u. after_sort-Same now req r.1 (record t { processor = r.0; timers = rest }))

    call_replied-Same :
        (now : ℕ) (value : Value) (error : Option String) (o : Option (TxnReq × List TxnReq))
        → Same t (call_replied node now value error o t)
    unfolding call_replied
    call_replied-Same now value error none = (refl, refl)
    call_replied-Same now value error (some (req, rest)) = (refl, refl)

    answer_taken-IsEchoed :
        (clock : Clock) (o : Option ((TxnReq × Response) × List (TxnReq × Response)))
        → IsEchoed t
        → Keeps IsEchoed (answer_taken node clock o t)
    unfolding answer_taken
    answer_taken-IsEchoed clock none h = h
    answer_taken-IsEchoed clock (some ((req, resp), rest)) h =
        Keeps-bind _ _ (submit_round node clock req resp new_txn_resp t.processor) _
          (submit_round-echoed node clock req resp new_txn_resp t.processor)
          (λ s k.
            after_round-IsEchoed req s.waiting s.echoed s.resp
              (record t { processor = s.processor; answers = rest }) k h)

    Same-IsEchoed : (m : Run Traffic) → IsEchoed t → Keeps (Same t) m → Keeps IsEchoed m
    Same-IsEchoed m h k = Keeps-mono _ _ m k (λ t' e. rw (e.0, e.1) h)

    perform-IsEchoed : (a : Event) → IsEchoed t → Keeps IsEchoed (perform node a t)
    unfolding perform
    perform-IsEchoed (submits req) h =
        Keeps-bind _ _ (enqueue_unordered req t.processor) _ (Keeps-any _) (λ tp u. h)
    perform-IsEchoed (sorts prefer_cancel clock now i) h =
        Keeps-bind _ _ (deref (get_elem? (t.processor).unordered i)) _ (Keeps-any _)
          (λ q u. Same-IsEchoed _ h (sort_received-Same clock now i (worker_round prefer_cancel q)))
    perform-IsEchoed (elapses now k) h =
        Same-IsEchoed _ h (timer_elapsed-Same now (take_out k t.timers))
    perform-IsEchoed (sends prefer_cancel clock now i) h =
        Keeps-bind _ _ (deref (get_elem? (t.processor).ordered i)) _ (Keeps-any _)
          (λ q u. Same-IsEchoed _ h (send_received-Same clock now i (worker_round prefer_cancel q)))
    perform-IsEchoed (replies now k value error) h =
        let e = call_replied-Same now value error (take_out k t.calls) in rw (e.0, e.1) h
    perform-IsEchoed (evaluates k clock) h = answer_taken-IsEchoed clock (take_out k t.answers) h

  run-IsEchoed :
      {Q : Type 0} (moments : List (Moment Q)) (t : Traffic)
      → IsEchoed t
      → Keeps IsEchoed (run moments t)
  unfolding run
  run-IsEchoed [] t h = h
  run-IsEchoed ((node, a) ∷ moments) t h =
      Keeps-bind _ _ (perform node a t) _ (perform-IsEchoed node t a h)
        (λ t' k. run-IsEchoed moments t' k)

-- Let requests be submitted to a new processor for keys that it has, let its workers, timers, calls of
-- the engine and waiting goroutines take their steps in any order, let the Near node answer each of them
-- as it will, and let each reply of the engine be one that can be evaluated. Then nothing panics, and the
-- answers for the transaction with any one hash that wait in channels, and the responses that `eval`
-- itself has put into a channel for it, are together no more than the submissions of that transaction.
pub run-channel_le :
    {Q : Type 0} (mapper : String) (price limit : ℕ) (keys : List String)
    (moments : List (Moment Q)) (hash : String)
    → All (λ m. IsSound (length keys) m.1) moments
    → Survives
        (λ t.
          tally_with (is_of hash) t.answers + tally (is_of hash) t.echoes
          ≤ submitted (is_of hash) moments)
        (run moments (begun (new_txn_processor mapper price limit keys)))
run-channel_le mapper price limit keys moments hash sound =
    let m = run moments (begun (new_txn_processor mapper price limit keys)) in
    Survives-Keeps _ _ _ m (run-IsConserved mapper price limit keys moments sound hash)
      (run-IsEchoed (is_of hash) moments (begun (new_txn_processor mapper price limit keys))
        (omega arith))
      (λ t h k. omega (arith, h, k))
