-- ===== src/Account/Processor/Traffic/Conserved.antt =====
-- No transaction is lost or doubled on its way through the processor.
use relayer2_public.Base.{
  if◌then◌else◌, ℕ, String, ◌+◌, ◌≡◌, refl, Option, none, some, List, [], ◌∷◌, arith, get_elem?,
  set, Keeps, Keeps-bind, Keeps-mono, Option-cases, inl, inr,
}
use relayer2_public.Account.Value.{Value}
use relayer2_public.Account.Queue.{TxnQ, Round, waits, ends, works, worker_round}
use relayer2_public.Account.Request.{TxnReq, Response, TxnResp}
use relayer2_public.Account.Nonce.{Node}
use relayer2_public.Account.Processor.{
  TxnProcessor, Clock, Sorted, queued, delayed, responded, Sent, answered, called, sort, requeue,
  send, enqueue_unordered,
}
use relayer2_public.Account.Processor.Eval.{submit_round}
use relayer2_public.Account.Processor.Traffic.{
  Traffic, Event, Moment, submits, sorts, elapses, sends, replies, evaluates, take_out, after_sort,
  after_send, after_round, new_txn_resp, sort_received, send_received, timer_elapsed, call_replied,
  answer_taken, perform, run,
}
use relayer2_public.Account.Processor.Traffic.Tally.{
  tally, tally_queues-set, holds, IsTaken, take_out-IsTaken,
}
use relayer2_public.Account.Processor.Traffic.Moves.{
  IsReceived, worker_round-IsReceived, enqueue_unordered-Gains, GainsIf, is_kept, Sorts, sort-Sorts,
  send-same, requeue-Sorts, submit_round-GainsIf, is_waiting, IsBlind,
}

module _ (weight : TxnReq → ℕ) where
  -- A count, with the request that an event submits.
  abbrev pub adds : Event → ℕ → ℕ
  adds (submits req) n = n + weight req
  adds (sorts prefer_cancel clock now i) n = n
  adds (elapses now k) n = n
  adds (sends prefer_cancel clock now i) n = n
  adds (replies now k value error) n = n
  adds (evaluates k clock) n = n

  -- How many requests for the transaction are submitted.
  abbrev pub submitted : {Q : Type 0} → List (Moment Q) → ℕ
  submitted [] = 0
  submitted ((node, a) ∷ moments) = adds a (submitted moments)

  adds_plus : (a : Event) (m n : ℕ) → adds a m + n ≡ m + adds a n
  adds_plus (submits req) m n = omega arith
  adds_plus (sorts prefer_cancel clock now i) m n = refl
  adds_plus (elapses now k) m n = refl
  adds_plus (sends prefer_cancel clock now i) m n = refl
  adds_plus (replies now k value error) m n = refl
  adds_plus (evaluates k clock) m n = refl

module _ (weight : TxnReq → ℕ) (blind : IsBlind weight) where
  abbrev Same : ℕ → Traffic → Type 0
  Same n t = holds weight t ≡ n

  after_sort-holds :
      (now : ℕ) (req : TxnReq) (s : Sorted) (t t' : Traffic) (tp : TxnProcessor)
      → GainsIf weight req tp (is_kept s) t'.processor
      → holds weight (record t' { processor = tp }) + weight req ≡ holds weight t
      → Same (holds weight t) (after_sort now req s t')
  unfolding after_sort
  after_sort-holds now req queued t t' tp g e = omega (arith, g, e)
  after_sort-holds now req delayed t t' tp g e = omega (arith, g, e)
  after_sort-holds now req (responded status) t t' tp g e = omega (arith, g, e)

  after_send-holds :
      (now : ℕ) (req : TxnReq) (s : Sent) (t t' : Traffic)
      → holds weight t' + weight req ≡ holds weight t
      → Same (holds weight t) (after_send now req s t')
  unfolding after_send
  after_send-holds now req (answered status) t t' e = omega (arith, e)
  after_send-holds now req (called key nonce) t t' e = omega (arith, e)

  after_round-holds :
      (req : TxnReq) (w : Option TxnReq) (resp : TxnResp) (t t' : Traffic) (tp : TxnProcessor)
      → GainsIf weight req tp (is_waiting w) t'.processor
      → holds weight (record t' { processor = tp }) + weight req ≡ holds weight t
      → Same (holds weight t) (after_round req w resp t')
  unfolding after_round
  after_round-holds req none resp t t' tp g e = omega (arith, g, e)
  after_round-holds req (some again) resp t t' tp g e = omega (arith, g, e)

  module _ {Q : Type 0} (node : Node Q) where
    sort_received-holds :
        (clock : Clock) (now i : ℕ) (q : TxnQ TxnReq) (r : Round TxnReq) (t : Traffic)
        → get_elem? (t.processor).unordered i ≡ some q
        → IsReceived weight (tally weight q.items) r
        → Keeps (Same (holds weight t)) (sort_received node clock now i r t)
    unfolding sort_received
    sort_received-holds clock now i q waits t found taken = refl
    sort_received-holds clock now i q ends t found taken = refl
    sort_received-holds clock now i q (works req q' stop) t found taken =
        let tp : TxnProcessor = record (t.processor) {
          unordered = set (t.processor).unordered i q';
        } in
        Keeps-bind (Sorts weight req tp) _ (sort node clock req tp) _
          (sort-Sorts weight node clock req tp)
          (λ r h.
            after_sort-holds now req r.1 t (record t { processor = r.0 }) tp h
              (omega (arith, taken, tally_queues-set weight (t.processor).unordered i q q' found)))

    send_received-holds :
        (clock : Clock) (now i : ℕ) (q : TxnQ TxnReq) (r : Round TxnReq) (t : Traffic)
        → get_elem? (t.processor).ordered i ≡ some q
        → IsReceived weight (tally weight q.items) r
        → Keeps (Same (holds weight t)) (send_received node clock now i r t)
    unfolding send_received
    send_received-holds clock now i q waits t found taken = refl
    send_received-holds clock now i q ends t found taken = refl
    send_received-holds clock now i q (works req q' stop) t found taken =
        let tp : TxnProcessor = record (t.processor) { ordered = set (t.processor).ordered i q' } in
        Keeps-bind _ _ (send node clock req tp) _ (send-same weight node clock req tp) (λ r h.
          after_send-holds now req r.1 t (record t { processor = r.0 })
            (rw (h.0, h.1)
              (omega (arith, taken, tally_queues-set weight (t.processor).ordered i q q' found))))

    timer_elapsed-holds :
        (now : ℕ) (o : Option (TxnReq × List TxnReq)) (t : Traffic)
        → IsTaken weight t.timers o
        → Keeps (Same (holds weight t)) (timer_elapsed node now o t)
    unfolding timer_elapsed
    timer_elapsed-holds now none t taken = refl
    timer_elapsed-holds now (some (req, rest)) t taken =
        Keeps-bind (Sorts weight req t.processor) _ (requeue req t.processor) _
          (requeue-Sorts weight req t.processor)
          (λ r h.
            after_sort-holds now req r.1 t (record t { processor = r.0; timers = rest }) t.processor
              h (omega (arith, taken)))

    call_replied-holds :
        (now : ℕ) (value : Value) (error : Option String) (o : Option (TxnReq × List TxnReq))
        (t : Traffic)
        → IsTaken weight t.calls o
        → Same (holds weight t) (call_replied node now value error o t)
    unfolding call_replied
    call_replied-holds now value error none t taken = refl
    call_replied-holds now value error (some (req, rest)) t taken = omega (arith, taken)

    answer_taken-holds :
        (clock : Clock) (o : Option ((TxnReq × Response) × List (TxnReq × Response))) (t : Traffic)
        → IsTaken (λ p. weight p.0) t.answers o
        → Keeps (Same (holds weight t)) (answer_taken node clock o t)
    unfolding answer_taken
    answer_taken-holds clock none t taken = refl
    answer_taken-holds clock (some ((req, resp), rest)) t taken =
        Keeps-bind _ _ (submit_round node clock req resp new_txn_resp t.processor) _
          (submit_round-GainsIf weight blind node clock req resp new_txn_resp t.processor)
          (λ s h.
            after_round-holds req s.waiting s.resp t
              (record t {
                processor = s.processor;
                answers = rest;
                echoes = if s.echoed then req ∷ t.echoes else t.echoes;
              })
              t.processor h (omega (arith, taken)))

    pub perform-holds :
        (a : Event) (t : Traffic) → Keeps (Same (adds weight a (holds weight t))) (perform node a t)
    unfolding perform
    perform-holds (submits req) t =
        Keeps-bind _ _ (enqueue_unordered req t.processor) _
          (enqueue_unordered-Gains weight req t.processor) (λ tp g. omega (arith, g))
    perform-holds (sorts prefer_cancel clock now i) t =
        elim (Option-cases (get_elem? (t.processor).unordered i)) [
          | inl gone ↦ rw gone tt
          | inr (q, found) ↦ rw found (
              sort_received-holds clock now i q (worker_round prefer_cancel q) t found
                (worker_round-IsReceived weight prefer_cancel q))
        ]
    perform-holds (elapses now k) t =
        timer_elapsed-holds now (take_out k t.timers) t (take_out-IsTaken weight k t.timers)
    perform-holds (sends prefer_cancel clock now i) t =
        elim (Option-cases (get_elem? (t.processor).ordered i)) [
          | inl gone ↦ rw gone tt
          | inr (q, found) ↦ rw found (
              send_received-holds clock now i q (worker_round prefer_cancel q) t found
                (worker_round-IsReceived weight prefer_cancel q))
        ]
    perform-holds (replies now k value error) t =
        call_replied-holds now value error (take_out k t.calls) t
          (take_out-IsTaken weight k t.calls)
    perform-holds (evaluates k clock) t =
        answer_taken-holds clock (take_out k t.answers) t
          (take_out-IsTaken (λ p. weight p.0) k t.answers)

  -- Whatever each request weighs, its mark as a retransmission apart: the requests that wait in the
  -- queues, for a timer, for the engine or for the evaluation of their answer, and those that have been
  -- answered for good, weigh after any events as much as before and those that were submitted meanwhile.
  pub run-holds :
      {Q : Type 0} (moments : List (Moment Q)) (t : Traffic)
      → Keeps (λ t'. holds weight t' ≡ submitted weight moments + holds weight t) (run moments t)
  unfolding run
  run-holds [] t = omega arith
  run-holds ((node, a) ∷ moments) t =
      Keeps-bind _ _ (perform node a t) _ (perform-holds node a t) (λ t' h.
        Keeps-mono _ _ (run moments t') (run-holds moments t') (λ t'' k.
          omega (arith, h, k, adds_plus weight a (submitted weight moments) (holds weight t))))
