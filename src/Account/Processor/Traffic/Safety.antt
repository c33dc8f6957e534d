-- ===== src/Account/Processor/Traffic/Safety.antt =====
-- All that is under way for a processor goes on without a panic.
use relayer2_public.Base.{
  if◌then◌else◌, ℕ, String, zero, suc, ◌<◌, ◌≡◌, refl, true, not, Option, none, some, is_some, List,
  [], ◌∷◌, arith, length, set, All, Survives, Survives-bind, Survives-Keeps,
}
use relayer2_public.Account.Value.{Value}
use relayer2_public.Account.Queue.{Round, waits, ends, works}
use relayer2_public.Account.Request.{TxnReq, Response, TxnResp, respond}
use relayer2_public.Account.Nonce.{Node}
use relayer2_public.Account.Processor.{
  TxnProcessor, Clock, Sorted, queued, delayed, responded, Sent, answered, called, sort, requeue,
  send,
}
use relayer2_public.Account.Processor.Liveness.{IsLive}
use relayer2_public.Account.Processor.Answers.{HasError, SentHasError, answers-HasError}
use relayer2_public.Account.Processor.Eval.{submit_round}
use relayer2_public.Account.Processor.Workers.Steps.{
  Stays, IsSoundRound, requeue-Stays, sort-Stays, send-Stays,
}
use relayer2_public.Account.Processor.Workers.Safety.{unordered-IsLive, ordered-IsLive}
use relayer2_public.Account.Processor.Traffic.{
  Traffic, Event, submits, sorts, elapses, sends, replies, evaluates, take_out, after_sort,
  after_send, after_round, new_txn_resp, sort_received, send_received, timer_elapsed, call_replied,
  answer_taken,
}
use relayer2_public.Account.Processor.Traffic.Rounds.{
  IsReadable, respond_with_status-IsReadable, IsDone, submit_round-IsDone,
}

abbrev pub IsInside : ℕ → TxnReq → Type 0
IsInside n req = req.processor_index < n

-- The request has a key, and its answer can be evaluated.
abbrev pub IsAnswer : ℕ → TxnReq × Response → Type 0
IsAnswer n (req, resp) = (req.processor_index < n) × IsReadable req resp

abbrev pub IsNotified : TxnReq × TxnResp → Type 0
IsNotified (req, resp) = resp.received ≡ true

-- For a processor of so many keys.
abbrev pub IsSteady : ℕ → Traffic → Type 0
IsSteady n t =
    IsLive t.processor
    × (length (t.processor).keys ≡ n)
    × All (IsInside n) t.timers
    × All (IsInside n) t.calls
    × All (IsAnswer n) t.answers
    × All IsNotified t.finished

-- The event is about one of so many keys, and what the engine replies can be evaluated.
abbrev pub IsSound : ℕ → Event → Type 0
IsSound n (submits req) = req.processor_index < n
IsSound n (sorts prefer_cancel clock now i) = i < n
IsSound n (elapses now k) = Unit
IsSound n (sends prefer_cancel clock now i) = i < n
IsSound n (replies now k value error) = (req : TxnReq) → IsReadable req (respond now value error)
IsSound n (evaluates k clock) = Unit

abbrev pub IsTakenFrom {ℓ} : {A : Type ℓ} → (A → Type 0) → Option (A × List A) → Type 0
IsTakenFrom P none = Unit
IsTakenFrom P (some (x, rest)) = P x × All P rest

taken_next {ℓ} :
    {A : Type ℓ} (P : A → Type 0) (x : A) (o : Option (A × List A))
    → P x
    → IsTakenFrom P o
    → IsTakenFrom P (elim o [ none ↦ none | some p ↦ some (p.0, x ∷ p.1) ])
taken_next P x none h k = tt
taken_next P x (some (y, rest)) h (k, ks) = (k, (h, ks))

pub take_out-IsTakenFrom {ℓ} :
    {A : Type ℓ} (P : A → Type 0) (k : ℕ) (xs : List A) → All P xs → IsTakenFrom P (take_out k xs)
take_out-IsTakenFrom P k [] h = tt
take_out-IsTakenFrom P zero (x ∷ xs) (h, hs) = (h, hs)
take_out-IsTakenFrom P (suc k) (x ∷ xs) (h, hs) =
    taken_next P x (take_out k xs) h (take_out-IsTakenFrom P k xs hs)

module _ (n : ℕ) where
  after_sort-IsSteady :
      (now : ℕ) (req : TxnReq) (s : Sorted) (t : Traffic)
      → req.processor_index < n
      → HasError s
      → IsSteady n t
      → IsSteady n (after_sort now req s t)
  unfolding after_sort
  after_sort-IsSteady now req queued t inside e h = h
  after_sort-IsSteady now req delayed t inside e (l, k, ts, cs, as_, fs) =
      (l, k, (inside, ts), cs, as_, fs)
  after_sort-IsSteady now req (responded status) t inside e (l, k, ts, cs, as_, fs) =
      (l, k, ts, cs, ((inside, respond_with_status-IsReadable now status req e), as_), fs)

  after_send-IsSteady :
      (now : ℕ) (req : TxnReq) (s : Sent) (t : Traffic)
      → req.processor_index < n
      → SentHasError s
      → IsSteady n t
      → IsSteady n (after_send now req s t)
  unfolding after_send
  after_send-IsSteady now req (answered status) t inside e (l, k, ts, cs, as_, fs) =
      (l, k, ts, cs, ((inside, respond_with_status-IsReadable now status req e), as_), fs)
  after_send-IsSteady now req (called key nonce) t inside e (l, k, ts, cs, as_, fs) =
      (l, k, ts, (inside, cs), as_, fs)

  after_round-IsSteady :
      (req : TxnReq) (w : Option TxnReq) (resp : TxnResp) (t : Traffic)
      → is_some w ≡ not resp.received
      → IsSteady n t
      → IsSteady n (after_round req w resp t)
  unfolding after_round
  after_round-IsSteady req (some again) resp t e h = h
  after_round-IsSteady req none resp t e (l, k, ts, cs, as_, fs) =
      (l, k, ts, cs, as_, (ground arith, fs))

  module _ {Q : Type 0} (node : Node Q) (t : Traffic) (steady : IsSteady n t) where
    pub sort_received-IsSteady :
        (clock : Clock) (now i : ℕ) (r : Round TxnReq)
        → IsSoundRound (length (t.processor).keys) r
        → Survives (IsSteady n) (sort_received node clock now i r t)
    unfolding sort_received
    sort_received-IsSteady clock now i waits h = steady
    sort_received-IsSteady clock now i ends h = steady
    sort_received-IsSteady clock now i (works req q stop) (open_, inside) =
        let (l, k, ts, cs, as_, fs) = steady in
        let tp : TxnProcessor = record (t.processor) {
          unordered = set (t.processor).unordered i q;
        } in
        Survives-bind (λ r. Stays tp r.0 × HasError r.1) (IsSteady n) (sort node clock req tp) _
          (Survives-Keeps _ _ _ (sort node clock req tp)
            (sort-Stays node tp (unordered-IsLive node t.processor l i q open_) clock req inside)
            (answers-HasError node clock req tp).0 (λ r a b. (a, b)))
          (λ r h.
            after_sort-IsSteady now req r.1 (record t { processor = r.0 }) (omega (arith, k)) h.1
              ((h.0).0, omega (arith, k, h), ts, cs, as_, fs))

    pub send_received-IsSteady :
        (clock : Clock) (now i : ℕ) (r : Round TxnReq)
        → IsSoundRound (length (t.processor).keys) r
        → Survives (IsSteady n) (send_received node clock now i r t)
    unfolding send_received
    send_received-IsSteady clock now i waits h = steady
    send_received-IsSteady clock now i ends h = steady
    send_received-IsSteady clock now i (works req q stop) (open_, inside) =
        let (l, k, ts, cs, as_, fs) = steady in
        let tp : TxnProcessor = record (t.processor) { ordered = set (t.processor).ordered i q } in
        Survives-bind (λ r. Stays tp r.0 × SentHasError r.1) (IsSteady n) (send node clock req tp) _
          (Survives-Keeps _ _ _ (send node clock req tp)
            (send-Stays node tp (ordered-IsLive node t.processor l i q open_) clock req inside)
            (answers-HasError node clock req tp).2 (λ r a b. (a, b)))
          (λ r h.
            after_send-IsSteady now req r.1 (record t { processor = r.0 }) (omega (arith, k)) h.1
              ((h.0).0, omega (arith, k, h), ts, cs, as_, fs))

    pub timer_elapsed-IsSteady :
        (clock : Clock) (now : ℕ) (o : Option (TxnReq × List TxnReq))
        → IsTakenFrom (IsInside n) o
        → Survives (IsSteady n) (timer_elapsed node now o t)
    unfolding timer_elapsed
    timer_elapsed-IsSteady clock now none h = steady
    timer_elapsed-IsSteady clock now (some (req, rest)) (inside, ts) =
        let (l, k, _, cs, as_, fs) = steady in
        Survives-bind (λ r. Stays t.processor r.0 × HasError r.1) (IsSteady n)
          (requeue req t.processor) _
          (Survives-Keeps _ _ _ (requeue req t.processor)
            (requeue-Stays node t.processor l req (omega (arith, k)))
            (answers-HasError node clock req t.processor).1 (λ r a b. (a, b)))
          (λ r h.
            after_sort-IsSteady now req r.1 (record t { processor = r.0; timers = rest }) inside h.1
              ((h.0).0, omega (arith, k, h), ts, cs, as_, fs))

    pub call_replied-IsSteady :
        (now : ℕ) (value : Value) (error : Option String) (o : Option (TxnReq × List TxnReq))
        → ((req : TxnReq) → IsReadable req (respond now value error))
        → IsTakenFrom (IsInside n) o
        → IsSteady n (call_replied node now value error o t)
    unfolding call_replied
    call_replied-IsSteady now value error none readable h = steady
    call_replied-IsSteady now value error (some (req, rest)) readable (inside, cs) =
        let (l, k, ts, _, as_, fs) = steady in (l, k, ts, cs, ((inside, readable req), as_), fs)

    pub answer_taken-IsSteady :
        (clock : Clock) (o : Option ((TxnReq × Response) × List (TxnReq × Response)))
        → IsTakenFrom (IsAnswer n) o
        → Survives (IsSteady n) (answer_taken node clock o t)
    unfolding answer_taken
    answer_taken-IsSteady clock none h = steady
    answer_taken-IsSteady clock (some ((req, resp), rest)) ((inside, readable), as_) =
        let (l, k, ts, cs, _, fs) = steady in
        Survives-bind (IsDone t.processor) (IsSteady n)
          (submit_round node clock req resp new_txn_resp t.processor) _
          (submit_round-IsDone node clock req resp t.processor l (omega (arith, k)) readable
            new_txn_resp refl)
          (λ s h.
            after_round-IsSteady req s.waiting s.resp
              (record t {
                processor = s.processor;
                answers = rest;
                echoes = if s.echoed then req ∷ t.echoes else t.echoes;
              })
              h.1 ((h.0).0, omega (arith, k, h), ts, cs, as_, fs))
