-- ===== src/Account/Processor/Traffic/Moves.antt =====
-- Where the steps of the processor move a request.
use relayer2_public.Base.{
  not, ◌∙◌, ℕ, ◌+◌, ◌==◌, ◌≡◌, refl, Bool, true, false, Option, none, some, List, [], ◌∷◌, arith,
  ltb, get_elem?, if◌then◌else◌, done, Keeps, Keeps-bind, Keeps-if, Keeps-mono, Option-cases, inl,
  inr, ◌⊎◌, ap,
}
use relayer2_public.Account.Queue.{
  TxnQ, Round, waits, ends, works, enqueue, try_enqueue, worker_round,
}
use relayer2_public.Account.Request.{TxnReq, Response, TxnResp, expired}
use relayer2_public.Account.Nonce.{NonceCache, Node, lookup}
use relayer2_public.Account.Processor.{
  TxnProcessor, Clock, Sorted, queued, delayed, responded, sort, sort_by, requeue, send, queue,
  enqueue_ordered, enqueue_unordered, try_enqueue_unordered,
}
use relayer2_public.Account.Processor.Eval.{evaluate, settle, eval, open_breaker, submit_round}
use relayer2_public.Account.Processor.Traffic.Tally.{
  tally, tally_queues, tally_queues-set, enqueue-tally, try_enqueue-tally,
}

-- Whether the request is in a queue.
abbrev pub is_kept : Sorted → Bool
is_kept queued = true
is_kept delayed = false
is_kept (responded status) = false

abbrev pub is_waiting : Option TxnReq → Bool
is_waiting none = false
is_waiting (some req) = true

module _ (weight : TxnReq → ℕ) where
  -- A round takes the request that it receives out of a queue of so many.
  abbrev pub IsReceived : ℕ → Round TxnReq → Type 0
  IsReceived n (works req q stop) = n ≡ weight req + tally weight q.items
  IsReceived n waits = Unit
  IsReceived n ends = Unit

  IsReceived-if :
      (n : ℕ) (b : Bool) (r s : Round TxnReq)
      → IsReceived n r
      → IsReceived n s
      → IsReceived n (if b then r else s)
  IsReceived-if n true r s h k = h
  IsReceived-if n false r s h k = k

  worker_round_fields-IsReceived :
      (prefer_cancel : Bool) (items : List TxnReq) (capacity : ℕ) (closed cancelled : Bool)
      → IsReceived (tally weight items) (
          worker_round prefer_cancel
            (record { items = items; capacity = capacity; closed = closed; cancelled = cancelled }))
  unfolding worker_round
  worker_round_fields-IsReceived prefer_cancel [] capacity true cancelled =
      IsReceived-if 0 cancelled ends ends tt tt
  worker_round_fields-IsReceived prefer_cancel [] capacity false cancelled =
      IsReceived-if 0 cancelled ends waits tt tt
  worker_round_fields-IsReceived prefer_cancel (req ∷ items) capacity closed cancelled =
      let n = tally weight (req ∷ items) in
      IsReceived-if n cancelled _ _ (IsReceived-if n prefer_cancel ends _ tt refl) refl

  pub worker_round-IsReceived :
      (prefer_cancel : Bool) (q : TxnQ TxnReq)
      → IsReceived (tally weight q.items) (worker_round prefer_cancel q)
  worker_round-IsReceived prefer_cancel q =
      worker_round_fields-IsReceived prefer_cancel q.items q.capacity q.closed q.cancelled

  -- What a processor has in its queues, after one more request was put there.
  abbrev pub Gains : TxnReq → TxnProcessor → TxnProcessor → Type 0
  Gains req tp tp' =
      tally_queues weight tp'.unordered + tally_queues weight tp'.ordered
      ≡ tally_queues weight tp.unordered + tally_queues weight tp.ordered + weight req

  pub enqueue_unordered-Gains :
      (req : TxnReq) (tp : TxnProcessor) → Keeps (Gains req tp) (enqueue_unordered req tp)
  enqueue_unordered-Gains req tp =
      elim (Option-cases (get_elem? tp.unordered req.processor_index)) [
        | inl gone ↦ rw gone tt
        | inr (q, found) ↦ rw found (
            Keeps-bind _ (Gains req tp) (enqueue req q) _ (enqueue-tally weight req q) (λ q' k.
              omega
                (arith, k, tally_queues-set weight tp.unordered req.processor_index q q' found)))
      ]

  enqueue_ordered-Gains :
      (req : TxnReq) (tp : TxnProcessor) → Keeps (Gains req tp) (enqueue_ordered req tp)
  enqueue_ordered-Gains req tp = elim (Option-cases (get_elem? tp.ordered req.processor_index)) [
    | inl gone ↦ rw gone tt
    | inr (q, found) ↦ rw found (
        Keeps-bind _ (Gains req tp) (enqueue req q) _ (enqueue-tally weight req q) (λ q' k.
          omega (arith, k, tally_queues-set weight tp.ordered req.processor_index q q' found)))
  ]

  abbrev pub GainsIf : TxnReq → TxnProcessor → Bool → TxnProcessor → Type 0
  GainsIf req tp b tp' =
      tally_queues weight tp'.unordered + tally_queues weight tp'.ordered
      ≡ tally_queues weight tp.unordered
        + tally_queues weight tp.ordered
        + (if b then weight req else 0)

  pub try_enqueue_unordered-GainsIf :
      (req : TxnReq) (tp : TxnProcessor)
      → Keeps (λ r. GainsIf req tp r.1 r.0) (try_enqueue_unordered req tp)
  try_enqueue_unordered-GainsIf req tp =
      elim (Option-cases (get_elem? tp.unordered req.processor_index)) [
        | inl gone ↦ rw gone tt
        | inr (q, found) ↦ rw found (
            Keeps-bind _ (λ r. GainsIf req tp r.1 r.0) (try_enqueue req q) _
              (try_enqueue-tally weight req q)
              (λ r k.
                omega
                  (arith, k, tally_queues-set weight tp.unordered req.processor_index q r.0 found)))
      ]

  -- What `sort` and its timer leave in the queues.
  abbrev pub Sorts : TxnReq → TxnProcessor → TxnProcessor × Sorted → Type 0
  Sorts req tp r = GainsIf req tp (is_kept r.1) r.0

  queue-Sorts : (req : TxnReq) (tp : TxnProcessor) → Keeps (Sorts req tp) (queue req tp)
  queue-Sorts req tp =
      Keeps-bind (Gains req tp) (Sorts req tp) (enqueue_ordered req tp) _
        (enqueue_ordered-Gains req tp) (λ tp' k. k)

  module _ {Q : Type 0} (node : Node Q) (clock : Clock) (req : TxnReq) (tp : TxnProcessor) where
    sort_by-Sorts : (o : Option NonceCache) → Keeps (Sorts req tp) (sort_by node clock o req tp)
    unfolding sort_by
    sort_by-Sorts none = queue-Sorts req _
    sort_by-Sorts (some nc) =
        Keeps-if (Sorts req tp) (nc.nonce == req.nonce) _ _ (queue-Sorts req _) (
          Keeps-if (Sorts req tp) req.retransmit _ _ (queue-Sorts req tp) (
            Keeps-if (Sorts req tp) (ltb req.nonce nc.nonce) (done _) (done _) (omega arith)
              (omega arith)))

    pub sort-Sorts : Keeps (Sorts req tp) (sort node clock req tp)
    unfolding sort
    sort-Sorts =
        Keeps-if (Sorts req tp) (expired clock.first req) (done _) _ (omega arith)
          (sort_by-Sorts (lookup req.sender.hex tp.eth_nonce_cache))

    pub send-same :
        Keeps
          (λ r. ((r.0).unordered ≡ tp.unordered) × ((r.0).ordered ≡ tp.ordered))
          (send node clock req tp)
    unfolding send
    send-same = ground arith

  pub requeue-Sorts : (req : TxnReq) (tp : TxnProcessor) → Keeps (Sorts req tp) (requeue req tp)
  unfolding requeue
  requeue-Sorts req tp =
      Keeps-bind (λ r. GainsIf req tp r.1 r.0) (Sorts req tp) (try_enqueue_unordered req tp) _
        (try_enqueue_unordered-GainsIf req tp) (λ r k. ground (arith, k))

-- `evaluate` gives the request itself, or marks it as a retransmission.
evaluate-req :
    (req : TxnReq) (resp : Response)
    → Keeps (λ e. (e.req ≡ req) ⊎ (e.req ≡ record req { retransmit = true })) (evaluate req resp)
unfolding evaluate
evaluate-req req resp = ground arith

-- A weight that does not look at the mark.
abbrev pub IsBlind : (TxnReq → ℕ) → Type 0
IsBlind weight = (req : TxnReq) → weight (record req { retransmit = true }) ≡ weight req

evaluate-weight :
    (weight : TxnReq → ℕ) (req : TxnReq) (resp : Response)
    → IsBlind weight
    → Keeps (λ e. weight e.req ≡ weight req) (evaluate req resp)
evaluate-weight weight req resp blind =
    Keeps-mono _ _ (evaluate req resp) (evaluate-req req resp)
      (λ e h. elim h [ inl same ↦ ap weight same | inr marked ↦ ap weight marked ∙ blind req ])

-- A round of the goroutine in `Submit`: the request is put back, or the goroutine ends.
module _ (weight : TxnReq → ℕ) (blind : IsBlind weight) {Q : Type 0} (node : Node Q)
    (clock : Clock) where
  settle-same :
      (req : TxnReq) (resp : Response) (tp : TxnProcessor)
      → Keeps
          (λ s.
            ((s.processor).unordered ≡ tp.unordered)
            × ((s.processor).ordered ≡ tp.ordered)
            × (s.req ≡ req))
          (settle node clock req resp (open_breaker req resp tp))
  unfolding settle
  settle-same req resp tp = ground arith

  pub eval-same :
      (req : TxnReq) (resp : Response) (tp : TxnProcessor)
      → Keeps
          (λ s.
            ((s.processor).unordered ≡ tp.unordered)
            × ((s.processor).ordered ≡ tp.ordered)
            × (weight s.req ≡ weight req))
          (eval node clock req resp tp)
  unfolding eval
  eval-same req resp tp =
      Keeps-bind (λ e. weight e.req ≡ weight req) _ (evaluate req resp) _
        (evaluate-weight weight req resp blind)
        (λ e k.
          Keeps-if _ e.succeeded (done _) _ (refl, refl, k)
            (Keeps-mono _ _ (settle node clock e.req e.resp (open_breaker e.req e.resp tp))
              (settle-same e.req e.resp tp) (λ s h. (h.0, h.1, ap weight h.2 ∙ k))))

  pub submit_round-GainsIf :
      (req : TxnReq) (resp : Response) (r : TxnResp) (tp : TxnProcessor)
      → Keeps
          (λ s. GainsIf weight req tp (is_waiting s.waiting) s.processor)
          (submit_round node clock req resp r tp)
  unfolding submit_round
  submit_round-GainsIf req resp r tp =
      Keeps-bind _ _ (eval node clock req resp tp) _ (eval-same req resp tp) (λ s h.
        Keeps-if _ (not s.retry) (done _) _ (rw (h.0, h.1) (omega arith)) (
          Keeps-bind _ _ (try_enqueue_unordered s.req s.processor) _
            (try_enqueue_unordered-GainsIf weight s.req s.processor) (λ q k. ground (arith, k, h))))
