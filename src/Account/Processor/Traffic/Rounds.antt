-- ===== src/Account/Processor/Traffic/Rounds.antt =====
-- A round of the goroutine in `Submit` on an answer that can be evaluated.
use relayer2_public.Base.{
  ℕ, ◌<◌, ◌≡◌, refl, ◌∙◌, Bool, true, false, not, none, some, is_some, arith, length, if◌then◌else◌,
  done, Returns, Returns-Survives, Survives, Survives-bind, Survives-if, Survives-Keeps, Keeps,
}
use relayer2_public.Account.Status.{Status, status_actions}
use relayer2_public.Account.Request.{
  TxnReq, Response, TxnResp, respond_with_status, notify, set_resp,
}
use relayer2_public.Account.Nonce.{Node}
use relayer2_public.Account.Processor.{TxnProcessor, Clock, try_enqueue_unordered}
use relayer2_public.Account.Processor.Liveness.{IsLive, try_enqueue_unordered-IsLive}
use relayer2_public.Account.Processor.Answers.{evaluate-respond_with_status}
use relayer2_public.Account.Processor.Settling.{settle-IsLive}
use relayer2_public.Account.Processor.Eval.{
  Settled, evaluate, settle, eval, open_breaker, Submitted, submit_round,
}
use relayer2_public.Account.Processor.Workers.Steps.{Stays}

-- The evaluation returns, for a request of the same key.
abbrev pub IsReadable : TxnReq → Response → Type 0
IsReadable req resp =
    Returns (λ e. (e.req).processor_index ≡ req.processor_index) (evaluate req resp)

pub respond_with_status-IsReadable :
    (now : ℕ) (status : Status) (req : TxnReq)
    → is_some (status_actions status).error ≡ true
    → IsReadable req (respond_with_status now status)
respond_with_status-IsReadable now status req h =
    rw (evaluate-respond_with_status now status req h) refl

-- After a round the goroutine waits on, or it has notified.
abbrev pub IsDone : TxnProcessor → Submitted → Type 0
IsDone tp s = Stays tp s.processor × (is_some s.waiting ≡ not (s.resp).received)

-- The end of a round: the request is back in its queue, or the goroutine notifies.
put_IsDone :
    (tp tp' : TxnProcessor) (req : TxnReq) (after : TxnResp) (b echoed_ : Bool)
    → Stays tp tp'
    → after.received ≡ false
    → IsDone tp (
        if b
        then record { resp = after; processor = tp'; waiting = some req; echoed = echoed_ }
        else record { resp = notify after; processor = tp'; waiting = none; echoed = echoed_ })
unfolding notify
put_IsDone tp tp' req after true echoed_ h fresh = (h, rw fresh refl)
put_IsDone tp tp' req after false echoed_ h fresh = (h, refl)

module _ {Q : Type 0} (node : Node Q) (clock : Clock) (req : TxnReq) (tp : TxnProcessor)
    (live : IsLive tp) (inside : req.processor_index < length tp.keys) where
  -- The processor stays live, and the request keeps its key.
  abbrev StaysWith : Settled → Type 0
  StaysWith s = Stays tp s.processor × ((s.req).processor_index < length tp.keys)

  settle-index :
      (resp : Response)
      → Keeps
          (λ s. (s.req).processor_index ≡ req.processor_index)
          (settle node clock req resp (open_breaker req resp tp))
  unfolding settle
  settle-index resp = ground arith

  settle-StaysWith :
      (resp : Response) → Survives StaysWith (settle node clock req resp (open_breaker req resp tp))
  settle-StaysWith resp =
      let m = settle node clock req resp (open_breaker req resp tp) in
      Survives-Keeps _ _ StaysWith m
        (Returns-Survives _ m (settle-IsLive node clock req resp tp live inside))
        (settle-index resp) (λ s h e. (h, omega (arith, e)))

  try_enqueue-Stays : Survives (λ q. Stays tp q.0) (try_enqueue_unordered req tp)
  try_enqueue-Stays =
      Survives-Keeps _ (λ q. length (q.0).keys ≡ length tp.keys) (λ q. Stays tp q.0)
        (try_enqueue_unordered req tp) (try_enqueue_unordered-IsLive req tp live inside)
        (ground arith) (λ q l k. (l, k))

module _ {Q : Type 0} (node : Node Q) (clock : Clock) (req : TxnReq) (resp : Response)
    (tp : TxnProcessor) (live : IsLive tp) (inside : req.processor_index < length tp.keys)
    (readable : IsReadable req resp) where
  eval-StaysWith :
      Survives (λ s. StaysWith node clock req tp live inside s) (eval node clock req resp tp)
  unfolding eval
  eval-StaysWith =
      Survives-bind (λ e. (e.req).processor_index ≡ req.processor_index) _ (evaluate req resp) _
        (Returns-Survives _ (evaluate req resp) readable)
        (λ e h.
          Survives-if _ e.succeeded (done _) _ ((live, refl), omega (arith, h))
            (settle-StaysWith node clock e.req tp live (omega (arith, h)) e.resp))

  pub submit_round-IsDone :
      (r : TxnResp)
      → r.received ≡ false
      → Survives (IsDone tp) (submit_round node clock req resp r tp)
  unfolding submit_round notify set_resp
  submit_round-IsDone r fresh =
      Survives-bind (λ s. StaysWith node clock req tp live inside s) (IsDone tp)
        (eval node clock req resp tp) _ eval-StaysWith
        (λ s h.
          let at : (s.req).processor_index < length (s.processor).keys = omega (arith, h) in
          Survives-if (IsDone tp) (not s.retry) (done _) _ (h.0, refl)
            (Survives-bind (λ q. Stays s.processor q.0) (IsDone tp)
              (try_enqueue_unordered s.req s.processor) _
              (try_enqueue-Stays node clock s.req s.processor (h.0).0 at)
              (λ q k.
                put_IsDone tp q.0 s.req (record { txn_resp = s.resp; received = r.received }) q.1
                  s.echoed (k.0, k.1 ∙ (h.0).1) fresh)))
