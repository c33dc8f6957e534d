-- ===== src/Account/Processor/Traffic/Late.antt =====
-- What becomes of requests whose time is over: each step brings one of them nearer to its answer.
use relayer2_public.Base.{
  ℕ, String, ◌+◌, ◌*◌, ◌≤◌, ◌≡◌, refl, true, not, Option, none, some, List, [], arith, ltb,
  get_elem?, if◌then◌else◌, Run, done, panic, blocked, Keeps, Keeps-any, Keeps-bind, Keeps-if,
  Keeps-mono, inl, inr, ◌⊎◌,
}
use relayer2_public.Account.Status.{
  Status, unset, any, reorder, near_nonce_error, near_nonce_too_large, eth_nonce_error,
  eth_nonce_too_low, exhausted, unhandled_error, near_time_out_error, aurora_contract_panicked,
  time_out_error1, time_out_error2, time_out_error3,
}
use relayer2_public.Account.Queue.{TxnQ}
use relayer2_public.Account.Request.{TxnReq, Response, TxnResp, expired, second, timeout_seconds}
use relayer2_public.Account.Nonce.{Node}
use relayer2_public.Account.Processor.{
  TxnProcessor, Clock, Sorted, queued, delayed, responded, Sent, answered, called, sort, requeue,
  send, try_enqueue_unordered,
}
use relayer2_public.Account.Processor.Eval.{eval, submit_round}
use relayer2_public.Account.Processor.Traffic.{Traffic}
use relayer2_public.Account.Processor.Traffic.Tally.{tally, total, tally_queues, tally_queues-set}
use relayer2_public.Account.Processor.Traffic.Moves.{eval-same}

-- One for a request that has not expired at that time.
abbrev pub early : ℕ → TxnReq → ℕ
early late req = if ltb (req.timestamp * second + timeout_seconds * second) late then 0 else 1

abbrev pub one : TxnReq → ℕ
one req = 1

-- The steps that an answer is away from being final: one for the timeout, which is not tried again.
abbrev pub steps_of : Status → Option String → ℕ
steps_of time_out_error3 (some e) = 1
steps_of _ _ = 3

abbrev pub steps_of_answer : TxnReq × Response → ℕ
steps_of_answer (req, resp) = steps_of resp.status resp.err

-- A bound on the steps until all is answered, once all requests have expired.
abbrev pub steps_left : Traffic → ℕ
steps_left t =
    2 * tally_queues one (t.processor).unordered
    + 4 * tally_queues one (t.processor).ordered
    + 4 * tally one t.timers
    + 4 * tally one t.calls
    + total steps_of_answer t.answers

pub steps_of-cases :
    (s : Status) (o : Option String)
    → (steps_of s o ≡ 3)
      ⊎ ((steps_of s o ≡ 1) × (s ≡ time_out_error3) × ((e : String) × (o ≡ some e)))
steps_of-cases unset o = inl refl
steps_of-cases any o = inl refl
steps_of-cases reorder o = inl refl
steps_of-cases near_nonce_error o = inl refl
steps_of-cases near_nonce_too_large o = inl refl
steps_of-cases eth_nonce_error o = inl refl
steps_of-cases eth_nonce_too_low o = inl refl
steps_of-cases exhausted o = inl refl
steps_of-cases unhandled_error o = inl refl
steps_of-cases near_time_out_error o = inl refl
steps_of-cases aurora_contract_panicked o = inl refl
steps_of-cases time_out_error1 o = inl refl
steps_of-cases time_out_error2 o = inl refl
steps_of-cases time_out_error3 none = inl refl
steps_of-cases time_out_error3 (some e) = inr (refl, refl, (e, refl))

pub steps_of-le : (s : Status) (o : Option String) → steps_of s o ≤ 3
steps_of-le s o = elim (steps_of-cases s o) [
  | inl e ↦ omega (arith, e)
  | inr (e, s', h) ↦ omega (arith, e)
]

-- A queue has no more than all of them.
pub tally-le :
    (weight : TxnReq → ℕ) (qs : List (TxnQ TxnReq)) (i : ℕ) (q : TxnQ TxnReq)
    → get_elem? qs i ≡ some q
    → tally weight q.items ≤ tally_queues weight qs
tally-le weight qs i q found =
    omega (arith, tally_queues-set weight qs i q (record q { items = [] }) found)

abbrev pub IsAnswered : Sent → Type 0
IsAnswered (answered status) = Unit
IsAnswered (called key nonce) = ⊥

module _ {Q : Type 0} (node : Node Q) (late : ℕ) (clock : Clock) (after : late ≤ clock.first)
    (req : TxnReq) (over : early late req ≡ 0) where
  expired_late : expired clock.first req ≡ true
  unfolding expired
  expired_late = ground (arith, over, after)

  pub sort_late :
      (tp : TxnProcessor) → sort node clock req tp ≡ done (tp, responded time_out_error3)
  unfolding sort
  sort_late tp = rw expired_late refl

  pub send_late :
      (tp : TxnProcessor) → Keeps (λ r. (r.0 ≡ tp) × IsAnswered r.1) (send node clock req tp)
  unfolding send
  send_late tp = ground (arith, expired_late)

-- Both of two properties.
pub Keeps-both {ℓ} :
    {A : Type ℓ} (P Q : A → Type 0) (m : Run A) → Keeps P m → Keeps Q m → Keeps (λ a. P a × Q a) m
Keeps-both P Q (done a) h k = (h, k)
Keeps-both P Q panic h k = tt
Keeps-both P Q blocked h k = tt

abbrev pub IsNotDelayed : Sorted → Type 0
IsNotDelayed delayed = ⊥
IsNotDelayed queued = Unit
IsNotDelayed (responded status) = Unit

pub requeue_same :
    (req : TxnReq) (tp : TxnProcessor)
    → Keeps (λ r. ((r.0).ordered ≡ tp.ordered) × IsNotDelayed r.1) (requeue req tp)
unfolding requeue
requeue_same req tp = ground arith

try_enqueue-ordered :
    (req : TxnReq) (tp : TxnProcessor)
    → Keeps (λ r. (r.0).ordered ≡ tp.ordered) (try_enqueue_unordered req tp)
try_enqueue-ordered req tp = ground arith

module _ {Q : Type 0} (node : Node Q) (clock : Clock) where
  pub submit_round-ordered :
      (req : TxnReq) (resp : Response) (r : TxnResp) (tp : TxnProcessor)
      → Keeps (λ s. (s.processor).ordered ≡ tp.ordered) (submit_round node clock req resp r tp)
  unfolding submit_round
  submit_round-ordered req resp r tp =
      Keeps-bind _ _ (eval node clock req resp tp) _
        (eval-same one (λ q. refl) node clock req resp tp)
        (λ s h. Keeps-if _ (not s.retry) (done _) _ h.1 (
          Keeps-bind _ _ (try_enqueue_unordered s.req s.processor) _
            (try_enqueue-ordered s.req s.processor) (λ q k. ground (arith, k, h))))

  -- The timeout is final, and what else has been answered may be tried again.
  pub submit_round-steps_of :
      (req : TxnReq) (resp : Response) (r : TxnResp) (tp : TxnProcessor)
      → let n = steps_of resp.status resp.err in
        Keeps
          (λ s. (n ≡ 3) ⊎ ((n ≡ 1) × (s.waiting ≡ none)))
          (submit_round node clock req resp r tp)
  unfolding submit_round
  submit_round-steps_of req resp r tp = elim (steps_of-cases resp.status resp.err) [
    | inl three ↦
        Keeps-mono _ _ (submit_round node clock req resp r tp) (Keeps-any _) (λ s h. inl three)
    | inr (e, s, (text, h)) ↦ rw (s, h) (inr (refl, refl))
  ]
