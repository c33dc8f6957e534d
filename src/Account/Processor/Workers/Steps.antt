-- ===== src/Account/Processor/Workers/Steps.antt =====
-- One round of a worker, and one step of the processor, keep it live.
use relayer2_public.Base.{
  if◌then◌else◌, ℕ, ◌<◌, ◌≡◌, Bool, true, false, List, [], ◌∷◌, arith, length, Survives,
  Survives-Keeps, Keeps,
}
use relayer2_public.Account.Queue.{Round, waits, ends, works, worker_round}
use relayer2_public.Account.Request.{TxnReq}
use relayer2_public.Account.Nonce.{Node}
use relayer2_public.Account.Processor.{TxnProcessor, Clock, sort, requeue, send, enqueue_unordered}
use relayer2_public.Account.Processor.Liveness.{
  IsOpen, IsLive, enqueue_unordered-IsLive, requeue-IsLive, sort-IsLive, send-IsLive,
}

-- The processor stays live, with as many keys.
abbrev pub Stays : TxnProcessor → TxnProcessor → Type 0
Stays tp tp' = IsLive tp' × (length tp'.keys ≡ length tp.keys)

-- A round that receives a request of an open queue leaves the queue open, and the request has a key.
abbrev pub IsSoundRound : ℕ → Round TxnReq → Type 0
IsSoundRound n (works req q stop) = IsOpen n q × (req.processor_index < n)
IsSoundRound n waits = Unit
IsSoundRound n ends = Unit

round_if :
    (n : ℕ) (b : Bool) (r s : Round TxnReq)
    → IsSoundRound n r
    → IsSoundRound n s
    → IsSoundRound n (if b then r else s)
round_if n true r s h k = h
round_if n false r s h k = k

pub worker_round-IsSound :
    (n : ℕ) (prefer_cancel : Bool) (items : List TxnReq) (capacity : ℕ) (closed cancelled : Bool)
    → IsOpen n
        (record { items = items; capacity = capacity; closed = closed; cancelled = cancelled })
    → IsSoundRound n (
        worker_round prefer_cancel
          (record { items = items; capacity = capacity; closed = closed; cancelled = cancelled }))
unfolding worker_round
worker_round-IsSound n prefer_cancel [] capacity closed cancelled h =
    round_if n cancelled _ _ (rw h.0 tt) (round_if n closed ends waits tt tt)
worker_round-IsSound n prefer_cancel (req ∷ items) capacity closed cancelled (o, (inside, rest)) =
    round_if n cancelled _ _ (round_if n prefer_cancel ends _ tt ((o, rest), inside))
      ((o, rest), inside)

module _ {Q : Type 0} (node : Node Q) (tp : TxnProcessor) where
  sort_keys :
      (clock : Clock) (req : TxnReq)
      → Keeps (λ r. length r.0.keys ≡ length tp.keys) (sort node clock req tp)
  unfolding sort
  sort_keys clock req = ground arith

  requeue_keys : (req : TxnReq) → Keeps (λ r. length r.0.keys ≡ length tp.keys) (requeue req tp)
  unfolding requeue
  requeue_keys req = ground arith

  send_keys :
      (clock : Clock) (req : TxnReq)
      → Keeps (λ r. length r.0.keys ≡ length tp.keys) (send node clock req tp)
  unfolding send
  send_keys clock req = ground arith

  submit_keys :
      (req : TxnReq) → Keeps (λ r. length r.keys ≡ length tp.keys) (enqueue_unordered req tp)
  submit_keys req = ground arith

  module _ (live : IsLive tp) where
    pub submit-Stays :
        (req : TxnReq)
        → req.processor_index < length tp.keys
        → Survives (Stays tp) (enqueue_unordered req tp)
    submit-Stays req inside =
        Survives-Keeps _ _ _ (enqueue_unordered req tp)
          (enqueue_unordered-IsLive req tp live inside) (submit_keys req) (λ r l k. (l, k))

    pub requeue-Stays :
        (req : TxnReq)
        → req.processor_index < length tp.keys
        → Survives (λ r. Stays tp r.0) (requeue req tp)
    requeue-Stays req inside =
        Survives-Keeps _ _ _ (requeue req tp) (requeue-IsLive req tp live inside) (requeue_keys req)
          (λ r l k. (l, k))

    pub sort-Stays :
        (clock : Clock) (req : TxnReq)
        → req.processor_index < length tp.keys
        → Survives (λ r. Stays tp r.0) (sort node clock req tp)
    sort-Stays clock req inside =
        Survives-Keeps _ _ _ (sort node clock req tp) (sort-IsLive req node clock tp live inside)
          (sort_keys clock req) (λ r l k. (l, k))

    pub send-Stays :
        (clock : Clock) (req : TxnReq)
        → req.processor_index < length tp.keys
        → Survives (λ r. Stays tp r.0) (send node clock req tp)
    send-Stays clock req inside =
        Survives-Keeps _ _ _ (send node clock req tp) (send-IsLive req node clock tp live inside)
          (send_keys clock req) (λ r l k. (l, k))
