-- ===== src/Account/Processor/Traffic/Flows.antt =====
-- No step on expired requests waits for room in a channel.
use relayer2_public.Base.{
  Bool, true, false, not, Option, none, some, arith, get_elem?, if◌then◌else◌, Run, done, panic,
  blocked, ◌>>=◌, deref, Returns, Survives, Keeps,
}
use relayer2_public.Account.Queue.{TxnQ, try_enqueue}
use relayer2_public.Account.Request.{TxnReq, Response, TxnResp}
use relayer2_public.Account.Nonce.{Node}
use relayer2_public.Account.Processor.{TxnProcessor, Clock, requeue, send, try_enqueue_unordered}
use relayer2_public.Account.Processor.Eval.{evaluate, settle, eval, open_breaker, submit_round}

-- The code ends, or it panics.
abbrev pub Flows {ℓ} : {A : Type ℓ} → Run A → Type 0
Flows (done a) = Unit
Flows panic = Unit
Flows blocked = ⊥

pub Flows-bind {ℓ κ} :
    {A : Type ℓ} {B : Type κ} (m : Run A) (f : A → Run B)
    → Flows m
    → ((a : A) → Flows (f a))
    → Flows (m >>= f)
Flows-bind (done a) f h k = k a
Flows-bind panic f h k = tt
Flows-bind blocked f h k = h

pub Returns-Flows {ℓ} : {A : Type ℓ} (P : A → Type 0) (m : Run A) → Returns P m → Flows m
Returns-Flows P (done a) h = tt
Returns-Flows P panic h = tt
Returns-Flows P blocked h = h

-- Code that does not panic and does not wait returns.
pub Flows-Returns {ℓ} :
    {A : Type ℓ} (P Q : A → Type 0) (m : Run A)
    → Flows m
    → Survives P m
    → Keeps Q m
    → Returns (λ a. P a × Q a) m
Flows-Returns P Q (done a) f h k = (h, k)
Flows-Returns P Q panic f h k = h
Flows-Returns P Q blocked f h k = f

pub Flows-if {ℓ} :
    {A : Type ℓ} (b : Bool) (m n : Run A) → Flows m → Flows n → Flows (if b then m else n)
Flows-if true m n h k = h
Flows-if false m n h k = k

pub Flows-deref {ℓ} : {A : Type ℓ} (o : Option A) → Flows (deref o)
Flows-deref none = tt
Flows-deref (some a) = tt

try_enqueue-Flows : (req : TxnReq) (q : TxnQ TxnReq) → Flows (try_enqueue req q)
unfolding try_enqueue
try_enqueue-Flows req q = ground arith

try_enqueue_unordered-Flows :
    (req : TxnReq) (tp : TxnProcessor) → Flows (try_enqueue_unordered req tp)
try_enqueue_unordered-Flows req tp =
    Flows-bind (deref (get_elem? tp.unordered req.processor_index)) _ (Flows-deref _)
      (λ q. Flows-bind (try_enqueue req q) _ (try_enqueue-Flows req q) (λ r. tt))

pub requeue-Flows : (req : TxnReq) (tp : TxnProcessor) → Flows (requeue req tp)
unfolding requeue
requeue-Flows req tp = ground arith

module _ {Q : Type 0} (node : Node Q) (clock : Clock) where
  pub send-Flows : (req : TxnReq) (tp : TxnProcessor) → Flows (send node clock req tp)
  unfolding send
  send-Flows req tp = ground arith

  settle-Flows :
      (req : TxnReq) (resp : Response) (tp : TxnProcessor) → Flows (settle node clock req resp tp)
  unfolding settle
  settle-Flows req resp tp = ground arith

  eval-Flows :
      (req : TxnReq) (resp : Response) (tp : TxnProcessor)
      → Flows (evaluate req resp)
      → Flows (eval node clock req resp tp)
  unfolding eval
  eval-Flows req resp tp readable = Flows-bind (evaluate req resp) _ readable (λ e.
      Flows-if e.succeeded (done _) _ tt (settle-Flows e.req e.resp (open_breaker e.req e.resp tp)))

  pub submit_round-Flows :
      (req : TxnReq) (resp : Response) (r : TxnResp) (tp : TxnProcessor)
      → Flows (evaluate req resp)
      → Flows (submit_round node clock req resp r tp)
  unfolding submit_round
  submit_round-Flows req resp r tp readable =
      Flows-bind (eval node clock req resp tp) _ (eval-Flows req resp tp readable) (λ s.
        Flows-if (not s.retry) (done _) _ tt (
          Flows-bind (try_enqueue_unordered s.req s.processor) _
            (try_enqueue_unordered-Flows s.req s.processor) (λ q. tt)))
