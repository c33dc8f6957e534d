-- ===== src/Account/Processor/Workers/Safety.antt =====
-- Nothing that the workers of a processor do panics.
use relayer2_public.Base.{
  Returns-Survives, sym, ℕ, String, ◌<◌, ◌≡◌, refl, Bool, some, List, [], ◌∷◌, arith, length,
  length-set, get_elem?, set, get_elem?-lt, All, All-get_elem?, All-set, Survives, Survives-bind,
}
use mathlib.Core.Path.{subst}
use relayer2_public.Account.Queue.{TxnQ, Round, waits, ends, works, worker_round}
use relayer2_public.Account.Request.{TxnReq}
use relayer2_public.Account.Nonce.{Node}
use relayer2_public.Account.Processor.{TxnProcessor, Clock, new_txn_processor, sort, requeue, send}
use relayer2_public.Account.Processor.Liveness.{IsOpen, IsLive, new_txn_processor-IsLive}
use relayer2_public.Account.Processor.Eval.{settle, open_breaker}
use relayer2_public.Account.Processor.Settling.{settle-IsLive}
use relayer2_public.Account.Processor.Workers.{
  Event, submits, sorts, requeues, sends, settles, sort_received, send_received, perform, work,
}
use relayer2_public.Account.Processor.Workers.Steps.{
  Stays, IsSoundRound, worker_round-IsSound, submit-Stays, requeue-Stays, sort-Stays, send-Stays,
}

-- The event is about one of so many keys.
abbrev pub IsFor : ℕ → Event → Type 0
IsFor n (submits req) = req.processor_index < n
IsFor n (sorts prefer_cancel clock i) = i < n
IsFor n (requeues req) = req.processor_index < n
IsFor n (sends prefer_cancel clock i) = i < n
IsFor n (settles clock req resp) = req.processor_index < n

module _ {Q : Type 0} (node : Node Q) (tp : TxnProcessor) (live : IsLive tp) where
  pub unordered-IsLive :
      (i : ℕ) (q : TxnQ TxnReq)
      → IsOpen (length tp.keys) q
      → IsLive (record tp { unordered = set tp.unordered i q })
  unordered-IsLive i q open_ =
      let (u, o, b, us, os) = live in
      (
        omega (arith, length-set tp.unordered i q),
        o,
        b,
        All-set (IsOpen (length tp.keys)) tp.unordered i q us open_,
        os,
      )

  pub ordered-IsLive :
      (i : ℕ) (q : TxnQ TxnReq)
      → IsOpen (length tp.keys) q
      → IsLive (record tp { ordered = set tp.ordered i q })
  ordered-IsLive i q open_ =
      let (u, o, b, us, os) = live in
      (
        u,
        omega (arith, length-set tp.ordered i q),
        b,
        us,
        All-set (IsOpen (length tp.keys)) tp.ordered i q os open_,
      )

  sort_received-Stays :
      (clock : Clock) (i : ℕ) (r : Round TxnReq)
      → IsSoundRound (length tp.keys) r
      → Survives (Stays tp) (sort_received node clock i tp r)
  unfolding sort_received
  sort_received-Stays clock i waits h = (live, refl)
  sort_received-Stays clock i ends h = (live, refl)
  sort_received-Stays clock i (works req q stop) (open_, inside) =
      Survives-bind (λ r. Stays tp r.0) (Stays tp) (sort node clock req _) _
        (sort-Stays node (record tp { unordered = set tp.unordered i q })
          (unordered-IsLive i q open_) clock req inside)
        (λ r h. h)

  send_received-Stays :
      (clock : Clock) (i : ℕ) (r : Round TxnReq)
      → IsSoundRound (length tp.keys) r
      → Survives (Stays tp) (send_received node clock i tp r)
  unfolding send_received
  send_received-Stays clock i waits h = (live, refl)
  send_received-Stays clock i ends h = (live, refl)
  send_received-Stays clock i (works req q stop) (open_, inside) =
      Survives-bind (λ r. Stays tp r.0) (Stays tp) (send node clock req _) _
        (send-Stays node (record tp { ordered = set tp.ordered i q }) (ordered-IsLive i q open_)
          clock req inside)
        (λ r h. h)

  pub round_of :
      (prefer_cancel : Bool) (i : ℕ) (qs : List (TxnQ TxnReq)) (q : TxnQ TxnReq)
      → All (IsOpen (length tp.keys)) qs
      → get_elem? qs i ≡ some q
      → IsSoundRound (length tp.keys) (worker_round prefer_cancel q)
  round_of prefer_cancel i qs q h e =
      worker_round-IsSound (length tp.keys) prefer_cancel q.items q.capacity q.closed q.cancelled
        (All-get_elem? (IsOpen (length tp.keys)) qs i q h e)

  perform-Stays : (a : Event) → IsFor (length tp.keys) a → Survives (Stays tp) (perform node a tp)
  unfolding perform
  perform-Stays (submits req) inside = submit-Stays node tp live req inside
  perform-Stays (requeues req) inside =
      Survives-bind (λ r. Stays tp r.0) (Stays tp) (requeue req tp) _
        (requeue-Stays node tp live req inside) (λ r h. h)
  perform-Stays (sorts prefer_cancel clock i) inside =
      let (u, o, b, us, os) = live in
      let (q, found) = get_elem?-lt tp.unordered i (omega arith) in
      rw found (
        sort_received-Stays clock i (worker_round prefer_cancel q)
          (round_of prefer_cancel i tp.unordered q us found))
  perform-Stays (sends prefer_cancel clock i) inside =
      let (u, o, b, us, os) = live in
      let (q, found) = get_elem?-lt tp.ordered i (omega arith) in
      rw found (
        send_received-Stays clock i (worker_round prefer_cancel q)
          (round_of prefer_cancel i tp.ordered q os found))
  perform-Stays (settles clock req resp) inside =
      Survives-bind (λ s. Stays tp s.processor) (Stays tp)
        (settle node clock req resp (open_breaker req resp tp)) _
        (Returns-Survives _ (settle node clock req resp (open_breaker req resp tp))
          (settle-IsLive node clock req resp tp live inside))
        (λ s h. h)

IsFor-keys : (n m : ℕ) (events : List Event) → m ≡ n → All (IsFor n) events → All (IsFor m) events
IsFor-keys n m events e h = subst (λ k. All (IsFor k) events) (sym e) h

module _ {Q : Type 0} (node : Node Q) where
  work-IsLive :
      (events : List Event) (tp : TxnProcessor)
      → IsLive tp
      → All (IsFor (length tp.keys)) events
      → Survives IsLive (work node events tp)
  unfolding work
  work-IsLive [] tp live h = live
  work-IsLive (a ∷ events) tp live (h, hs) =
      Survives-bind (Stays tp) IsLive (perform node a tp) _ (perform-Stays node tp live a h)
        (λ tp' k.
          work-IsLive events tp' k.0 (IsFor-keys (length tp.keys) (length tp'.keys) events k.1 hs))

  -- Whatever is submitted to a new processor for keys that it has, whatever responses are settled once
  -- they are evaluated, and however its workers and timers take turns, none of them panics, and the
  -- processor stays live: each key has its two open queues and its circuit breaker, and no request waits
  -- for a key that does not exist.
  work-new_txn_processor :
      (mapper : String) (price limit : ℕ) (keys : List String) (events : List Event)
      → All (IsFor (length keys)) events
      → Survives IsLive (work node events (new_txn_processor mapper price limit keys))
  unfolding new_txn_processor
  work-new_txn_processor mapper price limit keys events h =
      work-IsLive events (new_txn_processor mapper price limit keys)
        (new_txn_processor-IsLive mapper price limit keys) h
