-- ===== src/Account/Processor/Liveness.antt =====
-- The processor between its opening and its closing: nothing in it panics.
use relayer2_public.Base.{
  ◌++◌, blocked, ℕ, String, ◌<◌, ◌==◌, ◌≡◌, refl, false, Option, none, some, List, [], ◌∷◌, arith,
  ltb, length, length-set, get_elem?-lt, All, All-get_elem?, All-set, All-append, done, Survives,
  Survives-bind, Survives-if, Outcome, ok, err,
}
use relayer2_public.Account.Queue.{TxnQ, new_txn_q, try_enqueue, enqueue}
use relayer2_public.Account.Request.{TxnReq, expired}
use relayer2_public.Account.Nonce.{NonceCache, Cache, Node, lookup, q_cap, next_near_nonce}
use relayer2_public.Account.Processor.{
  TxnProcessor, Clock, for_each_key, new_txn_processor, enqueue_ordered, enqueue_unordered,
  try_enqueue_unordered, queue, sort_by, sort, requeue, send, send_as,
}

-- The queue is open, and each request in it is for one of so many keys.
abbrev pub IsOpen : ℕ → TxnQ TxnReq → Type 0
IsOpen n q = (q.closed ≡ false) × All (λ req. req.processor_index < n) q.items

-- Each key has its two queues, which are open, and its circuit breaker, and no request waits for
-- another key.
abbrev pub IsLive : TxnProcessor → Type 0
IsLive tp =
    (length tp.unordered ≡ length tp.keys)
    × (length tp.ordered ≡ length tp.keys)
    × (length tp.circuit_breaker ≡ length tp.keys)
    × All (IsOpen (length tp.keys)) tp.unordered
    × All (IsOpen (length tp.keys)) tp.ordered

length-for_each_key {ℓ} :
    {A : Type ℓ} (a : A) (keys : List String) → length (for_each_key a keys) ≡ length keys
length-for_each_key a [] = refl
length-for_each_key a (k ∷ keys) = rw (length-for_each_key a keys)

All-for_each_key {ℓ} :
    {A : Type ℓ} (P : A → Type 0) (a : A) (keys : List String) → P a → All P (for_each_key a keys)
All-for_each_key P a [] h = tt
All-for_each_key P a (k ∷ keys) h = (h, All-for_each_key P a keys h)

-- A processor is live from the start.
pub new_txn_processor-IsLive :
    (mapper : String) (price limit : ℕ) (keys : List String)
    → IsLive (new_txn_processor mapper price limit keys)
unfolding new_txn_processor
new_txn_processor-IsLive mapper price limit keys = (
  length-for_each_key (new_txn_q q_cap) keys,
  length-for_each_key (new_txn_q q_cap) keys,
  length-for_each_key false keys,
  All-for_each_key (IsOpen (length keys)) (new_txn_q q_cap) keys (refl, tt),
  All-for_each_key (IsOpen (length keys)) (new_txn_q q_cap) keys (refl, tt),
)

pub push-IsOpen :
    (n : ℕ) (req : TxnReq) (q : TxnQ TxnReq)
    → req.processor_index < n
    → IsOpen n q
    → IsOpen n (record q { items = q.items ++ (req ∷ []) })
push-IsOpen n req q inside (o, us) =
    (o, All-append (λ req. req.processor_index < n) q.items (req ∷ []) us (inside, tt))

enqueue-IsOpen :
    (n : ℕ) (req : TxnReq) (q : TxnQ TxnReq)
    → req.processor_index < n
    → IsOpen n q
    → Survives (IsOpen n) (enqueue req q)
unfolding enqueue
enqueue-IsOpen n req q inside o = rw o.0 (
    Survives-if (IsOpen n) (ltb (length q.items) q.capacity) (done _) blocked
      (refl, (push-IsOpen n req q inside o).1) tt)

try_enqueue-IsOpen :
    (n : ℕ) (req : TxnReq) (q : TxnQ TxnReq)
    → req.processor_index < n
    → IsOpen n q
    → Survives (λ r. IsOpen n r.0) (try_enqueue req q)
unfolding try_enqueue
try_enqueue-IsOpen n req q inside o = rw o.0 (
    Survives-if (λ r. IsOpen n r.0) (ltb (length q.items) q.capacity) (done _) (done _)
      (refl, (push-IsOpen n req q inside o).1) (refl, o.1))

module _ (req : TxnReq) where
  enqueue_ordered-IsLive :
      (tp : TxnProcessor)
      → IsLive tp
      → req.processor_index < length tp.keys
      → Survives IsLive (enqueue_ordered req tp)
  enqueue_ordered-IsLive tp (u, o, b, us, os) inside =
      let (q, found) = get_elem?-lt tp.ordered req.processor_index (omega arith) in
      rw found (
        Survives-bind (IsOpen (length tp.keys)) IsLive (enqueue req q) _
          (enqueue-IsOpen (length tp.keys) req q inside
            (All-get_elem? (IsOpen (length tp.keys)) tp.ordered req.processor_index q os found))
          (λ q' o'. (
            u,
            omega (arith, length-set tp.ordered req.processor_index q'),
            b,
            us,
            All-set (IsOpen (length tp.keys)) tp.ordered req.processor_index q' os o',
          )))

  queue-IsLive :
      (tp : TxnProcessor)
      → IsLive tp
      → req.processor_index < length tp.keys
      → Survives (λ r. IsLive r.0) (queue req tp)
  queue-IsLive tp live inside =
      Survives-bind IsLive (λ r. IsLive r.0) (enqueue_ordered req tp) _
        (enqueue_ordered-IsLive tp live inside) (λ tp' l. l)

  pub enqueue_unordered-IsLive :
      (tp : TxnProcessor)
      → IsLive tp
      → req.processor_index < length tp.keys
      → Survives IsLive (enqueue_unordered req tp)
  enqueue_unordered-IsLive tp (u, o, b, us, os) inside =
      let (q, found) = get_elem?-lt tp.unordered req.processor_index (omega arith) in
      rw found (
        Survives-bind (IsOpen (length tp.keys)) IsLive (enqueue req q) _
          (enqueue-IsOpen (length tp.keys) req q inside
            (All-get_elem? (IsOpen (length tp.keys)) tp.unordered req.processor_index q us found))
          (λ q' o'. (
            omega (arith, length-set tp.unordered req.processor_index q'),
            o,
            b,
            All-set (IsOpen (length tp.keys)) tp.unordered req.processor_index q' us o',
            os,
          )))

  pub try_enqueue_unordered-IsLive :
      (tp : TxnProcessor)
      → IsLive tp
      → req.processor_index < length tp.keys
      → Survives (λ r. IsLive r.0) (try_enqueue_unordered req tp)
  try_enqueue_unordered-IsLive tp (u, o, b, us, os) inside =
      let (q, found) = get_elem?-lt tp.unordered req.processor_index (omega arith) in
      rw found (
        Survives-bind (λ r. IsOpen (length tp.keys) r.0) (λ r. IsLive r.0) (try_enqueue req q) _
          (try_enqueue-IsOpen (length tp.keys) req q inside
            (All-get_elem? (IsOpen (length tp.keys)) tp.unordered req.processor_index q us found))
          (λ r o'. (
            omega (arith, length-set tp.unordered req.processor_index r.0),
            o,
            b,
            All-set (IsOpen (length tp.keys)) tp.unordered req.processor_index r.0 us o',
            os,
          )))

  pub requeue-IsLive :
      (tp : TxnProcessor)
      → IsLive tp
      → req.processor_index < length tp.keys
      → Survives (λ r. IsLive r.0) (requeue req tp)
  unfolding requeue
  requeue-IsLive tp live inside =
      Survives-bind (λ r. IsLive r.0) (λ r. IsLive r.0) (try_enqueue_unordered req tp) _
        (try_enqueue_unordered-IsLive tp live inside) (λ r l. l)

  module _ {Q : Type 0} (node : Node Q) (clock : Clock) (tp : TxnProcessor) (live : IsLive tp)
      (inside : req.processor_index < length tp.keys) where
    sort_by-IsLive :
        (o : Option NonceCache) → Survives (λ r. IsLive r.0) (sort_by node clock o req tp)
    unfolding sort_by
    sort_by-IsLive none = queue-IsLive _ live inside
    sort_by-IsLive (some nc) =
        Survives-if (λ r. IsLive r.0) (nc.nonce == req.nonce) _ _ (queue-IsLive _ live inside)
          (Survives-if (λ r. IsLive r.0) req.retransmit _ _ (queue-IsLive tp live inside)
            (Survives-if (λ r. IsLive r.0) (ltb req.nonce nc.nonce) (done _) (done _) live live))

    pub sort-IsLive : Survives (λ r. IsLive r.0) (sort node clock req tp)
    unfolding sort
    sort-IsLive =
        Survives-if (λ r. IsLive r.0) (expired clock.first req) (done _) _ live
          (sort_by-IsLive (lookup req.sender.hex tp.eth_nonce_cache))

    send_as-IsLive : (key : String) (p : Cache × Outcome ℕ) → IsLive (send_as key p tp).0
    unfolding send_as
    send_as-IsLive key (c, err e) = live
    send_as-IsLive key (c, ok nonce) = live

    pub send-IsLive : Survives (λ r. IsLive r.0) (send node clock req tp)
    unfolding send
    send-IsLive =
        let (broken, there) =
          get_elem?-lt tp.circuit_breaker req.processor_index (omega (arith, live.2)) in
        let (key, known) = get_elem?-lt tp.keys req.processor_index inside in
        rw (there, known)
          (Survives-if (λ r. IsLive r.0) broken (done _) _ live
            (Survives-if (λ r. IsLive r.0) (expired clock.first req) (done _) (done _) live
              (send_as-IsLive key (next_near_nonce node clock.second_ key tp.near_nonce_cache))))
