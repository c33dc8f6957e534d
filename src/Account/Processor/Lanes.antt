-- ===== src/Account/Processor/Lanes.antt =====
-- From the sorting of the transactions to the ordered queues that `send` is run on.
use mathlib.Core.List.{append-nil, append_assoc}
use relayer2_public.Base.{
  ℕ, zero, suc, ◌<◌, ◌==◌, ◌≡◌, refl, sym, ap, ◌∙◌, Bool, true, false, ◌&&◌, Option, none, some,
  List, [], ◌∷◌, ◌++◌, arith, ltb, length, length-set, get_elem?, set, get_elem?-lt, All,
  All-get_elem?, All-set, if◌then◌else◌, done, blocked, Survives, Survives-bind, Survives-if,
}
use relayer2_public.Account.Queue.{TxnQ, enqueue}
use relayer2_public.Account.Request.{TxnReq, expired}
use relayer2_public.Account.Nonce.{NonceCache, Node, lookup}
use relayer2_public.Account.Processor.{
  TxnProcessor, Clock, Sorted, enqueue_ordered, queue, sort_by, sort,
}
use relayer2_public.Account.Processor.Liveness.{IsOpen, IsLive, push-IsOpen}
use relayer2_public.Account.Processor.Order.{is_queued, sort_all}

-- What waits in the ordered queue of a key, the oldest first.
abbrev pub lane_of : ℕ → List (TxnQ TxnReq) → List TxnReq
lane_of i [] = []
lane_of zero (q ∷ qs) = q.items
lane_of (suc i) (q ∷ qs) = lane_of i qs

abbrev pub lane : ℕ → TxnProcessor → List TxnReq
lane i tp = lane_of i tp.ordered

-- The requests for one key.
abbrev pub for_key : ℕ → List TxnReq → List TxnReq
for_key i [] = []
for_key i (req ∷ reqs) = if req.processor_index == i then req ∷ for_key i reqs else for_key i reqs

lane_of-set :
    (i j : ℕ) (qs : List (TxnQ TxnReq)) (q q' : TxnQ TxnReq) (req : TxnReq)
    → get_elem? qs j ≡ some q
    → q'.items ≡ q.items ++ (req ∷ [])
    → lane_of i (set qs j q') ≡ lane_of i qs ++ (if j == i then req ∷ [] else [])
lane_of-set i j [] q q' req e k = cc
lane_of-set zero zero (p ∷ qs) q q' req e k = ground (arith, e, k)
lane_of-set (suc i) zero (p ∷ qs) q q' req e k = ground (arith, append-nil (lane_of i qs))
lane_of-set zero (suc j) (p ∷ qs) q q' req e k = ground (arith, append-nil p.items)
lane_of-set (suc i) (suc j) (p ∷ qs) q q' req e k = lane_of-set i j qs q q' req e k ∙ ground arith

module _ (i : ℕ) (req : TxnReq) where
  -- The lanes after one request.
  abbrev Handed : TxnProcessor → TxnProcessor × Sorted → Type 0
  Handed tp r =
      IsLive r.0
      × (length r.0.keys ≡ length tp.keys)
      × (lane i r.0
          ≡ lane i tp ++ (if is_queued r.1 && (req.processor_index == i) then req ∷ [] else []))

  enqueue-back :
      (n : ℕ) (q : TxnQ TxnReq)
      → req.processor_index < n
      → IsOpen n q
      → Survives (λ q'. IsOpen n q' × (q'.items ≡ q.items ++ (req ∷ []))) (enqueue req q)
  unfolding enqueue
  enqueue-back n q inside o = rw o.0 (
      Survives-if (λ q'. IsOpen n q' × (q'.items ≡ q.items ++ (req ∷ [])))
        (ltb (length q.items) q.capacity) (done _) blocked
        ((refl, (push-IsOpen n req q inside o).1), refl) tt)

  -- The processor after a send to an ordered queue.
  abbrev Sends : TxnProcessor → TxnProcessor → Type 0
  Sends tp tp' =
      IsLive tp'
      × (length tp'.keys ≡ length tp.keys)
      × (lane i tp' ≡ lane i tp ++ (if req.processor_index == i then req ∷ [] else []))

  enqueue_ordered-Sends :
      (tp : TxnProcessor)
      → IsLive tp
      → req.processor_index < length tp.keys
      → Survives (Sends tp) (enqueue_ordered req tp)
  enqueue_ordered-Sends tp (u, o, b, us, os) inside =
      let (q, found) = get_elem?-lt tp.ordered req.processor_index (omega arith) in
      rw found (
        Survives-bind (λ q'. (IsOpen (length tp.keys)) q' × (q'.items ≡ q.items ++ (req ∷ [])))
          (Sends tp) (enqueue req q) _
          (enqueue-back (length tp.keys) q inside
            (All-get_elem? (IsOpen (length tp.keys)) tp.ordered req.processor_index q os found))
          (λ q' k. (
            (
              u,
              omega (arith, length-set tp.ordered req.processor_index q'),
              b,
              us,
              All-set (IsOpen (length tp.keys)) tp.ordered req.processor_index q' os k.0,
            ),
            refl,
            lane_of-set i req.processor_index tp.ordered q q' req found k.1,
          )))

  queue-Handed :
      (tp : TxnProcessor)
      → IsLive tp
      → req.processor_index < length tp.keys
      → Survives (Handed tp) (queue req tp)
  queue-Handed tp live inside =
      Survives-bind (Sends tp) (Handed tp) (enqueue_ordered req tp) _
        (enqueue_ordered-Sends tp live inside) (λ tp' h. h)

  module _ {Q : Type 0} (node : Node Q) (clock : Clock) (tp : TxnProcessor) (live : IsLive tp)
      (inside : req.processor_index < length tp.keys) where
    sort_by-Handed : (o : Option NonceCache) → Survives (Handed tp) (sort_by node clock o req tp)
    unfolding sort_by
    sort_by-Handed none = queue-Handed _ live inside
    sort_by-Handed (some nc) =
        Survives-if (Handed tp) (nc.nonce == req.nonce) _ _ (queue-Handed _ live inside) (
          Survives-if (Handed tp) req.retransmit _ _ (queue-Handed tp live inside) (
            Survives-if (Handed tp) (ltb req.nonce nc.nonce) (done _) (done _)
              (live, refl, sym (append-nil (lane i tp)))
              (live, refl, sym (append-nil (lane i tp)))))

    sort-Handed : Survives (Handed tp) (sort node clock req tp)
    unfolding sort
    sort-Handed =
        Survives-if (Handed tp) (expired clock.first req) (done _) _
          (live, refl, sym (append-nil (lane i tp)))
          (sort_by-Handed (lookup req.sender.hex tp.eth_nonce_cache))

-- Each request is for a key that exists.
abbrev pub AreInside : TxnProcessor → List (Clock × TxnReq) → Type 0
AreInside tp reqs = All (λ a. a.1.processor_index < length tp.keys) reqs

for_key-append :
    (i : ℕ) (b : Bool) (req : TxnReq) (reqs before : List TxnReq)
    → (before ++ (if b && (req.processor_index == i) then req ∷ [] else [])) ++ for_key i reqs
      ≡ before ++ for_key i (if b then req ∷ reqs else reqs)
for_key-append i true req reqs before = append_assoc before _ (for_key i reqs) ∙ ground arith
for_key-append i false req reqs before = append_assoc before [] (for_key i reqs)

AreInside-keys :
    (tp tp' : TxnProcessor) (reqs : List (Clock × TxnReq))
    → length tp'.keys ≡ length tp.keys
    → AreInside tp reqs
    → AreInside tp' reqs
AreInside-keys tp tp' [] e h = tt
AreInside-keys tp tp' (a ∷ reqs) e (h, hs) = (omega arith, AreInside-keys tp tp' reqs e hs)

-- Sorting requests whose keys exist does not panic in a live processor; it leaves the processor live,
-- and appends to the ordered queue of each key the requests for that key that were let through, in the
-- order of their sorting, and nothing else.
pub sort_all-lane :
    {Q : Type 0} (node : Node Q) (i : ℕ) (reqs : List (Clock × TxnReq)) (tp : TxnProcessor)
    → IsLive tp
    → AreInside tp reqs
    → Survives (λ r. IsLive r.0 × (lane i r.0 ≡ lane i tp ++ for_key i r.1)) (sort_all node reqs tp)
unfolding sort_all
sort_all-lane node i [] tp live inside = (live, sym (append-nil (lane i tp)))
sort_all-lane node i ((clock, req) ∷ rest) tp live inside =
    Survives-bind (Handed i req tp) _ (sort node clock req tp) _
      (sort-Handed i req node clock tp live inside.0)
      (λ r h.
        Survives-bind _ _ (sort_all node rest r.0) _
          (sort_all-lane node i rest r.0 h.0 (AreInside-keys tp r.0 rest h.1 inside.1))
          (λ s k. (
            k.0,
            k.1
                ∙ ap (λ l. l ++ for_key i s.1) h.2
                ∙ for_key-append i (is_queued r.1) req s.1 (lane i tp),
          )))
