-- ===== src/Account/Queue/Drain.antt =====
-- A queue keeps its order and its bound, and `Close` lets the worker drain it.
use relayer2_public.Base.{
  if◌then◌else◌, ◌≤◌, ◌<◌, ◌≡◌, refl, Bool, true, false, List, [], ◌∷◌, ◌++◌, arith, length,
  length-append, Keeps,
}
use relayer2_public.Account.Queue.{TxnQ, try_enqueue, start_worker}

module _ {T : Type 0} where
  abbrev pub Fits : TxnQ T → Type 0
  Fits q = length q.items ≤ q.capacity

  -- `TryEnqueue` puts an item at the end and says so, or changes nothing and says so; the bound stays.
  try_enqueue-Fits :
      (x : T) (q : TxnQ T)
      → Fits q
      → Keeps
          (λ r. Fits r.0 × (r.0 ≡ (if r.1 then record q { items = q.items ++ x ∷ [] } else q)))
          (try_enqueue x q)
  unfolding try_enqueue
  try_enqueue-Fits x q h = ground (arith, length-append q.items (x ∷ []))

  -- After `Close` the worker runs on each item that is left, in order, and then it ends.
  pub close-start_worker :
      (items : List T) (q : TxnQ T) (choices : List Bool)
      → q.items ≡ items
      → q.cancelled ≡ false
      → q.closed ≡ true
      → length items < length choices
      → start_worker choices q ≡ (items, true)
  unfolding start_worker
  close-start_worker [] q [] e open_ shut lt = absurd (omega arith)
  close-start_worker [] q (c ∷ choices) e open_ shut lt = ground arith
  close-start_worker (x ∷ items) q [] e open_ shut lt = absurd (omega arith)
  close-start_worker (x ∷ items) q (c ∷ choices) e open_ shut lt =
      ground (arith, close-start_worker items (record q { items = items }) choices refl open_ shut)
