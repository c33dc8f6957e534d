-- ===== src/Account/Queue.antt =====
-- account/txnQ.go. The channel holds what was sent and not yet received, the oldest first.
pub mod Drain
use relayer2_public.Base.{
  ℕ, Bool, true, false, List, [], ◌∷◌, ◌++◌, ltb, length, if◌then◌else◌, Run, done, panic, blocked,
}

pub record TxnQ {ℓ} (T : Type ℓ) : Type ℓ where
  pub items : List T
  pub capacity : ℕ
  pub closed : Bool
  pub cancelled : Bool

module _ {ℓ} {T : Type ℓ} where
  unfoldable pub new_txn_q : ℕ → TxnQ T
  new_txn_q capacity = record { items = []; capacity = capacity; closed = false; cancelled = false }

  abbrev push : T → TxnQ T → TxnQ T
  push data_ q = record q { items = q.items ++ data_ ∷ [] }

  -- A send on a closed channel panics.
  unfoldable pub try_enqueue : T → TxnQ T → Run (TxnQ T × Bool)
  try_enqueue data_ q =
      if q.closed
      then panic
      else if ltb (length q.items) q.capacity
      then done (push data_ q, true)
      else done (q, false)

  unfoldable pub enqueue : T → TxnQ T → Run (TxnQ T)
  enqueue data_ q =
      if q.closed
      then panic
      else if ltb (length q.items) q.capacity
      then done (push data_ q)
      else blocked

  -- `Close` up to its wait for the workers; `Cancel`.
  unfoldable pub close : TxnQ T → Run (TxnQ T)
  close q = if q.closed then panic else done (record q { closed = true })

  unfoldable pub cancel : TxnQ T → TxnQ T
  cancel q = record q { cancelled = true }

-- What one round of a worker comes to: it waits, it ends, or it has run on an item, after which it
-- goes on or ends.
pub data Round {ℓ} (T : Type ℓ) : Type ℓ where
  waits ends : Round T
  works : T → TxnQ T → Bool → Round T

module _ {ℓ} {T : Type ℓ} where
  receive : List T → TxnQ T → Round T
  receive [] q = if q.closed then ends else waits
  receive (data_ ∷ rest) q = works data_ (record q { items = rest }) q.cancelled

  -- `prefer_cancel` is the choice of the `select` where both of its cases are ready.
  unfoldable pub worker_round : Bool → TxnQ T → Round T
  unfolding receive
  worker_round prefer_cancel q =
      if q.cancelled
      then elim (receive q.items q) [
        | works data_ rest stop ↦ if prefer_cancel then ends else works data_ rest stop
        | _ ↦ ends
      ]
      else receive q.items q

  -- A worker over the choices of its rounds: the items that it ran on, and whether it has ended.
  unfoldable pub start_worker : List Bool → TxnQ T → List T × Bool
  unfolding worker_round
  start_worker [] q = ([], false)
  start_worker (c ∷ choices) q = elim (worker_round c q) [
    | waits ↦ ([], false)
    | ends ↦ ([], true)
    | works data_ rest stop ↦
        if stop
        then (data_ ∷ [], true)
        else (let (items, ended) = start_worker choices rest in (data_ ∷ items, ended))
  ]
