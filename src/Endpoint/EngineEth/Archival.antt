-- ===== src/Endpoint/EngineEth/Archival.antt =====
-- Which node the methods of endpoint/engineEth.go ask.
use relayer2_public.Base.{
  ℕ, ◌+◌, ◌-◌, ◌<◌, ◌≤◌, ◌^◌, ◌≡◌, Bool, true, false, Option, none, some, List, arith, leb, ltb,
  Bool-cases, inl, inr, if◌then◌else◌, ok, done,
}
use relayer2_public.Base.Int.{ℤ, pos, negsuc, ltb_ℤ, eq_ℤ, signed64}
use relayer2_public.Account.Reads
use relayer2_public.Account.Reads.{Reply, Connections, Decoders, view_from}
use relayer2_public.Endpoint.EngineEth.{
  BlockNumberOrHash, BlockNumbers, Db, epoch_duration_to_use_archival_node,
  block_number_by_number_or_hash, should_use_archival, older_than_epoch, ask_at, with_block,
  at_block,
}
use relayer2_public.Endpoint.EngineEth.Methods.{
  get_code, get_balance, get_transaction_count, get_storage_at, call,
}

-- The height less an epoch, as an `int64`.
above_epoch :
    (h : ℕ)
    → h < 2 ^ 63
    → epoch_duration_to_use_archival_node ≤ h
    → signed64 (h + 2 ^ 64 - epoch_duration_to_use_archival_node)
      ≡ pos (h - epoch_duration_to_use_archival_node)
above_epoch h small above = ground arith

below_epoch :
    (h : ℕ)
    → h < epoch_duration_to_use_archival_node
    → signed64 (h + 2 ^ 64 - epoch_duration_to_use_archival_node)
      ≡ negsuc (epoch_duration_to_use_archival_node - h - 1)
below_epoch h below = ground arith

ltb_epoch :
    (n h : ℕ)
    → h < 2 ^ 63
    → (if ltb_ℤ (signed64 (h + 2 ^ 64 - epoch_duration_to_use_archival_node)) (pos n)
        then false
        else true)
      ≡ leb (n + epoch_duration_to_use_archival_node) h
ltb_epoch n h small = elim (Bool-cases (ltb h epoch_duration_to_use_archival_node)) [
  | inl below ↦ rw (below_epoch h (ground arith)) (ground arith)
  | inr above ↦ rw (above_epoch h small (ground arith)) (ground arith)
]

-- For a block that is not the latest one, and with a height below 2^63 in the database, the archival
-- node is chosen just when the block lies at least an epoch below the height.
should_use_archival-leb :
    (b : BlockNumbers) (db : Db) (bn : ℤ) (n h : ℕ)
    → eq_ℤ bn b.latest ≡ false
    → b.int64_of bn ≡ some (pos n)
    → db.block_number ≡ ok (some h)
    → h < 2 ^ 63
    → should_use_archival b db bn ≡ done (leb (n + epoch_duration_to_use_archival_node) h)
unfolding should_use_archival older_than_epoch
should_use_archival-leb b db bn n h other is_n is_h small =
    rw (other, is_h, is_n) (rw (ltb_epoch n h small))

module _ {Q T S : Type 0} (d : Decoders Q T S) (c c' : Connections) (b : BlockNumbers) (db : Db)
    (p : Option BlockNumberOrHash) (bn : ℤ) (args : List ℕ) where
  -- Two sets of connections that every method answers alike from.
  abbrev pub AnswersAlike : Type 0
  AnswersAlike =
      (get_code d c b db args p ≡ get_code d c' b db args p)
      × (get_balance d c b db args p ≡ get_balance d c' b db args p)
      × (get_transaction_count d c b db args p ≡ get_transaction_count d c' b db args p)
      × (get_storage_at d c b db (ok args) p ≡ get_storage_at d c' b db (ok args) p)
      × (call d c b db none (ok args) p ≡ call d c' b db none (ok args) p)

  module _ (resolved : block_number_by_number_or_hash b db p ≡ done (ok bn)) where
    at_block-same :
        {A : Type 0} (archival : Bool) (ask ask' : Option ℤ → Bool → Reply A)
        → should_use_archival b db bn ≡ done archival
        → ask (b.int64_of bn) archival ≡ ask' (b.int64_of bn) archival
        → at_block b db p ask ≡ at_block b db p ask'
    unfolding at_block with_block ask_at
    at_block-same archival ask ask' chosen same = rw (resolved, chosen, same)

    -- Where the block does not call for the archival node, the answers of the methods depend on the
    -- other node alone.
    pub recent-AnswersAlike :
        should_use_archival b db bn ≡ done false → c.near_account ≡ c'.near_account → AnswersAlike
    unfolding get_code get_balance get_transaction_count get_storage_at call Reads.get_code
        Reads.get_balance Reads.get_transaction_count Reads.get_storage_at Reads.call view_from
    recent-AnswersAlike recent same = (
      at_block-same false (Reads.get_code d c args) (Reads.get_code d c' args) recent (rw same),
      at_block-same false (Reads.get_balance d c args) (Reads.get_balance d c' args) recent
          (rw same),
      at_block-same false (Reads.get_transaction_count d c args)
          (Reads.get_transaction_count d c' args) recent (rw same),
      at_block-same false (Reads.get_storage_at d c args) (Reads.get_storage_at d c' args) recent
          (rw same),
      at_block-same false (Reads.call d c args) (Reads.call d c' args) recent (rw same),
    )

    -- Where it does, they depend on the archival node alone.
    old-AnswersAlike :
        should_use_archival b db bn ≡ done true
        → c.near_archival_account ≡ c'.near_archival_account
        → AnswersAlike
    unfolding get_code get_balance get_transaction_count get_storage_at call Reads.get_code
        Reads.get_balance Reads.get_transaction_count Reads.get_storage_at Reads.call view_from
    old-AnswersAlike old same = (
      at_block-same true (Reads.get_code d c args) (Reads.get_code d c' args) old (rw same),
      at_block-same true (Reads.get_balance d c args) (Reads.get_balance d c' args) old (rw same),
      at_block-same true (Reads.get_transaction_count d c args)
          (Reads.get_transaction_count d c' args) old (rw same),
      at_block-same true (Reads.get_storage_at d c args) (Reads.get_storage_at d c' args) old
          (rw same),
      at_block-same true (Reads.call d c args) (Reads.call d c' args) old (rw same),
    )
