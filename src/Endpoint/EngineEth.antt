-- ===== src/Endpoint/EngineEth.antt =====
-- endpoint/engineEth.go, behind the wrapper `endpoint.Process` of the base library. The
-- database gives pointers, which may be nil, with an error.
pub mod Archival
pub mod Methods
pub mod Api
mod Tests
use relayer2_public.Base.{
  ℕ, String, ◌+◌, ◌-◌, ◌^◌, Bool, true, false, Option, none, some, List, if◌then◌else◌, Outcome, ok,
  err, Run, done, ◌>>=◌, deref,
}
use relayer2_public.Base.Int.{ℤ, ltb_ℤ, eq_ℤ, signed64}
use relayer2_public.Account.Request.{Address}
use relayer2_public.Account.Reads.{Reply, fail, plain}

abbrev pub epoch_duration_to_use_archival_node : ℕ
epoch_duration_to_use_archival_node = 43_200

-- What the methods `Number` and `Hash` of a block parameter answer.
pub record BlockNumberOrHash : Type 0 where
  pub number : Option ℤ
  pub hash : Option String

-- What the base library says of block numbers: the number that stands for the latest block, and the
-- pointer that the method `Int64` returns.
pub record BlockNumbers : Type 0 where
  pub latest : ℤ
  pub int64_of : ℤ → Option ℤ

pub record Db : Type 0 where
  pub block_number : Outcome (Option ℕ)
  pub block_hash_to_number : String → Outcome (Option ℕ)

module _ (b : BlockNumbers) (db : Db) where
  unfoldable pub number_of_hash : Outcome (Option ℕ) → Run (Outcome ℤ)
  number_of_hash (err e) = done (err e)
  number_of_hash (ok tbn) = (deref tbn >>= λ n. done (ok (signed64 n)))

  unfoldable pub by_hash : Option String → Run (Outcome ℤ)
  unfolding number_of_hash
  by_hash none = done (err "invalid arguments; neither block nor hash specified")
  by_hash (some hash) = number_of_hash (db.block_hash_to_number hash)

  unfoldable pub block_number_by_number_or_hash : Option BlockNumberOrHash → Run (Outcome ℤ)
  unfolding by_hash
  block_number_by_number_or_hash none = done (ok b.latest)
  block_number_by_number_or_hash (some p) = elim p.number [
    | some tbn ↦ done (ok tbn)
    | none ↦ by_hash p.hash
  ]

  -- The difference of the height and the epoch wraps like an `int64`.
  unfoldable pub older_than_epoch : Outcome (Option ℕ) → ℤ → Run Bool
  older_than_epoch (err _) bn = done true
  older_than_epoch (ok height) bn = do
    h ← deref height
    n ← deref (b.int64_of bn)
    done (
        if ltb_ℤ (signed64 (h + 2 ^ 64 - epoch_duration_to_use_archival_node)) n
        then false
        else true)

  unfoldable pub should_use_archival : ℤ → Run Bool
  unfolding older_than_epoch
  should_use_archival bn =
      if eq_ℤ bn b.latest then done false else older_than_epoch db.block_number bn

  unfoldable pub ask_at : {A : Type 0} → (Option ℤ → Bool → Reply A) → ℤ → Run (Reply A)
  unfolding should_use_archival
  ask_at ask bn = do archival ← should_use_archival bn; done (ask (b.int64_of bn) archival)

  unfoldable pub with_block : {A : Type 0} → (Option ℤ → Bool → Reply A) → Outcome ℤ → Run (Reply A)
  unfolding ask_at
  with_block ask (err e) = done (fail (plain e))
  with_block ask (ok bn) = ask_at ask bn

  -- The last lines of a method: the block number, and then the call of the account.
  unfoldable pub at_block :
      {A : Type 0} → Option BlockNumberOrHash → (Option ℤ → Bool → Reply A) → Run (Reply A)
  unfolding with_block block_number_by_number_or_hash
  at_block p ask = (block_number_by_number_or_hash p >>= λ r. with_block ask r)
