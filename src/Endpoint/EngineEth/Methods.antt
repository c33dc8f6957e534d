-- ===== src/Endpoint/EngineEth/Methods.antt =====
-- The methods of endpoint/engineEth.go that read from the engine, behind the wrapper of each.
use relayer2_public.Base.{ℕ, String, Option, none, some, List, Outcome, ok, err, Run, done}
use relayer2_public.Account.Reads
use relayer2_public.Account.Reads.{Reply, fail, generic, plain, Connections, Decoders}
use relayer2_public.Endpoint.EngineEth.{BlockNumberOrHash, BlockNumbers, Db, at_block}

-- `serialized` is what serializing the arguments gave.
module _ {Q T S : Type 0} (d : Decoders Q T S) (c : Connections) (b : BlockNumbers) (db : Db) where
  unfoldable pub get_code : List ℕ → Option BlockNumberOrHash → Run (Reply String)
  unfolding at_block
  get_code address p = at_block b db p (Reads.get_code d c address)

  unfoldable pub get_balance : List ℕ → Option BlockNumberOrHash → Run (Reply ℕ)
  unfolding at_block
  get_balance address p = at_block b db p (Reads.get_balance d c address)

  unfoldable pub get_transaction_count : List ℕ → Option BlockNumberOrHash → Run (Reply ℕ)
  unfolding at_block
  get_transaction_count address p = at_block b db p (Reads.get_transaction_count d c address)

  unfoldable pub get_storage_at : Outcome (List ℕ) → Option BlockNumberOrHash → Run (Reply String)
  unfolding at_block
  get_storage_at (err e) p = done (fail (generic e))
  get_storage_at (ok args) p = at_block b db p (Reads.get_storage_at d c args)

  -- The first argument is what `Validate` found wrong.
  unfoldable pub call :
      Option String → Outcome (List ℕ) → Option BlockNumberOrHash → Run (Reply String)
  unfolding at_block
  call (some e) serialized p = done (fail (plain e))
  call none (err e) p = done (fail (generic e))
  call none (ok args) p = at_block b db p (Reads.call d c args)
