-- ===== src/Endpoint/EngineEth/Api.antt =====
-- The exported methods of endpoint/engineEth.go and endpoint/engineNet.go, each of which hands a method of
-- the engine to the wrapper `Process` of the base library under its name, and their constructors.
use relayer2_public.Base.{ℕ, String, Bool, Option, List, Outcome, ok, err, Run, done, panic, ◌>>=◌}
use relayer2_public.Account.Opening.{Account, EngineConfig, NearConfig, new_account, close_account}
use relayer2_public.Account.Processor.{TxnProcessor, Decoder}
use relayer2_public.Account.Request.{TxnReq}
use relayer2_public.Account.Value.{Value}
use relayer2_public.Account.Reads
use relayer2_public.Account.Reads.{Reply, reply, fail, ApiError, generic, Connections, Decoders}
use relayer2_public.Endpoint.EngineEth.{BlockNumberOrHash, BlockNumbers, Db}
use relayer2_public.Endpoint.EngineEth.Methods

-- `Process` runs a method under the name of the call, or answers in its place and leaves the state.
pub record Processing : Type 1 where
  pub process : (S A : Type 0) → String → S → Run (S × Reply A) → Run (S × Reply A)

made : Outcome Account → Run Account
made (err e) = panic
made (ok a) = done a

-- `NewEngineEth`: an account that cannot be made is logged with a panic.
unfoldable pub new_engine_eth :
    (NearConfig → String → Outcome (List String)) → EngineConfig → Run Account
unfolding made new_account
new_engine_eth load c = made (new_account load c)

unfoldable pub close_engine_eth : Account → Run Account
unfolding close_account
close_engine_eth a = close_account a

module _ {Q T S : Type 0} (pr : Processing) (d : Decoders Q T S) (c : Connections)
    (b : BlockNumbers) (db : Db) where
  -- A method that changes nothing.
  process_read : {A : Type 0} → String → Run (Reply A) → Run (Reply A)
  process_read {A} name method = do
    r ← pr.process Unit A name tt (do a ← method; done (tt, a))
    done r.1

  unfoldable pub chain_id : Run (Reply ℕ)
  unfolding process_read
  chain_id = process_read "eth_chainId" (done (Reads.chain_id d c))

  unfoldable pub get_code : List ℕ → Option BlockNumberOrHash → Run (Reply String)
  unfolding process_read
  get_code address p = process_read "eth_getCode" (Methods.get_code d c b db address p)

  unfoldable pub get_balance : List ℕ → Option BlockNumberOrHash → Run (Reply ℕ)
  unfolding process_read
  get_balance address p = process_read "eth_getBalance" (Methods.get_balance d c b db address p)

  unfoldable pub get_transaction_count : List ℕ → Option BlockNumberOrHash → Run (Reply ℕ)
  unfolding process_read
  get_transaction_count address p =
      process_read "eth_getTransactionCount" (Methods.get_transaction_count d c b db address p)

  unfoldable pub get_storage_at : Outcome (List ℕ) → Option BlockNumberOrHash → Run (Reply String)
  unfolding process_read
  get_storage_at serialized p =
      process_read "eth_getStorageAt" (Methods.get_storage_at d c b db serialized p)

  unfoldable pub call :
      Option String → Outcome (List ℕ) → Option BlockNumberOrHash → Run (Reply String)
  unfolding process_read
  call invalid serialized p = process_read "eth_call" (Methods.call d c b db invalid serialized p)

  version_of : (ApiError → String) → (ℕ → String) → Reply ℕ → Reply String
  version_of error_text decimal (fail e) = fail (generic (error_text e))
  version_of error_text decimal (reply n) = reply (decimal n)

  -- `Version` of EngineNet, with the text of an error and that of a number to the base of ten.
  unfoldable pub net_version : (ApiError → String) → (ℕ → String) → Run (Reply String)
  unfolding version_of process_read
  net_version error_text decimal =
      process_read "net_version" (done (version_of error_text decimal (Reads.chain_id d c)))

  unfoldable pub send_raw_transaction :
      Decoder
      → ℕ
      → Bool
      → (TxnReq → Value × Option String)
      → List ℕ
      → TxnProcessor
      → Run (TxnProcessor × Reply String)
  send_raw_transaction decoder now async get txs tp =
      pr.process TxnProcessor String "eth_sendRawTransaction" tp
        (Reads.send_raw_transaction d decoder now async get txs tp)
