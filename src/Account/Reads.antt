-- ===== src/Account/Reads.antt =====
-- account/account.go: the calls of an account. `view` stands for `ViewFunction` of a Near connection,
-- the decoders for those of the base library; a status of a transaction can be an error of its own kind.
pub mod Errors
pub mod Submission
mod Tests
use relayer2_public.Base.{
  ℕ, String, Bool, true, false, ◌||◌, Option, none, some, List, [], ◌∷◌, contains, same_text,
  if◌then◌else◌, Outcome, ok, err, Run, done, panic, ◌>>=◌, deref, get_elem?, set,
}
use relayer2_public.Base.Int.{ℤ}
use relayer2_public.Account.Status.{success_case_for_retransmit}
use relayer2_public.Account.Value.{Value, text}
use relayer2_public.Account.Queue.{enqueue}
use relayer2_public.Account.Request.{TxnReq}
use relayer2_public.Account.Processor.{TxnProcessor, Decoder, new_txn_req, enqueue_unordered}

pub data ApiError : Type 0 where
  generic txs_status invalid_params plain : String → ApiError

pub data Reply (A : Type 0) : Type 0 where
  reply : A → Reply A
  fail : ApiError → Reply A

abbrev pub View : Type 0
View = String → List ℕ → Option ℤ → Outcome Value

-- The two connections of an account.
pub record Connections : Type 0 where
  pub near_account : View
  pub near_archival_account : View

pub data StatusResult (T : Type 0) : Type 0 where
  status : T → StatusResult T
  txs_error other_error : String → StatusResult T

pub record Decoders (Q T S : Type 0) : Type 0 where
  pub new_query_result : Value → Outcome Q
  pub to_string_response : Q → Reply String
  pub to_uint256_response : Q → Reply ℕ
  pub new_transaction_status : Value → StatusResult T
  pub transaction_response : T → Reply String
  pub new_submit_status : Value → String → Outcome S
  pub submit_response : S → Reply String
  pub response_0x : String
  pub zero_str_uint256 : String

abbrev before_genesis_error : String
before_genesis_error = "DB Not Found Error"

abbrev before_aurora_error : String
before_aurora_error = "does not exist while viewing"

abbrev too_many_requests_error : String
too_many_requests_error = "429"

-- A block from before the Aurora account or before the genesis block.
abbrev pub is_before : String → Bool
is_before e = contains e before_aurora_error || contains e before_genesis_error

unfoldable pub view_from : Connections → Bool → View
view_from c from_archival method args bn =
    if from_archival then c.near_archival_account method args bn else c.near_account method args bn

module _ {Q T S : Type 0} (d : Decoders Q T S) where
  unfoldable pub string_result : Outcome Q → Reply String
  string_result (err e) = fail (generic e)
  string_result (ok q) = d.to_string_response q

  unfoldable pub uint256_result : Outcome Q → Reply ℕ
  uint256_result (err e) = fail (generic e)
  uint256_result (ok q) = d.to_uint256_response q

  call_result : StatusResult T → Reply String
  call_result (txs_error e) = fail (txs_status e)
  call_result (other_error e) = fail (generic e)
  call_result (status t) = d.transaction_response t

  submit_result : Outcome S → Reply String
  submit_result (err e) = fail (generic e)
  submit_result (ok s) = d.submit_response s

  -- `getTxsResultFromEngineResponse`: a retransmission that has succeeded is told by its text.
  unfoldable pub get_txs_result : Value → String → Reply String
  unfolding submit_result
  get_txs_result (text t) hash =
      if same_text t success_case_for_retransmit
      then reply hash
      else submit_result (d.new_submit_status (text t) hash)
  get_txs_result resp hash = submit_result (d.new_submit_status resp hash)

  unfoldable pub call_reply : Outcome Value → Reply String
  unfolding call_result
  call_reply (err e) = fail (generic e)
  call_reply (ok resp) = call_result (d.new_transaction_status resp)

  unfoldable pub call : Connections → List ℕ → Option ℤ → Bool → Reply String
  unfolding call_reply view_from
  call c txn bn from_archival = call_reply (view_from c from_archival "view" txn bn)

  chain_id_reply : Outcome Value → Reply ℕ
  unfolding uint256_result
  chain_id_reply (err e) = fail (generic e)
  chain_id_reply (ok resp) = uint256_result (d.new_query_result resp)

  unfoldable pub chain_id : Connections → Reply ℕ
  unfolding chain_id_reply
  chain_id c = chain_id_reply (c.near_account "get_chain_id" [] none)

  unfoldable pub balance_reply : Outcome Value → Reply ℕ
  unfolding uint256_result
  balance_reply (err e) = if is_before e then reply 0 else fail (generic e)
  balance_reply (ok resp) = uint256_result (d.new_query_result resp)

  unfoldable pub get_balance : Connections → List ℕ → Option ℤ → Bool → Reply ℕ
  unfolding balance_reply view_from
  get_balance c addr bn from_archival =
      balance_reply (view_from c from_archival "get_balance" addr bn)

  unfoldable pub code_reply : Outcome Value → Reply String
  unfolding string_result
  code_reply (err e) = if is_before e then reply d.response_0x else fail (generic e)
  code_reply (ok resp) = string_result (d.new_query_result resp)

  unfoldable pub get_code : Connections → List ℕ → Option ℤ → Bool → Reply String
  unfolding code_reply view_from
  get_code c addr bn from_archival = code_reply (view_from c from_archival "get_code" addr bn)

  unfoldable pub storage_reply : Outcome Value → Reply String
  unfolding string_result
  storage_reply (err e) = if is_before e then reply d.zero_str_uint256 else fail (generic e)
  storage_reply (ok resp) = string_result (d.new_query_result resp)

  unfoldable pub get_storage_at : Connections → List ℕ → Option ℤ → Bool → Reply String
  unfolding storage_reply view_from
  get_storage_at c args bn from_archival =
      storage_reply (view_from c from_archival "get_storage_at" args bn)

  unfoldable pub count_reply : Outcome Value → Reply ℕ
  unfolding uint256_result
  count_reply (err e) =
      if is_before e
      then reply 0
      else if contains e too_many_requests_error
      then fail (plain "engine error 429, too many requests received")
      else fail (generic e)
  count_reply (ok resp) = uint256_result (d.new_query_result resp)

  unfoldable pub get_transaction_count : Connections → List ℕ → Option ℤ → Bool → Reply ℕ
  unfolding count_reply view_from
  get_transaction_count c addr bn from_archival =
      count_reply (view_from c from_archival "get_nonce" addr bn)

  -- The end of a synchronous submission: what `Get` returned.
  unfoldable pub answer_sync : String → Value × Option String → Reply String
  unfolding get_txs_result
  answer_sync hash (resp, some e) = fail (plain e)
  answer_sync hash (resp, none) = get_txs_result resp hash

  unfoldable pub submit_req :
      Bool
      → (TxnReq → Value × Option String)
      → Outcome TxnReq
      → TxnProcessor
      → Run (TxnProcessor × Reply String)
  unfolding answer_sync enqueue
  submit_req async get (err e) tp = done (tp, fail (invalid_params e))
  submit_req async get (ok req) tp = do
    tp' ← enqueue_unordered req tp
    done (tp', if async then reply req.hash else answer_sync req.hash (get req))

  -- `get` is what `Get` will have returned once the other goroutines have dealt with the request.
  unfoldable pub send_raw_transaction :
      Decoder
      → ℕ
      → Bool
      → (TxnReq → Value × Option String)
      → List ℕ
      → TxnProcessor
      → Run (TxnProcessor × Reply String)
  unfolding submit_req
  send_raw_transaction decoder now async get txn tp = do
    req ← new_txn_req decoder now txn tp
    submit_req async get req tp
