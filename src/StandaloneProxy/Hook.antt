-- ===== src/StandaloneProxy/Hook.antt =====
-- `Pre` of standaloneproxy/proxy.go, which the base library calls before a method with its arguments.
use relayer2_public.Base.{
  ℕ, String, Bool, true, false, Option, none, some, List, [], ◌∷◌, if◌then◌else◌, same_text, Run,
  done, ◌>>=◌, deref, get_elem?,
}
use relayer2_public.Base.Int.{ℤ}
use relayer2_public.StandaloneProxy.Client.{Network, RpcClient}
use relayer2_public.StandaloneProxy.Calls.{
  Json, CallError, plain, Result, returned, failed, Marshal, Param, BlockWords, trace_transaction,
  estimate_gas,
}

-- The field BlockNumber of a block parameter.
pub record BlockParam : Type 0 where
  pub block_number : Option ℤ

-- An argument by its dynamic type; a pointer to a block parameter may be nil.
pub data Arg (Tx : Type 0) : Type 0 where
  hash_arg : String → Arg Tx
  tx_arg : Tx → Arg Tx
  block_arg : Option BlockParam → Arg Tx
  other_arg : Arg Tx

pub data Response (F : Type 0) : Type 0 where
  frame_response : F → Response F
  gas_response : ℕ → Response F

-- `stop` is the second result of `Pre`.
pub record Before (F : Type 0) : Type 0 where
  pub client : RpcClient
  pub stop : Bool
  pub error : Option CallError
  pub response : Option (Response F)

as_hash : {Tx : Type 0} → Arg Tx → Option String
as_hash (hash_arg h) = some h
as_hash _ = none

as_tx : {Tx : Type 0} → Arg Tx → Option Tx
as_tx (tx_arg tx) = some tx
as_tx _ = none

as_block : {Tx : Type 0} → Arg Tx → Option (Option BlockParam)
as_block (block_arg p) = some p
as_block _ = none

module _ {F Tx : Type 0} (json : Json F) (marshal : Marshal (Param Tx)) (words : BlockWords)
    (net : Network) where
  invalid_params : Bool → RpcClient → Before F
  invalid_params stop rc = record {
    client = rc;
    stop = stop;
    error = some (plain "invalid params");
    response = none;
  }

  finish : {A : Type 0} → (A → Response F) → RpcClient × Result A → Before F
  finish make (rc, failed e) = record { client = rc; stop = true; error = some e; response = none }
  finish make (rc, returned a) = record {
    client = rc;
    stop = true;
    error = none;
    response = some (make a);
  }

  trace_hash : RpcClient → Option String → Before F
  unfolding invalid_params finish trace_transaction
  trace_hash rc none = invalid_params false rc
  trace_hash rc (some hash) =
      finish frame_response (trace_transaction json marshal words net hash rc)

  pre_trace : RpcClient → List (Arg Tx) → Before F
  unfolding trace_hash as_hash
  pre_trace rc (arg ∷ []) = trace_hash rc (as_hash arg)
  pre_trace rc _ = invalid_params false rc

  -- A nil parameter stands for the latest block.
  number_of : Option BlockParam → Option ℤ
  number_of none = some words.latest
  number_of (some p) = p.block_number

  estimate_at : RpcClient → Tx → Option (Option BlockParam) → Run (Before F)
  unfolding invalid_params finish estimate_gas number_of
  estimate_at rc tx none = done (invalid_params true rc)
  estimate_at rc tx (some p) = do
    r ← estimate_gas json marshal words net tx (number_of p) rc
    done (finish gas_response r)

  estimate_tx : RpcClient → List (Arg Tx) → Option Tx → Run (Before F)
  unfolding estimate_at invalid_params as_block
  estimate_tx rc args none = done (invalid_params true rc)
  estimate_tx rc args (some tx) = do
    arg ← deref (get_elem? args 1)
    estimate_at rc tx (as_block arg)

  pre_estimate : RpcClient → List (Arg Tx) → Run (Before F)
  unfolding estimate_tx as_tx
  pre_estimate rc args = do arg ← deref (get_elem? args 0); estimate_tx rc args (as_tx arg)

  unfoldable pub pre : String → List (Arg Tx) → RpcClient → Run (Before F)
  unfolding pre_trace pre_estimate
  pre name args rc =
      if same_text name "debug_traceTransaction"
      then done (pre_trace rc args)
      else if same_text name "eth_estimateGas"
      then pre_estimate rc args
      else done (record { client = rc; stop = false; error = none; response = none })
