-- ===== src/StandaloneProxy/Calls.antt =====
-- The two calls of standaloneproxy/proxy.go and the hook before a method. The JSON libraries are arguments:
-- the serialization of a parameter, and the reading of a response.
pub mod Requests
use relayer2_public.Base.{
  ℕ, String, ◌<◌, ltb, Bool, true, false, Option, none, some, List, [], ◌∷◌, ◌++◌, ◌==◌, length,
  if◌then◌else◌, same_text, Outcome, ok, err, Run, done, panic, ◌>>=◌, deref,
}
use relayer2_public.Base.Int.{ℤ, eq_ℤ}
use relayer2_public.Account.Mapper.{bytes_of}
use relayer2_public.StandaloneProxy.Client.{Network, RpcClient, Exchange, request}

pub data ValueType : Type 0 where
  not_exist string number object array boolean null unknown : ValueType

pub data GetError : Type 0 where
  key_path_not_found : GetError
  other_get_error : String → GetError

pub record Got : Type 0 where
  pub value : List ℕ
  pub value_type : ValueType
  pub error : Option GetError

-- `unmarshal_frame` reads a call frame, and `uint256_of` the hexadecimal text of a number.
pub record Json (F : Type 0) : Type 0 where
  pub get : List ℕ → List String → Got
  pub array_each : List ℕ → List (List ℕ) × Option String
  pub unmarshal_frame : List ℕ → Outcome F
  pub parse_int : List ℕ → Outcome ℤ
  pub uint256_of : ℤ → Outcome ℕ

-- An error with a text, with a text in front of a cause, or with what the refiner told.
pub data CallError : Type 0 where
  plain : String → CallError
  wrapped : String → String → CallError
  told engine_told : List ℕ → CallError

pub data Result (A : Type 0) : Type 0 where
  returned : A → Result A
  failed : CallError → Result A

abbrev pub Marshal : Type 0 → Type 0
Marshal P = P → Outcome (List ℕ)

-- The loop over the parameters, with what is in the buffer.
unfoldable pub write_params : {P : Type 0} → Marshal P → Bool → List ℕ → List P → Outcome (List ℕ)
write_params marshal first b [] = ok (b ++ bytes_of "]}")
write_params marshal first b (param ∷ params) = elim (marshal param) [
  | err e ↦ err e
  | ok p ↦ write_params marshal false ((if first then b else b ++ bytes_of ",") ++ p) params
]

abbrev pub request_head : String → List ℕ
request_head method =
    bytes_of "{\"id\":1,\"jsonrpc\":\"2.0\",\"method\":\""
    ++ (bytes_of method ++ bytes_of "\",\"params\":[")

unfoldable pub build_request : {P : Type 0} → Marshal P → String → List P → Outcome (List ℕ)
unfolding write_params
build_request marshal method params = write_params marshal true (request_head method) params

pub data Param (Tx : Type 0) : Type 0 where
  hash_param : String → Param Tx
  tx_param : Tx → Param Tx
  number_param : ℤ → Param Tx
  word_param : String → Param Tx

-- The block numbers of the base library that have a name.
pub record BlockWords : Type 0 where
  pub earliest : ℤ
  pub latest : ℤ
  pub pending : ℤ

module _ {F Tx : Type 0} (json : Json F) (marshal : Marshal (Param Tx)) (words : BlockWords)
    (net : Network) where
  told_error : Got → Result F
  told_error got = elim got.error [
    | some e ↦ failed (plain "internal rpc error")
    | none ↦ elim got.value_type [
      | string ↦ failed (told got.value)
      | _ ↦ failed (plain "internal rpc error")
    ]
  ]

  frame_result : Outcome F → Result F
  frame_result (err e) = failed (plain e)
  frame_result (ok f) = returned f

  -- A frame of the list that cannot be read is skipped.
  frames : List (List ℕ) → List F
  frames [] = []
  frames (v ∷ vs) = elim (json.unmarshal_frame v) [ err e ↦ frames vs | ok f ↦ f ∷ frames vs ]

  single_frame : Option String → List F → Result F
  single_frame none (f ∷ []) = returned f
  single_frame (some e) (f ∷ []) = failed (plain e)
  single_frame _ _ = failed (plain "unexpected response")

  frame_of_array : List (List ℕ) × Option String → Result F
  unfolding frames single_frame
  frame_of_array (values, e) = single_frame e (frames values)

  trace_of_type : List ℕ → Got → Result F
  unfolding told_error frame_result frame_of_array
  trace_of_type res got = elim got.value_type [
    | not_exist ↦ told_error (json.get res ("error" ∷ "message" ∷ []))
    | object ↦ frame_result (json.unmarshal_frame got.value)
    | array ↦ frame_of_array (json.array_each got.value)
    | _ ↦ failed (plain "failed to parse unexpected response")
  ]

  unfoldable pub parse_trace : List ℕ → Got → Result F
  unfolding trace_of_type
  parse_trace res got = elim got.error [
    | some (other_get_error e) ↦ failed (plain e)
    | _ ↦ trace_of_type res got
  ]

  unfoldable pub trace_response : Outcome (List ℕ) → Result F
  unfolding parse_trace
  trace_response (err e) = failed (plain e)
  trace_response (ok res) = parse_trace res (json.get res ("result" ∷ []))

  unfoldable pub send_trace : Outcome (List ℕ) → RpcClient → RpcClient × Result F
  unfolding trace_response
  send_trace (err e) rc = (rc, failed (plain e))
  send_trace (ok req) rc = let e = request net req rc in (e.client, trace_response e.result)

  unfoldable pub trace_transaction : String → RpcClient → RpcClient × Result F
  unfolding send_trace build_request
  trace_transaction hash rc =
      send_trace (build_request marshal "debug_traceTransaction" (hash_param hash ∷ [])) rc

  unfoldable pub block_param : ℤ → Param Tx
  block_param n =
      if eq_ℤ n words.earliest
      then word_param "earliest"
      else if eq_ℤ n words.latest
      then word_param "latest"
      else if eq_ℤ n words.pending
      then word_param "pending"
      else number_param n

  gas_of : Outcome ℕ → Result ℕ
  gas_of (err e) = failed (wrapped "failed to unmarshal result: " e)
  gas_of (ok n) = returned n

  gas_of_int : Outcome ℤ → Result ℕ
  unfolding gas_of
  gas_of_int (err e) = failed (wrapped "failed to parse result as integer: " e)
  gas_of_int (ok n) = gas_of (json.uint256_of n)

  -- An entry of the error that is there and not empty.
  entry : Got → Option (List ℕ)
  entry got = elim got.error [
    | some e ↦ none
    | none ↦ if ltb 0 (length got.value) then some got.value else none
  ]

  unfoldable pub handle_estimate_gas_error : List ℕ → Result ℕ
  unfolding entry
  handle_estimate_gas_error res = elim (entry (json.get res ("error" ∷ "data" ∷ []))) [
    | some data_ ↦ failed (engine_told data_)
    | none ↦ elim (entry (json.get res ("error" ∷ "message" ∷ []))) [
      | some message ↦ failed (engine_told message)
      | none ↦ failed (plain "engine error: unknown error occurred")
    ]
  ]

  gas_of_got : List ℕ → Got → Result ℕ
  unfolding gas_of_int handle_estimate_gas_error
  gas_of_got res got = elim got.error [
    | some e ↦ handle_estimate_gas_error res
    | none ↦ elim got.value_type [
      | number ↦ gas_of_int (json.parse_int got.value)
      | _ ↦ handle_estimate_gas_error res
    ]
  ]

  unfoldable pub parse_estimate_gas_response : List ℕ → Result ℕ
  unfolding gas_of_got
  parse_estimate_gas_response res = gas_of_got res (json.get res ("result" ∷ []))

  unfoldable pub gas_response : Outcome (List ℕ) → Result ℕ
  unfolding parse_estimate_gas_response
  gas_response (err e) = failed (wrapped "failed to send request: " e)
  gas_response (ok res) = parse_estimate_gas_response res

  unfoldable pub send_estimate : Outcome (List ℕ) → RpcClient → RpcClient × Result ℕ
  unfolding gas_response
  send_estimate (err e) rc = (rc, failed (wrapped "failed to build request: " e))
  send_estimate (ok req) rc = let e = request net req rc in (e.client, gas_response e.result)

  unfoldable pub estimate_gas : Tx → Option ℤ → RpcClient → Run (RpcClient × Result ℕ)
  unfolding send_estimate build_request block_param
  estimate_gas tx bn rc = do
    n ← deref bn
    done (
        send_estimate (build_request marshal "eth_estimateGas" (tx_param tx ∷ block_param n ∷ []))
          rc)
