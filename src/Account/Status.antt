-- ===== src/Account/Status.antt =====
-- account/txnError.go. `iota` counts from the line of `success_case_for_retransmit`, so
-- `txnStatus_Any` is 1; 0, the value of a status that is not set, is no named status: `unset`.
use relayer2_public.Base.{ℕ, String, Bool, true, false, Option, none, some, List, [], ◌∷◌, ◌==◌}

pub data Status : Type 0 where
  unset any reorder near_nonce_error near_nonce_too_large eth_nonce_error : Status
  eth_nonce_too_low exhausted unhandled_error near_time_out_error : Status
  aurora_contract_panicked time_out_error1 time_out_error2 time_out_error3 : Status

abbrev pub code : Status → ℕ
code unset = 0
code any = 1
code reorder = 2
code near_nonce_error = 3
code near_nonce_too_large = 4
code eth_nonce_error = 5
code eth_nonce_too_low = 6
code exhausted = 7
code unhandled_error = 8
code near_time_out_error = 9
code aurora_contract_panicked = 10
code time_out_error1 = 11
code time_out_error2 = 12
code time_out_error3 = 13

abbrev pub same_status : Status → Status → Bool
same_status s t = code s == code t

abbrev pub success_case_for_retransmit : String
success_case_for_retransmit = "Success_Retransmit"

pub record Action : Type 0 where
  pub retry : Bool
  pub update_near_cache : Bool
  pub update_eth_cache : Bool
  pub backoff_ms : ℕ
  pub error : Option String

abbrev act : Bool → Bool → Bool → Option String → Action
act retry eth near error = record {
  retry = retry;
  update_near_cache = near;
  update_eth_cache = eth;
  backoff_ms = 0;
  error = error;
}

-- The map `statusActions`; a status that it lacks gives the zero action.
abbrev pub status_actions : Status → Action
status_actions unset = act false false false none
status_actions any = act false false false none
status_actions unhandled_error = act false true false (some "ERR_INVALID_TXN_RESPONSE")
status_actions exhausted = act false false false (some "ERR_ENQUEUE_TXN_R")
status_actions aurora_contract_panicked = act false true false none
status_actions time_out_error1 = act false true false (some "ERR_TXN_TIMEOUT_1_R")
status_actions time_out_error2 = act false true false (some "ERR_TXN_TIMEOUT_2_R")
status_actions time_out_error3 = act false false false (some "ERR_TXN_TIMEOUT_3_R")
status_actions eth_nonce_error = act true true false (some "ERR_INCORRECT_NONCE")
status_actions eth_nonce_too_low = act true true false (some "ERR_INCORRECT_NONCE_R")
status_actions near_nonce_error = act true true false (some "ERR_INCORRECT_NEAR_NONCE_R")
status_actions near_nonce_too_large = act true true true (some "ERR_INCORRECT_NEAR_NONCE_LARGE_R")
status_actions reorder = act true false false (some "ERR_TXN_ORDER_R")
status_actions near_time_out_error = act true false false none

pub record FailureMapping : Type 0 where
  pub fields : List String
  pub status : Status

abbrev empty_mapping : FailureMapping
empty_mapping = record { fields = []; status = unset }

abbrev pub execution_error_path : List String
execution_error_path = "ActionError" ∷ "kind" ∷ "FunctionCallError" ∷ "ExecutionError" ∷ []

-- The array has six entries, of which the source gives two.
abbrev pub status_mapping_array : List FailureMapping
status_mapping_array =
    record {
      fields =
          "ActionError" ∷ "kind" ∷ "FunctionCallError" ∷ "ExecutionError" ∷ "ERR_INCORRECT_NONCE"
          ∷ [];
      status = eth_nonce_error;
    }
    ∷ record {
      fields = "ActionError" ∷ "kind" ∷ "FunctionCallError" ∷ "ExecutionError" ∷ "*" ∷ [];
      status = aurora_contract_panicked;
    }
    ∷ empty_mapping
    ∷ empty_mapping
    ∷ empty_mapping
    ∷ empty_mapping
    ∷ []
