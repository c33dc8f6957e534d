-- ===== src/Account/Failure.antt =====
-- `isTxnResponseFailure` and `getTxnStatusForFailureType` of account/txnProcessor.go.
pub mod Walk
use relayer2_public.Base.{
  String, true, false, Option, none, some, List, [], ◌∷◌, not, contains, same_text, if◌then◌else◌,
  Run, done, panic, ◌>>=◌,
}
use relayer2_public.Account.Status.{Status, any, same_status, FailureMapping, status_mapping_array}
use relayer2_public.Account.Value.{Value, null, other, text, dict, get, as_map}

pub data FailureCheck : Type 0 where
  failure : Value → FailureCheck
  success invalid : FailureCheck

check_status : Value → Run FailureCheck
check_status status = do
  m ← as_map status
  elim (get "Failure" m) [
    | some val ↦ done (failure val)
    | none ↦ elim (get "SuccessValue" m) [ some _ ↦ done success | none ↦ done invalid ]
  ]

unfoldable pub is_txn_response_failure : Value → Run FailureCheck
unfolding check_status
is_txn_response_failure resp = do
  m ← as_map resp
  elim (get "status" m) [ none ↦ done invalid | some status ↦ check_status status ]

-- The last field: a text that holds it, or any text for "*". Another value leaves the status alone.
match_message : String → Status → Status → Value → Status
match_message v status return_status (text msg) =
    if same_text v "*" then status else if contains msg v then status else any
match_message v status return_status _ = return_status

-- The inner loop over the fields of a mapping, at the value `p`.
match_fields : List String → Status → Status → Value → Run Status
unfolding match_message
match_fields [] status return_status p = done return_status
match_fields (v ∷ []) status return_status p = done (match_message v status return_status p)
match_fields (v ∷ w ∷ fields) status return_status p = do
  m ← as_map p
  elim (get v m) [
    | none ↦ done any
    | some child ↦ match_fields (w ∷ fields) status return_status child
  ]

-- The outer loop.
match_mappings : List FailureMapping → Status → Value → Run Status
unfolding match_fields
match_mappings [] return_status failed = done return_status
match_mappings (obj ∷ mappings) return_status failed = do
  r ← match_fields obj.fields obj.status return_status failed
  if not (same_status r any) then done r else match_mappings mappings r failed

unfoldable pub get_txn_status_for_failure_type : Value → Run Status
unfolding match_mappings
get_txn_status_for_failure_type failed = match_mappings status_mapping_array any failed
