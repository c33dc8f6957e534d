-- ===== src/Account/Failure/Walk.antt =====
-- The classification of a failure described by one path through it.
use relayer2_public.Base.{
  String, ◌≡◌, refl, Option, none, some, List, [], ◌∷◌, ◌++◌, arith, contains, if◌then◌else◌, Run,
  done, panic, Option-cases, inl, inr,
}
use relayer2_public.Account.Status.{
  Status, any, eth_nonce_error, aurora_contract_panicked, execution_error_path,
}
use relayer2_public.Account.Value.{Value, null, other, text, dict, get}
use relayer2_public.Account.Failure.{match_message, match_fields, get_txn_status_for_failure_type}

-- Where a path of keys ends: at a value, at a map without the next key, or at a value that is no map
-- where a key is still to be looked up.
pub data Walked : Type 0 where
  found : Value → Walked
  missing broken : Walked

abbrev and_then : Option Value → (Value → Walked) → Walked
and_then none next = missing
and_then (some v) next = next v

pub walk : List String → Value → Walked
walk [] v = found v
walk (k ∷ ks) (dict m) = and_then (get k m) (walk ks)
walk (k ∷ ks) _ = broken

-- The status that a walk stands for. Only a text at the end of the path classifies the failure.
abbrev pub classify : Walked → Run Status
classify (found (text msg)) =
    done (if contains msg "ERR_INCORRECT_NONCE" then eth_nonce_error else aurora_contract_panicked)
classify (found _) = done any
classify missing = done any
classify broken = panic

-- The inner loop, for a mapping whose last field is `v`, at the end of a walk.
abbrev at_end : String → Status → Status → Walked → Run Status
at_end v status ret (found c) = done (match_message v status ret c)
at_end v status ret missing = done any
at_end v status ret broken = panic

match_fields-walk :
    (ks : List String) (v : String) (status ret : Status) (p : Value)
    → match_fields (ks ++ v ∷ []) status ret p ≡ at_end v status ret (walk ks p)
unfolding match_fields walk
match_fields-walk [] v status ret p = refl
match_fields-walk (k ∷ []) v status ret (dict m) = ground arith
match_fields-walk (k ∷ l ∷ ks) v status ret (dict m) = elim (Option-cases (get k m)) [
  | inl e ↦ ground arith
  | inr (child, e) ↦ ground (arith, match_fields-walk (l ∷ ks) v status ret child)
]
match_fields-walk (k ∷ []) v status ret null = refl
match_fields-walk (k ∷ []) v status ret other = refl
match_fields-walk (k ∷ []) v status ret (text t) = refl
match_fields-walk (k ∷ l ∷ ks) v status ret null = refl
match_fields-walk (k ∷ l ∷ ks) v status ret other = refl
match_fields-walk (k ∷ l ∷ ks) v status ret (text t) = refl

-- The status of a failure is decided by the value at the path `ActionError`, `kind`,
-- `FunctionCallError`, `ExecutionError`: a text is a nonce error if it names one and else a panic of
-- the contract, and anything else, or no such path, is `txnStatus_Any`. The code panics just when the
-- path meets a value that is no map before its end.
pub get_txn_status_for_failure_type-walk :
    (failed : Value)
    → get_txn_status_for_failure_type failed ≡ classify (walk execution_error_path failed)
unfolding get_txn_status_for_failure_type
get_txn_status_for_failure_type-walk failed = ground (
  arith,
  match_fields-walk execution_error_path "ERR_INCORRECT_NONCE" eth_nonce_error any failed,
  match_fields-walk execution_error_path "*" aurora_contract_panicked any failed,
)
