-- ===== src/Account/Tests.antt =====
-- The theorems about the account package at concrete inputs.
use relayer2_public.Base.{
  Survives, length, ◌++◌, ℕ, ◌*◌, ◌≡◌, refl, true, false, none, some, List, [], ◌∷◌, arith, Run,
  done, Returns, Keeps,
}
use relayer2_public.Account.Status.{
  any, time_out_error3, eth_nonce_error, success_case_for_retransmit, execution_error_path,
}
use relayer2_public.Account.Value.{Value, null, text, dict, field, end}
use relayer2_public.Account.Failure.{get_txn_status_for_failure_type}
use relayer2_public.Account.Failure.Walk.{walk, classify, get_txn_status_for_failure_type-walk}
use relayer2_public.Account.Queue.{TxnQ, start_worker, worker_round}
use relayer2_public.Account.Queue.Drain.{close-start_worker}
use relayer2_public.Account.Request.{TxnReq, TxnResp, respond_with_status, second}
use relayer2_public.Account.Nonce.{lookup, get_nonce, fresh_entry, update_eth_nonce_cache}
use relayer2_public.Account.Nonce.Entries.{update_eth_nonce_cache_fails}
use relayer2_public.Account.Processor.{new_txn_processor, Clock, responded, sort, requeue, send}
use relayer2_public.Account.Processor.Eval.{settle, submit_round}
use relayer2_public.Account.Processor.Order.{sort_all, nonces_of, IsConsecutive}
use relayer2_public.Account.Processor.Sending.{send_all, near_nonces_of, send_all-IsConsecutive}
use relayer2_public.Account.Processor.Answers.{expired_ends}
use relayer2_public.Account.Processor.Liveness.{IsLive}
use relayer2_public.Account.Processor.Lanes.{lane, for_key, sort_all-lane}
use relayer2_public.Account.Processor.Handover.{sort_all-IsOrdered}
use relayer2_public.Account.Processor.Workers.{
  Event, submits, sorts, requeues, sends, settles, work, perform,
}
use relayer2_public.Account.Processor.Retry.{settle_used}
use relayer2_public.Account.Examples.{
  processor-IsLive, alice, bob, node, silent, clock, late, request, five, processor, nonce_response,
  again,
}

-- Bob is not known, Alice's 6 comes too early, 5 goes through, then 6 does.
abbrev arrivals : List (Clock × TxnReq)
arrivals =
    (clock, request alice 6)
    ∷ (clock, request bob 3)
    ∷ (clock, request alice 5)
    ∷ (clock, request alice 6)
    ∷ []

sort_all-lane_example :
    Survives
      (λ r. IsLive r.0 × (lane 0 r.0 ≡ lane 0 processor ++ for_key 0 r.1))
      (sort_all silent arrivals processor)
sort_all-lane_example =
    sort_all-lane silent 0 arrivals processor processor-IsLive
      (omega arith, (omega arith, (omega arith, (omega arith, tt))))

sort_all-IsOrdered_example :
    Survives
      (λ r. IsConsecutive 5 (nonces_of "0xa1" (lane 0 r.0)))
      (sort_all silent arrivals processor)
unfolding get_nonce
sort_all-IsOrdered_example =
    sort_all-IsOrdered "0xa1" 0 silent arrivals processor five processor-IsLive
      (omega arith, (omega arith, (omega arith, (omega arith, tt))))
      (λ own. refl, (λ own. refl, (λ own. refl, (λ own. refl, tt)))) refl
      (
        (refl, "timeout", refl),
        ((refl, "timeout", refl), ((refl, "timeout", refl), ((refl, "timeout", refl), tt))),
      )
      (unfold lookup in refl) (omega arith)

-- Alice's 5 is submitted, sorted, sent and answered; a request of Bob comes back by its timer.
abbrev day : List Event
day =
    submits (request alice 5)
    ∷ sorts false clock 0
    ∷ requeues (request bob 3)
    ∷ sends false clock 0
    ∷ settles clock (request alice 5) nonce_response
    ∷ []

worked :
    Returns
      (λ tp. (lane 0 tp ≡ []) × (length tp.near_nonce_cache ≡ 1))
      (work node day (new_txn_processor "CRC32" 0 21_000 ("ed25519:k" ∷ [])))
unfolding work perform new_txn_processor sort send requeue lookup get_nonce worker_round settle
    update_eth_nonce_cache
worked = (refl, refl)

sorted_nonces :
    Returns (λ r. nonces_of "0xa1" r.1 ≡ 5 ∷ 6 ∷ []) (sort_all silent arrivals processor)
unfolding sort_all sort update_eth_nonce_cache get_nonce
sorted_nonces = refl

settle_used_example :
    Returns
      (λ s.
        (s.retry ≡ false)
        × (s.resp ≡ record nonce_response { resp = text success_case_for_retransmit }))
      (settle node clock again nonce_response processor)
unfolding lookup get_nonce
settle_used_example =
    settle_used node clock again nonce_response processor 7 "ed25519:k" refl refl (omega arith) refl
      (omega arith)

abbrev waiter : TxnResp
waiter = record {
  txn_resp = record { status = any; resp = null; err = none; ts = 0 };
  received = false;
}

expired_ends_example :
    (sort node late (request alice 5) processor ≡ done (processor, responded time_out_error3))
    × (submit_round node late
          (request alice 5)
          (respond_with_status 0 time_out_error3)
          waiter
          processor
        ≡ done (record {
          resp = record { txn_resp = respond_with_status 0 time_out_error3; received = true };
          processor = processor;
          waiting = none;
          echoed = false;
        }))
expired_ends_example =
    expired_ends node late late 0 (request alice 5) waiter processor processor (omega arith)

-- The failure of a call whose contract panicked with a message, as Near reports it.
abbrev failed_call : Value → Value
failed_call kind = dict (field "ActionError" (dict (field "kind" kind end)) end)

abbrev incorrect_nonce : Value
incorrect_nonce = failed_call (
    dict (
      field "FunctionCallError"
        (dict (field "ExecutionError" (text "Smart contract panicked: ERR_INCORRECT_NONCE") end))
        end))

failure_example : get_txn_status_for_failure_type incorrect_nonce ≡ done eth_nonce_error
unfolding get_txn_status_for_failure_type
failure_example = refl

get_txn_status_for_failure_type-walk_example :
    get_txn_status_for_failure_type (failed_call (text "DelegateActionExpired"))
    ≡ classify (walk execution_error_path (failed_call (text "DelegateActionExpired")))
get_txn_status_for_failure_type-walk_example =
    get_txn_status_for_failure_type-walk (failed_call (text "DelegateActionExpired"))

-- An error whose kind Near gives as a plain text makes the code panic.
text_kind_panics :
    get_txn_status_for_failure_type (failed_call (text "DelegateActionExpired")) ≡ Run.panic
unfolding get_txn_status_for_failure_type
text_kind_panics = refl

update_eth_nonce_cache_fails_example :
    let (c, updated) = update_eth_nonce_cache silent (1030 * second) (1031 * second) bob [] in
    (updated ≡ false) × (lookup "0xb0" c ≡ some (fresh_entry (1030 * second) 0))
unfolding lookup get_nonce
update_eth_nonce_cache_fails_example =
    update_eth_nonce_cache_fails silent (1030 * second) (1031 * second) "timeout" bob [] refl

abbrev numbers : TxnQ ℕ
numbers = record { items = 1 ∷ 2 ∷ []; capacity = 3; closed = true; cancelled = false }

close-start_worker_example : start_worker (false ∷ false ∷ false ∷ []) numbers ≡ (1 ∷ 2 ∷ [], true)
close-start_worker_example =
    close-start_worker (1 ∷ 2 ∷ []) numbers (false ∷ false ∷ false ∷ []) refl refl refl
      (omega arith)

-- The second request has expired.
abbrev departures : List (Clock × TxnReq)
departures = (clock, request alice 5) ∷ (late, request alice 6) ∷ (clock, request bob 3) ∷ []

send_all-IsConsecutive_example :
    Keeps
      (λ r. IsConsecutive 41 (near_nonces_of "ed25519:k" r.1))
      (send_all node departures processor)
unfolding lookup
send_all-IsConsecutive_example =
    send_all-IsConsecutive node "ed25519:k" departures processor 40 refl (omega arith)

sent_nonces :
    Returns
      (λ r. near_nonces_of "ed25519:k" r.1 ≡ 41 ∷ 42 ∷ [])
      (send_all node departures processor)
unfolding send_all send lookup
sent_nonces = refl
