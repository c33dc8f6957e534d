-- ===== src/Account/Processor/Traffic/Tests.antt =====
-- The way of a transaction at concrete inputs.
use relayer2_public.Base.{
  ℕ, String, ◌≤◌, ◌+◌, ◌≡◌, refl, false, none, some, List, [], ◌∷◌, arith, All, Survives, Returns,
}
use relayer2_public.Account.Value.{Value, null, text, dict, field, end}
use relayer2_public.Account.Queue.{worker_round, try_enqueue}
use relayer2_public.Account.Failure.{is_txn_response_failure, get_txn_status_for_failure_type}
use relayer2_public.Account.Request.{respond}
use relayer2_public.Account.Nonce.{lookup, get_nonce, update_eth_nonce_cache}
use relayer2_public.Account.Processor.{Clock, new_txn_processor, sort, send}
use relayer2_public.Account.Processor.Eval.{evaluate, submit_round, settle}
use relayer2_public.Account.Processor.Traffic.{
  Traffic, Moment, submits, sorts, sends, replies, evaluates, run,
}
use relayer2_public.Account.Processor.Traffic.Tally.{is_of, holds, under_way, tally, tally_with}
use relayer2_public.Account.Processor.Traffic.Conserved.{submitted}
use relayer2_public.Account.Processor.Traffic.Safety.{IsSteady, IsSound}
use relayer2_public.Account.Processor.Traffic.Lifecycle.{begun, run-IsConserved}
use relayer2_public.Account.Processor.Traffic.Ends.{IsAnsweredAfter, run-IsAnsweredAfter}
use relayer2_public.Account.Processor.Traffic.Channel.{run-channel_le}
use relayer2_public.Account.Processor.Traffic.Late.{steps_left}
use relayer2_public.Account.Processor.Traffic.Bound.{acted, acted-le}
use relayer2_public.Account.Examples.{alice, silent, node, clock, request}

-- The answer of the engine to a transaction that has succeeded.
abbrev success : Value
success = dict (field "status" (dict (field "SuccessValue" (text "") end)) end)

-- Alice's transaction is sent, runs into a timeout, is sent again and succeeds.
abbrev day : List (Moment ℕ)
day =
    (node, submits (request alice 5))
    ∷ (node, sorts false clock 0 0)
    ∷ (node, sends false clock 0 0)
    ∷ (node, replies 0 0 null (some "Server error: Timeout"))
    ∷ (node, evaluates 0 clock)
    ∷ (node, sorts false clock 0 0)
    ∷ (node, sends false clock 0 0)
    ∷ (node, replies 0 0 success none)
    ∷ (node, evaluates 0 clock)
    ∷ []

abbrev keys : List String
keys = "ed25519:k" ∷ []

abbrev opened : Traffic
opened = begun (new_txn_processor "CRC32" 0 21_000 keys)

day-IsSound : All (λ m. IsSound 1 m.1) day
unfolding evaluate respond is_txn_response_failure
day-IsSound = (
  omega arith,
  (
    omega arith,
    (omega arith, (λ req. refl, (tt, (omega arith, (omega arith, (λ req. refl, (tt, tt))))))),
  ),
)

run-IsConserved_example :
    Survives
      (λ t. IsSteady 1 t × (holds (is_of "0x00") t ≡ submitted (is_of "0x00") day))
      (run day opened)
run-IsConserved_example = run-IsConserved "CRC32" 0 21_000 keys day day-IsSound "0x00"

finishes :
    Returns
      (λ t. (under_way (is_of "0x00") t ≡ 0) × (tally_with (is_of "0x00") t.finished ≡ 1))
      (run day opened)
unfolding run new_txn_processor worker_round sort send submit_round settle lookup get_nonce
    update_eth_nonce_cache respond try_enqueue is_txn_response_failure
finishes = (refl, refl)

-- The transaction is with the engine.
abbrev morning : List (Moment ℕ)
morning =
    (node, submits (request alice 5))
    ∷ (node, sorts false clock 0 0)
    ∷ (node, sends false clock 0 0)
    ∷ []

morning-IsSound : All (λ m. IsSound 1 m.1) morning
morning-IsSound = (omega arith, (omega arith, (omega arith, tt)))

-- A clock after the request has expired.
abbrev evening : Clock
evening = record {
  first = 1_100_000_000_000;
  second_ = 1_100_000_000_000;
  third = 1_100_000_000_000;
}

run-IsAnsweredAfter_example :
    Survives
      (IsAnsweredAfter ℕ "0x00" 1_100_000_000_000 (submitted (is_of "0x00") morning))
      (run morning opened)
unfolding evaluate respond is_txn_response_failure
run-IsAnsweredAfter_example =
    run-IsAnsweredAfter node "CRC32" 0 21_000 keys morning morning-IsSound "0x00" 1_100_000_000_000
      refl evening (omega arith) success none (λ req. refl)

-- The engine has the request, which has expired.
abbrev waiting : Traffic
waiting = record opened { calls = request alice 5 ∷ [] }

-- The engine replies, the answer is evaluated, and a worker looks in vain for another request.
abbrev night : List (Moment ℕ)
night =
    (node, replies 0 0 success none)
    ∷ (node, evaluates 0 evening)
    ∷ (node, sorts false evening 0 0)
    ∷ []

acted-le_example : acted night waiting ≤ steps_left waiting
unfolding new_txn_processor
acted-le_example = acted-le 1_100_000_000_000 night waiting refl (tt, (tt, (omega arith, tt)))

acted_twice : acted night waiting ≡ 2
unfolding run new_txn_processor worker_round submit_round respond is_txn_response_failure
acted_twice = refl

-- What Near reports of a transaction whose nonce has been used.
abbrev used : Value
used = dict (
    field "status"
      (dict (
        field "Failure"
          (dict (
            field "ActionError"
              (dict (
                field "kind"
                  (dict (
                    field "FunctionCallError"
                      (dict (
                        field "ExecutionError" (text "Smart contract panicked: ERR_INCORRECT_NONCE")
                          end))
                      end))
                  end))
              end))
          end))
      end)

abbrev evening_before : Clock
evening_before = record {
  first = 1_040_000_000_000;
  second_ = 1_040_000_000_000;
  third = 1_040_000_000_000;
}

-- The first transmission runs into a timeout and has succeeded all the same; the second finds its nonce
-- used. While the first is evaluated, the node cannot be reached.
abbrev sent_twice : List (Moment ℕ)
sent_twice =
    (node, submits (request alice 5))
    ∷ (node, sorts false clock 0 0)
    ∷ (node, sends false clock 0 0)
    ∷ (node, replies 0 0 null (some "Server error: Timeout"))
    ∷ (silent, evaluates 0 clock)
    ∷ (node, sorts false clock 0 0)
    ∷ (node, sends false clock 0 0)
    ∷ (node, replies 0 0 used none)
    ∷ (node, evaluates 0 evening_before)
    ∷ []

sent_twice-AreSound : All (λ m. IsSound 1 m.1) sent_twice
unfolding evaluate respond is_txn_response_failure get_txn_status_for_failure_type
sent_twice-AreSound = (
  omega arith,
  (
    omega arith,
    (omega arith, (λ req. refl, (tt, (omega arith, (omega arith, (λ req. refl, (tt, tt))))))),
  ),
)

run-channel_le_example :
    Survives
      (λ t.
        tally_with (is_of "0x00") t.answers + tally (is_of "0x00") t.echoes
        ≤ submitted (is_of "0x00") sent_twice)
      (run sent_twice opened)
run-channel_le_example = run-channel_le "CRC32" 0 21_000 keys sent_twice "0x00" sent_twice-AreSound

echoes_once :
    Returns
      (λ t. (tally (is_of "0x00") t.echoes ≡ 1) × (tally_with (is_of "0x00") t.finished ≡ 1))
      (run sent_twice opened)
unfolding run new_txn_processor worker_round sort send submit_round settle lookup get_nonce
    update_eth_nonce_cache respond try_enqueue is_txn_response_failure
    get_txn_status_for_failure_type
echoes_once = (refl, refl)
