-- ===== src/Account/Processor.antt =====
-- The processor of account/txnProcessor.go. A function that runs under the mutex of a key, and a worker
-- between two receives, is one step. Logging is left out, and so is the sleep in `eval`, since
-- no status has a backoff. A send that blocks takes its step when there is room.
pub mod Eval
pub mod Order
pub mod Answers
pub mod Retry
pub mod Admission
pub mod Lanes
pub mod Handover
pub mod Sending
pub mod Settling
pub mod Workers
pub mod Traffic
pub mod Liveness
use relayer2_public.Base.{
  ℕ, String, ◌+◌, ◌%◌, Bool, true, false, Option, none, some, List, [], ◌∷◌, ltb, ◌==◌, same_text,
  get_elem?, set, length, if◌then◌else◌, u64_mod, Run, done, panic, ◌>>=◌, deref, Outcome, ok, err,
}
use relayer2_public.Account.Status.{
  Status, reorder, near_nonce_error, eth_nonce_too_low, exhausted, time_out_error3,
}
use relayer2_public.Account.Mapper.{TxnMapper, crc32_mapper, round_robin_mapper, map_key}
use relayer2_public.Account.Queue.{TxnQ, new_txn_q, try_enqueue, enqueue, close}
use relayer2_public.Account.Request.{Address, TxnReq, second, expired}
use relayer2_public.Account.Nonce.{
  q_cap, NonceCache, Cache, lookup, insert, fresh_entry, Node, next_near_nonce,
  update_eth_nonce_cache,
}

pub record TxnProcessor : Type 0 where
  pub mapper : Option TxnMapper
  pub min_gas_price : ℕ
  pub min_gas_limit : ℕ
  pub keys : List String
  pub eth_nonce_cache : Cache
  pub near_nonce_cache : Cache
  pub ordered : List (TxnQ TxnReq)
  pub unordered : List (TxnQ TxnReq)
  pub circuit_breaker : List Bool

abbrev pub for_each_key {ℓ} : {A : Type ℓ} → A → List String → List A
for_each_key a [] = []
for_each_key a (_ ∷ keys) = a ∷ for_each_key a keys

-- Another name leaves the mapper nil.
abbrev named_mapper : String → Option TxnMapper
named_mapper name =
    if same_text name "CRC32"
    then some crc32_mapper
    else if same_text name "RoundRobin"
    then some (round_robin_mapper 0)
    else none

unfoldable pub new_txn_processor : String → ℕ → ℕ → List String → TxnProcessor
unfolding new_txn_q
new_txn_processor function_key_mapper min_gas_price min_gas_limit keys = record {
  mapper = named_mapper function_key_mapper;
  min_gas_price = min_gas_price;
  min_gas_limit = min_gas_limit;
  keys = keys;
  eth_nonce_cache = [];
  near_nonce_cache = [];
  ordered = for_each_key (new_txn_q q_cap) keys;
  unordered = for_each_key (new_txn_q q_cap) keys;
  circuit_breaker = for_each_key false keys;
}

-- What the code reads of a decoded transaction, and the calls of the Ethereum library that make it.
pub record Transaction : Type 0 where
  pub gas_price : ℕ
  pub gas : ℕ  -- uint64
  pub nonce : ℕ  -- uint64

pub record Decoder : Type 0 where
  pub unmarshal_binary : List ℕ → Outcome Transaction
  pub sender : Transaction → Outcome Address
  pub calculate_keccak256 : List ℕ → String

unfoldable pub check_gas :
    Decoder → ℕ → List ℕ → Transaction → Address → TxnProcessor → Run (Outcome TxnReq)
unfolding map_key
check_gas d now raw_txn tx sender tp =
    if ltb tx.gas_price tp.min_gas_price
    then done (err "gas price too low")
    else if ltb tx.gas tp.min_gas_limit
    then done (err "intrinsic gas too low")
    else do
      mapper ← deref tp.mapper
      idx ← map_key mapper sender.hex (length tp.keys)
      done (
          ok (record {
            processor_index = idx;
            timestamp = now;
            nonce = tx.nonce;
            sender = sender;
            raw_txn = raw_txn;
            hash = d.calculate_keccak256 raw_txn;
            retransmit = false;
          }))

unfoldable pub check_address :
    Decoder → ℕ → List ℕ → Transaction → Outcome Address → TxnProcessor → Run (Outcome TxnReq)
unfolding check_gas
check_address d now raw_txn tx (err e) tp = done (err "failed to extract transaction sender")
check_address d now raw_txn tx (ok sender) tp = check_gas d now raw_txn tx sender tp

unfoldable pub check_sender :
    Decoder → ℕ → List ℕ → Outcome Transaction → TxnProcessor → Run (Outcome TxnReq)
unfolding check_address
check_sender d now raw_txn (err e) tp = done (err "failed to decode transaction")
check_sender d now raw_txn (ok tx) tp = check_address d now raw_txn tx (d.sender tx) tp

-- `now` is in seconds. The text of a decoding error does not carry the cause here.
unfoldable pub new_txn_req : Decoder → ℕ → List ℕ → TxnProcessor → Run (Outcome TxnReq)
unfolding check_sender
new_txn_req d now raw_txn tp = check_sender d now raw_txn (d.unmarshal_binary raw_txn) tp

abbrev pub enqueue_ordered : TxnReq → TxnProcessor → Run TxnProcessor
enqueue_ordered req tp = do
  q ← deref (get_elem? tp.ordered req.processor_index)
  q' ← enqueue req q
  done (record tp { ordered = set tp.ordered req.processor_index q' })

-- The last step of `Submit`.
abbrev pub enqueue_unordered : TxnReq → TxnProcessor → Run TxnProcessor
enqueue_unordered req tp = do
  q ← deref (get_elem? tp.unordered req.processor_index)
  q' ← enqueue req q
  done (record tp { unordered = set tp.unordered req.processor_index q' })

abbrev pub try_enqueue_unordered : TxnReq → TxnProcessor → Run (TxnProcessor × Bool)
try_enqueue_unordered req tp = do
  q ← deref (get_elem? tp.unordered req.processor_index)
  r ← try_enqueue req q
  done (record tp { unordered = set tp.unordered req.processor_index r.0 }, r.1)

-- What `sort` did with the request.
pub data Sorted : Type 0 where
  queued delayed : Sorted
  responded : Status → Sorted

-- The readings of the clock in one function, in their order.
pub record Clock : Type 0 where
  pub first : ℕ
  pub second_ : ℕ
  pub third : ℕ

abbrev pub queue : TxnReq → TxnProcessor → Run (TxnProcessor × Sorted)
queue req tp = (enqueue_ordered req tp >>= λ tp'. done (tp', queued))

abbrev pub cache_eth : String → NonceCache → TxnProcessor → TxnProcessor
cache_eth key nc tp = record tp { eth_nonce_cache = insert key nc tp.eth_nonce_cache }

unfoldable pub sort_by :
    {Q : Type 0}
    → Node Q
    → Clock
    → Option NonceCache
    → TxnReq
    → TxnProcessor
    → Run (TxnProcessor × Sorted)
unfolding insert enqueue
sort_by node clock none req tp =
    queue req (cache_eth req.sender.hex (fresh_entry clock.second_ ((req.nonce + 1) % u64_mod)) tp)
sort_by node clock (some nc) req tp =
    if nc.nonce == req.nonce
    then queue req (cache_eth req.sender.hex (record nc { nonce = (nc.nonce + 1) % u64_mod }) tp)
    else if req.retransmit
    then queue req tp
    else if ltb req.nonce nc.nonce
    then done (tp, responded eth_nonce_too_low)
    else done (
      record tp {
        eth_nonce_cache =
            (update_eth_nonce_cache node clock.second_ clock.third req.sender tp.eth_nonce_cache).0;
      },
      delayed,
    )

-- A request that is delayed comes back through `requeue`.
unfoldable pub sort :
    {Q : Type 0} → Node Q → Clock → TxnReq → TxnProcessor → Run (TxnProcessor × Sorted)
unfolding sort_by expired lookup
sort node clock req tp =
    if expired clock.first req
    then done (tp, responded time_out_error3)
    else sort_by node clock (lookup req.sender.hex tp.eth_nonce_cache) req tp

-- The function that `sort` leaves to `time.AfterFunc`.
unfoldable pub requeue : TxnReq → TxnProcessor → Run (TxnProcessor × Sorted)
unfolding try_enqueue
requeue req tp = do
  r ← try_enqueue_unordered req tp
  done (r.0, if r.1 then queued else responded exhausted)

-- What `send` did: it answered, or it left the transaction to a goroutine that calls the engine with
-- the key and the Near nonce.
pub data Sent : Type 0 where
  answered : Status → Sent
  called : String → ℕ → Sent

unfoldable pub send_as : String → Cache × Outcome ℕ → TxnProcessor → TxnProcessor × Sent
send_as key (c, err _) tp = (record tp { near_nonce_cache = c }, answered near_nonce_error)
send_as key (c, ok nonce) tp = (record tp { near_nonce_cache = c }, called key nonce)

unfoldable pub send :
    {Q : Type 0} → Node Q → Clock → TxnReq → TxnProcessor → Run (TxnProcessor × Sent)
unfolding send_as expired next_near_nonce
send node clock req tp = do
  broken ← deref (get_elem? tp.circuit_breaker req.processor_index)
  if broken
      then done (tp, answered reorder)
      else if expired clock.first req
      then done (tp, answered time_out_error3)
      else do
        key ← deref (get_elem? tp.keys req.processor_index)
        done (send_as key (next_near_nonce node clock.second_ key tp.near_nonce_cache) tp)

unfoldable pub close_all : List (TxnQ TxnReq) → Run (List (TxnQ TxnReq))
unfolding close
close_all [] = done []
close_all (q ∷ qs) = do q' ← close q; qs' ← close_all qs; done (q' ∷ qs')

-- `Close` up to its waits: the queues in their order, the unordered ones first.
unfoldable pub close_processor : TxnProcessor → Run TxnProcessor
unfolding close_all
close_processor tp = do
  unordered ← close_all tp.unordered
  ordered ← close_all tp.ordered
  done (record tp { unordered = unordered; ordered = ordered })
