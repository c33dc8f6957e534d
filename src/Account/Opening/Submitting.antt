-- ===== src/Account/Opening/Submitting.antt =====
-- Requests to an open account and to a closed one.
use relayer2_public.Base.{
  ℕ, String, ◌<◌, ◌^◌, ◌≡◌, refl, ap, suc, Bool, true, Option, some, List, [], ◌∷◌, arith, ltb,
  length, get_elem?-lt, All, All-get_elem?, done, panic, Returns, Returns-bind, Survives,
  Survives-bind, Survives-if, Outcome, ok, err,
}
use relayer2_public.Account.Queue.{TxnQ, enqueue, close}
use relayer2_public.Account.Mapper.{crc32_mapper, map_key-crc32}
use relayer2_public.Account.Request.{Address, TxnReq}
use relayer2_public.Account.Value.{Value}
use relayer2_public.Account.Processor.{
  TxnProcessor, Transaction, Decoder, enqueue_unordered, new_txn_req, check_sender, check_address,
  check_gas, close_all, close_processor,
}
use relayer2_public.Account.Processor.Liveness.{IsOpen, IsLive, enqueue_unordered-IsLive}
use relayer2_public.Account.Reads.{Decoders, submit_req, send_raw_transaction}

module _ (decoder : Decoder) (now : ℕ) (raw_txn : List ℕ) (tp : TxnProcessor)
    (crc : tp.mapper ≡ some crc32_mapper) (some_keys : 0 < length tp.keys)
    (few_keys : length tp.keys < 2 ^ 32) where
  -- A request goes to a key that exists.
  abbrev HasKey : Outcome TxnReq → Type 0
  HasKey (err e) = Unit
  HasKey (ok req) = req.processor_index < length tp.keys

  check_gas-HasKey :
      (tx : Transaction) (sender : Address)
      → Survives HasKey (check_gas decoder now raw_txn tx sender tp)
  unfolding check_gas
  check_gas-HasKey tx sender =
      let (idx, mapped, below) = map_key-crc32 sender.hex (length tp.keys) some_keys few_keys in
      rw (crc, mapped)
        (Survives-if HasKey (ltb tx.gas_price tp.min_gas_price) (done _) _ tt
          (Survives-if HasKey (ltb tx.gas tp.min_gas_limit) (done _) (done _) tt below))

  check_address-HasKey :
      (tx : Transaction) (o : Outcome Address)
      → Survives HasKey (check_address decoder now raw_txn tx o tp)
  unfolding check_address
  check_address-HasKey tx (err e) = tt
  check_address-HasKey tx (ok sender) = check_gas-HasKey tx sender

  check_sender-HasKey :
      (o : Outcome Transaction) → Survives HasKey (check_sender decoder now raw_txn o tp)
  unfolding check_sender
  check_sender-HasKey (err e) = tt
  check_sender-HasKey (ok tx) = check_address-HasKey tx (decoder.sender tx)

  module _ {Q T S : Type 0} (d : Decoders Q T S) (async : Bool)
      (get : TxnReq → Value × Option String) (live : IsLive tp) where
    submit_req-IsLive :
        (o : Outcome TxnReq) → HasKey o → Survives (λ r. IsLive r.0) (submit_req d async get o tp)
    unfolding submit_req
    submit_req-IsLive (err e) h = live
    submit_req-IsLive (ok req) h =
        Survives-bind IsLive (λ r. IsLive r.0) (enqueue_unordered req tp) _
          (enqueue_unordered-IsLive req tp live h) (λ tp' l. l)

    -- In a live processor with the mapper CRC32 and at least one key, `SendRawTransaction` does not panic
    -- whatever the bytes are, and leaves the processor live.
    pub send_raw_transaction-IsLive :
        Survives (λ r. IsLive r.0) (send_raw_transaction d decoder now async get raw_txn tp)
    unfolding send_raw_transaction new_txn_req
    send_raw_transaction-IsLive =
        Survives-bind HasKey (λ r. IsLive r.0) (new_txn_req decoder now raw_txn tp) _
          (check_sender-HasKey (decoder.unmarshal_binary raw_txn)) submit_req-IsLive

abbrev pub IsClosed : TxnQ TxnReq → Type 0
IsClosed q = q.closed ≡ true

close_all-IsClosed :
    (n : ℕ) (qs : List (TxnQ TxnReq))
    → All (IsOpen n) qs
    → Returns (λ qs'. All IsClosed qs' × (length qs' ≡ length qs)) (close_all qs)
unfolding close_all close
close_all-IsClosed n [] h = (tt, refl)
close_all-IsClosed n (q ∷ qs) (o, h) = rw o.0 (
    Returns-bind (λ qs'. All IsClosed qs' × (length qs' ≡ length qs)) _ (close_all qs) _
      (close_all-IsClosed n qs h) (λ qs' k. ((refl, k.0), ap suc k.1)))

submit_closed :
    {Q T S : Type 0} (d : Decoders Q T S) (async : Bool) (get : TxnReq → Value × Option String)
    (req : TxnReq) (tp : TxnProcessor)
    → All IsClosed tp.unordered
    → req.processor_index < length tp.unordered
    → submit_req d async get (ok req) tp ≡ panic
unfolding submit_req enqueue
submit_closed d async get req tp closed inside =
    let (q, found) = get_elem?-lt tp.unordered req.processor_index inside in
    rw (found, All-get_elem? IsClosed tp.unordered req.processor_index q closed found)

-- `Close` of a live processor returns with all its queues closed, and a request that is submitted
-- after it panics.
pub close_processor-submit :
    {Q T S : Type 0} (d : Decoders Q T S) (async : Bool) (get : TxnReq → Value × Option String)
    (req : TxnReq) (tp : TxnProcessor)
    → IsLive tp
    → req.processor_index < length tp.keys
    → Returns
        (λ tp'.
          All IsClosed tp'.unordered
          × All IsClosed tp'.ordered
          × (submit_req d async get (ok req) tp' ≡ panic))
        (close_processor tp)
unfolding close_processor
close_processor-submit d async get req tp (u, o, b, us, os) inside =
    Returns-bind (λ qs'. All IsClosed qs' × (length qs' ≡ length tp.unordered)) _
      (close_all tp.unordered) _ (close_all-IsClosed (length tp.keys) tp.unordered us)
      (λ qs k.
        Returns-bind (λ qs'. All IsClosed qs' × (length qs' ≡ length tp.ordered)) _
          (close_all tp.ordered) _ (close_all-IsClosed (length tp.keys) tp.ordered os)
          (λ qs' k'. (k.0, k'.0, submit_closed d async get req _ k.0 (omega (arith, k.1)))))
