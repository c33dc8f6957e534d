-- ===== src/Account/Processor/Admission.antt =====
-- Which transactions `NewTxnReq` takes.
use relayer2_public.Base.{
  ℕ, ◌≤◌, ◌≡◌, refl, false, List, arith, ltb, length, ok, err, Outcome, done, deref, Keeps,
  Keeps-bind, Keeps-any, Keeps-value, Bool-cases, inl, inr,
}
use relayer2_public.Account.Mapper.{map_key}
use relayer2_public.Account.Request.{Address, TxnReq}
use relayer2_public.Account.Processor.{
  Transaction, Decoder, TxnProcessor, new_txn_req, check_gas, check_address, check_sender,
}

module _ (d : Decoder) (now : ℕ) (raw_txn : List ℕ) (tp : TxnProcessor) where
  -- What a taken request says of its transaction.
  abbrev pub IsAdmitted : TxnReq → Type 0
  IsAdmitted req =
      (tx : Transaction) × (sender : Address) × ((d.unmarshal_binary raw_txn ≡ ok tx)
        × (d.sender tx ≡ ok sender)
        × (tp.min_gas_price ≤ tx.gas_price)
        × (tp.min_gas_limit ≤ tx.gas)
        × (req.nonce ≡ tx.nonce)
        × (req.sender ≡ sender)
        × (req.raw_txn ≡ raw_txn)
        × (req.retransmit ≡ false))

  abbrev Taken : Outcome TxnReq → Type 0
  Taken (ok req) = IsAdmitted req
  Taken (err e) = Unit

  check_gas-Taken :
      (tx : Transaction) (sender : Address)
      → d.unmarshal_binary raw_txn ≡ ok tx
      → d.sender tx ≡ ok sender
      → Keeps Taken (check_gas d now raw_txn tx sender tp)
  unfolding check_gas
  check_gas-Taken tx sender decoded sent = elim (Bool-cases (ltb tx.gas_price tp.min_gas_price)) [
    | inl cheap ↦ rw cheap tt
    | inr e ↦ elim (Bool-cases (ltb tx.gas tp.min_gas_limit)) [
      | inl low ↦ rw (e, low) tt
      | inr f ↦
          rw (e, f)
            (Keeps-bind (λ _. Unit) Taken (deref tp.mapper) _ (Keeps-any (deref tp.mapper))
              (λ mapper _.
                Keeps-bind (λ _. Unit) Taken (map_key mapper sender.hex (length tp.keys)) _
                  (Keeps-any (map_key mapper sender.hex (length tp.keys)))
                  (λ idx _. (
                    tx,
                    sender,
                    (decoded, sent, ground arith, ground arith, refl, refl, refl, refl),
                  ))))
    ]
  ]

  check_address-Taken :
      (tx : Transaction) (o : Outcome Address)
      → d.unmarshal_binary raw_txn ≡ ok tx
      → d.sender tx ≡ o
      → Keeps Taken (check_address d now raw_txn tx o tp)
  unfolding check_address
  check_address-Taken tx (err e) decoded sent = tt
  check_address-Taken tx (ok sender) decoded sent = check_gas-Taken tx sender decoded sent

  check_sender-Taken :
      (o : Outcome Transaction)
      → d.unmarshal_binary raw_txn ≡ o
      → Keeps Taken (check_sender d now raw_txn o tp)
  unfolding check_sender
  check_sender-Taken (err e) decoded = tt
  check_sender-Taken (ok tx) decoded = check_address-Taken tx (d.sender tx) decoded refl

  -- A transaction that is taken decodes, has a sender, and keeps both gas bounds; the request carries
  -- its nonce, its sender and its bytes, and is no retransmission.
  pub new_txn_req-IsAdmitted :
      (req : TxnReq) → new_txn_req d now raw_txn tp ≡ done (ok req) → IsAdmitted req
  unfolding new_txn_req
  new_txn_req-IsAdmitted req taken =
      let kept : Keeps Taken (new_txn_req d now raw_txn tp) =
        check_sender-Taken (d.unmarshal_binary raw_txn) refl in
      Keeps-value Taken (new_txn_req d now raw_txn tp) (ok req) kept taken
