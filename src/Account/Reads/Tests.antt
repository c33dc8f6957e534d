-- ===== src/Account/Reads/Tests.antt =====
-- The theorems about the calls of an account at concrete inputs.
use relayer2_public.Base.{String, ◌≡◌, refl, [], ◌∷◌, arith, ok, err, Returns}
use relayer2_public.Account.Request.{TxnReq}
use relayer2_public.Account.Nonce.{lookup, get_nonce}
use relayer2_public.Account.Mapper.{map_key, checksum_ieee}
use relayer2_public.Account.Processor.{Transaction, Decoder, new_txn_req}
use relayer2_public.Account.Processor.Admission.{IsAdmitted, new_txn_req-IsAdmitted}
use relayer2_public.Account.Processor.Eval.{settle}
use relayer2_public.Account.Examples.{
  decoders, alice, node, clock, request, processor, nonce_response, again,
}
use relayer2_public.Account.Reads.{reply, Connections, answer_sync}
use relayer2_public.Account.Reads.Submission.{retransmit_answer}

abbrev failing : String → Connections
failing e = record { near_account = λ _ _ _. err e; near_archival_account = λ _ _ _. err e }

retransmit_answer_example :
    Returns
      (λ s. answer_sync decoders "0x00" (s.resp.resp, s.resp.err) ≡ reply "0x00")
      (settle node clock again nonce_response processor)
unfolding lookup get_nonce
retransmit_answer_example =
    retransmit_answer decoders node clock again nonce_response processor 7 "ed25519:k" refl refl
      refl refl (omega arith) refl (omega arith)

abbrev transaction : Transaction
transaction = record { gas_price = 1; gas = 30_000; nonce = 5 }

abbrev decoder : Decoder
decoder = record {
  unmarshal_binary = λ _. ok transaction;
  sender = λ _. ok alice;
  calculate_keccak256 = λ _. "0x00";
}

abbrev taken : TxnReq
taken = record (request alice 5) { raw_txn = 1 ∷ [] }

new_txn_req-IsAdmitted_example : IsAdmitted decoder 1000 (1 ∷ []) processor taken
unfolding new_txn_req map_key checksum_ieee
new_txn_req-IsAdmitted_example = new_txn_req-IsAdmitted decoder 1000 (1 ∷ []) processor taken refl
