-- ===== src/Account/Opening/Tests.antt =====
-- The opening and closing of an account, and requests to it, at concrete inputs.
use relayer2_public.Base.{
  String, List, ◌≡◌, refl, Option, none, [], ◌∷◌, arith, Outcome, ok, panic, Survives, Returns, All,
  true,
}
use relayer2_public.Account.Value.{Value, null}
use relayer2_public.Account.Processor.{Decoder, new_txn_processor, close_processor}
use relayer2_public.Account.Processor.Liveness.{IsLive}
use relayer2_public.Account.Request.{TxnReq}
use relayer2_public.Account.Reads.{submit_req, send_raw_transaction}
use relayer2_public.Account.Examples.{processor, processor-IsLive, request, alice, decoders}
use relayer2_public.Account.Opening.{EngineConfig, NearConfig, NearAccount, Account, new_account}
use relayer2_public.Account.Opening.Wired.{IsWired, new_account-IsWired}
use relayer2_public.Account.Opening.Submitting.{
  IsClosed, send_raw_transaction-IsLive, close_processor-submit,
}

abbrev settings : EngineConfig
settings = record {
  near_network_id = "testnet";
  near_node_url = "https://rpc";
  near_archival_node_url = "https://archival";
  signer = "relayer.testnet";
  signer_key = "keys";
  function_key_prefix_pattern = "fk*.";
  function_key_mapper = "CRC32";
  min_gas_price = 0;
  min_gas_limit = 21_000;
  async_send_raw_txs = true;
}

abbrev load : NearConfig → String → Outcome (List String)
load c signer = ok ("ed25519:k" ∷ [])

abbrev connection : String → NearAccount
connection url = record {
  config = record { network_id = "testnet"; node_url = url; pattern = "fk*."; key_path = "keys" };
  verified_access_keys = "ed25519:k" ∷ [];
}

abbrev account : Account
account = record {
  config = settings;
  near_archival_account = connection "https://archival";
  near_account = connection "https://rpc";
  txn_processor = record processor { eth_nonce_cache = [] };
}

new_account-IsWired_example :
    (a : Account) × (new_account load settings ≡ ok a)
    × IsWired settings a
    × (a.txn_processor.keys ≡ "ed25519:k" ∷ [])
    × (a.near_account.verified_access_keys ≡ "ed25519:k" ∷ [])
new_account-IsWired_example =
    new_account-IsWired load settings ("ed25519:k" ∷ []) ("ed25519:k" ∷ []) refl refl refl

opens : new_account load settings ≡ ok account
unfolding new_account new_txn_processor
opens = refl

abbrev decoder : Decoder
decoder = record {
  unmarshal_binary = λ _. ok (record { gas_price = 1; gas = 30_000; nonce = 5 });
  sender = λ _. ok alice;
  calculate_keccak256 = λ _. "0x00";
}

abbrev get : TxnReq → Value × Option String
get req = (null, none)

send_raw_transaction-IsLive_example :
    Survives
      (λ r. IsLive r.0)
      (send_raw_transaction decoders decoder 1000 true get (1 ∷ []) processor)
send_raw_transaction-IsLive_example =
    send_raw_transaction-IsLive decoder 1000 (1 ∷ []) processor refl (omega arith) (omega arith)
      decoders true get processor-IsLive

close_processor-submit_example :
    Returns
      (λ tp'.
        All IsClosed tp'.unordered
        × All IsClosed tp'.ordered
        × (submit_req decoders true get (ok (request alice 5)) tp' ≡ panic))
      (close_processor processor)
close_processor-submit_example =
    close_processor-submit decoders true get (request alice 5) processor processor-IsLive
      (omega arith)
