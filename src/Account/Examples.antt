-- ===== src/Account/Examples.antt =====
-- The addresses, nodes and requests that the tests of the account package use.
use relayer2_public.Base.{refl, ℕ, ◌*◌, ◌%◌, true, false, none, some, [], ◌∷◌, u64_mod, ok, err}
use relayer2_public.Account.Status.{eth_nonce_error}
use relayer2_public.Account.Value.{null}
use relayer2_public.Account.Queue.{TxnQ}
use relayer2_public.Account.Mapper.{crc32_mapper}
use relayer2_public.Account.Request.{Address, TxnReq, Response, second}
use relayer2_public.Account.Nonce.{NonceCache, Node}
use relayer2_public.Account.Processor.{TxnProcessor, Clock}
use relayer2_public.Account.Processor.Liveness.{IsLive}
use relayer2_public.Account.Reads.{reply, status, Decoders}

abbrev pub alice : Address
alice = record { hex = "0xa1"; bytes = 161 ∷ [] }

abbrev pub bob : Address
bob = record { hex = "0xb0"; bytes = 176 ∷ [] }

-- A node whose answer to `get_nonce` is 7, as the base library decodes it.
abbrev pub node : Node ℕ
node = record {
  view_nonce = λ _. ok 40;
  view_function = λ _ _. ok null;
  new_query_result = λ _. ok 7;
  to_uint256 = λ n. ok n;
  as_uint64 = λ n. n % u64_mod;
}

-- One that cannot be reached.
abbrev pub silent : Node ℕ
silent = record node { view_nonce = λ _. err "timeout"; view_function = λ _ _. err "timeout" }

-- Half a minute past the time of the requests.
abbrev pub clock : Clock
clock = record { first = 1030 * second; second_ = 1030 * second; third = 1031 * second }

abbrev pub late : Clock
late = record { first = 1100 * second; second_ = 1100 * second; third = 1101 * second }

abbrev pub request : Address → ℕ → TxnReq
request sender nonce = record {
  processor_index = 0;
  timestamp = 1000;
  nonce = nonce;
  sender = sender;
  raw_txn = [];
  hash = "0x00";
  retransmit = false;
}

abbrev pub five : NonceCache
five = record { nonce = 5; update_time = 1000 * second }

abbrev pub queue : TxnQ TxnReq
queue = record { items = []; capacity = 100; closed = false; cancelled = false }

abbrev pub processor : TxnProcessor
processor = record {
  mapper = some crc32_mapper;
  min_gas_price = 0;
  min_gas_limit = 21_000;
  keys = "ed25519:k" ∷ [];
  eth_nonce_cache = ("0xa1", five) ∷ [];
  near_nonce_cache = [];
  ordered = queue ∷ [];
  unordered = queue ∷ [];
  circuit_breaker = false ∷ [];
}

-- Every queue of it is open.
pub processor-IsLive : IsLive processor
processor-IsLive = (refl, refl, refl, ((refl, tt), tt), ((refl, tt), tt))

abbrev pub nonce_response : Response
nonce_response = record { status = eth_nonce_error; resp = null; err = none; ts = 0 }

abbrev pub again : TxnReq
again = record (request alice 5) { retransmit = true }

-- Decoders that answer 7, and "0x01" for a submission.
abbrev pub decoders : Decoders ℕ ℕ ℕ
decoders = record {
  new_query_result = λ _. ok 7;
  to_string_response = λ _. reply "0x07";
  to_uint256_response = λ n. reply n;
  new_transaction_status = λ _. status 1;
  transaction_response = λ _. reply "0x01";
  new_submit_status = λ _ _. ok 1;
  submit_response = λ _. reply "0x01";
  response_0x = "0x";
  zero_str_uint256 = "0x00";
}
