-- ===== src/StandaloneProxy/Tests.antt =====
-- The theorems about the processor at concrete inputs.
use relayer2_public.Base.{
  ℕ, ◌≡◌, refl, true, false, some, none, [], ◌∷◌, ◌++◌, length, arith, ok, Run,
}
use relayer2_public.Base.Int.{pos, negsuc}
use relayer2_public.Account.Mapper.{bytes_of}
use relayer2_public.StandaloneProxy.Client.{
  WriteError, Network, RpcClient, le_32, le_value, read_full, read_body, read_length, request,
  exchange, send_body,
}
use relayer2_public.StandaloneProxy.Framing.{IsAnswered, request_answer, request-IsAnswered}
use relayer2_public.StandaloneProxy.Calls.{
  number, Json, Marshal, Param, BlockWords, build_request, estimate_gas,
}
use relayer2_public.StandaloneProxy.Calls.Requests.{no_params, param, build_request-comma_list}
use relayer2_public.StandaloneProxy.Hook.{tx_arg, block_arg, pre}

-- The refiner answers with three bytes, and more follows.
abbrev network : Network
network = record {
  stat_missing = false;
  dial = ok 2;
  set_deadline = none;
  write_length = none;
  write_body = none;
  incoming = 3 ∷ 0 ∷ 0 ∷ 0 ∷ 7 ∷ 8 ∷ 9 ∷ 1 ∷ 2 ∷ [];
  broken = λ _. "unexpected EOF";
}

abbrev epipe : WriteError
epipe = record { is_epipe = true; message = "broken pipe" }

abbrev broken_pipe : Network
broken_pipe = record network { write_length = some epipe }

abbrev client : RpcClient
client = record { conn = some 1 }

request_answer_example :
    ((request network (5 ∷ 6 ∷ []) client).result ≡ ok (7 ∷ 8 ∷ 9 ∷ []))
    × ((request network (5 ∷ 6 ∷ []) client).client.conn ≡ some 1)
    × (read_length network
          (read_full 4 ((request network (5 ∷ 6 ∷ []) client).sent ++ (1 ∷ 2 ∷ [])))
        ≡ ok (5 ∷ 6 ∷ []))
unfolding le_32
request_answer_example =
    request_answer network network (5 ∷ 6 ∷ []) (7 ∷ 8 ∷ 9 ∷ []) (1 ∷ 2 ∷ []) 1 (refl, refl, refl)
      (omega arith) (omega arith) refl

request-IsAnswered_example : IsAnswered network (7 ∷ 8 ∷ 9 ∷ []) network.incoming
unfolding request exchange send_body read_length read_body read_full le_value
request-IsAnswered_example = request-IsAnswered network (7 ∷ 8 ∷ 9 ∷ []) (5 ∷ []) client refl

abbrev digits : Marshal ℕ
digits n = ok (bytes_of "7")

build_request-comma_list_example :
    build_request digits "m" (7 ∷ 7 ∷ [])
    ≡ ok (bytes_of "{\"id\":1,\"jsonrpc\":\"2.0\",\"method\":\"m\",\"params\":[7,7]}")
build_request-comma_list_example =
    build_request-comma_list digits "m" (7 ∷ 7 ∷ []) (bytes_of "7" ∷ bytes_of "7" ∷ [])
      (param refl (param refl no_params))

abbrev json : Json ℕ
json = record {
  get = λ res path. record { value = res; value_type = number; error = none };
  array_each = λ v. (v ∷ [], none);
  unmarshal_frame = λ v. ok (length v);
  parse_int = λ v. ok (pos (length v));
  uint256_of = λ n. ok 21_000;
}

abbrev words : BlockWords
words = record { earliest = pos 0; latest = negsuc 0; pending = negsuc 1 }

abbrev marshal : Marshal (Param ℕ)
marshal p = ok (bytes_of "0")

-- A block that is given by its hash has no number, which the code then dereferences.
hash_panics :
    pre json marshal words network "eth_estimateGas"
      (tx_arg 0 ∷ block_arg (some (record { block_number = none })) ∷ [])
      client
    ≡ Run.panic
unfolding pre estimate_gas
hash_panics = refl
