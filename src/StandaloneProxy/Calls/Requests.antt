-- ===== src/StandaloneProxy/Calls/Requests.antt =====
-- What the calls send and what they make of the response.
use relayer2_public.Base.{
  ℕ, String, ◌<◌, ◌≡◌, refl, Bool, true, false, some, List, [], ◌∷◌, ◌++◌, length, if◌then◌else◌,
  ok, done,
}
use relayer2_public.Base.Int.{ℤ}
use relayer2_public.Account.Mapper.{bytes_of}
use relayer2_public.StandaloneProxy.Client.{u32_mod, Network}
use relayer2_public.StandaloneProxy.Framing.{frame, IsSound, request_whole, append_assoc}
use relayer2_public.StandaloneProxy.Calls.{
  Json, Marshal, Param, hash_param, tx_param, BlockWords, request_head, write_params, build_request,
  send_trace, trace_response, trace_transaction, parse_trace, block_param, send_estimate,
  gas_response, estimate_gas, parse_estimate_gas_response,
}

-- The texts of the parameters, in their order.
pub data Marshals {P : Type 0} (marshal : Marshal P) : List P → List (List ℕ) → Type 0 where
  no_params : Marshals marshal [] []
  param :
      {p : P} {t : List ℕ} {ps : List P} {ts : List (List ℕ)}
      → marshal p ≡ ok t
      → Marshals marshal ps ts
      → Marshals marshal (p ∷ ps) (t ∷ ts)

-- Each text behind a comma.
abbrev pub after_commas : List (List ℕ) → List ℕ
after_commas [] = []
after_commas (t ∷ ts) = bytes_of "," ++ (t ++ after_commas ts)

-- The texts with commas between them.
abbrev pub comma_list : List (List ℕ) → List ℕ
comma_list [] = []
comma_list (t ∷ ts) = t ++ after_commas ts

write_params_step :
    {P : Type 0} (marshal : Marshal P) (first : Bool) (b : List ℕ) (p : P) (t : List ℕ)
    (ps : List P)
    → marshal p ≡ ok t
    → write_params marshal first b (p ∷ ps)
      ≡ write_params marshal false ((if first then b else b ++ bytes_of ",") ++ t) ps
unfolding write_params
write_params_step marshal first b p t ps e = rw (write_params, e)

write_params_rest :
    {P : Type 0} (marshal : Marshal P) (b : List ℕ) (ps : List P) (ts : List (List ℕ))
    → Marshals marshal ps ts
    → write_params marshal false b ps ≡ ok (b ++ (after_commas ts ++ bytes_of "]}"))
unfolding write_params
write_params_rest marshal b ps ts no_params = refl
write_params_rest marshal b ps ts (param {p = p} {t = t} {ps = ps'} {ts = ts'} e m) = rw (
  write_params_step marshal false b p t ps' e,
  write_params_rest marshal ((b ++ bytes_of ",") ++ t) ps' ts' m,
  append_assoc (b ++ bytes_of ",") t (after_commas ts' ++ bytes_of "]}"),
  append_assoc b (bytes_of ",") (t ++ (after_commas ts' ++ bytes_of "]}")),
  append_assoc t (after_commas ts') (bytes_of "]}"),
)

write_params_first :
    {P : Type 0} (marshal : Marshal P) (b : List ℕ) (ps : List P) (ts : List (List ℕ))
    → Marshals marshal ps ts
    → write_params marshal true b ps ≡ ok (b ++ (comma_list ts ++ bytes_of "]}"))
unfolding write_params
write_params_first marshal b ps ts no_params = refl
write_params_first marshal b ps ts (param {p = p} {t = t} {ps = ps'} {ts = ts'} e m) = rw (
  write_params_step marshal true b p t ps' e,
  write_params_rest marshal (b ++ t) ps' ts' m,
  append_assoc b t (after_commas ts' ++ bytes_of "]}"),
  append_assoc t (after_commas ts') (bytes_of "]}"),
)

-- A request whose parameters can all be serialized is the head, the texts with commas between them, and
-- the end.
pub build_request-comma_list :
    {P : Type 0} (marshal : Marshal P) (method : String) (ps : List P) (ts : List (List ℕ))
    → Marshals marshal ps ts
    → build_request marshal method ps ≡ ok (request_head method ++ (comma_list ts ++ bytes_of "]}"))
unfolding build_request
build_request-comma_list marshal method ps ts m =
    write_params_first marshal (request_head method) ps ts m

-- A call over a sound connection makes of the first response that arrives what the reading of that
-- response gives, and keeps the connection.
calls_answer :
    {F Tx : Type 0} (json : Json F) (marshal : Marshal (Param Tx)) (words : BlockWords)
    (net : Network) (hash : String) (tx : Tx) (c : ℕ) (bn : ℤ) (trace estimate resp rest : List ℕ)
    → build_request marshal "debug_traceTransaction" (hash_param hash ∷ []) ≡ ok trace
    → build_request marshal "eth_estimateGas"
        (tx_param tx ∷ block_param json marshal words net bn ∷ [])
      ≡ ok estimate
    → IsSound net
    → length resp < u32_mod
    → net.incoming ≡ frame resp ++ rest
    → (trace_transaction json marshal words net hash (record { conn = some c }) ≡ (
      record { conn = some c },
      parse_trace json marshal words net resp (json.get resp ("result" ∷ [])),
    ))
      × (estimate_gas json marshal words net tx (some bn) (record { conn = some c })
          ≡ done
              (record { conn = some c }, parse_estimate_gas_response json marshal words net resp))
unfolding trace_transaction estimate_gas send_trace send_estimate trace_response gas_response
calls_answer json marshal words net hash tx c bn trace estimate resp rest built built' sound small
      incoming =
    (
      rw (built, request_whole net trace resp rest c sound small incoming),
      rw (built', request_whole net estimate resp rest c sound small incoming),
    )
