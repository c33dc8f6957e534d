-- ===== src/Account/Nonce.antt =====
-- The nonce caches of account/txnProcessor.go. `now` is the time at the start of a function and
-- `later` the time after its call of the node; both stand more than two seconds after the moment from
-- which times are counted.
pub mod Entries
use relayer2_public.Base.{
  ℕ, String, ◌+◌, ◌-◌, ◌*◌, ◌%◌, ◌<◌, Bool, true, false, Option, none, some, List, [], ◌∷◌, ltb,
  same_text, if◌then◌else◌, u64_mod, Outcome, ok, err,
}
use relayer2_public.Account.Request.{second, Address}
use relayer2_public.Account.Value.{Value}

abbrev pub q_cap : ℕ
q_cap = 100

abbrev pub min_nonce_update_interval : ℕ
min_nonce_update_interval = 2 * second

pub record NonceCache : Type 0 where
  pub nonce : ℕ  -- uint64
  pub update_time : ℕ

abbrev pub Cache : Type 0
Cache = List (String × NonceCache)

unfoldable pub lookup : String → Cache → Option NonceCache
lookup k [] = none
lookup k ((j, v) ∷ c) = if same_text j k then some v else lookup k c

unfoldable pub insert : String → NonceCache → Cache → Cache
insert k v [] = (k, v) ∷ []
insert k v ((j, w) ∷ c) = if same_text j k then (k, v) ∷ c else (j, w) ∷ insert k v c

-- What the Near node and the decoders of the base library answer at one moment. `Q` is the base
-- library's query result.
pub record Node (Q : Type 0) : Type 0 where
  pub view_nonce : String → Outcome ℕ
  pub view_function : String → List ℕ → Outcome Value
  pub new_query_result : Value → Outcome Q
  pub to_uint256 : Q → Outcome ℕ
  pub as_uint64 : ℕ → ℕ

-- Two failing calls in a row.
abbrev and_then : {A B : Type 0} → Outcome A → (A → Outcome B) → Outcome B
and_then (ok a) f = f a
and_then (err e) f = err e

-- The nonce of an address as the engine tells it.
unfoldable pub get_nonce : {Q : Type 0} → Node Q → Address → Outcome ℕ
get_nonce node address = and_then (node.view_function "get_nonce" address.bytes) λ resp.
    and_then (node.new_query_result resp)
      λ engine_resp. and_then (node.to_uint256 engine_resp) λ n. ok (node.as_uint64 n)

abbrev pub fresh_entry : ℕ → ℕ → NonceCache
fresh_entry now nonce = record { nonce = nonce; update_time = now - min_nonce_update_interval }

unfoldable pub next_of : String → ℕ → Outcome ℕ → Option NonceCache → Cache → Cache × Outcome ℕ
unfolding insert
next_of key now reply (some nc) c =
    let n = (nc.nonce + 1) % u64_mod in (insert key (record nc { nonce = n }) c, ok n)
next_of key now (err e) none c = (c, err e)
next_of key now (ok nonce) none c =
    let n = (nonce + 1) % u64_mod in (insert key (fresh_entry now n) c, ok n)

unfoldable pub next_near_nonce : {Q : Type 0} → Node Q → ℕ → String → Cache → Cache × Outcome ℕ
unfolding next_of lookup
next_near_nonce node now key c = next_of key now (node.view_nonce key) (lookup key c) c

-- The two updates share their guard: within the interval nothing is done, and a missing entry is made
-- with the nonce 0 before the node is asked.
guarded : ℕ → Option NonceCache → Bool
guarded now none = false
guarded now (some nc) = ltb now (nc.update_time + min_nonce_update_interval)

with_entry : String → ℕ → Option NonceCache → Cache → Cache
unfolding insert
with_entry key now none c = insert key (fresh_entry now 0) c
with_entry key now (some _) c = c

store_reply : String → ℕ → Outcome ℕ → Cache → Cache × Bool
unfolding insert
store_reply key later (ok n) c = (insert key (record { nonce = n; update_time = later }) c, true)
store_reply key later (err _) c = (c, false)

abbrev add_q_cap : Outcome ℕ → Outcome ℕ
add_q_cap (ok n) = ok ((n + q_cap) % u64_mod)
add_q_cap (err e) = err e

unfoldable pub update_near_nonce_cache : {Q : Type 0} → Node Q → ℕ → ℕ → String → Cache → Cache
unfolding guarded with_entry store_reply lookup
update_near_nonce_cache node now later key c =
    if guarded now (lookup key c)
    then c
    else (store_reply key later (add_q_cap (node.view_nonce key))
        (with_entry key now (lookup key c) c)).0

-- The cache, and whether it was updated: the caller treats an error like `false`.
unfoldable pub update_eth_nonce_cache :
    {Q : Type 0} → Node Q → ℕ → ℕ → Address → Cache → Cache × Bool
unfolding guarded with_entry store_reply lookup
update_eth_nonce_cache node now later address c =
    if guarded now (lookup address.hex c)
    then (c, false)
    else store_reply address.hex later (get_nonce node address)
        (with_entry address.hex now (lookup address.hex c) c)
