-- ===== src/Account/Nonce/Entries.antt =====
-- The laws of the cache, and what its updates do to an entry.
use relayer2_public.Base.{
  is_some, ℕ, String, ◌+◌, ◌%◌, ◌≤◌, ◌<◌, ◌≡◌, ◌≢◌, refl, true, false, Option, none, some, [], ◌∷◌,
  arith, same_text, same_text_refl, if◌then◌else◌, u64_mod, ok, err, Option-cases, inl, inr,
}
use mathlib.Core.Option.{get_or}
use text.Mathlib.TextEquality.{eq_iff}
use relayer2_public.Account.Request.{Address}
use relayer2_public.Account.Nonce.{
  NonceCache, Cache, lookup, insert, Node, get_nonce, fresh_entry, next_near_nonce,
  update_eth_nonce_cache, min_nonce_update_interval,
}

pub lookup-insert :
    (k j : String) (v : NonceCache) (c : Cache)
    → lookup j (insert k v c) ≡ (if same_text k j then some v else lookup j c)
unfolding lookup insert
lookup-insert k j v [] = refl
lookup-insert k j v ((i, w) ∷ c) =
    ground (arith, eq_iff k j, eq_iff i k, eq_iff i j, lookup-insert k j v c)

pub lookup-insert_self :
    (k : String) (v : NonceCache) (c : Cache) → lookup k (insert k v c) ≡ some v
lookup-insert_self k v c = ground (arith, lookup-insert k k v c, same_text_refl k)

pub lookup-insert_ne :
    (k j : String) (v : NonceCache) (c : Cache) → k ≢ j → lookup j (insert k v c) ≡ lookup j c
lookup-insert_ne k j v c ne = ground (arith, lookup-insert k j v c, eq_iff k j)

-- The entry of an address, if there is one, is old enough for an update.
abbrev pub IsDue : ℕ → Option NonceCache → Type 0
IsDue now none = Unit
IsDue now (some nc) = nc.update_time + min_nonce_update_interval ≤ now

module _ {Q : Type 0} (node : Node Q) where
  -- A nonce that is cached is counted up by one for each call, without the node.
  next_near_nonce_hit :
      (now : ℕ) (key : String) (c : Cache) (nc : NonceCache)
      → lookup key c ≡ some nc
      → let (c', r) = next_near_nonce node now key c in
        (r ≡ ok ((nc.nonce + 1) % u64_mod))
        × (lookup key c' ≡ some (record nc { nonce = (nc.nonce + 1) % u64_mod }))
  unfolding next_near_nonce
  next_near_nonce_hit now key c nc h =
      ground (arith, lookup-insert_self key (record nc { nonce = (nc.nonce + 1) % u64_mod }) c)

  -- Within the interval after an update nothing is done.
  update_eth_nonce_cache_throttled :
      (now later : ℕ) (a : Address) (c : Cache) (nc : NonceCache)
      → lookup a.hex c ≡ some nc
      → now < nc.update_time + min_nonce_update_interval
      → update_eth_nonce_cache node now later a c ≡ (c, false)
  unfolding update_eth_nonce_cache
  update_eth_nonce_cache_throttled now later a c nc h lt = ground arith

  -- Without an entry, or with one that is old enough, the answer of the node becomes the entry, dated
  -- by its arrival.
  pub update_eth_nonce_cache_stores :
      (now later n : ℕ) (a : Address) (c : Cache)
      → IsDue now (lookup a.hex c)
      → get_nonce node a ≡ ok n
      → let (c', updated) = update_eth_nonce_cache node now later a c in
        (updated ≡ true) × (lookup a.hex c' ≡ some (record { nonce = n; update_time = later }))
  unfolding update_eth_nonce_cache
  update_eth_nonce_cache_stores now later n a c due e =
      let entry : NonceCache = record { nonce = n; update_time = later } in
      elim (Option-cases (lookup a.hex c)) [
        | inl missed ↦
            ground (arith, lookup-insert_self a.hex entry (insert a.hex (fresh_entry now 0) c))
        | inr (nc, hit) ↦ ground (arith, lookup-insert_self a.hex entry c)
      ]

  -- With no answer of the node an entry that was there stays as it is, and one that was not is left
  -- behind with the nonce 0.
  pub update_eth_nonce_cache_fails :
      (now later : ℕ) (x : String) (a : Address) (c : Cache)
      → get_nonce node a ≡ err x
      → let (c', updated) = update_eth_nonce_cache node now later a c in
        (updated ≡ false) × (lookup a.hex c' ≡ some (get_or (lookup a.hex c) (fresh_entry now 0)))
  unfolding update_eth_nonce_cache
  update_eth_nonce_cache_fails now later x a c e = elim (Option-cases (lookup a.hex c)) [
    | inl missed ↦ ground (arith, lookup-insert_self a.hex (fresh_entry now 0) c)
    | inr (nc, hit) ↦ ground arith
  ]

  -- An update touches no other address.
  pub update_eth_nonce_cache_others :
      (now later : ℕ) (a : Address) (j : String) (c : Cache)
      → a.hex ≢ j
      → lookup j (update_eth_nonce_cache node now later a c).0 ≡ lookup j c
  unfolding update_eth_nonce_cache
  update_eth_nonce_cache_others now later a j c ne = grind (arith, lookup-insert_ne)

  -- Without an answer of the node, a known entry stays, and the caller is told of no update.
  pub update_eth_nonce_cache_silent :
      (now later : ℕ) (a : Address) (c : Cache) (nc : NonceCache) (e : String)
      → lookup a.hex c ≡ some nc
      → get_nonce node a ≡ err e
      → update_eth_nonce_cache node now later a c ≡ (c, false)
  unfolding update_eth_nonce_cache
  update_eth_nonce_cache_silent now later a c nc e h silent = ground arith

  -- An update that was made leaves an entry.
  pub update_eth_nonce_cache_updated :
      (now later : ℕ) (a : Address) (c : Cache)
      → (update_eth_nonce_cache node now later a c).1 ≡ true
      → is_some (lookup a.hex (update_eth_nonce_cache node now later a c).0) ≡ true
  unfolding update_eth_nonce_cache
  update_eth_nonce_cache_updated now later a c = grind (arith, lookup-insert_self)
