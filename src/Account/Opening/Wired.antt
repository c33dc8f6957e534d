-- ===== src/Account/Opening/Wired.antt =====
-- An account from its opening to its closing.

use relayer2_public.Base.{String, ◌≡◌, refl, false, List, arith, Outcome, ok, err}
use text.Mathlib.TextEquality.{eq_iff}
use relayer2_public.Account.Processor.Liveness.{IsLive, new_txn_processor-IsLive}
use relayer2_public.Account.Processor.{new_txn_processor}
use relayer2_public.Account.Opening.{
  is_missing, EngineConfig, NearConfig, Account, near_config, with_both, with_archival, new_account,
}

-- The account is live, each connection goes to its node, and both use the keys of the signer.
abbrev pub IsWired : EngineConfig → Account → Type 0
IsWired c a =
    IsLive a.txn_processor
    × (a.near_archival_account.config.node_url ≡ c.near_archival_node_url)
    × (a.near_account.config.node_url ≡ c.near_node_url)
    × (a.near_archival_account.config.key_path ≡ c.signer_key)
    × (a.near_account.config.key_path ≡ c.signer_key)

abbrev Opened : EngineConfig → Outcome Account → Type 0
Opened c (err e) = Unit
Opened c (ok a) = IsWired c a

module _ (load : NearConfig → String → Outcome (List String)) (c : EngineConfig) where
  key_path_lem : (url : String) → (near_config c url).key_path ≡ c.signer_key
  unfolding near_config
  key_path_lem url = ground (arith, eq_iff c.signer_key "")

  with_both-Opened :
      (keys : List String) (o : Outcome (List String)) → Opened c (with_both load c keys o)
  unfolding with_both
  with_both-Opened keys (err e) = tt
  with_both-Opened keys (ok keys') = (
    new_txn_processor-IsLive c.function_key_mapper c.min_gas_price c.min_gas_limit keys,
    unfold near_config in refl,
    unfold near_config in refl,
    key_path_lem c.near_archival_node_url,
    key_path_lem c.near_node_url,
  )

  -- Where the configuration names the network, the node and the signer, and the keys can be loaded for both
  -- nodes, `NewAccount` gives an account with the two queues and the circuit breaker of each key that was
  -- verified with the archival node, all queues open, and with a connection to each of the two nodes,
  -- which uses the keys of the signer.
  pub new_account-IsWired :
      (keys keys' : List String)
      → is_missing load c ≡ false
      → load (near_config c c.near_archival_node_url) c.signer ≡ ok keys
      → load (near_config c c.near_node_url) c.signer ≡ ok keys'
      → (a : Account) × (new_account load c ≡ ok a)
        × IsWired c a
        × (a.txn_processor.keys ≡ keys)
        × (a.near_account.verified_access_keys ≡ keys')
  unfolding new_account with_archival with_both
  new_account-IsWired keys keys' there archival near =
      let made : new_account load c ≡ with_both load c keys (ok keys') =
        simp (there, archival, near) in
      (_, made, with_both-Opened keys (ok keys'), unfold new_txn_processor in refl, refl)
