-- ===== src/Account/Opening.antt =====
-- `NewAccount` of account/account.go, and its end. What loads the keys of a Near account is an argument.
pub mod Wired
pub mod Submitting
mod Tests
use relayer2_public.Base.{
  ℕ, String, ◌||◌, Bool, List, same_text, if◌then◌else◌, Outcome, ok, err, Run, done, ◌>>=◌,
}
use Prim.Native.String as Str
use relayer2_public.Account.Processor.{TxnProcessor, new_txn_processor, close_processor}

-- What `NewAccount` and the processor read of `EngineConfig`.
pub record EngineConfig : Type 0 where
  pub near_network_id : String
  pub near_node_url : String
  pub near_archival_node_url : String
  pub signer : String
  pub signer_key : String
  pub function_key_prefix_pattern : String
  pub function_key_mapper : String
  pub min_gas_price : ℕ
  pub min_gas_limit : ℕ
  pub async_send_raw_txs : Bool

-- `near.Config`
pub record NearConfig : Type 0 where
  pub network_id : String
  pub node_url : String
  pub pattern : String
  pub key_path : String

pub record NearAccount : Type 0 where
  pub config : NearConfig
  pub verified_access_keys : List String

pub record Account : Type 0 where
  pub config : EngineConfig
  pub near_archival_account : NearAccount
  pub near_account : NearAccount
  pub txn_processor : TxnProcessor

unfoldable pub near_config : EngineConfig → String → NearConfig
near_config c url = record {
  network_id = c.near_network_id;
  node_url = url;
  pattern = c.function_key_prefix_pattern;
  key_path = if same_text c.signer_key "" then "" else c.signer_key;
}

-- The text of a failure names the path of the keys.
load_failed : NearConfig → String
load_failed c = Str.◌++◌ "failed to load Near account from path: [" (Str.◌++◌ c.key_path "]")

-- `load` is `LoadAccount`: the verified keys of the account, or an error.
module _ (load : NearConfig → String → Outcome (List String)) (c : EngineConfig) where
  unfoldable pub with_both : List String → Outcome (List String) → Outcome Account
  unfolding near_config load_failed new_txn_processor
  with_both archival_keys (err e) = err (load_failed (near_config c c.near_node_url))
  with_both archival_keys (ok keys) = ok (record {
    config = c;
    near_archival_account = record {
      config = near_config c c.near_archival_node_url;
      verified_access_keys = archival_keys;
    };
    near_account = record { config = near_config c c.near_node_url; verified_access_keys = keys };
    txn_processor =
        new_txn_processor c.function_key_mapper c.min_gas_price c.min_gas_limit archival_keys;
  })

  unfoldable pub with_archival : Outcome (List String) → Outcome Account
  unfolding with_both near_config load_failed
  with_archival (err e) = err (load_failed (near_config c c.near_archival_node_url))
  with_archival (ok keys) = with_both keys (load (near_config c c.near_node_url) c.signer)

  abbrev pub is_missing : Bool
  is_missing =
      same_text c.near_network_id "" || (same_text c.near_node_url "" || same_text c.signer "")

  unfoldable pub new_account : Outcome Account
  unfolding with_archival near_config
  new_account =
      if is_missing
      then err
          "one or more Near configuration is missing, please check [nearNetworkID], [NearNodeURL], [signer] under `endpoint->engine` in config file"
      else with_archival (load (near_config c c.near_archival_node_url) c.signer)

-- `Close` up to its waits.
unfoldable pub close_account : Account → Run Account
unfolding close_processor
close_account a = do tp ← close_processor a.txn_processor; done (record a { txn_processor = tp })
