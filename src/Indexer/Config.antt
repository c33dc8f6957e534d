-- ===== src/Indexer/Config.antt =====
-- indexer/config.go. `viper`, which reads the configuration file, is outside: `sub` is what its
-- `Unmarshal` makes of the defaults, if the file has a section for the indexer.
use relayer2_public.Base.{ℕ, String, Bool, false, Option, none, some}

pub record Config : Type 0 where
  pub keep_files : Bool
  pub force_reindex : Bool
  pub retry_count_on_failure : ℕ  -- uint8
  pub sub_folder_batch_size : ℕ  -- uint16
  pub genesis_block : ℕ  -- uint64
  pub from_block : ℕ  -- uint64
  pub to_block : ℕ  -- uint64
  pub source_folder : String
  pub wait_for_block_ms : ℕ  -- uint16

abbrev pub default_genesis_block : ℕ
default_genesis_block = 9_820_210

abbrev pub default_to_block : ℕ
default_to_block = 0

unfoldable pub default_config : Config
default_config = record {
  keep_files = false;
  force_reindex = false;
  retry_count_on_failure = 10;
  sub_folder_batch_size = 10_000;
  genesis_block = default_genesis_block;
  from_block = default_genesis_block;
  to_block = default_to_block;
  source_folder = "/tmp/relayer/json/";
  wait_for_block_ms = 500;
}

-- A failed `Unmarshal` is only logged, and what it has written stays.
unfoldable pub get_config : Option (Config → Config) → Config
unfolding default_config
get_config none = default_config
get_config (some unmarshal) = unmarshal default_config
