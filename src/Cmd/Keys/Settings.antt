-- ===== src/Cmd/Keys/Settings.antt =====
-- What the commands take from the configuration and from the file names.
use relayer2_public.Base.{
  ℕ, String, ◌&&◌, Option, none, some, List, [], same_text, if◌then◌else◌, Outcome, ok, err, Run,
  done, panic,
}
use Prim.Native.String as Str

-- `near.Config`, as far as it is set.
pub record NearConfig : Type 0 where
  pub network_id : String
  pub node_url : String
  pub key_path : String

pub record Config : Type 0 where
  pub signer : String
  pub signer_key : String
  pub function_key_prefix_pattern : String
  pub near_network_id : String
  pub near_node_url : String
  pub near_archival_node_url : String
  pub near_config : NearConfig

abbrev pub default_config_file : String
default_config_file = "config/testnet.yaml"

-- Without a node for transactions the archival node serves.
abbrev node_url_of : Config → String
node_url_of config =
    if same_text config.near_node_url ""
    then config.near_archival_node_url
    else config.near_node_url

-- `section` is what viper unmarshals from "endpoint.engine".
unfoldable pub load_config : Outcome Config → Run Config
load_config (err e) = panic
load_config (ok config) = done (record config {
  near_node_url = node_url_of config;
  near_config = record {
    network_id = config.near_network_id;
    node_url = node_url_of config;
    key_path = config.signer_key;
  };
})

-- The functions of the package `filepath` that are used, and the decimal text of a number.
pub record Paths : Type 0 where
  pub dir : String → String
  pub base : String → String
  pub split : String → String × String
  pub join : String → String → String
  pub glob : String → Outcome (List String)
  pub decimal : ℕ → String

matching : Outcome (List String) → List String
matching (err e) = []
matching (ok files) = files

-- `getFunctionCallKeyPairFilePaths`
unfoldable pub key_pair_paths : Paths → String → String → List String
unfolding matching
key_pair_paths paths path prefix_pattern =
    let (dir, file) = paths.split path in
    matching (paths.glob (paths.join dir (Str.◌++◌ prefix_pattern file)))

pub data ReadError : Type 0 where
  config_file_not_found : ReadError
  other_error : String → ReadError

bound : Option ReadError → Option String
bound none = none
bound (some config_file_not_found) = none
bound (some (other_error e)) = some e

-- `bindConfiguration`, with the flag "config" and what viper answers to a read of a file.
unfoldable pub bind_configuration : (String → Option ReadError) → String → Option String
unfolding bound
bind_configuration read_in_config config_file =
    bound (read_in_config (if same_text config_file "" then default_config_file else config_file))

-- `PersistentPreRunE` of GenerateKeysCmd.
unfoldable pub generate_pre_run :
    (String → Option ReadError) → String → String → String → Option String
unfolding bind_configuration
generate_pre_run read_in_config account_id output_path config_file =
    if same_text account_id "" && same_text output_path ""
    then bind_configuration read_in_config config_file
    else none
