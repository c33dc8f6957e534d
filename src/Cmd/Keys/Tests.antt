-- ===== src/Cmd/Keys/Tests.antt =====
-- The theorems about the commands at concrete inputs.
use Prim.Native.String as Str
use relayer2_public.Base.{
  ◌==◌, ◌≡◌, refl, false, none, some, arith, [], ◌∷◌, same_text, if◌then◌else◌, ok,
}
use text.Mathlib.TextEquality.{eq_iff}
use relayer2_public.Cmd.Disk.{KeyFile, key_file, Disk, read_file, write_file, Os, dump_json}
use relayer2_public.Cmd.KeyPairs.{Codec, public_key_from_base_58, new_key}
use relayer2_public.Cmd.Keys.Settings.{Config, load_config, Paths, key_pair_paths}
use relayer2_public.Cmd.Keys.{
  Near, no_failure, failure, returned, exited, key_path, add_keys, delete_keys, generate_key,
  load_keys, remove_files,
}
use relayer2_public.Cmd.Keys.Adding.{IsSafe, add_keys-IsSafe}
use relayer2_public.Cmd.Keys.Deleting.{IsGuarded, delete_keys-IsGuarded, delete_keys-IsWithout}
use relayer2_public.Cmd.Keys.Repeating.{add_keys_again}
use relayer2_public.Cmd.Keys.Running.{
  generate_key_command, add_keys_command, Flags, default_flags, Viper, run_command, exit_code,
}
use relayer2_public.Cmd.Keys.Running.Codes.{
  HasAdded, run_command-HasAdded, run_command-account_alone,
}

-- Keys of two bytes, written in one letter.
abbrev codec : Codec
codec = record {
  encode_58 = λ bs. "A";
  decode_58 = λ s. if same_text s "A" then 1 ∷ 2 ∷ [] else [];
  encode_hex = λ bs. "0102";
  data_size = 2;
}

abbrev os : Os
os = record { stat_fails = λ _. false; create = λ _. none; encode = λ _. none; remove = λ _. none }

abbrev paths : Paths
paths = record {
  dir = λ _. "config";
  base = λ _. "relayer.json";
  split = λ _. ("config/", "relayer.json");
  join = λ d f. Str.◌++◌ d f;
  glob = λ _. ok ("config/fk0.relayer.json" ∷ "config/fk1.relayer.json" ∷ []);
  decimal = λ n. if n == 0 then "0" else "1";
}

abbrev near : Near
near = record {
  load_account = none;
  add_keys = λ _. ok no_failure;
  delete_keys = λ _. ok no_failure;
  load_key_pair = λ path content. ok "ed25519:A";
  generate = λ _. ok (1 ∷ 2 ∷ [], 3 ∷ []);
}

-- Near refuses every transaction.
abbrev refusing : Near
refusing = record near { add_keys = λ _. ok (failure "no"); delete_keys = λ _. ok (failure "no") }

abbrev section : Config
section = record {
  signer = "aurora.near";
  signer_key = "config/relayer.json";
  function_key_prefix_pattern = "fk*.";
  near_network_id = "mainnet";
  near_node_url = "";
  near_archival_node_url = "https://archival";
  near_config = record { network_id = ""; node_url = ""; key_path = "" };
}

abbrev unset : Config
unset = record {
  signer = "";
  signer_key = "";
  function_key_prefix_pattern = "";
  near_network_id = "";
  near_node_url = "";
  near_archival_node_url = "";
  near_config = record { network_id = ""; node_url = ""; key_path = "" };
}

abbrev config : Config
config = record section {
  near_node_url = "https://archival";
  near_config = record {
    network_id = "mainnet";
    node_url = "https://archival";
    key_path = "config/relayer.json";
  };
}

abbrev key : KeyFile
key = record { account_id = "aurora.near"; public_key = "ed25519:A"; secret_key = "ed25519:A" }

-- A file of another use, and one of a key.
abbrev disk : Disk
disk = ("config/relayer.json", key_file key) ∷ []

abbrev full : Disk
full = ("config/fk0.relayer.json", key_file key) ∷ ("config/fk1.relayer.json", key_file key) ∷ disk

add_keys-IsSafe_example :
    IsSafe codec os paths refusing disk 2 (add_keys codec os paths refusing 2 (ok section) disk)
add_keys-IsSafe_example = add_keys-IsSafe codec os paths refusing 2 (ok section) disk

added : (add_keys codec os paths near 2 (ok section) disk).exit ≡ returned
unfolding add_keys new_key public_key_from_base_58 key_path dump_json read_file write_file
added = refl

add_keys_again_example :
    let first = add_keys codec os paths refusing 2 (ok section) disk in
    let second = add_keys codec os paths near 1 (ok section) first.disk in
    (second.sent ≡ []) × (second.disk ≡ first.disk)
unfolding add_keys new_key public_key_from_base_58 key_path dump_json read_file write_file
add_keys_again_example =
    add_keys_again codec os os paths refusing near 2 1 (ok section) disk (λ e. cc)

delete_keys-IsGuarded_example :
    IsGuarded codec os paths near
      ("config/fk0.relayer.json" ∷ "config/fk1.relayer.json" ∷ [])
      full
      (delete_keys codec os paths near (ok section) full)
unfolding load_config key_pair_paths
delete_keys-IsGuarded_example =
    delete_keys-IsGuarded codec os paths near (ok section) config full refl

delete_keys-IsWithout_example :
    read_file "config/fk1.relayer.json" (delete_keys codec os paths near (ok section) full).disk
    ≡ none
unfolding load_config delete_keys key_pair_paths remove_files load_keys read_file
delete_keys-IsWithout_example =
    delete_keys-IsWithout codec os paths near (ok section) config full refl refl
      "config/fk1.relayer.json"

-- The key is not written, and yet the command says that it was generated.
not_generated :
    (generate_key codec os paths near "" "config/relayer.json" (ok section) disk).disk ≡ disk
unfolding generate_key new_key dump_json read_file
not_generated = refl

says_generated :
    (generate_key codec os paths near "" "config/relayer.json" (ok section) disk).exit ≡ returned
unfolding generate_key new_key dump_json read_file
says_generated = refl

-- Viper has nothing for the commands until it has read a file.
abbrev viper : Viper
viper = record {
  read_in_config = λ file. none;
  section = λ file. elim file [ none ↦ ok unset | some name ↦ ok section ];
}

abbrev two_more : Flags
two_more = record default_flags { number_of_keys = 2 }

run_command-HasAdded_example :
    HasAdded codec os paths near 2
      (run_command codec os paths near viper add_keys_command two_more disk)
unfolding run_command load_config new_key dump_json exit_code
run_command-HasAdded_example = run_command-HasAdded codec os paths near viper two_more disk refl

abbrev for_alice : Flags
for_alice = record default_flags { account_id = "alice.near" }

run_command-account_alone_example :
    run_command codec os paths near viper generate_key_command for_alice disk
    ≡ record { disk = disk; sent = []; exit = exited 1 }
run_command-account_alone_example =
    run_command-account_alone codec os paths near viper for_alice disk unset
      (ground (arith, eq_iff "alice.near" "")) refl refl refl
