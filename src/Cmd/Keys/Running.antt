-- ===== src/Cmd/Keys/Running.antt =====
-- The commands of cmd/keys.go as the process runs them: the flags, what viper has read before `RunE`, and
-- the end of `main` in main.go.
pub mod Codes
use relayer2_public.Base.{
  ℕ, String, ◌&&◌, Option, none, some, [], same_text, if◌then◌else◌, Outcome,
}
use relayer2_public.Cmd.Disk.{Disk, Os}
use relayer2_public.Cmd.KeyPairs.{Codec}
use relayer2_public.Cmd.Keys.Settings.{
  Config, Paths, ReadError, default_config_file, bind_configuration, generate_pre_run,
}
use relayer2_public.Cmd.Keys.{
  Near, Exit, returned, failed, exited, panicked, Ended, add_keys, delete_keys, generate_key,
}

pub data Command : Type 0 where
  generate_key_command add_keys_command delete_keys_command : Command

-- "config", "account-id", "output" and "number-of-keys".
pub record Flags : Type 0 where
  pub config : String
  pub account_id : String
  pub output : String
  pub number_of_keys : ℕ

abbrev pub default_flags : Flags
default_flags = record {
  config = default_config_file;
  account_id = "";
  output = "";
  number_of_keys = 0;
}

-- What a read of a file answers, and what "endpoint.engine" unmarshals to after the file was read, or
-- where none was.
pub record Viper : Type 0 where
  pub read_in_config : String → Option ReadError
  pub section : Option String → Outcome Config

unfoldable pub file_read : Viper → String → Option String
file_read v config =
    let file = if same_text config "" then default_config_file else config in
    elim (v.read_in_config file) [ none ↦ some file | some e ↦ none ]

-- The file that has been read before `RunE`.
unfoldable pub config_read : Viper → Command → Flags → Option String
unfolding file_read
config_read v generate_key_command flags =
    if same_text flags.account_id "" && same_text flags.output ""
    then file_read v flags.config
    else none
config_read v add_keys_command flags = file_read v flags.config
config_read v delete_keys_command flags = file_read v flags.config

unfoldable pub pre_run : Viper → Command → Flags → Option String
unfolding generate_pre_run bind_configuration
pre_run v generate_key_command flags =
    generate_pre_run v.read_in_config flags.account_id flags.output flags.config
pre_run v add_keys_command flags = bind_configuration v.read_in_config flags.config
pre_run v delete_keys_command flags = bind_configuration v.read_in_config flags.config

module _ (codec : Codec) (os : Os) (paths : Paths) (near : Near) where
  unfoldable pub run_e : Command → Flags → Outcome Config → Disk → Ended
  unfolding generate_key add_keys delete_keys
  run_e generate_key_command flags section disk =
      generate_key codec os paths near flags.account_id flags.output section disk
  run_e add_keys_command flags section disk =
      add_keys codec os paths near flags.number_of_keys section disk
  run_e delete_keys_command flags section disk = delete_keys codec os paths near section disk

  -- An error of `PersistentPreRunE` ends the command before `RunE`.
  unfoldable pub run_after : Option String → Viper → Command → Flags → Disk → Ended
  unfolding run_e config_read
  run_after (some e) v command flags disk = record { disk = disk; sent = []; exit = failed e }
  run_after none v command flags disk =
      run_e command flags (v.section (config_read v command flags)) disk

  unfoldable pub run_command : Viper → Command → Flags → Disk → Ended
  unfolding run_after pre_run
  run_command v command flags disk = run_after (pre_run v command flags) v command flags disk

-- The exit code of the process: `main` exits with 1 where `Execute` gives an error, and a panic with 2.
unfoldable pub exit_code : Exit → ℕ
exit_code returned = 0
exit_code (failed e) = 1
exit_code (exited code) = code
exit_code panicked = 2
