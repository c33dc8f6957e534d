-- ===== src/Cmd/Keys.antt =====
-- The commands of cmd/keys.go. The flags, what viper reads, the paths of the package `filepath`, the
-- generator of key pairs and the Near account are arguments.
pub mod Settings
pub mod Adding
pub mod Loading
pub mod Deleting
pub mod Repeating
pub mod Running
mod Tests
use Prim.Native.String as Str
use relayer2_public.Base.{
  ℕ, String, zero, suc, ◌+◌, ◌==◌, ◌&&◌, Bool, Option, none, some, List, [], ◌∷◌, ◌++◌, same_text,
  is_some, not, ◌||◌, if◌then◌else◌, Outcome, ok, err, Run, done, panic, blocked,
}
use relayer2_public.Cmd.Disk.{KeyFile, Content, Disk, read_file, remove_path, Os, dump_json}
use relayer2_public.Cmd.KeyPairs.{Codec, PublicKey, public_key_from_base_58, new_key}
use relayer2_public.Cmd.Keys.Settings.{Config, load_config, Paths, key_pair_paths}

-- The value of "status" in the answer of Near: no map, or a map with or without a failure.
pub data TxStatus : Type 0 where
  not_a_map : TxStatus
  failure : String → TxStatus
  no_failure : TxStatus

-- The calls of the Near account and of its key store, and the generator: its answer at each call.
pub record Near : Type 0 where
  pub load_account : Option String
  pub add_keys : List PublicKey → Outcome TxStatus
  pub delete_keys : List PublicKey → Outcome TxStatus
  pub load_key_pair : String → Option Content → Outcome String
  pub generate : ℕ → Outcome (List ℕ × List ℕ)

-- How a command ends: `RunE` returns nil or an error, or the process ends by an exit code or a panic.
pub data Exit : Type 0 where
  returned : Exit
  failed : String → Exit
  exited : ℕ → Exit
  panicked : Exit

-- `sent` are the keys of the transactions that were sent.
pub record Ended : Type 0 where
  pub disk : Disk
  pub sent : List (List PublicKey)
  pub exit : Exit

pub data Written : Type 0 where
  written : Disk → List PublicKey → Written
  stopped : Disk → Exit → Written

module _ (codec : Codec) (os : Os) (paths : Paths) (near : Near) where
  -- `fk<i>.<base>` beside the key of the signer.
  unfoldable pub key_path : Config → ℕ → String
  key_path config i =
      Str.◌++◌ (paths.dir config.signer_key)
        (Str.◌++◌ "/fk" (Str.◌++◌ (paths.decimal i) (Str.◌++◌ "." (paths.base config.signer_key))))

  -- After a key file has been written.
  unfoldable pub keep_key : PublicKey → Disk × Option String → List PublicKey → Written
  keep_key key (disk, some e) keys = stopped disk (exited 1)
  keep_key key (disk, none) keys = written disk (keys ++ (key ∷ []))

  unfoldable pub write_new_key : Config → ℕ → Disk → List PublicKey → Run KeyFile → Written
  unfolding keep_key key_path dump_json
  write_new_key config i disk keys panic = stopped disk panicked
  write_new_key config i disk keys blocked = stopped disk panicked
  write_new_key config i disk keys (done k) =
      keep_key (public_key_from_base_58 codec k.public_key)
        (dump_json os (key_path config i) k disk) keys

  unfoldable pub write_key : Config → ℕ → Disk → List PublicKey → Written
  unfolding write_new_key new_key
  write_key config i disk keys =
      write_new_key config i disk keys (new_key codec (near.generate i) config.signer)

  -- The loop over the keys, from the index on.
  unfoldable pub write_keys : Config → ℕ → ℕ → Disk → List PublicKey → Written
  unfolding write_key
  write_keys config i zero disk keys = written disk keys
  write_keys config i (suc left) disk keys = elim (write_key config i disk keys) [
    | stopped disk' e ↦ stopped disk' e
    | written disk' keys' ↦ write_keys config (suc i) left disk' keys'
  ]

  -- The exit of `AddKeys` once the transaction was answered.
  unfoldable pub add_exit : Outcome TxStatus → Exit
  add_exit (err e) = exited 1
  add_exit (ok not_a_map) = panicked
  add_exit (ok (failure e)) = exited 1
  add_exit (ok no_failure) = returned

  unfoldable pub add_written : Written → Ended
  unfolding add_exit
  add_written (stopped disk e) = record { disk = disk; sent = []; exit = e }
  add_written (written disk keys) = record {
    disk = disk;
    sent = keys ∷ [];
    exit = add_exit (near.add_keys keys);
  }

  unfoldable pub add_loaded : Config → ℕ → Disk → Option String → Ended
  unfolding add_written write_keys
  add_loaded config n disk (some e) = record { disk = disk; sent = []; exit = exited 1 }
  add_loaded config n disk none = add_written (write_keys config 0 n disk [])

  unfoldable pub add_with : ℕ → Disk → Run Config → Ended
  unfolding add_loaded
  add_with n disk panic = record { disk = disk; sent = []; exit = panicked }
  add_with n disk blocked = record { disk = disk; sent = []; exit = panicked }
  add_with n disk (done config) =
      if n == 0
      then record { disk = disk; sent = []; exit = exited 1 }
      else add_loaded config n disk near.load_account

  -- `RunE` of AddKeysCmd, with `numberOfKeys` and what viper unmarshals.
  unfoldable pub add_keys : ℕ → Outcome Config → Disk → Ended
  unfolding add_with load_config
  add_keys n section disk = add_with n disk (load_config section)

  -- The loop that loads the key pairs: the public keys, or the exit.
  unfoldable pub load_keys : List String → Disk → List PublicKey → Outcome (List PublicKey)
  load_keys [] disk keys = ok keys
  load_keys (path ∷ rest) disk keys = elim (near.load_key_pair path (read_file path disk)) [
    | err e ↦ err e
    | ok public_key ↦ load_keys rest disk (keys ++ (public_key_from_base_58 codec public_key ∷ []))
  ]

  -- The loop that removes the files; `os.Remove` fails at a missing file too.
  unfoldable pub remove_files : List String → Disk → Disk × Bool
  unfolding remove_path read_file
  remove_files [] disk = (disk, Bool.true)
  remove_files (path ∷ rest) disk =
      let removed = remove_files rest (remove_path path disk) in
      if is_some (os.remove path) || not (is_some (read_file path disk))
      then (disk, Bool.false)
      else removed

  unfoldable pub delete_ended : List PublicKey → Disk × Bool → Ended
  delete_ended keys (disk, all) = record {
    disk = disk;
    sent = keys ∷ [];
    exit = if all then exited 0 else exited 1;
  }

  unfoldable pub delete_answered : List String → Disk → List PublicKey → Outcome TxStatus → Ended
  unfolding delete_ended remove_files
  delete_answered files disk keys (err e) = record {
    disk = disk;
    sent = keys ∷ [];
    exit = exited 1;
  }
  delete_answered files disk keys (ok not_a_map) = record {
    disk = disk;
    sent = keys ∷ [];
    exit = panicked;
  }
  delete_answered files disk keys (ok (failure e)) = record {
    disk = disk;
    sent = keys ∷ [];
    exit = exited 1;
  }
  delete_answered files disk keys (ok no_failure) = delete_ended keys (remove_files files disk)

  unfoldable pub delete_loaded : List String → Disk → Outcome (List PublicKey) → Ended
  unfolding delete_answered
  delete_loaded files disk (err e) = record { disk = disk; sent = []; exit = exited 1 }
  delete_loaded files disk (ok keys) = delete_answered files disk keys (near.delete_keys keys)

  unfoldable pub delete_with : Disk → Run Config → Ended
  unfolding delete_loaded load_keys key_pair_paths
  delete_with disk panic = record { disk = disk; sent = []; exit = panicked }
  delete_with disk blocked = record { disk = disk; sent = []; exit = panicked }
  delete_with disk (done config) =
      let files = key_pair_paths paths config.signer_key config.function_key_prefix_pattern in
      if is_some near.load_account
      then record { disk = disk; sent = []; exit = exited 1 }
      else delete_loaded files disk (load_keys files disk [])

  -- `RunE` of DeleteKeysCmd.
  unfoldable pub delete_keys : Outcome Config → Disk → Ended
  unfolding delete_with load_config
  delete_keys section disk = delete_with disk (load_config section)

  -- What `dumpJson` answers is not looked at.
  generate_at : String → Disk → Run KeyFile → Ended
  unfolding dump_json
  generate_at path disk panic = record { disk = disk; sent = []; exit = panicked }
  generate_at path disk blocked = record { disk = disk; sent = []; exit = panicked }
  generate_at path disk (done k) = record {
    disk = (dump_json os path k disk).0;
    sent = [];
    exit = returned;
  }

  generate_with : Disk → Run Config → Ended
  unfolding generate_at new_key
  generate_with disk panic = record { disk = disk; sent = []; exit = panicked }
  generate_with disk blocked = record { disk = disk; sent = []; exit = panicked }
  generate_with disk (done config) =
      if same_text config.signer_key ""
      then record { disk = disk; sent = []; exit = exited 1 }
      else generate_at config.signer_key disk (new_key codec (near.generate 0) "")

  -- `RunE` of GenerateKeysCmd, with the flags "account-id" and "output".
  unfoldable pub generate_key : String → String → Outcome Config → Disk → Ended
  unfolding generate_with generate_at load_config new_key
  generate_key account_id output_path section disk =
      if same_text output_path ""
      then generate_with disk (load_config section)
      else generate_at output_path disk (new_key codec (near.generate 0) account_id)
