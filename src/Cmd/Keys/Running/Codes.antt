-- ===== src/Cmd/Keys/Running/Codes.antt =====
-- What the exit codes of the commands tell.
use relayer2_public.Base.{
  ℕ, String, zero, suc, ◌==◌, ◌≡◌, refl, Option, none, some, List, [], ◌∷◌, length, All, arith,
  Outcome, ok, err, same_text, true, false, Bool, if◌then◌else◌, Run, done, panic, blocked,
  Bool-cases, same_text→eq, inl, inr,
}
use mathlib.Core.Path.{subst}
use relayer2_public.Cmd.Disk.{KeyFile, Disk, Os}
use relayer2_public.Cmd.KeyPairs.{Codec, PublicKey, new_key}
use relayer2_public.Cmd.Keys.Settings.{Config, Paths, load_config, generate_pre_run}
use relayer2_public.Cmd.Keys.{
  Near, TxStatus, not_a_map, failure, no_failure, exited, Ended, Written, written, stopped,
  keep_key, write_new_key, write_key, write_keys, add_exit, add_written, add_loaded, add_with,
  add_keys, generate_key,
}
use relayer2_public.Cmd.Keys.Adding.{IsStored, add_keys-IsSafe, Written-cases}
use relayer2_public.Cmd.Keys.Running.{
  generate_key_command, add_keys_command, Flags, Viper, config_read, pre_run, run_e, run_after,
  run_command, exit_code,
}

module _ (codec : Codec) (os : Os) (paths : Paths) (near : Near) where
  -- The loop stops by an error only.
  abbrev StopsBadly : Written → Type 0
  StopsBadly (stopped disk e) = ¬ (exit_code e ≡ 0)
  StopsBadly (written disk keys) = Unit

  keep_key-StopsBadly :
      (key : PublicKey) (r : Disk × Option String) (keys : List PublicKey)
      → StopsBadly (keep_key codec os paths near key r keys)
  unfolding keep_key exit_code
  keep_key-StopsBadly key (disk, some e) keys = λ h. omega (arith, h)
  keep_key-StopsBadly key (disk, none) keys = tt

  write_new_key-StopsBadly :
      (config : Config) (i : ℕ) (disk : Disk) (keys : List PublicKey) (r : Run KeyFile)
      → StopsBadly (write_new_key codec os paths near config i disk keys r)
  unfolding write_new_key exit_code
  write_new_key-StopsBadly config i disk keys panic = λ h. omega (arith, h)
  write_new_key-StopsBadly config i disk keys blocked = λ h. omega (arith, h)
  write_new_key-StopsBadly config i disk keys (done k) = keep_key-StopsBadly _ _ keys

  write_keys-StopsBadly :
      (config : Config) (i left : ℕ) (disk : Disk) (keys : List PublicKey)
      → StopsBadly (write_keys codec os paths near config i left disk keys)
  unfolding write_keys write_key
  write_keys-StopsBadly config i zero disk keys = tt
  write_keys-StopsBadly config i (suc left) disk keys =
      let first : StopsBadly (write_key codec os paths near config i disk keys) =
        write_new_key-StopsBadly config i disk keys
          (new_key codec (near.generate i) config.signer) in
      elim (Written-cases codec os paths near (write_key codec os paths near config i disk keys)) [
        | inl (disk', e, w) ↦ rw (write_keys, w) (subst StopsBadly w first)
        | inr (disk', keys', w) ↦
            rw (write_keys, w) (write_keys-StopsBadly config (suc i) left disk' keys')
      ]

  -- A command that ends well has sent one transaction, which Near has confirmed.
  abbrev pub IsConfirmed : Ended → Type 0
  IsConfirmed e =
      (keys : List PublicKey) × (e.sent ≡ keys ∷ []) × (near.add_keys keys ≡ ok no_failure)

  add_exit-good :
      (o : Outcome TxStatus) → exit_code (add_exit codec os paths near o) ≡ 0 → o ≡ ok no_failure
  unfolding add_exit exit_code
  add_exit-good (err e) h = cc
  add_exit-good (ok not_a_map) h = cc
  add_exit-good (ok (failure e)) h = cc
  add_exit-good (ok no_failure) h = refl

  add_written-IsConfirmed :
      (w : Written)
      → StopsBadly w
      → exit_code (add_written codec os paths near w).exit ≡ 0
      → IsConfirmed (add_written codec os paths near w)
  unfolding add_written
  add_written-IsConfirmed (stopped disk e) bad h = elim (bad h) [ ]
  add_written-IsConfirmed (written disk keys) bad h =
      (keys, refl, add_exit-good (near.add_keys keys) h)

  add_loaded-IsConfirmed :
      (config : Config) (n : ℕ) (disk : Disk) (o : Option String)
      → exit_code (add_loaded codec os paths near config n disk o).exit ≡ 0
      → IsConfirmed (add_loaded codec os paths near config n disk o)
  unfolding add_loaded exit_code
  add_loaded-IsConfirmed config n disk (some e) h = cc
  add_loaded-IsConfirmed config n disk none h =
      add_written-IsConfirmed (write_keys codec os paths near config 0 n disk [])
        (write_keys-StopsBadly config 0 n disk []) h

  -- What is asked for is some keys, or the command ends badly.
  add_some :
      (n : ℕ) (config : Config) (disk : Disk) (b : Bool)
      → (n == 0) ≡ b
      → exit_code
          (if b
            then record { disk = disk; sent = []; exit = exited 1 }
            else add_loaded codec os paths near config n disk near.load_account).exit
        ≡ 0
      → (¬ (n ≡ 0))
        × IsConfirmed (
            if b
            then record { disk = disk; sent = []; exit = exited 1 }
            else add_loaded codec os paths near config n disk near.load_account)
  unfolding exit_code
  add_some n config disk true e h = cc
  add_some n config disk false e h =
      (ground (arith, e), add_loaded-IsConfirmed config n disk near.load_account h)

  add_with-IsConfirmed :
      (n : ℕ) (disk : Disk) (r : Run Config)
      → exit_code (add_with codec os paths near n disk r).exit ≡ 0
      → (¬ (n ≡ 0)) × IsConfirmed (add_with codec os paths near n disk r)
  unfolding add_with exit_code
  add_with-IsConfirmed n disk panic h = cc
  add_with-IsConfirmed n disk blocked h = cc
  add_with-IsConfirmed n disk (done config) h = add_some n config disk (n == 0) refl h

  -- What the confirmed transaction has added.
  abbrev pub HasAdded : ℕ → Ended → Type 0
  HasAdded n e =
      (¬ (n ≡ 0))
      × ((keys : List PublicKey) × (e.sent ≡ keys ∷ [])
          × (near.add_keys keys ≡ ok no_failure)
          × (length keys ≡ n)
          × All (IsStored codec os paths near e.disk) keys)

  add_keys-HasAdded :
      (n : ℕ) (section : Outcome Config) (disk : Disk)
      → exit_code (add_keys codec os paths near n section disk).exit ≡ 0
      → HasAdded n (add_keys codec os paths near n section disk)
  unfolding add_keys
  add_keys-HasAdded n section disk h =
      let e = add_keys codec os paths near n section disk in
      let (some_asked, (keys, sent, confirmed)) =
        add_with-IsConfirmed n disk (load_config section) h in
      let stored : All (λ keys. (length keys ≡ n) × All (IsStored codec os paths near e.disk) keys)
          (keys ∷ []) =
        subst (All (λ keys. (length keys ≡ n) × All (IsStored codec os paths near e.disk) keys))
          sent (add_keys-IsSafe codec os paths near n section disk).1 in
      (some_asked, (keys, sent, confirmed, (stored.0).0, (stored.0).1))

  run_after-HasAdded :
      (o : Option String) (v : Viper) (flags : Flags) (disk : Disk)
      → exit_code (run_after codec os paths near o v add_keys_command flags disk).exit ≡ 0
      → HasAdded flags.number_of_keys
          (run_after codec os paths near o v add_keys_command flags disk)
  unfolding run_after run_e exit_code
  run_after-HasAdded (some e) v flags disk h = cc
  run_after-HasAdded none v flags disk h =
      add_keys-HasAdded flags.number_of_keys (v.section (config_read v add_keys_command flags)) disk
        h

  -- The process of add-keys exits with 0 only where a number of keys other than zero was asked
  -- for, just as many keys were sent in one transaction, Near has confirmed it, and each of the
  -- keys is held by a file.
  pub run_command-HasAdded :
      (v : Viper) (flags : Flags) (disk : Disk)
      → exit_code (run_command codec os paths near v add_keys_command flags disk).exit ≡ 0
      → HasAdded flags.number_of_keys
          (run_command codec os paths near v add_keys_command flags disk)
  unfolding run_command
  run_command-HasAdded v flags disk h =
      run_after-HasAdded (pre_run v add_keys_command flags) v flags disk h

  -- With "account-id" and without "output", generate-key reads no configuration. Where viper
  -- gives no name of a file for the key before a file was read, no key is written and the process
  -- exits with 1, whatever the configuration file and the disk hold.
  pub run_command-account_alone :
      (v : Viper) (flags : Flags) (disk : Disk) (config : Config)
      → ¬ (flags.account_id ≡ "")
      → flags.output ≡ ""
      → v.section none ≡ ok config
      → config.signer_key ≡ ""
      → run_command codec os paths near v generate_key_command flags disk
        ≡ record { disk = disk; sent = []; exit = exited 1 }
  unfolding run_command run_after pre_run run_e config_read generate_pre_run generate_key
      load_config
  run_command-account_alone v flags disk config given output unread empty =
      elim (Bool-cases (same_text flags.account_id "")) [
        | inl none_given ↦ elim (given (same_text→eq flags.account_id "" none_given)) [ ]
        | inr other ↦ rw (other, output, other, unread, empty) refl
      ]
