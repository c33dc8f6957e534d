-- ===== src/Cmd/Keys/Repeating.antt =====
-- AddKeysCmd after itself.
use relayer2_public.Base.{
  ℕ, String, zero, suc, ◌+◌, ◌≡◌, ◌≢◌, refl, sym, Option, none, some, List, [], arith, Outcome, Run,
  done, panic, blocked, inl, inr,
}
use mathlib.Core.Path.{subst}
use relayer2_public.Cmd.Disk.{KeyFile, Content, key_file, Disk, read_file, Os, dump_json}
use relayer2_public.Cmd.Disk.Files.{
  Dumped, refused, broken, stored, dump_json-Dumped, read_file-write_file_self,
}
use relayer2_public.Cmd.KeyPairs.{Codec, PublicKey, public_key_from_base_58, new_key}
use relayer2_public.Cmd.Keys.Settings.{Config, load_config, Paths}
use relayer2_public.Cmd.Keys.{
  Near, Exit, Ended, Written, written, stopped, key_path, keep_key, write_new_key, write_key,
  write_keys, add_written, add_loaded, add_with, add_keys,
}
use relayer2_public.Cmd.Keys.Adding.{IsKept, write_new_key-IsKept, write_keys-IsKept, Written-cases}

-- There is a file.
abbrev IsThere : String → Disk → Type 0
IsThere path disk = (c : Content) × (read_file path disk ≡ some c)

module _ (codec : Codec) (os : Os) (paths : Paths) (near : Near) where
  -- The loop cannot get past a file that is there.
  write_new_key_there :
      (config : Config) (i : ℕ) (disk : Disk) (keys : List PublicKey) (r : Run KeyFile)
      → IsThere (key_path codec os paths near config i) disk
      → (e : Exit) × (write_new_key codec os paths near config i disk keys r ≡ stopped disk e)
  unfolding write_new_key keep_key dump_json
  write_new_key_there config i disk keys panic there = (Exit.panicked, refl)
  write_new_key_there config i disk keys blocked there = (Exit.panicked, refl)
  write_new_key_there config i disk keys (done k) (c, there) =
      (Exit.exited 1, ground (arith, there))

  -- If the loop goes on, the file is there.
  abbrev Leaves : String → Written → Type 0
  Leaves path (stopped disk e) = Unit
  Leaves path (written disk keys) = IsThere path disk

  Leaves-Extends :
      (path : String) (disk : Disk) (n : ℕ) (w : Written)
      → IsThere path disk
      → IsKept codec os paths near disk n w
      → Leaves path w
  Leaves-Extends path disk n (stopped disk' e) there k = tt
  Leaves-Extends path disk n (written disk' keys) (c, there) k = (c, k.0 path c there)

  keep_key-Leaves :
      (path : String) (k : KeyFile) (disk : Disk) (key : PublicKey) (keys : List PublicKey)
      {r : Disk × Option String}
      → Dumped path k disk r
      → Leaves path (keep_key codec os paths near key r keys)
  unfolding keep_key
  keep_key-Leaves path k disk key keys (refused e) = tt
  keep_key-Leaves path k disk key keys (broken e free) = tt
  keep_key-Leaves path k disk key keys (stored free) =
      (key_file k, read_file-write_file_self path (key_file k) disk)

  write_new_key-Leaves :
      (config : Config) (i : ℕ) (disk : Disk) (keys : List PublicKey) (r : Run KeyFile)
      → Leaves
          (key_path codec os paths near config i)
          (write_new_key codec os paths near config i disk keys r)
  unfolding write_new_key
  write_new_key-Leaves config i disk keys panic = tt
  write_new_key-Leaves config i disk keys blocked = tt
  write_new_key-Leaves config i disk keys (done k) =
      let path = key_path codec os paths near config i in
      keep_key-Leaves path k disk (public_key_from_base_58 codec k.public_key) keys
        (dump_json-Dumped os path k disk)

  -- After a loop that has written its keys, the first of its files is there.
  write_keys-Leaves :
      (config : Config) (i left : ℕ) (disk : Disk)
      → Leaves
          (key_path codec os paths near config i)
          (write_keys codec os paths near config i (suc left) disk [])
  unfolding write_keys write_key
  write_keys-Leaves config i left disk =
      let path = key_path codec os paths near config i in
      let first = write_key codec os paths near config i disk [] in
      let made = new_key codec (near.generate i) config.signer in
      let there : Leaves path first = write_new_key-Leaves config i disk [] made in
      let kept : IsKept codec os paths near disk (0 + 1) first =
        write_new_key-IsKept codec os paths near config i disk [] made tt in
      elim (Written-cases codec os paths near first) [
        | inl (disk', e, w) ↦ rw (write_keys, w) tt
        | inr (disk', keys', w) ↦
            let now = subst (IsKept codec os paths near disk (0 + 1)) w kept in
            rw (write_keys, w)
              (Leaves-Extends path disk' _
                (write_keys codec os paths near config (suc i) left disk' keys')
                (subst (Leaves path) w there)
                (write_keys-IsKept codec os paths near config (suc i) left disk' keys' now.2))
      ]

  -- What a run of the command that sent keys has found: the configuration, and the first file.
  abbrev HasRun : Run Config → Ended → Type 0
  HasRun r e =
      e.sent ≢ []
      → (config : Config) × (r ≡ done config)
        × IsThere (key_path codec os paths near config 0) e.disk

  add_written-IsThere :
      (path : String) (w : Written)
      → Leaves path w
      → (add_written codec os paths near w).sent ≢ []
      → IsThere path (add_written codec os paths near w).disk
  unfolding add_written
  add_written-IsThere path (stopped disk e) l sent = absurd (sent refl)
  add_written-IsThere path (written disk keys) l sent = l

  add_loaded-IsThere :
      (config : Config) (n : ℕ) (disk : Disk) (o : Option String)
      → (add_loaded codec os paths near config (suc n) disk o).sent ≢ []
      → IsThere
          (key_path codec os paths near config 0)
          (add_loaded codec os paths near config (suc n) disk o).disk
  unfolding add_loaded
  add_loaded-IsThere config n disk (some e) sent = absurd (sent refl)
  add_loaded-IsThere config n disk none sent =
      add_written-IsThere (key_path codec os paths near config 0)
        (write_keys codec os paths near config 0 (suc n) disk [])
        (write_keys-Leaves config 0 n disk) sent

  add_with-suc :
      (config : Config) (n : ℕ) (disk : Disk)
      → add_with codec os paths near (suc n) disk (done config)
        ≡ add_loaded codec os paths near config (suc n) disk near.load_account
  unfolding add_with
  add_with-suc config n disk = ground arith

  add_with-HasRun :
      (n : ℕ) (disk : Disk) (r : Run Config) → HasRun r (add_with codec os paths near n disk r)
  unfolding add_with
  add_with-HasRun n disk panic sent = absurd (sent refl)
  add_with-HasRun n disk blocked sent = absurd (sent refl)
  add_with-HasRun zero disk (done config) sent = absurd (sent refl)
  add_with-HasRun (suc n) disk (done config) sent =
      let same = add_with-suc config n disk in
      (
        config,
        refl,
        subst (λ e. IsThere (key_path codec os paths near config 0) e.disk) (sym same)
            (add_loaded-IsThere config n disk near.load_account
              (subst (λ e. e.sent ≢ []) same sent)),
      )

  -- A run at a disk that has the first file.
  abbrev IsIdle : Disk → Ended → Type 0
  IsIdle disk e = (e.sent ≡ []) × (e.disk ≡ disk)

  add_loaded_there :
      (config : Config) (n : ℕ) (disk : Disk) (o : Option String)
      → IsThere (key_path codec os paths near config 0) disk
      → IsIdle disk (add_loaded codec os paths near config (suc n) disk o)
  unfolding add_loaded add_written write_keys write_key
  add_loaded_there config n disk (some e) there = (refl, refl)
  add_loaded_there config n disk none there =
      let made = new_key codec (near.generate 0) config.signer in
      let stops = write_new_key_there config 0 disk [] made there in
      rw (write_keys, stops.1) (refl, refl)

  add_with_there :
      (config : Config) (n : ℕ) (disk : Disk)
      → IsThere (key_path codec os paths near config 0) disk
      → IsIdle disk (add_with codec os paths near n disk (done config))
  unfolding add_with
  add_with_there config zero disk there = (refl, refl)
  add_with_there config (suc n) disk there =
      subst (IsIdle disk) (sym (add_with-suc config n disk))
        (add_loaded_there config n disk near.load_account there)

-- After a run of AddKeysCmd that has sent its keys, whatever Near answered, a run with the same
-- configuration sends nothing and leaves the disk as it is: the first key file is in its way.
pub add_keys_again :
    (codec : Codec) (os os' : Os) (paths : Paths) (near near' : Near) (n m : ℕ)
    (section : Outcome Config) (disk : Disk)
    → (add_keys codec os paths near n section disk).sent ≢ []
    → let first = add_keys codec os paths near n section disk in
      let second = add_keys codec os' paths near' m section first.disk in
      (second.sent ≡ []) × (second.disk ≡ first.disk)
unfolding add_keys key_path
add_keys_again codec os os' paths near near' n m section disk sent =
    let first = add_keys codec os paths near n section disk in
    let (config, loaded, there) =
      add_with-HasRun codec os paths near n disk (load_config section) sent in
    subst
      (λ r. IsIdle codec os' paths near' first.disk (add_with codec os' paths near' m first.disk r))
      (sym loaded) (add_with_there codec os' paths near' config m first.disk there)
