-- ===== src/Cmd/Keys/Deleting.antt =====
-- When DeleteKeysCmd removes files, and which.
use mathlib.Core.Path.{subst}
use relayer2_public.Base.{
  String, ◌≡◌, refl, sym, Bool, true, false, ◌||◌, not, none, List, [], ◌∷◌, arith, same_text,
  is_some, if◌then◌else◌, Outcome, ok, err, done, Bool-cases, inl, inr, ◌⊎◌,
}
use relayer2_public.Cmd.Disk.{Disk, read_file, remove_path, Os}
use relayer2_public.Cmd.Disk.Files.{read_file-remove_path}
use relayer2_public.Cmd.KeyPairs.{Codec, PublicKey}
use relayer2_public.Cmd.Keys.Settings.{Config, load_config, Paths, key_pair_paths}
use relayer2_public.Cmd.Keys.Loading.{AreKeysOf, HasLoaded, load_keys-HasLoaded}
use relayer2_public.Cmd.Keys.{
  Near, TxStatus, not_a_map, failure, no_failure, exited, Ended, remove_files, delete_ended,
  delete_answered, delete_loaded, delete_with, delete_keys, load_keys,
}

abbrev pub is_listed : String → List String → Bool
is_listed q [] = false
is_listed q (path ∷ rest) = same_text path q || is_listed q rest

module _ (codec : Codec) (os : Os) (paths : Paths) (near : Near) where
  -- No file but those of the list differs.
  abbrev pub KeepsOthers : List String → Disk → Disk → Type 0
  KeepsOthers files disk disk' =
      (q : String) → read_file q disk' ≡ read_file q disk ⊎ (is_listed q files ≡ true)

  -- Either nothing was removed, or one transaction with the keys of the files was sent, Near has
  -- confirmed it, and at most those files are gone.
  abbrev pub IsGuarded : List String → Disk → Ended → Type 0
  IsGuarded files disk e =
      (e.disk ≡ disk)
      ⊎ ((keys : List PublicKey) × (e.sent ≡ keys ∷ [])
          × AreKeysOf codec os paths near disk files keys
          × (near.delete_keys keys ≡ ok no_failure)
          × KeepsOthers files disk e.disk)

  remove_files-KeepsOthers :
      (files : List String) (disk : Disk)
      → KeepsOthers files disk (remove_files codec os paths near files disk).0
  unfolding remove_files
  remove_files-KeepsOthers [] disk q = inl refl
  remove_files-KeepsOthers (path ∷ rest) disk q = ground (
    arith,
    remove_files-KeepsOthers rest (remove_path path disk) q,
    read_file-remove_path path q disk,
  )

  delete_ended-KeepsOthers :
      (files : List String) (disk : Disk) (keys : List PublicKey) (r : Disk × Bool)
      → KeepsOthers files disk r.0
      → ((delete_ended codec os paths near keys r).sent ≡ keys ∷ [])
        × KeepsOthers files disk (delete_ended codec os paths near keys r).disk
  unfolding delete_ended
  delete_ended-KeepsOthers files disk keys (disk', all) h = (refl, h)

  delete_answered-IsGuarded :
      (files : List String) (disk : Disk) (keys : List PublicKey) (r : Outcome TxStatus)
      → AreKeysOf codec os paths near disk files keys
      → near.delete_keys keys ≡ r
      → IsGuarded files disk (delete_answered codec os paths near files disk keys r)
  unfolding delete_answered
  delete_answered-IsGuarded files disk keys (err e) are h = inl refl
  delete_answered-IsGuarded files disk keys (ok not_a_map) are h = inl refl
  delete_answered-IsGuarded files disk keys (ok (failure e)) are h = inl refl
  delete_answered-IsGuarded files disk keys (ok no_failure) are h =
      let (sent, kept) =
        delete_ended-KeepsOthers files disk keys (remove_files codec os paths near files disk)
          (remove_files-KeepsOthers files disk) in
      inr (keys, sent, are, h, kept)

  delete_loaded-IsGuarded :
      (files : List String) (disk : Disk) (r : Outcome (List PublicKey))
      → HasLoaded codec os paths near disk files [] r
      → IsGuarded files disk (delete_loaded codec os paths near files disk r)
  unfolding delete_loaded
  delete_loaded-IsGuarded files disk (err e) h = inl refl
  delete_loaded-IsGuarded files disk (ok keys) (loaded, e, are) =
      delete_answered-IsGuarded files disk keys (near.delete_keys keys)
        (subst (AreKeysOf codec os paths near disk files) (sym e) are) refl

  delete_done-IsGuarded :
      (config : Config) (disk : Disk)
      → IsGuarded
          (key_pair_paths paths config.signer_key config.function_key_prefix_pattern)
          disk
          (delete_with codec os paths near disk (done config))
  unfolding delete_with
  delete_done-IsGuarded config disk =
      let files = key_pair_paths paths config.signer_key config.function_key_prefix_pattern in
      elim (Bool-cases (is_some near.load_account)) [
        | inl fails ↦ rw fails (inl refl)
        | inr loaded ↦ rw loaded (
            delete_loaded-IsGuarded files disk (load_keys codec os paths near files disk [])
              (load_keys-HasLoaded codec os paths near files disk []))
      ]

  -- Where the configuration can be read, DeleteKeysCmd removes files only after it has sent, in one
  -- transaction, the keys that the files which match the pattern hold, one for each file, and Near has
  -- confirmed that transaction; then no other file changes. However else it ends, the disk is unchanged.
  pub delete_keys-IsGuarded :
      (section : Outcome Config) (config : Config) (disk : Disk)
      → load_config section ≡ done config
      → IsGuarded
          (key_pair_paths paths config.signer_key config.function_key_prefix_pattern)
          disk
          (delete_keys codec os paths near section disk)
  unfolding delete_keys
  delete_keys-IsGuarded section config disk loaded =
      subst
        (λ r.
          IsGuarded (key_pair_paths paths config.signer_key config.function_key_prefix_pattern) disk
            (delete_with codec os paths near disk r))
        (sym loaded) (delete_done-IsGuarded config disk)

  -- The disk without the files of the list.
  abbrev pub IsWithout : List String → Disk → Disk → Type 0
  IsWithout files disk disk' =
      (q : String) → read_file q disk' ≡ (if is_listed q files then none else read_file q disk)

  remove_files-IsWithout :
      (files : List String) (disk : Disk)
      → (remove_files codec os paths near files disk).1 ≡ true
      → IsWithout files disk (remove_files codec os paths near files disk).0
  unfolding remove_files
  remove_files-IsWithout [] disk h q = refl
  remove_files-IsWithout (path ∷ rest) disk h q =
      let fails = is_some (os.remove path) || not (is_some (read_file path disk)) in
      elim (Bool-cases fails) [
        | inl failed ↦ ground (arith, failed, h)
        | inr removed ↦ ground (
          arith,
          removed,
          remove_files-IsWithout rest (remove_path path disk) (ground (arith, removed, h)) q,
          read_file-remove_path path q disk,
        )
      ]

  module _ (files : List String) (disk : Disk) where
    abbrev Clears : Ended → Type 0
    Clears e = e.exit ≡ exited 0 → IsWithout files disk e.disk

    delete_ended-Clears :
        (keys : List PublicKey) (r : Disk × Bool)
        → (r.1 ≡ true → IsWithout files disk r.0)
        → Clears (delete_ended codec os paths near keys r)
    unfolding delete_ended
    delete_ended-Clears keys (disk', true) w h = w refl
    delete_ended-Clears keys (disk', false) w h = cc

    delete_answered-Clears :
        (keys : List PublicKey) (r : Outcome TxStatus)
        → Clears (delete_answered codec os paths near files disk keys r)
    unfolding delete_answered
    delete_answered-Clears keys (err e) h = cc
    delete_answered-Clears keys (ok not_a_map) h = cc
    delete_answered-Clears keys (ok (failure e)) h = cc
    delete_answered-Clears keys (ok no_failure) h =
        delete_ended-Clears keys (remove_files codec os paths near files disk)
          (remove_files-IsWithout files disk) h

    delete_loaded-Clears :
        (r : Outcome (List PublicKey)) → Clears (delete_loaded codec os paths near files disk r)
    unfolding delete_loaded
    delete_loaded-Clears (err e) h = cc
    delete_loaded-Clears (ok keys) h = delete_answered-Clears keys (near.delete_keys keys) h

  delete_done-Clears :
      (config : Config) (disk : Disk)
      → Clears
          (key_pair_paths paths config.signer_key config.function_key_prefix_pattern)
          disk
          (delete_with codec os paths near disk (done config))
  unfolding delete_with
  delete_done-Clears config disk h =
      let files = key_pair_paths paths config.signer_key config.function_key_prefix_pattern in
      let keys = load_keys codec os paths near files disk [] in
      elim (Bool-cases (is_some near.load_account)) [
        | inl fails ↦ ground (arith, fails, h)
        | inr loaded ↦ rw loaded (delete_loaded-Clears files disk keys (ground (arith, loaded, h)))
      ]

  -- Where DeleteKeysCmd ends with the code 0, the key files that match the pattern are gone and every
  -- other file is unchanged.
  pub delete_keys-IsWithout :
      (section : Outcome Config) (config : Config) (disk : Disk)
      → load_config section ≡ done config
      → (delete_keys codec os paths near section disk).exit ≡ exited 0
      → IsWithout
          (key_pair_paths paths config.signer_key config.function_key_prefix_pattern)
          disk
          (delete_keys codec os paths near section disk).disk
  unfolding delete_keys
  delete_keys-IsWithout section config disk loaded gone =
      subst
        (λ r.
          Clears (key_pair_paths paths config.signer_key config.function_key_prefix_pattern) disk
            (delete_with codec os paths near disk r))
        (sym loaded) (delete_done-Clears config disk) gone
