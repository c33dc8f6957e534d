-- ===== src/Cmd/Keys/Adding.antt =====
-- What AddKeysCmd leaves on the disk and sends to Near.
use mathlib.Core.Path.{subst}
use relayer2_public.Base.{
  ℕ, String, zero, suc, ◌+◌, ◌==◌, ◌≡◌, refl, Option, none, some, List, [], ◌∷◌, ◌++◌, length,
  length-append, All, arith, Outcome, Run, done, panic, blocked, Bool-cases, inl, inr, ◌⊎◌,
}
use relayer2_public.Cmd.Disk.{KeyFile, key_file, Disk, read_file, write_file, Os}
use relayer2_public.Cmd.Disk.Files.{
  Extends, Extends-trans, Dumped, refused, broken, stored, dump_json-Dumped, Dumped-Extends,
  read_file-write_file_self,
}
use relayer2_public.Cmd.KeyPairs.{Codec, PublicKey, public_key_from_base_58, new_key}
use relayer2_public.Cmd.Keys.Settings.{Config, load_config, Paths}
use relayer2_public.Cmd.Keys.{
  Near, Exit, Ended, Written, written, stopped, key_path, keep_key, write_new_key, write_key,
  write_keys, add_written, add_loaded, add_with, add_keys,
}

module _ (codec : Codec) (os : Os) (paths : Paths) (near : Near) where
  -- A file on the disk holds the key.
  abbrev pub IsStored : Disk → PublicKey → Type 0
  IsStored disk key =
      (path : String) × (k : KeyFile) × ((read_file path disk ≡ some (key_file k))
        × (public_key_from_base_58 codec k.public_key ≡ key))

  IsStored-Extends :
      (a b : Disk) (keys : List PublicKey)
      → Extends a b
      → All (IsStored a) keys
      → All (IsStored b) keys
  IsStored-Extends a b [] h s = tt
  IsStored-Extends a b (key ∷ keys) h ((path, k, (there, same)), s) =
      ((path, k, (h path (key_file k) there, same)), IsStored-Extends a b keys h s)

  All-append :
      (P : PublicKey → Type 0) (xs ys : List PublicKey) → All P xs → All P ys → All P (xs ++ ys)
  All-append P [] ys h k = k
  All-append P (x ∷ xs) ys (h, hs) k = (h, All-append P xs ys hs k)

  -- The loop has kept the files, and its keys, `n` of them, are stored.
  abbrev pub IsKept : Disk → ℕ → Written → Type 0
  IsKept disk n (stopped disk' e) = Extends disk disk'
  IsKept disk n (written disk' keys) =
      Extends disk disk' × (length keys ≡ n) × All (IsStored disk') keys

  keep_key-IsKept :
      (path : String) (k : KeyFile) (disk : Disk) (keys : List PublicKey) {r : Disk × Option String}
      → All (IsStored disk) keys
      → Dumped path k disk r
      → IsKept disk
          (length keys + 1)
          (keep_key codec os paths near (public_key_from_base_58 codec k.public_key) r keys)
  unfolding keep_key
  keep_key-IsKept path k disk keys s (refused e) = λ q c h. h
  keep_key-IsKept path k disk keys s (broken e free) = Dumped-Extends path k disk (broken e free)
  keep_key-IsKept path k disk keys s (stored free) =
      let more = Dumped-Extends path k disk (stored free) in
      let disk' = write_file path (key_file k) disk in
      let key = public_key_from_base_58 codec k.public_key in
      (
        more,
        omega (arith, length-append keys (key ∷ [])),
        All-append (IsStored disk') keys (key ∷ []) (IsStored-Extends disk disk' keys more s)
            ((path, k, (read_file-write_file_self path (key_file k) disk, refl)), tt),
      )

  pub write_new_key-IsKept :
      (config : Config) (i : ℕ) (disk : Disk) (keys : List PublicKey) (r : Run KeyFile)
      → All (IsStored disk) keys
      → IsKept disk (length keys + 1) (write_new_key codec os paths near config i disk keys r)
  unfolding write_new_key
  write_new_key-IsKept config i disk keys panic s = λ q c h. h
  write_new_key-IsKept config i disk keys blocked s = λ q c h. h
  write_new_key-IsKept config i disk keys (done k) s =
      let path = key_path codec os paths near config i in
      keep_key-IsKept path k disk keys s (dump_json-Dumped os path k disk)

  pub Written-cases :
      (w : Written)
      → ((disk : Disk) × (e : Exit) × (w ≡ stopped disk e))
        ⊎ ((disk : Disk) × (keys : List PublicKey) × (w ≡ written disk keys))
  Written-cases (stopped disk e) = inl (disk, e, refl)
  Written-cases (written disk keys) = inr (disk, keys, refl)

  IsKept-trans : (a b : Disk) (n : ℕ) (w : Written) → Extends a b → IsKept b n w → IsKept a n w
  IsKept-trans a b n (stopped disk e) h k = Extends-trans a b disk h k
  IsKept-trans a b n (written disk keys) h (k, count, s) = (Extends-trans a b disk h k, count, s)

  pub write_keys-IsKept :
      (config : Config) (i left : ℕ) (disk : Disk) (keys : List PublicKey)
      → All (IsStored disk) keys
      → IsKept disk (length keys + left) (write_keys codec os paths near config i left disk keys)
  unfolding write_keys write_key
  write_keys-IsKept config i zero disk keys s = ((λ q c h. h), omega arith, s)
  write_keys-IsKept config i (suc left) disk keys s =
      let first : IsKept disk (length keys + 1) (write_key codec os paths near config i disk keys) =
        write_new_key-IsKept config i disk keys (new_key codec (near.generate i) config.signer) s in
      elim (Written-cases (write_key codec os paths near config i disk keys)) [
        | inl (disk', e, w) ↦ rw (write_keys, w) (subst (IsKept disk (length keys + 1)) w first)
        | inr (disk', keys', w) ↦
            let now : IsKept disk (length keys + 1) (written disk' keys') =
              subst (IsKept disk (length keys + 1)) w first in
            rw (write_keys, w)
              (IsKept-trans disk disk' (length keys + suc left)
                (write_keys codec os paths near config (suc i) left disk' keys') now.0
                (subst
                  (λ n.
                    IsKept disk' n (write_keys codec os paths near config (suc i) left disk' keys'))
                  (omega (arith, now.1)) (write_keys-IsKept config (suc i) left disk' keys' now.2)))
      ]

  -- The files are kept, and what was sent are `n` keys that are all stored.
  abbrev pub IsSafe : Disk → ℕ → Ended → Type 0
  IsSafe disk n e =
      Extends disk e.disk × All (λ keys. (length keys ≡ n) × All (IsStored e.disk) keys) e.sent

  add_written-IsSafe :
      (disk : Disk) (n : ℕ) (w : Written)
      → IsKept disk n w
      → IsSafe disk n (add_written codec os paths near w)
  unfolding add_written
  add_written-IsSafe disk n (stopped disk' e) k = (k, tt)
  add_written-IsSafe disk n (written disk' keys) (k, count, s) = (k, ((count, s), tt))

  add_loaded-IsSafe :
      (config : Config) (n : ℕ) (disk : Disk) (o : Option String)
      → IsSafe disk n (add_loaded codec os paths near config n disk o)
  unfolding add_loaded
  add_loaded-IsSafe config n disk (some e) = ((λ q c h. h), tt)
  add_loaded-IsSafe config n disk none =
      add_written-IsSafe disk n (write_keys codec os paths near config 0 n disk []) (
        subst (λ m. IsKept disk m (write_keys codec os paths near config 0 n disk [])) (omega arith)
          (write_keys-IsKept config 0 n disk [] tt))

  add_with-IsSafe :
      (n : ℕ) (disk : Disk) (r : Run Config) → IsSafe disk n (add_with codec os paths near n disk r)
  unfolding add_with
  add_with-IsSafe n disk panic = ((λ q c h. h), tt)
  add_with-IsSafe n disk blocked = ((λ q c h. h), tt)
  add_with-IsSafe n disk (done config) = elim (Bool-cases (n == 0)) [
    | inl none_asked ↦ rw none_asked ((λ q c h. h), tt)
    | inr some_asked ↦ rw some_asked (add_loaded-IsSafe config n disk near.load_account)
  ]

  -- However AddKeysCmd ends, every file that was there stands unchanged, and the keys that were sent to
  -- Near are as many as were asked for, each held by a file on the disk.
  pub add_keys-IsSafe :
      (n : ℕ) (section : Outcome Config) (disk : Disk)
      → IsSafe disk n (add_keys codec os paths near n section disk)
  unfolding add_keys
  add_keys-IsSafe n section disk = add_with-IsSafe n disk (load_config section)
