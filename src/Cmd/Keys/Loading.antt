-- ===== src/Cmd/Keys/Loading.antt =====
-- The keys that DeleteKeysCmd loads from the files.

use mathlib.Core.List.{append-nil, append_assoc}
use relayer2_public.Base.{
  String, ◌≡◌, refl, sym, List, [], ◌∷◌, ◌++◌, ◌∙◌, Outcome, ok, err, inl, inr, ◌⊎◌,
}
use relayer2_public.Cmd.Disk.{Disk, read_file, Os}
use relayer2_public.Cmd.KeyPairs.{Codec, PublicKey, public_key_from_base_58}
use relayer2_public.Cmd.Keys.Settings.{Paths}
use relayer2_public.Cmd.Keys.{Near, load_keys}

Outcome-cases {ℓ} :
    {A : Type ℓ} (o : Outcome A) → ((e : String) × (o ≡ err e)) ⊎ ((a : A) × (o ≡ ok a))
Outcome-cases (err e) = inl (e, refl)
Outcome-cases (ok a) = inr (a, refl)

module _ (codec : Codec) (os : Os) (paths : Paths) (near : Near) where
  -- The keys are those of the key pairs that the files load, one for each file, in their order.
  abbrev pub AreKeysOf : Disk → List String → List PublicKey → Type 0
  AreKeysOf disk [] [] = Unit
  AreKeysOf disk (path ∷ rest) [] = ⊥
  AreKeysOf disk [] (key ∷ keys) = ⊥
  AreKeysOf disk (path ∷ rest) (key ∷ keys) =
      ((text : String) × (near.load_key_pair path (read_file path disk) ≡ ok text)
        × (key ≡ public_key_from_base_58 codec text))
      × AreKeysOf disk rest keys

  -- What the loop over the files has collected, behind the keys that it began with.
  abbrev pub HasLoaded : Disk → List String → List PublicKey → Outcome (List PublicKey) → Type 0
  HasLoaded disk files before (err e) = Unit
  HasLoaded disk files before (ok keys) =
      (loaded : List PublicKey) × (keys ≡ before ++ loaded) × AreKeysOf disk files loaded

  HasLoaded-next :
      (disk : Disk) (path : String) (rest : List String) (before : List PublicKey) (text : String)
      (r : Outcome (List PublicKey))
      → near.load_key_pair path (read_file path disk) ≡ ok text
      → HasLoaded disk rest (before ++ (public_key_from_base_58 codec text ∷ [])) r
      → HasLoaded disk (path ∷ rest) before r
  HasLoaded-next disk path rest before text (err e) found h = tt
  HasLoaded-next disk path rest before text (ok keys) found (loaded, e, are) =
      let key = public_key_from_base_58 codec text in
      (key ∷ loaded, e ∙ append_assoc before (key ∷ []) loaded, ((text, found, refl), are))

  pub load_keys-HasLoaded :
      (files : List String) (disk : Disk) (before : List PublicKey)
      → HasLoaded disk files before (load_keys codec os paths near files disk before)
  unfolding load_keys
  load_keys-HasLoaded [] disk before = ([], sym (append-nil before), tt)
  load_keys-HasLoaded (path ∷ rest) disk before =
      elim (Outcome-cases (near.load_key_pair path (read_file path disk))) [
        | inl (e, fails) ↦ rw (load_keys, fails) tt
        | inr (text, found) ↦
            rw (load_keys, found)
              (HasLoaded-next disk path rest before text
                (load_keys codec os paths near rest disk
                  (before ++ (public_key_from_base_58 codec text ∷ [])))
                found
                (load_keys-HasLoaded rest disk
                  (before ++ (public_key_from_base_58 codec text ∷ []))))
      ]
