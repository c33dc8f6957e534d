-- ===== src/Cmd/KeyPairs.antt =====
-- `newKey` and `publicKeyFromBase58` of cmd/keys.go. The encodings and the generator of key pairs are
-- those of other packages.
pub mod RoundTrip
use Prim.Native.Char.{code}
use Prim.Native.String as Str
use relayer2_public.Base.{
  ℕ, String, zero, suc, ◌==◌, Option, none, some, List, [], ◌∷◌, same_text, if◌then◌else◌, Outcome,
  ok, err, Run, done, panic, ◌>>=◌,
}
use relayer2_public.Cmd.Disk.{KeyFile}

abbrev pub prefix : String
prefix = "ed25519:"

-- The encodings, and the size of the array of a public key.
pub record Codec : Type 0 where
  pub encode_58 : List ℕ → String
  pub decode_58 : String → List ℕ
  pub encode_hex : List ℕ → String
  pub data_size : ℕ

-- A key of the type ED25519.
pub record PublicKey : Type 0 where
  pub key_data : List ℕ

-- The text behind a prefix.
unfoldable pub behind : String → String → Option String
behind String.[] s = some s
behind (String.◌∷◌ c p) String.[] = none
behind (String.◌∷◌ c p) (String.◌∷◌ d s) =
    let rest = behind p s in if code c == code d then rest else none

unfoldable pub trim_prefix : String → String → String
unfolding behind
trim_prefix s p = elim (behind p s) [ none ↦ s | some rest ↦ rest ]

-- `copy` into an array of zeros.
unfoldable pub copy_into : ℕ → List ℕ → List ℕ
copy_into zero bs = []
copy_into (suc n) [] = 0 ∷ copy_into n []
copy_into (suc n) (b ∷ bs) = b ∷ copy_into n bs

unfoldable pub public_key_from_base_58 : Codec → String → PublicKey
unfolding copy_into trim_prefix
public_key_from_base_58 codec pub_key = record {
  key_data = copy_into codec.data_size (codec.decode_58 (trim_prefix pub_key prefix));
}

key_of_pair : Codec → String → Outcome (List ℕ × List ℕ) → Run KeyFile
key_of_pair codec account_id (err e) = panic
key_of_pair codec account_id (ok (pub_key, priv)) = done (record {
  account_id = if same_text account_id "" then codec.encode_hex pub_key else account_id;
  public_key = Str.◌++◌ prefix (codec.encode_58 pub_key);
  secret_key = Str.◌++◌ prefix (codec.encode_58 priv);
})

-- `generated` is what `ed25519.GenerateKey` gave.
unfoldable pub new_key : Codec → Outcome (List ℕ × List ℕ) → String → Run KeyFile
unfolding key_of_pair
new_key codec generated account_id = key_of_pair codec account_id generated
