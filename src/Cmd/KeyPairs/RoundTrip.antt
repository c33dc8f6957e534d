-- ===== src/Cmd/KeyPairs/RoundTrip.antt =====
-- A key file names the public key of the pair that it was made of.

use Prim.Native.String as Str
use text.Mathlib.TextLemmas.{nil-append, cons-append}
use relayer2_public.Base.{ℕ, String, ◌≡◌, refl, some, List, [], ◌∷◌, length, arith, ok, Returns}
use relayer2_public.Cmd.KeyPairs.{
  prefix, Codec, behind, trim_prefix, copy_into, public_key_from_base_58, new_key,
}

behind-append : (p s : String) → behind p (Str.◌++◌ p s) ≡ some s
unfolding behind
behind-append String.[] s = rw (nil-append s)
behind-append (String.◌∷◌ c p) s = rw (cons-append c p s) (ground (arith, behind-append p s))

copy_into_all : (bs : List ℕ) → copy_into (length bs) bs ≡ bs
unfolding copy_into
copy_into_all [] = refl
copy_into_all (b ∷ bs) = rw (copy_into_all bs)

-- The public key that is read from the file of a new key is that of the generated pair, if base58
-- decodes what it encodes and the key fits the array.
public_key_from_base_58-new_key :
    (codec : Codec) (pub_key priv : List ℕ) (account_id : String)
    → codec.decode_58 (codec.encode_58 pub_key) ≡ pub_key
    → codec.data_size ≡ length pub_key
    → Returns
        (λ k. public_key_from_base_58 codec k.public_key ≡ record { key_data = pub_key })
        (new_key codec (ok (pub_key, priv)) account_id)
unfolding new_key public_key_from_base_58 trim_prefix
public_key_from_base_58-new_key codec pub_key priv account_id decodes fits =
    let name : behind prefix (Str.◌++◌ prefix (codec.encode_58 pub_key))
        ≡ some (codec.encode_58 pub_key) =
      behind-append prefix (codec.encode_58 pub_key) in
    ground (arith, name, decodes, fits, copy_into_all pub_key)
