-- ===== src/Account/Mapper.antt =====
-- account/txnMapper.go, with the checksum of `hash/crc32` that it uses. A remainder by 0 panics.
use Prim.Native.Char as Char
use Prim.Native.Nat.{bit_xor}
use relayer2_public.Base.{
  ℕ, String, zero, suc, ◌+◌, ◌-◌, ◌/◌, refl, List, [], ◌∷◌, ◌%◌, ◌^◌, ◌<◌, ◌≡◌, arith, ◌==◌,
  if◌then◌else◌, Run, done, panic, ◌>>=◌,
}

pub data TxnMapper : Type 0 where
  crc32_mapper : TxnMapper
  round_robin_mapper : ℕ → TxnMapper

-- `uint32(totalNumKeys)` as a divisor.
key_index : ℕ → ℕ → Run ℕ
key_index n total_num_keys =
    let total = total_num_keys % 2 ^ 32 in if total == 0 then panic else done (n % total)

-- `atomic.AddUint32(&m.offset, 1) - 1`, with the mapper that it leaves.
rr_map : ℕ → ℕ → Run (ℕ × ℕ)
unfolding key_index
rr_map offset total_num_keys =
    let next = (offset + 1) % 2 ^ 32 in
    (key_index ((next + 2 ^ 32 - 1) % 2 ^ 32) total_num_keys >>= λ idx. done (idx, next))

-- The IEEE polynomial, its bits reversed.
abbrev polynomial : ℕ
polynomial = 0xedb8_8320

crc_shift : ℕ → ℕ → ℕ
crc_shift zero crc = crc
crc_shift (suc n) crc = crc_shift n (if crc % 2 == 1 then bit_xor (crc / 2) polynomial else crc / 2)

crc_update : ℕ → List ℕ → ℕ
unfolding crc_shift
crc_update crc [] = crc
crc_update crc (b ∷ bytes) = crc_update (crc_shift 8 (bit_xor crc b)) bytes

unfoldable pub checksum_ieee : List ℕ → ℕ
unfolding crc_update
checksum_ieee bytes = bit_xor (crc_update 0xffff_ffff bytes) 0xffff_ffff

-- The bytes of a text, which is an address in hexadecimal here and so ASCII.
abbrev pub bytes_of : String → List ℕ
bytes_of String.[] = []
bytes_of (String.◌∷◌ c s) = Char.code c ∷ bytes_of s

checksum_of_digits : checksum_ieee (bytes_of "123456789") ≡ 0xcbf4_3926
unfolding checksum_ieee
checksum_of_digits = refl

-- `Map` has a value receiver: it works on a copy of the mapper, and what `rrMap` writes is lost.
unfoldable pub map_key : TxnMapper → String → ℕ → Run ℕ
unfolding key_index rr_map
map_key crc32_mapper sender total_num_keys =
    key_index (checksum_ieee (bytes_of sender)) total_num_keys
map_key (round_robin_mapper offset) sender total_num_keys =
    (rr_map offset total_num_keys >>= λ r. done r.0)

-- For any number of keys that is not 0 and fits in 32 bits, `CRC32` gives a key that exists, by the
-- checksum of the sender alone.
pub map_key-crc32 :
    (sender : String) (n : ℕ)
    → 0 < n
    → n < 2 ^ 32
    → (idx : ℕ) × (map_key crc32_mapper sender n ≡ done idx) × (idx < n)
unfolding map_key
map_key-crc32 sender n pos fits = (checksum_ieee (bytes_of sender) % n, ground arith, omega arith)

-- A round-robin mapper gives the remainder of the offset that it was made with, whoever the sender is;
-- `map_key` gives no other mapper back, so a call does not move the offset.
map_key-round_robin :
    (offset : ℕ) (sender : String) (n : ℕ)
    → offset < 2 ^ 32
    → 0 < n
    → n < 2 ^ 32
    → map_key (round_robin_mapper offset) sender n ≡ done (offset % n)
unfolding map_key
map_key-round_robin offset sender n small pos fits =
    let e : ((offset + 1) % 2 ^ 32 + 2 ^ 32 - 1) % 2 ^ 32 ≡ offset = omega arith in ground arith
