-- ===== src/StandaloneProxy/Client.antt =====
-- The connection of standaloneproxy/proxy.go to the refiner. Bytes are numbers below 256. A connection is
-- known by a number; what the network does during one request is an argument.
use relayer2_public.Base.{
  ℕ, String, ◌+◌, ◌*◌, ◌/◌, ◌%◌, ◌^◌, zero, suc, Bool, true, false, Option, none, some, List, [],
  ◌∷◌, ◌++◌, length, if◌then◌else◌, Outcome, ok, err,
}

-- `uint32` in little-endian order.
unfoldable pub le_32 : ℕ → List ℕ
le_32 n = n % 256 ∷ n / 256 % 256 ∷ n / 65_536 % 256 ∷ n / 16_777_216 % 256 ∷ []

unfoldable pub le_value : List ℕ → ℕ
le_value [] = 0
le_value (b ∷ bs) = b + 256 * le_value bs

abbrev pub u32_mod : ℕ
u32_mod = 2 ^ 32

pub record WriteError : Type 0 where
  pub is_epipe : Bool
  pub message : String

-- `stat_missing` says that `os.Stat` finds no file, `incoming` is what the refiner sends until the
-- connection breaks, and `broken` the error of a read that had that many bytes before it broke.
pub record Network : Type 0 where
  pub stat_missing : Bool
  pub dial : Outcome ℕ
  pub set_deadline : Option String
  pub write_length : Option WriteError
  pub write_body : Option String
  pub incoming : List ℕ
  pub broken : ℕ → String

pub record RpcClient : Type 0 where
  pub conn : Option ℕ

-- How a request ends: the client, the bytes that were sent whole, and the result.
pub record Exchange : Type 0 where
  pub client : RpcClient
  pub sent : List ℕ
  pub result : Outcome (List ℕ)

abbrev unavailable : String
unavailable = "socket connection to refiner is not available. Trying to reconnect. Please try again"

unfoldable pub dialled : Outcome ℕ → RpcClient → RpcClient × Option String
dialled (err _) rc = (rc, some unavailable)
dialled (ok c) rc = (record { conn = some c }, none)

unfoldable pub reconnect : Network → RpcClient → RpcClient × Option String
unfolding dialled
reconnect net rc = if net.stat_missing then (rc, some unavailable) else dialled net.dial rc

-- `io.ReadFull`: as many bytes as asked for and the rest, or how many there were.
unfoldable pub read_full : ℕ → List ℕ → (List ℕ × List ℕ) × Bool
read_full zero bs = (([], bs), true)
read_full (suc n) [] = (([], []), false)
read_full (suc n) (b ∷ bs) =
    let ((front, rest), whole) = read_full n bs in ((b ∷ front, rest), whole)

unfoldable pub read_body : Network → (List ℕ × List ℕ) × Bool → Outcome (List ℕ)
read_body net ((buf, rest), true) = ok buf
read_body net ((buf, rest), false) = err (net.broken (length buf))

unfoldable pub read_length : Network → (List ℕ × List ℕ) × Bool → Outcome (List ℕ)
unfolding read_body read_full le_value
read_length net ((l, rest), true) = read_body net (read_full (le_value l) rest)
read_length net ((l, rest), false) = err (net.broken (length l))

-- After the length has been written.
unfoldable pub send_body : Network → List ℕ → RpcClient → Exchange
unfolding read_length
send_body net req rc = elim net.write_body [
  | some e ↦ record { client = rc; sent = le_32 (length req % u32_mod); result = err e }
  | none ↦ record {
    client = rc;
    sent = le_32 (length req % u32_mod) ++ req;
    result = read_length net (read_full 4 net.incoming);
  }
]

unfoldable pub after_reconnect : String → RpcClient × Option String → Exchange
after_reconnect message (rc, some e) = record { client = rc; sent = []; result = err e }
after_reconnect message (rc, none) = record { client = rc; sent = []; result = err message }

-- The length could not be written; after a broken pipe the client connects anew, and the error stays.
unfoldable pub write_failed : Network → WriteError → RpcClient → Exchange
unfolding after_reconnect reconnect
write_failed net e rc =
    if e.is_epipe
    then after_reconnect e.message (reconnect net rc)
    else record { client = rc; sent = []; result = err e.message }

unfoldable pub exchange : Network → List ℕ → RpcClient → Exchange
unfolding send_body write_failed
exchange net req rc = elim net.set_deadline [
  | some e ↦ record { client = rc; sent = []; result = err e }
  | none ↦ elim net.write_length [ some e ↦ write_failed net e rc | none ↦ send_body net req rc ]
]

unfoldable pub if_connected : Network → List ℕ → RpcClient × Option String → Exchange
unfolding exchange
if_connected net req (rc, some e) = record { client = rc; sent = []; result = err e }
if_connected net req (rc, none) = exchange net req rc

unfoldable pub request : Network → List ℕ → RpcClient → Exchange
unfolding if_connected reconnect
request net req rc = elim rc.conn [
  | none ↦ if_connected net req (reconnect net rc)
  | some c ↦ exchange net req rc
]
