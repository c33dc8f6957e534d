-- ===== src/StandaloneProxy/Opening.antt =====
-- The configuration of standaloneproxy/proxy.go, and the opening and closing of its client.
use relayer2_public.Base.{ℕ, String, ◌*◌, Option, none, some}
use relayer2_public.StandaloneProxy.Client.{RpcClient}

-- `timeout` is a `time.Duration`, in nanoseconds.
pub record Config : Type 0 where
  pub network : String
  pub address : String
  pub timeout : ℕ

unfoldable pub default_config : Config
default_config = record { network = "unix"; address = ""; timeout = 5 * 1_000_000_000 }

-- `sub` is what `Unmarshal` makes of the defaults, if the file has a section. A failed one is only logged,
-- and what it has written stays.
unfoldable pub get_config : Option (Config → Config) → Config
unfolding default_config
get_config none = default_config
get_config (some unmarshal) = unmarshal default_config

-- A new client has no connection yet.
unfoldable pub new_rpc_client : RpcClient
new_rpc_client = record { conn = none }

pub record StandaloneProxy : Type 0 where
  pub config : Config
  pub client : RpcClient

-- `New` gives no error.
unfoldable pub new : Option (Config → Config) → StandaloneProxy
unfolding get_config new_rpc_client
new sub = record { config = get_config sub; client = new_rpc_client }

-- The error of `Close`: that of the connection, if there is one. The client keeps the connection.
unfoldable pub close_client : (ℕ → Option String) → RpcClient → Option String
close_client close_conn rc = elim rc.conn [ none ↦ none | some c ↦ close_conn c ]

unfoldable pub close : (ℕ → Option String) → StandaloneProxy → Option String
unfolding close_client
close close_conn l = close_client close_conn l.client

-- `Post` hands the context on.
unfoldable pub post : {Context : Type 0} → Context → Context
post ctx = ctx
