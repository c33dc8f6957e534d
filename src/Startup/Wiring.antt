-- ===== src/Startup/Wiring.antt =====
-- What is wired when the server starts.
use relayer2_public.Base.{◌≡◌, Bool, true, false, List, [], ◌∷◌, arith}
use relayer2_public.Startup.{
  Action, opened, rpc_node, Wire, enable_disable, proxy_processor, filter_middleware,
  proxy_middleware, endpoints, events, Answers, start_up,
}
use relayer2_public.Startup.Closing.{progress_of}

abbrev pub opens_server : List Action → Bool
opens_server [] = false
opens_server (opened rpc_node ∷ trace) = true
opens_server (a ∷ trace) = opens_server trace

-- The wires in their order, without the function for changes of the configuration.
abbrev pub wires : List Wire
wires =
    enable_disable
    ∷ proxy_processor
    ∷ filter_middleware
    ∷ proxy_middleware
    ∷ endpoints "eth"
    ∷ endpoints "net"
    ∷ endpoints "web3"
    ∷ endpoints "parity"
    ∷ endpoints "debug"
    ∷ endpoints "eth"
    ∷ endpoints "net"
    ∷ events "eth"
    ∷ []

-- The elements in front, as many as another list has.
abbrev pub front {ℓ κ} : {A : Type ℓ} {B : Type κ} → List B → List A → List A
front [] xs = []
front (y ∷ ys) [] = []
front (y ∷ ys) (x ∷ xs) = x ∷ front ys xs

-- Whatever the constructors answer: where the start command has opened the server, all processors,
-- middlewares, endpoints and events have been handed over, in their order.
pub start_up-wires :
    (a : Answers)
    → opens_server (progress_of (start_up a)).trace ≡ true
    → front wires (progress_of (start_up a)).wired ≡ wires
unfolding start_up
start_up-wires a serves = ground arith
