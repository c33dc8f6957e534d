-- ===== src/Startup/Tests.antt =====
-- The start command at concrete answers.
use relayer2_public.Base.{◌≡◌, refl, false, none, some, [], ◌∷◌, ok}
use relayer2_public.Startup.{
  Answers, start_up, finish, opened, closed, store_handler, standalone_proxy, engine_eth, rpc_node,
  indexer, returned, exited_by,
}
use relayer2_public.Startup.Closing.{progress_of, IsClean, start_up-IsClean}
use relayer2_public.Startup.Wiring.{front, wires, start_up-wires}

abbrev sound : Answers
sound = record {
  block_handler = none;
  filter_handler = none;
  rpc_node = none;
  engine_account = none;
  filter_file = none;
  register = λ name. none;
  tar_indexer = ok false;
  indexer = none;
  pre_indexer = ok false;
}

-- The port of the server is taken.
abbrev taken : Answers
taken = record sound { rpc_node = some "address already in use" }

start_up-IsClean_example : IsClean (finish (start_up taken))
start_up-IsClean_example = start_up-IsClean taken

ends_by_fatal :
    finish (start_up taken)
    ≡ (opened store_handler ∷ [], exited_by "failed to create json-rpc server")
unfolding start_up finish
ends_by_fatal = refl

closes_in_reverse : finish (start_up sound) ≡ (
  opened store_handler
      ∷ opened standalone_proxy
      ∷ opened engine_eth
      ∷ opened rpc_node
      ∷ opened indexer
      ∷ closed indexer
      ∷ closed rpc_node
      ∷ closed engine_eth
      ∷ closed standalone_proxy
      ∷ closed store_handler
      ∷ [],
  returned,
)
unfolding start_up finish
closes_in_reverse = refl

start_up-wires_example : front wires (progress_of (start_up sound)).wired ≡ wires
unfolding start_up
start_up-wires_example = start_up-wires sound refl
