-- ===== src/Startup.antt =====
-- main.go: the start command, and the commands that `main` adds. What the constructors of the components
-- answer is an argument. A constructor that cannot fail and whose result is only passed on is left out.
pub mod Closing
pub mod Wiring
mod Tests
use relayer2_public.Base.{
  String, Bool, true, false, Option, none, some, List, [], ◌∷◌, ◌++◌, map, if◌then◌else◌, Outcome,
  ok, err,
}

-- What the command opens and has deferred to close.
pub data Part : Type 0 where
  store_handler standalone_proxy engine_eth rpc_node tar_indexer indexer pre_indexer : Part

pub data Action : Type 0 where
  opened : Part → Action
  closed : Part → Action

-- What is put into the base endpoint and into the server: the processors, the middlewares, the
-- endpoints and events under their names, and the function that runs on a change of the configuration.
pub data Wire : Type 0 where
  enable_disable proxy_processor filter_middleware proxy_middleware config_handler : Wire
  endpoints : String → Wire
  events : String → Wire

-- What has been done so far, what has been wired, and the deferred calls of `Close`, the last one first.
pub record Progress : Type 0 where
  pub trace : List Action
  pub deferred : List Part
  pub wired : List Wire

-- The command runs on, ends the process by `Fatal`, or panics.
pub data Stage : Type 0 where
  running : Progress → Stage
  fatal : String → Progress → Stage
  panicked : Progress → Stage

-- The errors of the constructors; the two optional indexers may be switched off.
pub record Answers : Type 0 where
  pub block_handler : Option String
  pub filter_handler : Option String
  pub rpc_node : Option String
  pub engine_account : Option String
  pub filter_file : Option String
  pub register : String → Option String
  pub tar_indexer : Outcome Bool
  pub indexer : Option String
  pub pre_indexer : Outcome Bool

-- A step is skipped once the command does not run on.
unfoldable pub step : (Progress → Stage) → Stage → Stage
step f (running p) = f p
step f (fatal message p) = fatal message p
step f (panicked p) = panicked p

-- An error that ends the process.
unfoldable pub check : Option String → String → Progress → Stage
check none message p = running p
check (some e) message p = fatal message p

-- `NewEngineEth` panics where the account cannot be made.
unfoldable pub check_panic : Option String → Progress → Stage
check_panic none p = running p
check_panic (some e) p = panicked p

unfoldable pub wire : Wire → Progress → Stage
wire w p = running (record p { wired = p.wired ++ (w ∷ []) })

unfoldable pub register : Wire → Option String → String → Progress → Stage
unfolding wire
register w none message p = wire w p
register w (some e) message p = fatal message p

unfoldable pub open_part : Part → Progress → Stage
open_part part p =
    running (record p { trace = p.trace ++ (opened part ∷ []); deferred = part ∷ p.deferred })

-- An indexer that is there is started.
unfoldable pub open_optional : Part → Outcome Bool → String → Progress → Stage
unfolding open_part
open_optional part (err e) message p = fatal message p
open_optional part (ok false) message p = running p
open_optional part (ok true) message p = open_part part p

abbrev pub begun : Progress
begun = record { trace = []; deferred = []; wired = [] }

-- What the command does, in order. The constructor of the standalone proxy gives no error.
abbrev pub steps : Answers → List (Progress → Stage)
steps a =
    check a.block_handler "failed to start block handler"
    ∷ check a.filter_handler "failed to start filter handler"
    ∷ open_part store_handler
    ∷ check a.rpc_node "failed to create json-rpc server"
    ∷ wire enable_disable
    ∷ wire proxy_processor
    ∷ open_part standalone_proxy
    ∷ check_panic a.engine_account
    ∷ open_part engine_eth
    ∷ check a.filter_file "failed to read config file filter.yml"
    ∷ wire filter_middleware
    ∷ wire proxy_middleware
    ∷ register (endpoints "eth") (a.register "eth") "failed to register `eth` endpoints"
    ∷ register (endpoints "net") (a.register "net") "failed to register `net` endpoints"
    ∷ register (endpoints "web3") (a.register "web3") "failed to register `web3` endpoints"
    ∷ register (endpoints "parity") (a.register "parity") "failed to register `parity` endpoints"
    ∷ register (endpoints "debug") (a.register "debug") "failed to register `debug` endpoints"
    ∷ register (endpoints "eth") (a.register "eth engine")
        "failed to register `eth` endpoints for engine"
    ∷ register (endpoints "net") (a.register "net engine")
        "failed to register `net` endpoints for engine"
    ∷ register (events "eth") (a.register "eth events") "failed to register `eth` events"
    ∷ open_part rpc_node
    ∷ open_optional tar_indexer a.tar_indexer "failed to start tar indexer"
    ∷ check a.indexer "failed to start indexer"
    ∷ open_part indexer
    ∷ open_optional pre_indexer a.pre_indexer "failed to start indexer"
    ∷ wire config_handler
    ∷ []

unfoldable pub run_steps : List (Progress → Stage) → Stage → Stage
unfolding step
run_steps [] s = s
run_steps (f ∷ fs) s = run_steps fs (step f s)

-- The command up to its wait for a signal.
unfoldable pub start_up : Answers → Stage
unfolding run_steps check check_panic wire register open_part open_optional
start_up a = run_steps (steps a) (running begun)

pub data Exit : Type 0 where
  returned : Exit
  exited_by : String → Exit
  panics : Exit

-- The end of the command: a signal ends the wait. The deferred calls are made on a return and on a
-- panic, and not on `Fatal`, which ends the process.
unfoldable pub finish : Stage → List Action × Exit
finish (running p) = (p.trace ++ map closed p.deferred, returned)
finish (fatal message p) = (p.trace, exited_by message)
finish (panicked p) = (p.trace ++ map closed p.deferred, panics)

-- The commands that `main` adds, in order.
pub data MainCommand : Type 0 where
  version_cmd add_keys_cmd delete_keys_cmd generate_keys_cmd get_block_cmd : MainCommand
  flatten_db start_cmd : MainCommand

abbrev pub main_commands : List MainCommand
main_commands =
    version_cmd ∷ add_keys_cmd ∷ delete_keys_cmd ∷ generate_keys_cmd ∷ get_block_cmd ∷ flatten_db
    ∷ start_cmd ∷ []
