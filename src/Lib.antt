-- ===== src/Lib.antt =====
-- The relayer: a JSON-RPC server in front of the Aurora engine on Near. This library models its Go
-- code and proves what makes it correct.
--
-- Parts. Account (account/) sends the signed Ethereum transactions of its users to Near, in the
-- order of their nonces: Account.Status and Account.Value are account/txnError.go and the values
-- of a Near response, Account.Failure the classification of a failed one, Account.Queue
-- account/txnQ.go, Account.Mapper account/txnMapper.go, Account.Request account/txnReqResp.go,
-- Account.Nonce the caches of nonces, Account.Processor the functions sort and send,
-- Account.Processor.Workers the workers that run them, Account.Processor.Eval what becomes of a
-- response, and Account.Processor.Traffic all of these together with the timers, the calls of the
-- engine and the goroutines that wait (all in account/txnProcessor.go). Account.Opening is
-- NewAccount and Close of account/account.go, and Account.Reads the calls that the endpoints make.
-- Endpoint (endpoint/) is the JSON-RPC methods: Endpoint.EngineEth resolves the block of a request
-- and chooses the node, Endpoint.EngineEth.Methods are the methods, and Endpoint.EngineEth.Api
-- hands them to the wrapper of the base library (endpoint/engineEth.go and endpoint/engineNet.go);
-- Endpoint.EventsEth is the subscriptions to new heads and to logs (endpoint/eventsEth.go).
-- Middleware (middleware/) decides on a request before its method: Middleware.Filter and
-- Middleware.Filter.Reload are middleware/filterIP.go and Middleware.Proxy middleware/proxy.go.
-- StandaloneProxy asks the refiner over a socket: StandaloneProxy.Opening is its configuration and
-- its opening and closing, StandaloneProxy.Client the connection, StandaloneProxy.Calls its two
-- calls, and StandaloneProxy.Hook the hook before a method (standaloneproxy/proxy.go). Indexer
-- (indexer/) reads the files of blocks that the refiner writes and puts the blocks into the
-- database: Indexer.Config is indexer/config.go, and Indexer.State, Indexer.Phases and
-- Indexer.Machine are indexer/indexer.go. Cmd (cmd/keys.go) is the commands that generate, add and
-- delete the access keys of the account: Cmd.Disk is the key files, Cmd.KeyPairs the texts of
-- keys, Cmd.Keys.Settings the configuration and the names of files, Cmd.Keys the commands, and
-- Cmd.Keys.Running their flags, their reading of the configuration and their exit codes. Startup
-- is the start command of main.go, which opens the parts above, wires them and closes them.
--
-- How the code is read. A function that changes an object returns the new object. Base.Run is how
-- a piece of code ends: in a value, in a Go panic, or waiting on a channel. What the code asks of
-- the outside (files, the database, the Near node, the decoders of other packages) is an argument:
-- a record of functions, World for the indexer, Node, Decoder, Connections and Decoders for the
-- account, Db and Processing for the endpoints, Parsers for the filter, Network and Json for the
-- proxy, Os, Paths, Codec, Near and Viper for the commands, Answers for the start command, each
-- standing for the answers at one moment. Times are arguments too, one for each reading of the
-- clock. Unsigned integers are natural numbers, reduced where the code adds to them.
--
-- Loops. The goroutine of the indexer is a list of events, one for each call of a function of the
-- state machine, each look at stopCh, and each Start or Close of another goroutine. The workers
-- and timers of the processor, the replies of the engine and the rounds of the goroutines that
-- wait are events too, in any order, and each comes with what the Near node answers at that moment;
-- Account.Processor.Traffic.Late counts the steps that are left once all requests have expired. The goroutines of the subscriptions, the broker that sends to
-- them and the clients are events too, and what they lead to is a relation on states; what a
-- notification carries that is given a pointer to the variable of its loop is an argument. The loops
-- over tables and lists are recursions on them. No definition takes fuel.
--
-- Left out: the texts of the commands, the watching of configuration files, constructors that
-- cannot fail, logging, sleeps, and data races between goroutines that the code does not guard,
-- but for the reload of the filter, whose writes are taken one by one. The evaluation of a response
-- is one step, so that no worker sends while the circuit breaker of its key is on between the
-- updates of an evaluation; what send does then is Account.Processor.send. The request channel of a
-- transaction is read and written by the functions that are modelled, one response at a time.
pub mod Account
pub mod Base
pub mod Cmd
pub mod Endpoint
pub mod Indexer
pub mod Middleware
pub mod StandaloneProxy
pub mod Startup
