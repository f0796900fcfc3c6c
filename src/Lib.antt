-- ===== src/Lib.antt =====
-- A verification library for the SDK with which the modules of the Weave platform are written (Go).
-- A module is a process that core launches. It reads core's protocol window from its environment,
-- prints one line with the protocol and its address, and then serves the lifecycle RPCs Init, Start,
-- Stop, Health and Shutdown; through a connection back to core it uses the host services: store,
-- policy, events, transport, log and watchdog. The test kit has a stub of core.
--
-- The parts, and where they are:
--   Handshake    handshake/handshake.go: the printed line, the window; names of ipc/ipc.go
--   Errors       werror/werror.go, modulesdk/errmap.go: the sentinels and the translated errors
--   HostClient   modulesdk/hostclient.go: declared surfaces, jobs and watchdog; the goroutines of a
--                job (Jobs), of the watchdog (Watchdog) and of the wait for the loss of the
--                connection (Disconnect); jobs, watchdog and calls of stopJobs, interleaved
--                (Goroutines)
--   HostCalls    modulesdk/hostclient.go with modulesdk/testkit/hostserver.go: the calls that answer
--                once, from the client's interceptor through the stub's to the handler; Store has the
--                store's, and Policy joins Get to the watchers of PolicyWatch; Streams has the calls
--                that stream, up to their handler, and the stub's Receive
--   Relay        modulesdk/hostclient.go: the goroutine behind the channels of Receive, Watch and
--                Subscribe, as steps
--   EventStream  modulesdk/testkit/hostserver.go with modulesdk/hostclient.go: a subscription, from the
--                publishers to the module; Publishers has any number of publishers and subscribers,
--                and Network the modules at the other end, each with its stream
--   PolicyStream the same two files: a watched policy, from its writers to the module; Network has any
--                number of writers and of modules, each with its stream
--   Lifecycle    modulesdk/lifecycle.go, modulesdk/module.go: the server's state; its RPCs are
--                Handlers, a run of them is in Order; Hosted has its client, and Started what stays of it
--                after Start
--   LogHandler   modulesdk/loghandler.go: records streamed to core, with the local fallback; Logger
--                has the loggers of wlog/wlog.go and of the host client
--   StoreClient  modulesdk/hostclient.go: the namespaced store over core's store service
--   HostData     modulesdk/testkit/hostdata.go and hostserver.go: the stub's store, events, sends
--   Round        modulesdk/testkit/hostdata.go: the sends of SetPolicy and Publish behind the mutex
--                (Sends), what they leave true of each receiver (Fanned), and that they can finish
--                (Finishing)
--   PolicyWatch  modulesdk/testkit/hostdata.go and hostserver.go: writers of the policy and one
--                watcher, interleaved; Watchers has any number of them
--   Ipc          ipc/peercred.go: the listener behind an authorizer; Sockets has the listeners and dials
--                of ipc/ipc.go, ipc/ipc_unix.go and ipc/ipc_windows.go, Peers the peer's identity of
--                ipc/peercred_linux.go, ipc/peercred_darwin.go and ipc/peercred_windows.go
--   Wlog         wlog/wlog.go: the level from the environment
--   Serve        modulesdk/serve.go: the negotiation, the address (Paths has filepath.Join), the
--                printed line, the exit codes
--   StubCore     modulesdk/testkit/stubcore.go: what Launch sets and what it makes of the answer, the
--                line as its scanner reads it (Scanner), the protocol that a cut line claims
--                (Claimed), what it sets up and takes down (Harness), the first Init (Session), the
--                Shutdown (Ending)
--   ToyModule    modulesdk/testkit/testdata/toymodule/main.go: the module of the integration tests, its
--                Init and Start on the stub (Callbacks) and a whole life of it (Session)
--   Platform     platform/platform.go, paths.go, platform_linux.go (Release), platform_darwin.go and
--                platform_windows.go (Printing, Registry): Host and Paths (Directories)
--   Config       config/config.go: Load and Env
--   Retry        retry/retry.go: the backoff curve
-- Base has what these share: bytes, decimals (strconv), spaces (strings.TrimSpace), integers, maps
-- as association lists. Tests has the theorems at concrete inputs and runs of the definitions.
--
-- How the code is read. Lifecycle uses HostClient as Init, Start and Stop do. StoreClient stands on
-- an interface, a record of operations and laws, which the stub's store of HostData fills. StubCore
-- launches what Serve answers, over the line and the window of Handshake, and drives Lifecycle.
-- ToyModule fills Lifecycle's interface with calls of StoreClient and HostCalls. EventStream joins
-- HostData's subscriber to a Relay, and PolicyStream the watcher of PolicyWatch. A mutex makes a
-- method one step; where the code works outside of it, the steps interleave: in PolicyWatch as a list
-- of actions, in its Watchers and in Relay, EventStream and PolicyStream as a step relation. Serve's
-- end is that of a run of Lifecycle, and StubCore's Ending asks for it. What is not of this repository
-- is an argument: the module's callbacks, the system's answers, the answers of gRPC (`dial`, `Rpc`,
-- `from_error`, `opens`, `sends`), float64, the JSON decoder, the authorizer, the timers and contexts
-- of the goroutines as lists. The Network of EventStream and of PolicyStream put the streams of many
-- modules behind one stub, and HostClient's Goroutines refines `stop_jobs`, which is one step elsewhere.
-- A string is its bytes, an integer of w bits keeps its wrap-around.
--
-- Fuel: the digits of a number n are taken with n rounds, of which each divides by ten; the trimming
-- of a string has one round for each byte. Both are enough, as the lemmas of Base.Decimal and
-- Base.Space need. All other loops are over lists, the number of attempts, or the bytes that are left
-- of a buffer.
--
-- Not modelled: the processes, pipes and signals around Serve and StubCore, of which only the errors
-- and the order of the calls are there; the JSON that slog writes and encoding/json reads.
mod Base
pub mod Handshake
pub mod Errors
pub mod HostClient
pub mod Lifecycle
pub mod LogHandler
pub mod StoreClient
pub mod HostData
pub mod PolicyWatch
pub mod Ipc
pub mod Retry
pub mod Serve
pub mod StubCore
pub mod Platform
pub mod Wlog
pub mod Config
pub mod Relay
pub mod Round
pub mod EventStream
pub mod PolicyStream
pub mod HostCalls
pub mod ToyModule
mod Tests
