-- ===== src/Lib.antt =====
-- A decentralized node: replicated services over consensus engines, an execution layer with private
-- payloads, and the runtime that holds them together with a peer-to-peer network.
--
-- How the parts interact: a consensus engine (modules/consensus) orders byte strings and sends the
-- committed ones to a channel; an execution layer (core/execution/engine.go and router.go) hands them
-- to the state machines of applications/*, each of which answers with a new state root; storages
-- (modules/storage) keep what the engine and the applications write; core/runtime/replay.go applies a
-- recorded log again. The runtime (core/runtime/runtime.go) starts the services, takes transactions and
-- blocks from the channels that the network (modules/networking/p2p.go) fills, mines the pending
-- transactions into blocks and applies the blocks to the chain.
--
-- Which file models which part:
--   Prelude/*         byte strings, lists over the native numbers, errors, decimal and hex digits, sort
--   GoMap, Chan       Go's maps with their range orders (GoMap/Range), maps of maps (GoMap/Nested),
--                     buffered channels, and channels with senders that wait (Chan/Line)
--   Interfaces        core/interfaces/interfaces.go: Storage, StateMachine and Consensus, records that
--                     the clients take as parameters, with StorageLaws, what they rely on, and
--                     ConsensusLaws, what the engines of Consensus/Simple keep
--   Storage/*         modules/storage/memory.go and pebble.go, instances of Storage
--   Consensus/Raft    modules/consensus/raft_engine.go and raft_membership.go. Types: the data. Persist:
--                     NewRaftEngine, persistState, loadState. Election: the timers, startElection,
--                     HandleRequestVote. Append: HandleAppendEntries and its loop over the committed
--                     entries. Leader: Propose, CompactLog, membership changes and reads. History:
--                     runLoop, and any sequence of calls. Log/*, Votes, Elected, Recovery and
--                     Membership are about them; InStep, Replication and Replicas are about a
--                     leader with a follower, and about the stores behind the two
--   Consensus/Pow     modules/consensus/pow.go: MineBlock
--   Consensus/Simple  modules/consensus/raft.go, mock.go and pow.go: engines with a commit channel,
--                     instances of Consensus; Simple/History is about raft.go under any calls, and
--                     Consensus/Service about the clients of an engine that keeps ConsensusLaws
--   Block             core/types/types.go: Block and CalculateHash
--   KvStore, Lock,    applications/kv-store/kvstate.go, dist-lock/lockstate.go,
--   Queue, Config,    dist-queue/queuestate.go, dist-config/configstate.go,
--   Metadata          metadata-service/metastate.go: each Apply is `apply`, over a decoded payload
--                     `apply_payload`, and recalculateRoot is `recalculate_root`
--   Replication       sequences of commits that replicas apply
--   Chain, Merkle     applications/sovereign-chain/state.go and merkle_state.go
--   Execution         core/execution/engine.go: ApplyTransactional and its receipts
--   Privacy/*         modules/privacy/vault.go, fetcher.go, zk_telemetry.go, and
--                     core/execution/router.go (Privacy/Router)
--   Replay            core/runtime/replay.go
--   EventBus          core/runtime/eventbus.go
--   Registry          core/runtime/registry.go and sdk/plugin/plugin.go
--   Authorization     core/security/authorization.go
--   Identity          core/security/identity.go and modules/security/identity.go
--   Rwa               plugins/rwa/ledger.go
--   P2p/*             modules/networking/p2p.go: Init, Start, Stop, the HTTP handlers and the gossip
--   Kademlia/*        modules/networking/kademlia.go
--   Node/*            core/runtime/runtime.go: New with core/types/config.go (Boot), the life cycle of
--                     the services (Services), and eventLoop (Loop)
--   Scheduler,        core/runtime/scheduler.go, core/runtime/observability.go,
--   Observability,    testing/chaos/fault_injector.go
--   Chaos
--   Exporter          cmd/experiment/exporter.go
--   Tests/*           the theorems at concrete inputs
--
-- How the code corresponds: a struct is a record, without its mutex and its constants; a method is a
-- function from the state before to the state after, since each method holds the mutex from its start
-- to its end, together with what it returns. Errors are byte strings with the text of the code. Code
-- that is not in the repository is a parameter: SHA-256 is any function on bytes, JSON any function
-- that decodes, the clock and the random numbers are arguments, libp2p, Pebble, ed25519 and x509 are
-- records of operations, and the order in which `range` visits a map is an argument. Where goroutines
-- meet, a sequence of steps says in which order they act: the turns of the event loop with what
-- arrives from the network, the calls of the clients of an engine, the turns of a scheduler's loops.
-- Terms and indices are natural numbers, for the values of Go's int from 0 to 2^63 - 1: they start at
-- zero and only grow, and are compared before they are subtracted; negative ones, which only a message
-- could bring, are left out. Times are natural numbers too; those of the leases of lockstate.go count
-- nanoseconds, and the duration of a lease is a word of 64 bits. The counters of observability.go and
-- the scores of kademlia.go are words of 64 bits, with the wrap-around written out.
--
-- Fuel: MineBlock counts up a nonce until its context ends, and runs on fuel here, with a theorem that
-- says how much finds a nonce; a tick of the event loop brings the fuel of its mining. The Merkle root
-- recurses over levels that get shorter, on as much fuel as there are changed keys. The loop over
-- committed entries runs for the difference of the two indices that it compares. The bit length of a
-- number halves it, on the number itself as fuel. All else is structural.
--
-- Not modelled: the log and the Prometheus counters but for what the node counts, which only print and
-- register; the handlers of the profiling server, which are a library; and the commands
-- (cmd/sovereign/main.go, cmd/experiment/main.go and runner.go), which wire the parts, print, and time
-- in floating point. The goroutines of an election are run at once.
pub mod Prelude
pub mod GoMap
pub mod Chan
pub mod Interfaces
pub mod Storage
pub mod KvStore
pub mod Consensus
pub mod Execution
pub mod Replay
pub mod Replication
pub mod Metadata
pub mod Kademlia
pub mod Scheduler
pub mod Identity
pub mod Chaos
pub mod Exporter
pub mod Observability
pub mod Privacy
pub mod Block
pub mod Chain
pub mod Lock
pub mod Queue
pub mod Rwa
pub mod Registry
pub mod Authorization
pub mod Config
pub mod Merkle
pub mod EventBus
pub mod P2p
pub mod Node
pub mod Tests
