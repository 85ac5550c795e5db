-- ===== src/Lib.antt =====
-- Hexalog: a replicated log for each key, on which the nodes that hold the key vote entry by entry.
--
-- The parts, from the bottom up, and where each is modelled (paths from the repository's root):
--   * entry.go: Entry. An entry and its id, the hash of its fields (`Hash`, here `encode` and `hash`).
--     The hash function is a parameter, a `Hasher`: all that is asked of it is the length of a sum.
--   * ukeylogindex.go, keylogindex.go: Index. The ids of one key in order, with height and marker.
--     Index.Safe has the steps of goroutines that share the safe index under its read-write lock.
--   * store.go, store_entry.go, store_index.go, store_stable.go: EntryStore (the interface as a record
--     of operations and laws, any of which may fail), EntryStore.InMem, IndexStore, StableStore.
--   * keylog.go: Keylog. The log of one key, over an entry store and an index. Keylog.Chain says what a
--     log is as a chain of entries, and what two chains with the same last id have in common.
--   * logstore.go: LogStore. The logs of all keys. LogStore.Spec is what it promises a client: a
--     function from keys to lists of ids, and what each command does to it.
--   * future.go, ballot.go: Future, Ballot. One vote on an entry: proposals, commits, the time to live,
--     and the channels that tell of its end. Ballot.Validity and Ballot.Bounds go over runs of calls.
--   * config.go, request_options.go, participant.go, rpc.proto: Node (Config), Options.
--   * hexalog.go, hexalog_utils.go: Node, with Node.Propose and Node.Commit for the two handlers.
--     A proposal is verified against the log, voted on, and broadcast; once all peers have proposed,
--     the commits are broadcast; once all have committed, the entry is appended and queued.
--     Node.Quorum has what each handler may leave behind, Node.Progress what the commits of all peers
--     lead to, Node.Entries the methods New, Get and Stats, and Node.Reaping the reaper.
--   * broadcast.go: Broadcast. What is sent to the peers, and what their answers lead to.
--   * leader.go: Leader. The node with the highest entry of a key, and whether all nodes agree.
--   * net.go: Transfer. How keylogs are pulled and pushed between nodes, with Rpc.Streams for the
--     calls as a whole, where gRPC may fail at each point. Rpc: the handlers of the other requests, and
--     the calls of a client, which take a connection from the pool.
--   * heal.go: Heal. How a node finds and fetches what it lacks of a key. Heal.Seeding is `Seed` of
--     hexalog.go, which fetches all keys of another node.
--   * pool.go: Pool. The outgoing connections.
--   * fsm.go: Machine. The loop that applies queued entries, and the check after a restart.
--     Machine.Owing has what the check queues, and Machine.Startup is NewHexalog, which makes the node and starts the machine.
--   * Prelude, Bytes, Map, Error and Clock hold what they share; Tests holds concrete inputs.
--
-- How the source is read. A method that changes a structure is a function that returns the new one
-- beside its results. A pointer into a map is the key in the map, and the value is written back under
-- it. A pair of a value and an error is a `Result` where the value counts only without an error. An
-- `Option` around a call is a run-time panic where it is none; for `Wait` and the loop of the machine
-- it is a call that blocks. A Go map is Map, which is found in and never ordered. A channel is the
-- list of what was sent on it. uint32 heights wrap modulo 2^32; an int32 source index is an integer.
-- `now` is what the system's clock shows. No definition runs on fuel: every loop is over a list.
--
-- Not modelled: interleavings inside one call of a handler, and the capacities of the node's channels
-- (a call runs from start to end, and a send on the node's queues never blocks; the workers of `Seed`
-- take one key after the other); Shutdown, which only signals goroutines; gRPC itself, so that a stream
-- is the list of its messages and its end, a serving node's send does not fail, and a peer's answer is a
-- parameter; the Lamport clock of package hexatype, a parameter with laws; the defaults of config.go;
-- the machine that only prints; logging, JSON output, and opening and closing stores.
mod Prelude
pub mod Bytes
pub mod Map
pub mod Error
pub mod Entry
pub mod Index
pub mod EntryStore
pub mod IndexStore
pub mod Keylog
pub mod LogStore
pub mod Future
pub mod Ballot
pub mod Options
pub mod Clock
pub mod Node
pub mod Leader
pub mod Transfer
pub mod Heal
pub mod Pool
pub mod Rpc
pub mod Broadcast
pub mod StableStore
pub mod Machine
mod Tests
