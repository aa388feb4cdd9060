-- ===== src/Lib.antt =====
-- SimKV: a key-value store replicated by Raft, run in a deterministic simulator or over TCP.
--
-- A simulator (src/sim/simulator.cpp) runs its events from a queue (src/sim/event_queue.cpp),
-- draws random numbers (src/sim/prng.cpp) and carries messages over a network that delays, drops,
-- duplicates and partitions (src/sim/network.cpp). A RaftNode (src/raft/node.cpp) reacts to
-- messages, to its timers and to its clients. It keeps a log of commands (src/raft/log.cpp),
-- exchanges messages in a binary format (src/raft/rpc.cpp, over src/storage/codec.hpp), rewrites
-- its term, vote, log and snapshot to three stores (src/storage/durable_store.cpp) and applies
-- committed commands to a map (src/storage/kv_store.cpp). A server keeps the three stores in
-- files (src/storage/file_durable_store.cpp). src/storage/wal.cpp encodes commands and keeps them
-- in records with a checksum. In the test harness clients issue random operations
-- (src/harness/workload.cpp) and record what they ask and get (src/harness/history.cpp), and a
-- checker decides whether that is linearizable (src/checker/own_checker.cpp).
--
-- Which file models what:
--   Types          src/raft/types.hpp. A string is the list of its bytes.
--   OrdMap         std::map and std::set: an association list in the order of its keys.
--   Result         what may throw: a value, or the exception or failed assert.
--   Codec          src/storage/codec.hpp: u8, u32, u64, boolean and str write, get_* read.
--   Wal            src/storage/wal.cpp: crc32c, encode_command, decode_command, frame (Wal::append),
--                  replay.
--   DurableStore   src/storage/durable_store.cpp: append, flush, crash, read_durable, truncate_to.
--   KvStore        src/storage/kv_store.cpp: get, apply. KvStore/Snapshot: the snapshot bytes that
--                  take_snapshot writes and install, load and crash read.
--   Log            src/raft/log.cpp. `slice` is entries_between; save_to and load_from read and
--                  write a store.
--   Rpc            src/raft/rpc.hpp and rpc.cpp, a file for each group of messages; Rpc/Dispatch is
--                  the switch of RaftNode::on_message.
--   Node           src/raft/node.hpp and node.cpp. The record Node has a field for each member.
--                  Node/Timers, Persistence, Reads, Roles, Replication, Commit, Election, Append,
--                  Install, Client, Lifecycle and Dispatch have the methods under their names; the
--                  branches and loops of a long method are functions of their own.
--                  Node/Frame, Kept, Merged, Keeps, Handled, Served: what the methods do to term,
--                  vote, log and stores, and the predicates that all of them keep.
--                  Node/Durable, Histories, Down, Recovery, Runs: the disk, the order of states, crash and
--                  restart, and the runs of a node. Node/Commits, Applied, Votes, Ballot, Merging
--                  and Answered: the commit rule, the loop that applies, the vote and its reply, the entries of
--                  AppendEntries, and the reads that are answered.
--   EventQueue     src/sim/event_queue.cpp: push, cancel, pop_min, peek_time. EventQueue/Order: the
--                  order of the events.
--   Prng           src/sim/prng.cpp: splitmix64, seeded (the constructor), next_u64, range, bernoulli,
--                  unit, shuffle. Prng/Range, Shuffle: what range and shuffle return.
--   Simulator      src/sim/simulator.cpp: schedule, cancel, process_one, run_until_idle, run_for.
--                  Simulator/Clock, Runs: the clock, and what a run leaves.
--   Network        src/sim/network.cpp: send, partition, heal, handlers. Network/Partition, Delivery:
--                  what is lost, and what is queued.
--   FileStore      src/storage/file_durable_store.cpp over an interface of the operating system.
--                  FileStore/Prefixes, Laws, Flush, Truncate, Recovery: what the system promises, and
--                  what the store keeps.
--   DispatchQueue  src/server/dispatch_queue.cpp: post, stop, run_once. DispatchQueue/Order, Once: what
--                  is run, and in which order.
--   History        src/harness/history.cpp: record_invoke, record_return.
--   Workload       src/harness/workload.cpp: issue_op, on_reply, on_timeout, start, over a Harness of
--                  workload, history, simulator and network. Workload/Draws: what a client draws.
--                  Workload/Ledger, Loop, Runs: what the counts and the history keep.
--   FaultInjector  src/harness/fault_injector.cpp: start, stop, tick and the faults it injects, over
--                  Faults of injector, simulator, network and nodes. FaultInjector/Groups: the
--                  partition. The effects of a node that crashes stay in its list.
--   Checker        src/checker/own_checker.cpp. wg_check counts down the operations that are not
--                  placed; a slot is an operation with its flag. Checker/Linearizable,
--                  Register, Search, Complete, Selections, Subsets, Keys: what is asked of a history,
--                  and the search against it.
--
-- A method is a function from the state to the next; where it may throw it gives an Outcome that
-- has the state left behind. What a node asks of the clock and the transport, and the callbacks
-- it calls, are added to `effects`; the clock's answers (event ids, random numbers) are the
-- interface Clock, about which nothing is assumed. Callbacks are named by numbers, and nothing
-- runs inside them. Unsigned 64-bit and 32-bit arithmetic wraps where the source's does.
--
-- Bounds and fuel: Wal.replay runs on fuel of one more than the number of bytes, and each record
-- takes at least eight; Node.Commit.apply_loop runs commit_index - last_applied rounds, and each
-- round raises last_applied by one and leaves commit_index; advance_loop goes down by one from
-- the last index. Prng.reject, and so range, shuffle, send and the faults, run on fuel: the
-- rejection loop ends once a word is accepted. run_until_idle and run_for run on fuel; for
-- run_for it is enough where each event lowers a number. DispatchQueue.drain runs on fuel above
-- the number of closures and posts. Other loops are structural.
--
-- The floating-point numbers of the generator are an interface, Doubles, about which nothing is
-- assumed. What an action of the simulator does is a parameter, held to schedule, cancel and draw
-- only.
--
-- Not modelled: History::to_json and the runner (src/harness), and the server, TCP transport,
-- real clock and command line, which are input and output around a node. A node with stores other
-- than the in-memory ones is not modelled. The runs of a node assume a term below 2^64 - 1 where
-- an election raises it, and a last index below 2^64 - 1 where a command is appended.
mod Prelude
pub mod Result
pub mod OrdMap
pub mod Types
pub mod Codec
pub mod Wal
pub mod DurableStore
pub mod KvStore
pub mod Log
pub mod Rpc
pub mod Node
pub mod FileStore
pub mod DispatchQueue
pub mod EventQueue
pub mod FaultInjector
pub mod Prng
pub mod Network
pub mod Simulator
pub mod History
pub mod Checker
pub mod Workload
