-- ===== src/Lib.antt =====
-- The native library of the Kotlin bridge to Temporal's Core, core-bridge/rust/kt-bridge.
--
-- The JVM calls entry points that are contained by `guard` (src/panic.rs) and names objects by handles
-- (src/handle.rs). A call that takes time is registered as a request of a runtime (src/runtime.rs) and
-- runs as a task; its answer, like every event that Rust pushes, goes through the runtime's completion
-- queue (src/queue.rs), which the pump threads of the JVM poll. A worker whose slots the JVM admits by
-- resource pressure takes them from a slot supplier (src/jvm_slots.rs). Paths are from the directory of
-- the crate.
--
-- - Base: lists, tests, bits, integers and texts that the parts share. It models no code.
-- - Error: src/error.rs and src/panic.rs. `KtError`, `KtResult`, `code`, `guard` and `grpc_status_code`
--   have the names of the source. Code that can panic has the type `Exec`, whose `panics` carries the
--   payload. The last error of a thread is the second component of what `guard` gives.
-- - Abi: src/abi.rs.
-- - Handle: src/handle.rs. The table under its lock is the record `Table`; each operation takes it and
--   gives the new one. An `Arc` is a number, which says which object it shares. `Handle.Owned` has
--   `remove_runtime`, `require_owner` and the getters. `view` is the table as a partial map;
--   `Handle.Refinement` has the specification of the table, a partial map that a run of operations changes.
-- - Queue: src/queue.rs. The state under the mutex is `State`. `Queue.Slab` is `BatchBuf`, with the
--   address of its allocation as a number. `Queue.Poll` is `PollerEntry::poll`: `check` is one pass over
--   the tests of the wait loop, `wait` the loop over the resumptions from the condition variable, which
--   are a list that other threads decide, `deliver` the rest of the call; `Queue.Waiting` says without the
--   loop when a poll goes on. `Queue.Threads` has any number
--   of threads as a step relation with one step for each section under the mutex.
-- - Runtime: src/runtime.rs. The hash map of requests is an association list, whose order is the order of
--   iteration. A cancellation token is an index into `tokens`. `select` is what the task of a request
--   selects once its operation has come to an `Outcome`, `finish_task` what it then does under the lock of
--   the table. `Runtime.System` is the step relation of one runtime with its tasks, callers and pollers,
--   in which the two are steps of their own.
-- - Slots: src/jvm_slots.rs. Counters are words with their wrap-around; times are numbers of one unit,
--   and the time of a call is an argument. `Slots.System` is the step relation of one supplier;
--   the drop of a permit is two steps, the one under the lock and the one on the gate.
-- - Worker: src/worker.rs. `start`, `free` and the first section of `shutdown` are functions on the entry;
--   `Worker.System` is the step relation of one worker with its shutdowns, background tasks and pumps.
--   `Worker.Pump` is `pump` over the list of what Core's polls come to, `Worker.Options` is `tuner`, with
--   the errors of Core's tuner holder as an argument, `Worker.Config` the rest of the configuration, with the tests of doubles and of blank texts as arguments.
-- - Telemetry: src/telemetry.rs. The meter under its lock is `State`; the hash map of instruments is an
--   association list; a double is the number of its bits. `Telemetry.Attributes` has the attribute sets,
--   `Telemetry.Meter` the runs of the meter.
-- - Client: src/client.rs. The URL parser, the version of the package, the process id and the host name are
--   a record of arguments, `Environment`.
-- - Rpc: src/rpc.rs. The tables of RPC names with their typed calls, which are generated, are the record
--   `Grpc`; a call in flight is what it comes to and whether it is still in flight at a deadline.
-- - Ephemeral: src/ephemeral.rs. The launch of the process and the opening of the log file are arguments;
--   `Ephemeral.Lifecycle` is the step relation of one server.
-- - Ffi: src/lib.rs, with `new_runtime`, `drain_metrics` and `free_runtime` of src/runtime.rs. The caller's
--   memory is the record `Out`. `Ffi.Process` has the state that the entry points share: the handle table and
--   maps from the number of an `Arc` to its object. An entry point takes the process and gives the new one
--   with a `Try`, which is a `KtResult` or a panic; `guard` turns that into the status code. What Core and
--   prost return is an argument. `Ffi.Requests` has the seven entry points that start a request, `Ffi.Answers`
--   what their tasks answer, `Ffi.Runtimes`, `Ffi.Workers`, `Ffi.Pollers` and `Ffi.Tasks` the others.
--
-- Words: handles are 64-bit numbers and a table holds fewer than 2 ^ 32 slots when it inserts; a slot
-- limit is below 2 ^ 32, since the options carry 32-bit numbers. The sum of the lengths of a batch and its
-- power of two wrap at 2 ^ 64, and a vector of more than 2 ^ 63 - 1 bytes panics, so that the results on a
-- poll ask for at most 2 ^ 62 bytes in a batch; the failure of an allocation is not modelled. The one
-- loop on fuel is `power_from`: 64 doublings from 1 reach every power of two up to 2 ^ 64.
--
-- Not modelled: Core, tokio, tonic and prost, which are not in the repository; the conversions of their
-- errors, which only format them; the generated tables of RPC names; memory ordering, since every state but
-- the atomic counters is behind a lock; the logging of contained panics and of servers that could not be
-- reaped.
mod Base
pub mod Error
pub mod Abi
pub mod Handle
pub mod Queue
pub mod Runtime
pub mod Slots
pub mod Worker
pub mod Telemetry
pub mod Client
pub mod Rpc
pub mod Ephemeral
pub mod Ffi
