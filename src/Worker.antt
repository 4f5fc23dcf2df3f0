-- ===== src/Worker.antt =====
-- src/worker.rs of core-bridge/rust/kt-bridge: the lifecycle of a worker. A Core worker is a number,
-- which says which one it is. `Worker.Pump` has the poll loop.
pub mod Pump
pub mod Stream
pub mod System
pub mod Lifecycle
pub mod Options
pub mod Limits
pub mod Config
pub mod Accepted
mod Examples
use temporal_kt_bridge.Base.{ℕ, ◌+◌, Bool, true, false}
use temporal_kt_bridge.Error.{KtResult, ok, err, worker_shut_down}

pub data WorkerState : Type 0 where
  running : ℕ → Bool → WorkerState
  draining : ℕ → WorkerState
  finalized : WorkerState

-- `pumps` counts the abort handles, `live_pumps` the poll loops that have not ended.
pub record WorkerEntry : Type 0 where
  pub state : WorkerState
  pub live_pumps : ℕ
  pub pumps : ℕ

unfoldable pub new : ℕ → WorkerEntry
new core = record { state = running core false; live_pumps = 0; pumps = 0 }

unfoldable pub core_of : WorkerState → KtResult ℕ
core_of (running core _) = ok core
core_of (draining core) = ok core
core_of finalized = err worker_shut_down

-- `start`, under the lock of the state: the entry, the result, and how many poll loops it spawns.
unfoldable pub start_in : WorkerState → WorkerEntry → WorkerEntry × KtResult (Unit {0}) × ℕ
start_in (running core true) e = (e, ok tt, 0)
start_in (running core false) e =
    (record { state = running core true; live_pumps = 3; pumps = e.pumps + 3 }, ok tt, 3)
start_in (draining core) e = (e, err worker_shut_down, 0)
start_in finalized e = (e, err worker_shut_down, 0)

unfoldable pub start : WorkerEntry → WorkerEntry × KtResult (Unit {0}) × ℕ
start e = start_in e.state e

-- Whether `free` finds a Core worker, on which it initiates the shutdown.
unfoldable pub has_core : WorkerState → Bool
has_core finalized = false
has_core _ = true

-- `free` aborts every pump that is recorded: the entry, how many it aborts, and whether it initiates
-- the shutdown of Core.
unfoldable pub free : WorkerEntry → WorkerEntry × ℕ × Bool
free e = (record e { state = finalized; pumps = 0 }, e.pumps, has_core e.state)

-- How `shutdown` goes on: not at all, or with a Core worker and whether it was started.
pub data Begun : Type 0 where
  already : Begun
  begun : ℕ → Bool → Begun

-- The first section of `shutdown`.
unfoldable pub begin_in : WorkerState → WorkerState × Begun
begin_in (running core started) = (draining core, begun core started)
begin_in (draining core) = (draining core, begun core true)
begin_in finalized = (finalized, already)
