-- ===== src/Runtime/System.antt =====
-- One runtime with its request tasks, its pollers and its callers, as interleavings of the sections
-- under the lock of the table and of the queue, and the selects of the tasks: src/runtime.rs, core-bridge/rust/kt-bridge.
use temporal_kt_bridge.Base.{ℕ, zero, suc, ◌≡◌, List, [], ◌∷◌, ◌++◌, get_elem?, set, none, some}
use temporal_kt_bridge.Base.Int.{ℤ}
use temporal_kt_bridge.Error.{KtError, ok, err}
use temporal_kt_bridge.Queue.{Pending, State, push, wake}
use temporal_kt_bridge.Queue.Poll.{check, drained, undrained}
use temporal_kt_bridge.Runtime.{
  Runtime, new_runtime, cancel, drain_pending_for_shutdown, Task, Outcome, completes, unwinds,
  spawn_request, select, finish_task,
}

abbrev pub erase : List Task → ℕ → List Task
erase [] i = []
erase (t ∷ ts) zero = ts
erase (t ∷ ts) (suc i) = t ∷ erase ts i

-- The runtime, the tasks that the tracker holds, and the history: the requests that were accepted
-- and the completions that were handed out, in order.
pub record System : Type 0 where
  pub runtime : Runtime
  pub tasks : List Task
  pub accepted : List ℕ
  pub delivered : List Pending

-- An operation answers the request that it was spawned for.
abbrev pub Answers : ℕ → Outcome → Type 0
Answers r (completes p) = p.req_id ≡ r
Answers r (unwinds m) = Unit

abbrev pub queued : Runtime → State → Runtime
queued e s = record e { queue = s }

pub data Step (x : System) : System → Type 0 where
  spawns :
      (r : ℕ) (e : Runtime) (t : Task)
      → spawn_request x.runtime r ≡ (e, ok t)
      → Step x (record x { runtime = e; tasks = t ∷ x.tasks; accepted = r ∷ x.accepted })
  rejects :
      (r : ℕ) (e : Runtime) (k : KtError)
      → spawn_request x.runtime r ≡ (e, err k)
      → Step x (record x { runtime = e })
  -- The select of a task is over. Anything may happen before the task takes the lock of the table.
  selects :
      (i : ℕ) (t : Task) (o : Outcome)
      → get_elem? x.tasks i ≡ some t
      → t.result ≡ none
      → Answers t.req_id o
      → Step x
          (record x { tasks = set x.tasks i (record t { result = some (select x.runtime t o) }) })
  finishes :
      (i : ℕ) (t : Task) (p : Pending)
      → get_elem? x.tasks i ≡ some t
      → t.result ≡ some p
      → Step x (record x { runtime = (finish_task x.runtime t p).0; tasks = erase x.tasks i })
  cancels : (r : ℕ) → Step x (record x { runtime = cancel x.runtime r })
  -- An event that no request asked for is pushed under the request id 0.
  emits :
      (p : Pending)
      → p.req_id ≡ 0
      → Step x (record x { runtime = queued x.runtime (push x.runtime.queue p).0 })
  polls :
      (cap : ℕ) (timeout : ℤ) (s : State)
      → check timeout x.runtime.queue ≡ some s
      → Step x (record x {
        runtime = queued x.runtime (undrained cap s);
        delivered = x.delivered ++ drained cap s;
      })
  times_out :
      (cap : ℕ)
      → Step x (record x {
        runtime = queued x.runtime (undrained cap x.runtime.queue);
        delivered = x.delivered ++ drained cap x.runtime.queue;
      })
  wakes : Step x (record x { runtime = queued x.runtime (wake x.runtime.queue) })
  shuts_down : Step x (record x { runtime = drain_pending_for_shutdown x.runtime })

pub data Reach (x : System) : System → Type 0 where
  here : Reach x x
  next : {y z : System} → Reach x y → Step y z → Reach x z

-- A new runtime that nobody has used.
abbrev pub start : System
start = record { runtime = new_runtime; tasks = []; accepted = []; delivered = [] }
