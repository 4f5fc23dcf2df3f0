-- ===== src/Runtime/Examples.antt =====
-- Runs of the request bookkeeping of src/runtime.rs, core-bridge/rust/kt-bridge.
use temporal_kt_bridge.Base.{
  ℕ, ◌+◌, ◌≤◌, ◌≡◌, refl, arith, text, decimal, map, [], ◌∷◌, ◌++◌, count, none, some, true, false,
  get_elem?,
}
use temporal_kt_bridge.Base.Int.{negsuc}
use temporal_kt_bridge.Error.{err, invalid_argument, static_str, panic_message}
use temporal_kt_bridge.Queue.{Pending, new, ack, error, push, close}
use temporal_kt_bridge.Runtime.{
  Runtime, new_runtime, register, contains_key, remove, get, cancel, cancel_token, drain_each,
  drain_pending_for_shutdown, Task, Outcome, completes, unwinds, spawned, spawn_request,
  is_cancelled, outcome_pending, select, finish_task,
}
use temporal_kt_bridge.Runtime.Requests.{shutdown_answer, drain_pending_for_shutdown_lem}
use temporal_kt_bridge.Runtime.System.{
  System, Answers, Reach, here, next, spawns, selects, shuts_down, start,
}
use temporal_kt_bridge.Runtime.Once.{outstanding, answers}
use temporal_kt_bridge.Runtime.Answered.{
  answered_once, answered_after_shutdown, ended, IsAnsweredBy, outstanding_has_task,
}
use temporal_kt_bridge.Runtime.Cancelled.{cancellation, cancelled_answer}

abbrev task : Task
task = record { req_id = 5; token = 0; result = none }

abbrev waiting : Runtime
waiting = record {
  queue = record { queue = []; wakes = 0; closed = false };
  pending = (5, 0) ∷ [];
  closed = false;
  tokens = false ∷ [];
}

-- A request that was accepted and not yet answered.
abbrev spawned_system : System
spawned_system = record { runtime = waiting; tasks = task ∷ []; accepted = 5 ∷ []; delivered = [] }

spawns_one : Reach start spawned_system
spawns_one = next here (
    spawns 5 waiting task
      (unfold spawn_request register contains_key spawned new_runtime new in refl))

-- A second request under the same id is refused.
duplicate : register waiting 5 ≡ (waiting, err (invalid_argument (text "duplicate req_id 5")))
unfolding register contains_key text decimal
duplicate = refl

answered_once_example :
    (count 5 (5 ∷ []) ≡ answers spawned_system 5 + outstanding spawned_system 5)
    × (outstanding spawned_system 5 ≤ 1)
answered_once_example = answered_once spawned_system 5 (omega arith) spawns_one

-- The runtime shuts down: the request is answered with KT_ERR_SHUTDOWN.
abbrev shut : System
shut = record spawned_system { runtime = drain_pending_for_shutdown waiting }

answered_after_shutdown_example : (outstanding shut 5 ≡ 0) × (count 5 (5 ∷ []) ≡ answers shut 5)
answered_after_shutdown_example =
    answered_after_shutdown shut 5 (omega arith) (next spawns_one shuts_down) closed
  where
    closed : (drain_pending_for_shutdown waiting).closed ≡ true
    closed = unfold drain_pending_for_shutdown drain_each close in refl

drain_pending_for_shutdown_lem_example :
    let e' = drain_pending_for_shutdown waiting in
    (e'.queue.queue ≡ [] ++ map shutdown_answer (5 ∷ []))
    × (e'.pending ≡ [])
    × (e'.closed ≡ true)
    × (e'.queue.closed ≡ true)
drain_pending_for_shutdown_lem_example = drain_pending_for_shutdown_lem waiting refl

outstanding_has_task_example :
    (i : ℕ) × (t : Task) × (get_elem? spawned_system.tasks i ≡ some t)
    × (t.req_id ≡ 5)
    × ((p : Pending)
        → t.result ≡ some p
        → IsAnsweredBy spawned_system 5 (ended spawned_system i t p))
    × ((o : Outcome)
        → Answers 5 o
        → t.result ≡ none
        → IsAnsweredBy spawned_system 5 (ended spawned_system i t (select waiting t o)))
outstanding_has_task_example =
    outstanding_has_task spawned_system 5 (omega arith) spawns_one (omega arith)

-- A request is cancelled, and then its operation comes to a result.
abbrev cancelled_system : System
cancelled_system = record spawned_system { runtime = record waiting { tokens = true ∷ [] } }

abbrev late_task : Task
late_task = record task { result = some (cancellation 5) }

abbrev selected_system : System
selected_system = record cancelled_system { tasks = late_task ∷ [] }

selects_late : Reach (record spawned_system { runtime = cancel waiting 5 }) selected_system
unfolding cancel cancel_token get select is_cancelled ack
selects_late = next here (selects 0 task (completes (ack 5)) refl refl refl)

cancelled_answer_example :
    (cancellation 5 ≡ cancellation 5)
    × (contains_key 5 cancelled_system.runtime.pending ≡ true
        → cancelled_system.runtime.queue.closed ≡ false
        → ((finish_task cancelled_system.runtime late_task (cancellation 5)).0.queue.queue
            ≡ [] ++ cancellation 5 ∷ [])
          × ((finish_task cancelled_system.runtime late_task (cancellation 5)).0.pending
              ≡ remove 5 cancelled_system.runtime.pending))
    × (contains_key 5 cancelled_system.runtime.pending ≡ false
        → (finish_task cancelled_system.runtime late_task (cancellation 5)).0
          ≡ cancelled_system.runtime)
cancelled_answer_example =
    cancelled_answer spawned_system selected_system 5 0 0 late_task (cancellation 5)
      (unfold get in refl) (omega arith) (λ _. refl, tt) selects_late refl refl refl

-- A cancellation between the select and the end of the task comes too late: the result is sent.
too_late : (finish_task (cancel waiting 5) task (ack 5)).0.queue.queue ≡ ack 5 ∷ []
unfolding finish_task contains_key cancel push ack
too_late = refl

-- A request whose operation panics answers KT_ERR_PANIC, and one that was retired answers nothing.
panicking :
    (finish_task waiting task
      (select waiting task (unwinds (static_str (text "boom"))))).0.queue.queue
    ≡ error 5 (negsuc 0) (text "panic: boom") ∷ []
unfolding finish_task contains_key select is_cancelled outcome_pending push text error panic_message
panicking = refl

retired : (finish_task new_runtime task (ack 5)).0 ≡ new_runtime
unfolding finish_task contains_key new_runtime
retired = refl
