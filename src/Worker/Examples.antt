-- ===== src/Worker/Examples.antt =====
-- Runs of the worker of src/worker.rs, core-bridge/rust/kt-bridge.
use temporal_kt_bridge.Base.{
  is_empty, ◌≤◌, ◌≡◌, ◌⊎◌, refl, arith, text, List, [], ◌∷◌, none, some, true, false, not,
}
use temporal_kt_bridge.Error.{ok, err, worker_shut_down}
use temporal_kt_bridge.Worker.{finalized, new, core_of, start, start_in, begin_in, free}
use temporal_kt_bridge.Worker.Pump.{
  activity, task, shut_down, failure, Polled, pump, pump_from, ends, delivers, reports,
}
use temporal_kt_bridge.Worker.Stream.{Stream, pump-Stream}
use temporal_kt_bridge.Worker.System.{
  System, Reach, here, next, fresh, starts, begins, initiates, leaves, drains, checks, finalizes,
  finalizing,
}
use temporal_kt_bridge.Slots.{JvmSlots, grant, try_reserve_slot}
use temporal_kt_bridge.Slots
use temporal_kt_bridge.Worker.Options.{
  WorkerOptions, Tuner, custom, fixed_size, slot, limited, duration_millis, workflow_limit,
  check_limit, check_targets, is_jvm, Holder, built_holder, tuner,
}
use temporal_kt_bridge.Worker.Config.{
  Standard, Options, WorkerConfig, unversioned, worker_config, check_names, check_ratio, ratio_of,
  check_types, any_blank, versioning, poller, rate, optional_duration, built,
}
use temporal_kt_bridge.Worker.Accepted.{Accepts, worker_config-Accepts}
use temporal_kt_bridge.Worker.Limits.{IsSound, tuner-IsSound, accepted_no_starvation}
use temporal_kt_bridge.Worker.Lifecycle.{pumps_spawned_once, finalizing_after_pumps}

-- A task, two errors, a task, and the end.
abbrev polls : List Polled
polls =
    task (1 ∷ [])
    ∷ failure (text "no")
    ∷ failure (text "no")
    ∷ task (2 ∷ [])
    ∷ shut_down
    ∷ task (3 ∷ [])
    ∷ []

reported_once :
    (pump activity 9 polls).pushes
    ≡ delivers activity 9 (1 ∷ [])
      ∷ reports activity 9 (text "no")
      ∷ delivers activity 9 (2 ∷ [])
      ∷ ends activity 9
      ∷ []
unfolding pump pump_from
reported_once = refl

pump-Stream_example : Stream false activity 9 polls (pump activity 9 polls)
pump-Stream_example = pump-Stream activity 9 polls

-- A worker is started, shut down, and its pumps leave.
abbrev ended : System
ended = record {
  entry = record { state = finalized; live_pumps = 0; pumps = 3 };
  phase = finalizing 6;
  background = 0;
  ready = 0;
  spawned = 3;
  initiated = true;
  finished = 0;
}

gets_there : Reach (fresh 6) ended
unfolding new start start_in begin_in
gets_there =
    next
      (next
        (next
          (next
            (next
              (next (next (next (next here starts) (begins refl)) (initiates 6 true refl))
                (leaves (omega arith)))
              (leaves (omega arith)))
            (leaves (omega arith)))
          (drains 6 refl refl))
        (checks 6 refl (λ e. cc)))
      (finalizes 6 refl)

pumps_spawned_once_example : ((ended.spawned ≡ 0) ⊎ (ended.spawned ≡ 3)) × (0 ≤ 3)
pumps_spawned_once_example = pumps_spawned_once 6 ended gets_there

finalizing_after_pumps_example : (true ≡ true) × (ended.entry.live_pumps ≡ 0) × (false ≡ false)
finalizing_after_pumps_example = finalizing_after_pumps 6 6 ended gets_there refl

-- A second start of a running worker spawns nothing, and a freed worker cannot be reached.
again : start (start (new 6)).0 ≡ ((start (new 6)).0, ok tt, 0)
unfolding start start_in new
again = refl

freed : core_of (free (new 6)).0.state ≡ err worker_shut_down
unfolding free core_of new
freed = refl

-- Options of a worker that caches workflows, with four workflow slots that the JVM admits.
abbrev jvm_options : WorkerOptions
jvm_options = record {
  no_workflows = false;
  max_cached_workflows = 10;
  max_concurrent_workflow_tasks = none;
  workflow_resource_limits =
      some (record { minimum_slots = 1; maximum_slots = 4; ramp_throttle_millis = 20 });
  max_concurrent_activities = some 7;
  activity_resource_limits = none;
  max_concurrent_local_activities = none;
  local_activity_resource_limits = none;
  max_concurrent_nexus_tasks = none;
  nexus_resource_limits = none;
  resource_tuner = some (record { jvm_resource_based = true; targets = ok tt });
}

abbrev jvm_slots : JvmSlots
jvm_slots = record { minimum = 1; maximum = 4; ramp = 20; kind = 0; sticky = true }

abbrev jvm_tuner : Tuner
jvm_tuner = record {
  workflow = custom jvm_slots;
  activity = fixed_size 7;
  local_activity = fixed_size 100;
  nexus = fixed_size 100;
}

-- Core makes a holder of any four suppliers.
abbrev willing : Holder
willing = record { build = λ t rb. none; build_tuner_holder = λ t rb. none }

accepts : tuner willing jvm_options ≡ ok jvm_tuner
unfolding tuner built_holder check_limit check_targets workflow_limit is_jvm slot limited
    duration_millis
accepts = refl

tuner-IsSound_example :
    IsSound (custom jvm_slots)
    × IsSound (fixed_size 7)
    × IsSound (fixed_size 100)
    × IsSound (fixed_size 100)
tuner-IsSound_example = tuner-IsSound willing jvm_options jvm_tuner accepts

accepted_no_starvation_example : try_reserve_slot jvm_slots true 3 (Slots.System.start 0).shared ≡ (
  grant jvm_slots true 3 (Slots.System.start 0).shared,
  some (record { queue = true; kind = 0 }),
)
accepted_no_starvation_example =
    accepted_no_starvation willing jvm_options jvm_tuner jvm_slots 0 3 (Slots.System.start 0) true
      accepts refl (unfold workflow_limit in omega arith) refl Slots.System.here refl

-- Every double counts as a positive number in the unit range, and no text but the empty one as blank.
abbrev standard : Standard
standard = record {
  blank = is_empty;
  is_finite = λ v. true;
  is_negative = λ v. false;
  is_positive = λ v. true;
  in_unit_range = λ v. true;
  one_fifth = 5;
  holder = willing;
}

abbrev jvm_worker : Options
jvm_worker = record {
  slots = jvm_options;
  namespace = text "ns";
  task_queue = text "tq";
  identity = [];
  build_id = text "b1";
  no_local_activities = false;
  no_remote_activities = false;
  enable_nexus = false;
  deployment_options = none;
  workflow_poller_behavior = none;
  activity_poller_behavior = none;
  nexus_poller_behavior = none;
  max_heartbeat_throttle_interval_millis = none;
  default_heartbeat_throttle_interval_millis = none;
  max_activities_per_second = some 9;
  max_task_queue_activities_per_second = none;
  nonsticky_to_sticky_poll_ratio = none;
  sticky_queue_schedule_to_start_timeout_millis = some 1;
  graceful_shutdown_period_millis = some 0;
  nondeterminism_as_workflow_fail = true;
  nondeterminism_as_workflow_fail_for_types = [];
  max_eager_activity_reservations_per_workflow_task = none;
  disable_payload_error_limit = false;
}

abbrev jvm_config : WorkerConfig
jvm_config = record {
  tuner = jvm_tuner;
  namespace = text "ns";
  task_queue = text "tq";
  max_cached_workflows = jvm_options.max_cached_workflows;
  enable_workflows = not jvm_options.no_workflows;
  enable_local_activities = true;
  enable_remote_activities = true;
  enable_nexus = false;
  versioning_strategy = unversioned (text "b1");
  client_identity_override = none;
  workflow_task_poller_behavior = none;
  activity_task_poller_behavior = none;
  nexus_task_poller_behavior = none;
  max_heartbeat_throttle_interval = 60_000;
  default_heartbeat_throttle_interval = 30_000;
  max_worker_activities_per_second = some 9;
  max_task_queue_activities_per_second = none;
  nonsticky_to_sticky_poll_ratio = 5;
  sticky_queue_schedule_to_start_timeout = 1;
  graceful_shutdown_period = some 0;
  workflow_failure_errors = true;
  workflow_types_to_failure_errors = [];
  max_eager_activity_reservations_per_workflow_task = 3;
  disable_payload_error_limit = false;
}

configured : worker_config standard (λ c. none) jvm_worker ≡ ok jvm_config
unfolding worker_config check_names check_ratio ratio_of check_types any_blank versioning poller
    rate optional_duration built tuner built_holder check_limit check_targets workflow_limit is_jvm
    slot limited duration_millis text
configured = refl

worker_config-Accepts_example : Accepts standard jvm_worker jvm_config
worker_config-Accepts_example =
    worker_config-Accepts standard (λ c. none) jvm_worker jvm_config configured
