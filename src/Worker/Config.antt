-- ===== src/Worker/Config.antt =====
-- The configuration of a worker: `worker_config_with_resource_gate` of src/worker.rs,
-- core-bridge/rust/kt-bridge.
use temporal_kt_bridge.Base.{
  is_empty, ℕ, Bytes, text, ◌++◌, List, [], ◌∷◌, Option, none, some, Bool, false, not, ◌||◌, ◌==◌,
  if◌then◌else◌,
}
use temporal_kt_bridge.Error.{invalid_argument, KtResult, ok, err}
use temporal_kt_bridge.Worker.Options.{WorkerOptions, Tuner, Holder, tuner, duration_millis, ◌>>=◌}

-- A double is the number of its bits. What the code takes from the standard library: whether a text is
-- blank, the tests of doubles, and 0.2; and what it takes from Core: the tuner holder.
pub record Standard : Type 0 where
  pub blank : Bytes → Bool
  pub is_finite : ℕ → Bool
  pub is_negative : ℕ → Bool
  pub is_positive : ℕ → Bool
  pub in_unit_range : ℕ → Bool
  pub one_fifth : ℕ
  pub holder : Holder

pub data PollerBehavior : Type 0 where
  simple_maximum : ℕ → PollerBehavior
  autoscaling : ℕ → ℕ → ℕ → PollerBehavior

pub record Deployment : Type 0 where
  pub deployment_name : Bytes
  pub build_id : Bytes
  pub use_worker_versioning : Bool
  pub default_versioning_behavior : ℕ

pub data VersioningBehavior : Type 0 where
  pinned auto_upgrade : VersioningBehavior

pub data VersioningStrategy : Type 0 where
  unversioned : Bytes → VersioningStrategy
  deployed : Bytes → Bytes → Bool → Option VersioningBehavior → VersioningStrategy

-- The protobuf options, with those that `tuner` reads in `slots`. A poller behavior may have no strategy.
pub record Options : Type 0 where
  pub slots : WorkerOptions
  pub namespace : Bytes
  pub task_queue : Bytes
  pub identity : Bytes
  pub build_id : Bytes
  pub no_local_activities : Bool
  pub no_remote_activities : Bool
  pub enable_nexus : Bool
  pub deployment_options : Option Deployment
  pub workflow_poller_behavior : Option (Option PollerBehavior)
  pub activity_poller_behavior : Option (Option PollerBehavior)
  pub nexus_poller_behavior : Option (Option PollerBehavior)
  pub max_heartbeat_throttle_interval_millis : Option ℕ
  pub default_heartbeat_throttle_interval_millis : Option ℕ
  pub max_activities_per_second : Option ℕ
  pub max_task_queue_activities_per_second : Option ℕ
  pub nonsticky_to_sticky_poll_ratio : Option ℕ
  pub sticky_queue_schedule_to_start_timeout_millis : Option ℕ
  pub graceful_shutdown_period_millis : Option ℕ
  pub nondeterminism_as_workflow_fail : Bool
  pub nondeterminism_as_workflow_fail_for_types : List Bytes
  pub max_eager_activity_reservations_per_workflow_task : Option ℕ
  pub disable_payload_error_limit : Bool

-- Core's configuration. Durations are in milliseconds; the set of errors that fail a workflow is empty or
-- has nondeterminism, for all workflows and for these types.
pub record WorkerConfig : Type 0 where
  pub tuner : Tuner
  pub namespace : Bytes
  pub task_queue : Bytes
  pub max_cached_workflows : ℕ
  pub enable_workflows : Bool
  pub enable_local_activities : Bool
  pub enable_remote_activities : Bool
  pub enable_nexus : Bool
  pub versioning_strategy : VersioningStrategy
  pub client_identity_override : Option Bytes
  pub workflow_task_poller_behavior : Option PollerBehavior
  pub activity_task_poller_behavior : Option PollerBehavior
  pub nexus_task_poller_behavior : Option PollerBehavior
  pub max_heartbeat_throttle_interval : ℕ
  pub default_heartbeat_throttle_interval : ℕ
  pub max_worker_activities_per_second : Option ℕ
  pub max_task_queue_activities_per_second : Option ℕ
  pub nonsticky_to_sticky_poll_ratio : ℕ
  pub sticky_queue_schedule_to_start_timeout : ℕ
  pub graceful_shutdown_period : Option ℕ
  pub workflow_failure_errors : Bool
  pub workflow_types_to_failure_errors : List Bytes
  pub max_eager_activity_reservations_per_workflow_task : ℕ
  pub disable_payload_error_limit : Bool

abbrev pub unwrap_or : Option ℕ → ℕ → ℕ
unwrap_or none default = default
unwrap_or (some n) default = n

-- `transpose` of an optional duration.
unfoldable pub optional_duration : Option ℕ → KtResult (Option ℕ)
optional_duration none = ok none
optional_duration (some n) = do millis ← duration_millis n; ok (some millis)

unfoldable pub poller : Option (Option PollerBehavior) → KtResult (Option PollerBehavior)
poller none = ok none
poller (some (some behavior)) = ok (some behavior)
poller (some none) = err (invalid_argument (text "poller behavior must select a strategy"))

unfoldable pub behavior_of : ℕ → KtResult (Option VersioningBehavior)
behavior_of n =
    if n == 0
    then ok none
    else if n == 1
    then ok (some pinned)
    else if n == 2
    then ok (some auto_upgrade)
    else err (invalid_argument (text "unknown default versioning behavior"))

module _ (std : Standard) where
  unfoldable pub rate : Option ℕ → KtResult (Option ℕ)
  rate none = ok none
  rate (some v) =
      if not (std.is_finite v) || std.is_negative v
      then err (invalid_argument (text "activity rate limits must be finite and nonnegative"))
      else ok (if std.is_positive v then some v else none)

  unfoldable pub versioning : Options → KtResult VersioningStrategy
  versioning o = elim o.deployment_options [
    | none ↦ ok (unversioned o.build_id)
    | some d ↦
        if std.blank d.deployment_name || std.blank d.build_id
        then err (invalid_argument (text "deployment name and build ID must not be blank"))
        else (do
          behavior ← behavior_of d.default_versioning_behavior
          ok (deployed d.deployment_name d.build_id d.use_worker_versioning behavior))
  ]

  unfoldable pub check_names : Options → KtResult (Unit {0})
  check_names o =
      if std.blank o.namespace || std.blank o.task_queue
      then err (invalid_argument (text "namespace and task_queue must not be blank"))
      else ok tt

  unfoldable pub ratio_of : Options → ℕ
  ratio_of o = unwrap_or o.nonsticky_to_sticky_poll_ratio std.one_fifth

  unfoldable pub check_ratio : ℕ → KtResult (Unit {0})
  check_ratio ratio =
      if not (std.is_finite ratio) || not (std.in_unit_range ratio)
      then err (invalid_argument (text "nonsticky_to_sticky_poll_ratio must be between 0 and 1"))
      else ok tt

  unfoldable pub any_blank : List Bytes → Bool
  any_blank [] = false
  any_blank (n ∷ ns) = std.blank n || any_blank ns

  unfoldable pub check_types : List Bytes → KtResult (Unit {0})
  check_types names =
      if any_blank names
      then err (invalid_argument (text "nondeterminism workflow type names must not be blank"))
      else ok tt

  -- `build` gives the error of Core's builder.
  unfoldable pub built : (WorkerConfig → Option Bytes) → WorkerConfig → KtResult WorkerConfig
  built build c = elim (build c) [
    | some e ↦ err (invalid_argument (text "invalid worker config: " ++ e))
    | none ↦ ok c
  ]

  unfoldable pub worker_config : (WorkerConfig → Option Bytes) → Options → KtResult WorkerConfig
  worker_config build o = do
    _ ← check_names o
    _ ← check_ratio (ratio_of o)
    _ ← check_types o.nondeterminism_as_workflow_fail_for_types
    t ← tuner std.holder o.slots
    strategy ← versioning o
    workflow ← poller o.workflow_poller_behavior
    activity ← poller o.activity_poller_behavior
    nexus ← poller o.nexus_poller_behavior
    max_heartbeat ← duration_millis (unwrap_or o.max_heartbeat_throttle_interval_millis 60_000)
    default_heartbeat ←
        duration_millis (unwrap_or o.default_heartbeat_throttle_interval_millis 30_000)
    worker_rate ← rate o.max_activities_per_second
    queue_rate ← rate o.max_task_queue_activities_per_second
    sticky ← duration_millis (unwrap_or o.sticky_queue_schedule_to_start_timeout_millis 10_000)
    graceful ← optional_duration o.graceful_shutdown_period_millis
    built build (record {
      tuner = t;
      namespace = o.namespace;
      task_queue = o.task_queue;
      max_cached_workflows = o.slots.max_cached_workflows;
      enable_workflows = not o.slots.no_workflows;
      enable_local_activities = not o.no_local_activities;
      enable_remote_activities = not o.no_remote_activities;
      enable_nexus = o.enable_nexus;
      versioning_strategy = strategy;
      client_identity_override = if is_empty o.identity then none else some o.identity;
      workflow_task_poller_behavior = workflow;
      activity_task_poller_behavior = activity;
      nexus_task_poller_behavior = nexus;
      max_heartbeat_throttle_interval = max_heartbeat;
      default_heartbeat_throttle_interval = default_heartbeat;
      max_worker_activities_per_second = worker_rate;
      max_task_queue_activities_per_second = queue_rate;
      nonsticky_to_sticky_poll_ratio = ratio_of o;
      sticky_queue_schedule_to_start_timeout = sticky;
      graceful_shutdown_period = graceful;
      workflow_failure_errors = o.nondeterminism_as_workflow_fail;
      workflow_types_to_failure_errors = o.nondeterminism_as_workflow_fail_for_types;
      max_eager_activity_reservations_per_workflow_task =
          unwrap_or o.max_eager_activity_reservations_per_workflow_task 3;
      disable_payload_error_limit = o.disable_payload_error_limit;
    })
