-- ===== src/Worker/Accepted.antt =====
-- What holds of a worker configuration that was accepted: src/worker.rs, core-bridge/rust/kt-bridge.
use temporal_kt_bridge.Base.{
  ℕ, ◌^◌, ◌-◌, ◌≤◌, ◌≡◌, refl, subst, arith, Bytes, List, Option, none, some, true, false,
}
use temporal_kt_bridge.Error.{KtResult, ok, err}
use temporal_kt_bridge.Worker.Options.{tuner, duration_millis, ◌>>=◌}
use temporal_kt_bridge.Worker.Config.{
  Standard, Options, WorkerConfig, unwrap_or, optional_duration, poller, rate, versioning,
  check_names, ratio_of, check_ratio, any_blank, check_types, built, worker_config,
}

bind_ok {ℓ κ} :
    {A : Type ℓ} {B : Type κ} (x : KtResult A) (f : A → KtResult B) (b : B)
    → (x >>= f) ≡ ok b
    → (a : A) × (x ≡ ok a) × (f a ≡ ok b)
bind_ok (ok a) f b h = (a, refl, h)
bind_ok (err e) f b h = cc

-- A rate limit, if there is one, is finite and above 0.
abbrev pub IsLimit : Standard → Option ℕ → Type 0
IsLimit std none = Unit
IsLimit std (some v) =
    (std.is_finite v ≡ true) × (std.is_negative v ≡ false) × (std.is_positive v ≡ true)

-- A duration of the options, or the default, which fits in a signed 64-bit number.
abbrev pub IsDuration : Option ℕ → ℕ → ℕ → Type 0
IsDuration option default millis = (millis ≡ unwrap_or option default) × (millis ≤ 2 ^ 63 - 1)

pub record Accepts (std : Standard) (o : Options) (c : WorkerConfig) : Type 0 where
  pub slots : tuner std.holder o.slots ≡ ok c.tuner
  pub named : (std.blank c.namespace ≡ false) × (std.blank c.task_queue ≡ false)
  pub identified : (c.namespace ≡ o.namespace) × (c.task_queue ≡ o.task_queue)
  pub ratio :
      (c.nonsticky_to_sticky_poll_ratio ≡ ratio_of std o)
      × (std.is_finite c.nonsticky_to_sticky_poll_ratio ≡ true)
      × (std.in_unit_range c.nonsticky_to_sticky_poll_ratio ≡ true)
  pub types : any_blank std c.workflow_types_to_failure_errors ≡ false
  pub strategy : versioning std o ≡ ok c.versioning_strategy
  pub max_heartbeat :
      IsDuration o.max_heartbeat_throttle_interval_millis 60_000 c.max_heartbeat_throttle_interval
  pub default_heartbeat :
      IsDuration o.default_heartbeat_throttle_interval_millis 30_000
        c.default_heartbeat_throttle_interval
  pub sticky :
      IsDuration o.sticky_queue_schedule_to_start_timeout_millis 10_000
        c.sticky_queue_schedule_to_start_timeout
  pub rates :
      IsLimit std c.max_worker_activities_per_second
      × IsLimit std c.max_task_queue_activities_per_second

check_names_ok :
    (std : Standard) (o : Options)
    → check_names std o ≡ ok tt
    → (std.blank o.namespace ≡ false) × (std.blank o.task_queue ≡ false)
unfolding check_names
check_names_ok std o h = ground arith

check_ratio_ok :
    (std : Standard) (r : ℕ)
    → check_ratio std r ≡ ok tt
    → (std.is_finite r ≡ true) × (std.in_unit_range r ≡ true)
unfolding check_ratio
check_ratio_ok std r h = ground arith

check_types_ok :
    (std : Standard) (names : List Bytes)
    → check_types std names ≡ ok tt
    → any_blank std names ≡ false
unfolding check_types
check_types_ok std names h = ground arith

IsDuration-ok :
    (option : Option ℕ) (default millis : ℕ)
    → duration_millis (unwrap_or option default) ≡ ok millis
    → IsDuration option default millis
unfolding duration_millis
IsDuration-ok option default millis h = ground arith

rate_ok : (std : Standard) (o limit : Option ℕ) → rate std o ≡ ok limit → IsLimit std limit
unfolding rate
rate_ok std none none h = tt
rate_ok std none (some w) h = cc
rate_ok std (some v) none h = tt
rate_ok std (some v) (some w) h = ground arith

built_ok :
    (std : Standard) (build : WorkerConfig → Option Bytes) (c c' : WorkerConfig)
    → built std build c ≡ ok c'
    → c ≡ c'
unfolding built
built_ok std build c c' h = ground (arith, h)

-- A configuration that is accepted has the slot suppliers that `tuner` accepted; a namespace and a task
-- queue that are those of the options and not blank; a poll ratio that is finite and in the unit range; no
-- blank workflow type; the versioning that was accepted; heartbeat intervals and a sticky timeout that are
-- those of the options or the defaults and fit in a signed 64-bit number; and rate limits that are finite
-- and positive where there are any.
pub worker_config-Accepts :
    (std : Standard) (build : WorkerConfig → Option Bytes) (o : Options) (c : WorkerConfig)
    → worker_config std build o ≡ ok c
    → Accepts std o c
unfolding worker_config
worker_config-Accepts std build o c h =
    let (_, names, h) = bind_ok (check_names std o) _ c h in
    let (_, ratio, h) = bind_ok (check_ratio std (ratio_of std o)) _ c h in
    let (_, types, h) =
      bind_ok (check_types std o.nondeterminism_as_workflow_fail_for_types) _ c h in
    let (t, slots, h) = bind_ok (tuner std.holder o.slots) _ c h in
    let (strategy, versioned, h) = bind_ok (versioning std o) _ c h in
    let (_, _, h) = bind_ok (poller o.workflow_poller_behavior) _ c h in
    let (_, _, h) = bind_ok (poller o.activity_poller_behavior) _ c h in
    let (_, _, h) = bind_ok (poller o.nexus_poller_behavior) _ c h in
    let (_, max, h) =
      bind_ok (duration_millis (unwrap_or o.max_heartbeat_throttle_interval_millis 60_000)) _ c h in
    let (_, default, h) =
      bind_ok (duration_millis (unwrap_or o.default_heartbeat_throttle_interval_millis 30_000)) _ c
        h in
    let (worker_rate, worker_limit, h) = bind_ok (rate std o.max_activities_per_second) _ c h in
    let (queue_rate, queue_limit, h) =
      bind_ok (rate std o.max_task_queue_activities_per_second) _ c h in
    let (_, sticky, h) =
      bind_ok (duration_millis (unwrap_or o.sticky_queue_schedule_to_start_timeout_millis 10_000)) _
        c h in
    let (_, _, h) = bind_ok (optional_duration o.graceful_shutdown_period_millis) _ c h in
    subst (Accepts std o) (built_ok std build _ c h) (record {
      slots = slots;
      named = check_names_ok std o names;
      identified = (refl, refl);
      ratio = (
        refl,
        (check_ratio_ok std (ratio_of std o) ratio).0,
        (check_ratio_ok std (ratio_of std o) ratio).1,
      );
      types = check_types_ok std o.nondeterminism_as_workflow_fail_for_types types;
      strategy = versioned;
      max_heartbeat = IsDuration-ok o.max_heartbeat_throttle_interval_millis 60_000 _ max;
      default_heartbeat =
          IsDuration-ok o.default_heartbeat_throttle_interval_millis 30_000 _ default;
      sticky = IsDuration-ok o.sticky_queue_schedule_to_start_timeout_millis 10_000 _ sticky;
      rates = (
        rate_ok std o.max_activities_per_second worker_rate worker_limit,
        rate_ok std o.max_task_queue_activities_per_second queue_rate queue_limit,
      );
    })
