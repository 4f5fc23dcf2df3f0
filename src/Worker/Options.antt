-- ===== src/Worker/Options.antt =====
-- The slot options of a worker: `tuner` of src/worker.rs, core-bridge/rust/kt-bridge.
use temporal_kt_bridge.Base.{
  ℕ, ◌^◌, ◌-◌, text, ◌++◌, Bytes, Option, none, some, Bool, false, ◌&&◌, ◌||◌, not, ◌==◌, ltb,
  if◌then◌else◌,
}
use temporal_kt_bridge.Error.{invalid_argument, failed, KtResult, ok, err}
use temporal_kt_bridge.Slots.{JvmSlots}

-- `ResourceSlotLimits`.
pub record Limits : Type 0 where
  pub minimum_slots : ℕ
  pub maximum_slots : ℕ
  pub ramp_throttle_millis : ℕ

-- A duration in milliseconds, which must be one of a signed 64-bit number.
unfoldable pub duration_millis : ℕ → KtResult ℕ
duration_millis value =
    if ltb (2 ^ 63 - 1) value
    then err (invalid_argument (text "duration exceeds signed 64-bit milliseconds"))
    else ok value

-- `SlotSupplierOptions`.
pub data Supplier : Type 0 where
  fixed_size : ℕ → Supplier
  resource_based : ℕ → ℕ → ℕ → Supplier
  custom : JvmSlots → Supplier

infixl 5 ◌>>=◌
abbrev pub ◌>>=◌ {ℓ κ} : {A : Type ℓ} {B : Type κ} → KtResult A → (A → KtResult B) → KtResult B
ok a >>= f = f a
err e >>= f = err e

-- Limits that were found in range.
unfoldable pub limited : Limits → Bool → ℕ → Bool → KtResult Supplier
limited l gate kind sticky = do
  ramp ← duration_millis l.ramp_throttle_millis
  ok (
      if gate
      then custom (record {
        minimum = l.minimum_slots;
        maximum = l.maximum_slots;
        ramp = ramp;
        kind = kind;
        sticky = sticky;
      })
      else resource_based l.minimum_slots l.maximum_slots ramp)

-- `gate` says whether the slots are admitted by the JVM.
unfoldable pub slot : Option ℕ → Option Limits → Bool → ℕ → Bool → KtResult Supplier
slot (some _) (some _) gate kind sticky =
    err (invalid_argument (text "a slot supplier cannot be both fixed and resource-based"))
slot none (some l) gate kind sticky =
    if l.maximum_slots == 0 || ltb l.maximum_slots l.minimum_slots
    then err (invalid_argument (text "resource slots require minimum <= maximum and maximum > 0"))
    else limited l gate kind sticky
slot (some n) none gate kind sticky =
    if n == 0
    then err (invalid_argument (text "fixed slot counts must be positive"))
    else ok (fixed_size n)
slot none none gate kind sticky = ok (fixed_size 100)

-- What `tuner` reads of a resource tuner: whether the JVM admits, and the result of the tests of its
-- floating-point targets and gains.
pub record ResourceTuner : Type 0 where
  pub jvm_resource_based : Bool
  pub targets : KtResult (Unit {0})

pub record WorkerOptions : Type 0 where
  pub no_workflows : Bool
  pub max_cached_workflows : ℕ
  pub max_concurrent_workflow_tasks : Option ℕ
  pub workflow_resource_limits : Option Limits
  pub max_concurrent_activities : Option ℕ
  pub activity_resource_limits : Option Limits
  pub max_concurrent_local_activities : Option ℕ
  pub local_activity_resource_limits : Option Limits
  pub max_concurrent_nexus_tasks : Option ℕ
  pub nexus_resource_limits : Option Limits
  pub resource_tuner : Option ResourceTuner

-- The four suppliers that the tuner is built of.
pub record Tuner : Type 0 where
  pub workflow : Supplier
  pub activity : Supplier
  pub local_activity : Supplier
  pub nexus : Supplier

abbrev pub caches : WorkerOptions → Bool
caches o = not o.no_workflows && ltb 0 o.max_cached_workflows

unfoldable pub workflow_limit : Option Limits → Option ℕ → ℕ
workflow_limit (some l) n = l.maximum_slots
workflow_limit none (some n) = n
workflow_limit none none = 100

unfoldable pub check_limit : WorkerOptions → KtResult (Unit {0})
check_limit o =
    if caches o && ltb (workflow_limit o.workflow_resource_limits o.max_concurrent_workflow_tasks) 2
    then err (invalid_argument (text "cached workflows require at least 2 workflow slots"))
    else ok tt

unfoldable pub is_jvm : Option ResourceTuner → Bool
is_jvm none = false
is_jvm (some rb) = rb.jvm_resource_based

unfoldable pub check_targets : Option ResourceTuner → KtResult (Unit {0})
check_targets none = ok tt
check_targets (some rb) = rb.targets

-- Core's part, from the four suppliers and the resource tuner: the error of `build`, if any, and that of
-- `build_tuner_holder`.
pub record Holder : Type 0 where
  pub build : Tuner → Option ResourceTuner → Option Bytes
  pub build_tuner_holder : Tuner → Option ResourceTuner → Option Bytes

unfoldable pub built_holder : Holder → Option ResourceTuner → Tuner → KtResult Tuner
built_holder h rb t = elim (h.build t rb) [
  | some e ↦ err (invalid_argument (text "invalid slot options: " ++ e))
  | none ↦ elim (h.build_tuner_holder t rb) [ some e ↦ err (failed e) | none ↦ ok t ]
]

unfoldable pub tuner : Holder → WorkerOptions → KtResult Tuner
tuner h o =
    let gate = is_jvm o.resource_tuner in
    (do
      _ ← check_limit o
      _ ← check_targets o.resource_tuner
      workflow ← slot o.max_concurrent_workflow_tasks o.workflow_resource_limits gate 0 (caches o)
      activity ← slot o.max_concurrent_activities o.activity_resource_limits gate 1 false
      local_activity ←
          slot o.max_concurrent_local_activities o.local_activity_resource_limits gate 2 false
      nexus ← slot o.max_concurrent_nexus_tasks o.nexus_resource_limits gate 3 false
      built_holder h o.resource_tuner (record {
        workflow = workflow;
        activity = activity;
        local_activity = local_activity;
        nexus = nexus;
      }))
