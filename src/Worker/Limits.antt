-- ===== src/Worker/Limits.antt =====
-- What the slot options guarantee to the slot suppliers: src/worker.rs and src/jvm_slots.rs,
-- core-bridge/rust/kt-bridge.
use temporal_kt_bridge.Base.{
  ℕ, ◌^◌, ◌≤◌, ◌<◌, ◌≡◌, ◌≢◌, sym, ap, ◌∙◌, subst, arith, Option, some, Bool, true, false,
}
use temporal_kt_bridge.Error.{ok}
use temporal_kt_bridge.Slots.{JvmSlots, grant, try_reserve_slot}
use temporal_kt_bridge.Slots.System.{System, Reach, start}
use temporal_kt_bridge.Slots.Permits.{held}
use temporal_kt_bridge.Slots.Promises.{no_starvation}
use temporal_kt_bridge.Slots.Bounds.{IsLimited}
use temporal_kt_bridge.Worker.Options.{
  Limits, duration_millis, Supplier, fixed_size, resource_based, custom, limited, slot,
  WorkerOptions, Tuner, Holder, built_holder, caches, workflow_limit, check_limit, is_jvm, tuner,
}

-- A supplier that can hand out a slot, within the limits that it was given.
abbrev pub IsSound : Supplier → Type 0
IsSound (fixed_size n) = n ≢ 0
IsSound (resource_based minimum maximum ramp) =
    (minimum ≤ maximum) × (maximum ≢ 0) × (ramp < 2 ^ 63)
IsSound (custom j) = (j.minimum ≤ j.maximum) × (j.maximum ≢ 0) × (j.ramp < 2 ^ 63)

slot-IsSound :
    (n : Option ℕ) (l : Option Limits) (gate : Bool) (kind : ℕ) (sticky : Bool) (s : Supplier)
    → slot n l gate kind sticky ≡ ok s
    → IsSound s
unfolding slot limited duration_millis
slot-IsSound n l gate kind sticky s h = ground arith

slot-custom :
    (n : Option ℕ) (l : Option Limits) (gate : Bool) (kind : ℕ) (sticky : Bool) (j : JvmSlots)
    → slot n l gate kind sticky ≡ ok (custom j)
    → (j.kind ≡ kind) × (j.sticky ≡ sticky) × (gate ≡ true) × (workflow_limit l n ≡ j.maximum)
unfolding slot limited duration_millis workflow_limit
slot-custom n l gate kind sticky j h = (ground arith, ground arith, ground arith, ground arith)

check_limit-ok :
    (o : WorkerOptions)
    → check_limit o ≡ ok tt
    → caches o ≡ true
    → 2 ≤ workflow_limit o.workflow_resource_limits o.max_concurrent_workflow_tasks
unfolding check_limit
check_limit-ok o h c = ground arith

tuner-ok :
    (d : Holder) (o : WorkerOptions) (t : Tuner)
    → tuner d o ≡ ok t
    → (check_limit o ≡ ok tt)
      × (slot o.max_concurrent_workflow_tasks o.workflow_resource_limits
            (is_jvm o.resource_tuner)
            0
            (caches o)
          ≡ ok t.workflow)
      × (slot o.max_concurrent_activities o.activity_resource_limits
            (is_jvm o.resource_tuner)
            1
            false
          ≡ ok t.activity)
      × (slot o.max_concurrent_local_activities o.local_activity_resource_limits
            (is_jvm o.resource_tuner)
            2
            false
          ≡ ok t.local_activity)
      × (slot o.max_concurrent_nexus_tasks o.nexus_resource_limits (is_jvm o.resource_tuner) 3 false
          ≡ ok t.nexus)
unfolding tuner built_holder
tuner-ok d o t h = (ground arith, ground arith, ground arith, ground arith, ground arith)

-- Options that are accepted give four suppliers that can each hand out a slot: a fixed size is not 0,
-- and limits have a maximum that is not 0 nor below the minimum, with a ramp that is a signed 64-bit
-- number.
pub tuner-IsSound :
    (d : Holder) (o : WorkerOptions) (t : Tuner)
    → tuner d o ≡ ok t
    → IsSound t.workflow × IsSound t.activity × IsSound t.local_activity × IsSound t.nexus
tuner-IsSound d o t h =
    let (_, w, a, l, n) = tuner-ok d o t h in
    (
      slot-IsSound _ _ _ _ _ _ w,
      slot-IsSound _ _ _ _ _ _ a,
      slot-IsSound _ _ _ _ _ _ l,
      slot-IsSound _ _ _ _ _ _ n,
    )

-- The workflow slots that options with a 32-bit maximum put under the JVM's admission are limited as
-- the supplier requires; where workflows are cached the supplier is sticky and has at least two slots,
-- one for each workflow queue.
tuner-IsLimited :
    (d : Holder) (o : WorkerOptions) (t : Tuner) (j : JvmSlots)
    → tuner d o ≡ ok t
    → t.workflow ≡ custom j
    → workflow_limit o.workflow_resource_limits o.max_concurrent_workflow_tasks < 2 ^ 32
    → IsLimited j
      × (j.maximum ≢ 0)
      × (is_jvm o.resource_tuner ≡ true)
      × (j.sticky ≡ caches o)
      × (j.sticky ≡ true → 2 ≤ j.maximum)
tuner-IsLimited d o t j h under small =
    let (limit, w, _, _, _) = tuner-ok d o t h in
    let (k, sticky, gate, same) = slot-custom _ _ _ _ _ j (w ∙ ap ok under) in
    let sound : IsSound (custom j) = subst IsSound under (tuner-IsSound d o t h).0 in
    (
      (omega (arith, same), omega (arith, k)),
      sound.1,
      gate,
      sticky,
      λ s. omega (arith, same, check_limit-ok o limit (sym sticky ∙ s)),
    )

-- A worker that caches workflows and whose options are accepted, with a 32-bit maximum and the JVM's
-- admission for its workflow slots, starves neither workflow queue: in every interleaving, and whatever
-- the JVM admits, a queue that has no permit out is granted one at once.
pub accepted_no_starvation :
    (d : Holder) (o : WorkerOptions) (t : Tuner) (j : JvmSlots) (now later : ℕ) (y : System)
    (is_sticky : Bool)
    → tuner d o ≡ ok t
    → t.workflow ≡ custom j
    → workflow_limit o.workflow_resource_limits o.max_concurrent_workflow_tasks < 2 ^ 32
    → caches o ≡ true
    → Reach j (start now) y
    → held is_sticky y.permits ≡ 0
    → try_reserve_slot j is_sticky later y.shared
      ≡ (grant j is_sticky later y.shared, some (record { queue = is_sticky; kind = j.kind }))
accepted_no_starvation d o t j now later y is_sticky h under small cached r none_out =
    let (lim, _, _, sticky, two) = tuner-IsLimited d o t j h under small in
    no_starvation j now later y is_sticky lim (two (sticky ∙ cached)) (sticky ∙ cached) r none_out
