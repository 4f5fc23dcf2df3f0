-- ===== src/Slots/Admission.antt =====
-- When a slot is granted: src/jvm_slots.rs, core-bridge/rust/kt-bridge.
use temporal_kt_bridge.Base.{
  ℕ, ◌+◌, ◌-◌, ◌≤◌, ◌<◌, ◌≡◌, ◌↔◌, ◌⊎◌, subst, arith, none, some, Bool, true, not,
}
use temporal_kt_bridge.Slots.{
  ResourceGate, allows, Issued, of, sum, State, Permit, JvmSlots, Shared, queue_of, required, grant,
  try_reserve_slot,
}

-- A slot is due whatever the pressure: the minimum is not met, or the queue of a sticky supplier has
-- no slot.
abbrev pub IsRequired : JvmSlots → Bool → Issued → Type 0
IsRequired j q i = (sum i < j.minimum) ⊎ ((j.sticky ≡ true) × (of i q ≡ 0))

-- The JVM admits the kind, and the ramp since the last slot is over.
abbrev pub IsAdmitted : JvmSlots → ℕ → Shared → Type 0
IsAdmitted j now (g, s) = (allows g j.kind ≡ true) × (j.ramp ≤ now - s.last_issued)

-- The last slot of a sticky supplier is kept for the other queue, if that has none.
abbrev pub IsKept : JvmSlots → Bool → Issued → Type 0
IsKept j q i = (j.sticky ≡ true) × (of i (not q) ≡ 0) × (sum i + 1 ≡ j.maximum)

abbrev pub IsGranted : JvmSlots → Bool → ℕ → Shared → Type 0
IsGranted j q now (g, s) =
    (sum s.issued < j.maximum)
    × (IsKept j q s.issued → ⊥)
    × (IsRequired j q s.issued ⊎ IsAdmitted j now (g, s))

pub granted :
    (j : JvmSlots) (is_sticky : Bool) (now : ℕ) (g : ResourceGate) (s : State)
    → IsGranted j (queue_of j is_sticky) now (g, s)
    → try_reserve_slot j is_sticky now (g, s) ≡ (
      grant j (queue_of j is_sticky) now (g, s),
      some (record { queue = queue_of j is_sticky; kind = j.kind }),
    )
unfolding try_reserve_slot required
granted j is_sticky now g s h = ground arith

pub try_reserve_slot-IsGranted :
    (j : JvmSlots) (is_sticky : Bool) (now : ℕ) (g : ResourceGate) (s : State) {x : Shared}
    {p : Permit}
    → try_reserve_slot j is_sticky now (g, s) ≡ (x, some p)
    → IsGranted j (queue_of j is_sticky) now (g, s)
unfolding try_reserve_slot required
try_reserve_slot-IsGranted j is_sticky now g s h =
    (ground arith, λ kept. ground arith, ground arith)

-- A slot is granted exactly if the maximum is not reached, the slot is not the last one, kept for
-- the other queue of a sticky supplier, and it is either due whatever the pressure or admitted by the
-- JVM after the ramp. The permit names the queue and the kind.
pub try_reserve_slot_iff :
    (j : JvmSlots) (is_sticky : Bool) (now : ℕ) (g : ResourceGate) (s : State)
    → (try_reserve_slot j is_sticky now (g, s) ≡ (
      grant j (queue_of j is_sticky) now (g, s),
      some (record { queue = queue_of j is_sticky; kind = j.kind }),
    ))
      ↔ IsGranted j (queue_of j is_sticky) now (g, s)
try_reserve_slot_iff j is_sticky now g s =
    (try_reserve_slot-IsGranted j is_sticky now g s, granted j is_sticky now g s)

-- A slot that is refused changes nothing.
pub refused_same :
    (j : JvmSlots) (is_sticky : Bool) (now : ℕ) (g : ResourceGate) (s : State) {x : Shared}
    → try_reserve_slot j is_sticky now (g, s) ≡ (x, none)
    → x ≡ (g, s)
unfolding try_reserve_slot
refused_same j is_sticky now g s h = ground arith

pub granted_same :
    (j : JvmSlots) (is_sticky : Bool) (now : ℕ) (g : ResourceGate) (s : State) {x : Shared}
    {p : Permit}
    → try_reserve_slot j is_sticky now (g, s) ≡ (x, some p)
    → (x ≡ grant j (queue_of j is_sticky) now (g, s))
      × (p ≡ record { queue = queue_of j is_sticky; kind = j.kind })
unfolding try_reserve_slot
granted_same j is_sticky now g s h = (ground arith, ground arith)

-- A sticky supplier takes the queue that the context names.
pub sticky_granted :
    (j : JvmSlots) (q : Bool) (now : ℕ) (g : ResourceGate) (s : State)
    → j.sticky ≡ true
    → IsGranted j q now (g, s)
    → try_reserve_slot j q now (g, s)
      ≡ (grant j q now (g, s), some (record { queue = q; kind = j.kind }))
sticky_granted j q now g s sticky h =
    subst
      (λ r.
        IsGranted j r now (g, s)
        → try_reserve_slot j q now (g, s)
          ≡ (grant j r now (g, s), some (record { queue = r; kind = j.kind })))
      (rw sticky) (granted j q now g s) h
