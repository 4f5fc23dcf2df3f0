-- ===== src/Slots/Examples.antt =====
-- Runs of the slot supplier of src/jvm_slots.rs, core-bridge/rust/kt-bridge.
use temporal_kt_bridge.Base.{
  ◌≤◌, ◌≡◌, ◌↔◌, refl, arith, [], ◌∷◌, get_elem?, none, some, true, false,
}
use temporal_kt_bridge.Slots.{
  new, update, stats, allows, Permit, JvmSlots, Shared, supplier, required, grant, try_reserve_slot,
  available_slots,
}
use temporal_kt_bridge.Slots.Admission.{IsGranted, try_reserve_slot_iff}
use temporal_kt_bridge.Slots.System.{System, Reach, here, next, grants, start}
use temporal_kt_bridge.Slots.Promises.{issued_within_maximum, no_starvation}

-- Two workflow slots, a minimum of none, a ramp of 100.
abbrev slots : JvmSlots
slots = record { minimum = 0; maximum = 2; ramp = 100; kind = 0; sticky = true }

abbrev nonsticky_permit : Permit
nonsticky_permit = record { queue = false; kind = 0 }

-- The gate admits nothing, and one nonsticky slot is out.
abbrev one_out : Shared
one_out = (
  record { allowed = 0; reserved = 1 ∷ 0 ∷ 0 ∷ 0 ∷ []; pending = 0 ∷ 0 ∷ 0 ∷ 0 ∷ [] },
  record { issued = record { nonsticky = 1; sticky = 0 }; last_issued = 10 },
)

abbrev after_one : System
after_one = record {
  shared = one_out;
  permits = nonsticky_permit ∷ [];
  releasing = [];
  waiting = 0;
}

reaches : Reach slots (start 0) after_one
reaches = next here (
    grants false 10 one_out nonsticky_permit
      (unfold try_reserve_slot required grant new supplier in refl))

-- The last slot is kept for the sticky queue.
kept : try_reserve_slot slots false 500 one_out ≡ (one_out, none)
unfolding try_reserve_slot
kept = refl

counted : stats one_out.0 ≡ 1 ∷ 0 ∷ 0 ∷ 0 ∷ 0 ∷ 0 ∷ 0 ∷ 0 ∷ []
unfolding stats
counted = refl

-- The admission bits are read one for each kind.
admits : (allows (update new 2) 0 ≡ false) × (allows (update new 2) 1 ≡ true)
unfolding allows update new
admits = (refl, refl)

issued_within_maximum_example :
    (1 ≤ 2)
    × (available_slots slots one_out.1 ≡ 1)
    × (get_elem? one_out.0.reserved 0 ≡ some 1)
    × (after_one.releasing ≡ [] → get_elem? one_out.0.reserved 0 ≡ some 1)
    × (get_elem? one_out.0.pending 0 ≡ some 0)
issued_within_maximum_example =
    issued_within_maximum slots 0 after_one (omega arith, omega arith) (omega arith) reaches

no_starvation_example :
    try_reserve_slot slots true 11 one_out
    ≡ (grant slots true 11 one_out, some (record { queue = true; kind = 0 }))
no_starvation_example =
    no_starvation slots 0 11 after_one true (omega arith, omega arith) (omega arith) refl reaches
      refl

try_reserve_slot_iff_example :
    (try_reserve_slot slots true 11 one_out
      ≡ (grant slots true 11 one_out, some (record { queue = true; kind = 0 })))
    ↔ IsGranted slots true 11 one_out
try_reserve_slot_iff_example = try_reserve_slot_iff slots true 11 one_out.0 one_out.1
