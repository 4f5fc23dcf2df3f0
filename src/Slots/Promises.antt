-- ===== src/Slots/Promises.antt =====
-- What a supplier promises to its callers: src/jvm_slots.rs, core-bridge/rust/kt-bridge.
use temporal_kt_bridge.Base.{
  ℕ, ◌-◌, ◌%◌, ◌^◌, ◌≤◌, ◌≡◌, ◌≢◌, ap, ◌∙◌, arith, inl, inr, List, [], length, get_elem?, some,
  Bool, true, false, not,
}
use temporal_kt_bridge.Slots.{of, sum, Permit, JvmSlots, grant, try_reserve_slot, available_slots}
use temporal_kt_bridge.Slots.Admission.{sticky_granted}
use temporal_kt_bridge.Slots.System.{System, Reach, start}
use temporal_kt_bridge.Slots.Permits.{held, length-held, sum-of}
use temporal_kt_bridge.Slots.Bounds.{IsLimited, counted, Inv, Reach-Inv, start-Inv}

module _ (j : JvmSlots) (now : ℕ) {y : System} (lim : IsLimited j) (n : j.maximum ≢ 0)
    (r : Reach j (start now) y) where
  inv : Inv j y
  inv = Reach-Inv j lim r (start-Inv j now lim n)

  total : sum y.shared.1.issued ≡ length y.permits
  total = omega (arith, inv.issued false, inv.issued true, length-held y.permits)

-- However reservations, releases and updates interleave, a supplier of one of the four kinds with
-- a 32-bit maximum that is not 0 has never more permits out than its maximum; the free slots that
-- it tells are the maximum less the permits out, without underflow; and the gate counts for its
-- kind, on 32 bits, the reservations that wait, and the permits that are out with those that are
-- being dropped and not yet taken off the gate, so exactly the permits out while none is.
pub issued_within_maximum :
    (j : JvmSlots) (now : ℕ) (y : System)
    → IsLimited j
    → j.maximum ≢ 0
    → Reach j (start now) y
    → (length y.permits ≤ j.maximum)
      × (available_slots j y.shared.1 ≡ j.maximum - length y.permits)
      × (get_elem? y.shared.0.reserved j.kind ≡ some (counted y % 2 ^ 32))
      × (y.releasing ≡ [] → get_elem? y.shared.0.reserved j.kind ≡ some (length y.permits))
      × (get_elem? y.shared.0.pending j.kind ≡ some (y.waiting % 2 ^ 32))
unfolding available_slots
issued_within_maximum j now y lim n r =
    let v = inv j now lim n r in
    let out = total j now lim n r in
    (
      omega (arith, out, v.bounded),
      omega (arith, out, v.bounded, lim.0),
      v.reserved,
      λ none_left.
          v.reserved
          ∙ ap some (
              omega (arith, out, v.bounded, lim.0, ap (λ (ps : List Permit). length ps) none_left)),
      v.pending,
    )

-- Neither workflow queue of a sticky supplier of two slots or more, of one of the four kinds and
-- with a 32-bit maximum, can starve the other: in every interleaving, and whatever the JVM admits,
-- a queue that has no permit out is granted one at once.
pub no_starvation :
    (j : JvmSlots) (now later : ℕ) (y : System) (is_sticky : Bool)
    → IsLimited j
    → 2 ≤ j.maximum
    → j.sticky ≡ true
    → Reach j (start now) y
    → held is_sticky y.permits ≡ 0
    → try_reserve_slot j is_sticky later y.shared
      ≡ (grant j is_sticky later y.shared, some (record { queue = is_sticky; kind = j.kind }))
no_starvation j now later y is_sticky lim two sticky r none_out =
    let v = inv j now lim (omega (arith, two)) r in
    let nothing : of y.shared.1.issued is_sticky ≡ 0 = v.issued is_sticky ∙ none_out in
    sticky_granted j is_sticky later y.shared.0 y.shared.1 sticky (
      omega (
        arith,
        nothing,
        v.shared_out sticky two (not is_sticky),
        sum-of y.shared.1.issued is_sticky,
      ),
      λ (_, none_other, last).
          absurd
            (omega (arith, nothing, none_other, last, two, sum-of y.shared.1.issued is_sticky)),
      inl (inr (sticky, nothing)),
    )
