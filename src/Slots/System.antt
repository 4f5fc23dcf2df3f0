-- ===== src/Slots/System.antt =====
-- One supplier with its permits and its waiting reservations, as interleavings of the sections under
-- its lock and the atomic updates of the gate: src/jvm_slots.rs, core-bridge/rust/kt-bridge. Other
-- suppliers share the gate.
use temporal_kt_bridge.Base.{
  ℕ, zero, suc, ◌+◌, ◌-◌, ◌≡◌, ◌≢◌, List, [], ◌∷◌, get_elem?, none, some, Bool,
}
use temporal_kt_bridge.Slots.{
  ResourceGate, new, update, Permit, JvmSlots, Shared, supplier, drop_issued, drop_reserved,
  try_reserve_slot, begin_reserve, end_reserve,
}

abbrev pub erase : List Permit → ℕ → List Permit
erase [] i = []
erase (p ∷ ps) zero = ps
erase (p ∷ ps) (suc i) = p ∷ erase ps i

-- `permits` are out, `releasing` are those that `drop` has taken off `issued` and not yet off the gate;
-- `waiting` counts the guards `PendingReserve`.
pub record System : Type 0 where
  pub shared : Shared
  pub permits : List Permit
  pub releasing : List Permit
  pub waiting : ℕ

pub data Step (j : JvmSlots) (x : System) : System → Type 0 where
  begins :
      Step j x
        (record x { shared = (begin_reserve j x.shared.0, x.shared.1); waiting = x.waiting + 1 })
  -- The guard of a reservation is dropped: it has its permit, or it was given up.
  leaves :
      x.waiting ≢ 0
      → Step j x
          (record x { shared = (end_reserve j x.shared.0, x.shared.1); waiting = x.waiting - 1 })
  -- `try_reserve_slot`, by a reservation in its loop or by any other caller.
  grants :
      (is_sticky : Bool) (now : ℕ) (y : Shared) (p : Permit)
      → try_reserve_slot j is_sticky now x.shared ≡ (y, some p)
      → Step j x (record x { shared = y; permits = p ∷ x.permits })
  refuses :
      (is_sticky : Bool) (now : ℕ) (y : Shared)
      → try_reserve_slot j is_sticky now x.shared ≡ (y, none)
      → Step j x (record x { shared = y })
  releases :
      (i : ℕ) (p : Permit)
      → get_elem? x.permits i ≡ some p
      → Step j x (record x {
        shared = (x.shared.0, drop_issued p x.shared.1);
        permits = erase x.permits i;
        releasing = p ∷ x.releasing;
      })
  uncounts :
      (i : ℕ) (p : Permit)
      → get_elem? x.releasing i ≡ some p
      → Step j x (record x {
        shared = (drop_reserved p x.shared.0, x.shared.1);
        releasing = erase x.releasing i;
      })
  updates : (allowed : ℕ) → Step j x (record x { shared = (update x.shared.0 allowed, x.shared.1) })
  -- The counts of the other kinds change as their suppliers work.
  others :
      (g : ResourceGate)
      → get_elem? g.reserved j.kind ≡ get_elem? x.shared.0.reserved j.kind
      → get_elem? g.pending j.kind ≡ get_elem? x.shared.0.pending j.kind
      → Step j x (record x { shared = (g, x.shared.1) })

pub data Reach (j : JvmSlots) (x : System) : System → Type 0 where
  here : Reach j x x
  next : {y z : System} → Reach j x y → Step j y z → Reach j x z

abbrev pub start : ℕ → System
start now = record { shared = (new, supplier now); permits = []; releasing = []; waiting = 0 }
