-- ===== src/Slots.antt =====
-- src/jvm_slots.rs of core-bridge/rust/kt-bridge: the slots that the JVM admits under resource
-- pressure. Instants and durations are numbers of one unit.
pub mod Admission
pub mod System
pub mod Permits
pub mod Bounds
pub mod Promises
mod Examples
use temporal_kt_bridge.Base.{
  ℕ, zero, suc, ◌+◌, ◌-◌, ◌%◌, ◌^◌, bit_and, List, [], ◌∷◌, get_elem?, set, replicate, Option, none,
  some, Bool, true, false, ◌&&◌, ◌||◌, not, ◌==◌, ltb, leb, if◌then◌else◌,
}

-- `fetch_add(1)` and `fetch_sub(1)` on a word of `w` bits.
abbrev pub increment : ℕ → ℕ → ℕ
increment w n = (n + 1) % 2 ^ w

abbrev pub decrement : ℕ → ℕ → ℕ
decrement w n = (n + (2 ^ w - 1)) % 2 ^ w

abbrev pub adjust : (ℕ → ℕ) → List ℕ → ℕ → List ℕ
adjust f [] i = []
adjust f (n ∷ ns) zero = f n ∷ ns
adjust f (n ∷ ns) (suc i) = n ∷ adjust f ns i

-- `changed`, which wakes the waiting reservations, carries no state.
pub record ResourceGate : Type 0 where
  pub allowed : ℕ
  pub reserved : List ℕ
  pub pending : List ℕ

unfoldable pub new : ResourceGate
new = record { allowed = 0; reserved = replicate 4 0; pending = replicate 4 0 }

unfoldable pub update : ResourceGate → ℕ → ResourceGate
update g allowed = record g { allowed = allowed }

abbrev pub interleave : List ℕ → List ℕ → List ℕ
interleave (r ∷ rs) (p ∷ ps) = r ∷ p ∷ interleave rs ps
interleave _ _ = []

unfoldable pub stats : ResourceGate → List ℕ
stats g = interleave g.reserved g.pending

unfoldable pub allows : ResourceGate → ℕ → Bool
allows g kind = not (bit_and g.allowed (2 ^ kind) == 0)

-- `issued` has one count for each workflow queue: false is the queue 0, true the sticky queue 1.
pub record Issued : Type 0 where
  pub nonsticky : ℕ
  pub sticky : ℕ

abbrev pub of : Issued → Bool → ℕ
of i false = i.nonsticky
of i true = i.sticky

abbrev pub put : Issued → Bool → ℕ → Issued
put i false n = record i { nonsticky = n }
put i true n = record i { sticky = n }

abbrev pub sum : Issued → ℕ
sum i = i.nonsticky + i.sticky

pub record State : Type 0 where
  pub issued : Issued
  pub last_issued : ℕ

pub record Permit : Type 0 where
  pub queue : Bool
  pub kind : ℕ

pub record JvmSlots : Type 0 where
  pub minimum : ℕ
  pub maximum : ℕ
  pub ramp : ℕ
  pub kind : ℕ
  pub sticky : Bool

-- The state that `supplier` makes.
unfoldable pub supplier : ℕ → State
supplier now = record { issued = record { nonsticky = 0; sticky = 0 }; last_issued = now }

-- The gate and the state of one supplier.
abbrev pub Shared : Type 0
Shared = ResourceGate × State

-- `drop` of a permit, in two parts: the count under the lock of the state, then the gate's, outside it.
unfoldable pub drop_issued : Permit → State → State
drop_issued p s = record s { issued = put s.issued p.queue (decrement 64 (of s.issued p.queue)) }

unfoldable pub drop_reserved : Permit → ResourceGate → ResourceGate
drop_reserved p g = record g { reserved = adjust (decrement 32) g.reserved p.kind }

-- The part of the context that is read: `is_sticky`, and the time.
abbrev pub queue_of : JvmSlots → Bool → Bool
queue_of j is_sticky = j.sticky && is_sticky

unfoldable pub required : JvmSlots → Bool → Issued → Bool
required j q i = ltb (sum i) j.minimum || (j.sticky && of i q == 0)

unfoldable pub grant : JvmSlots → Bool → ℕ → Shared → Shared
grant j q now (g, s) = (
  record g { reserved = adjust (increment 32) g.reserved j.kind },
  record { issued = put s.issued q (increment 64 (of s.issued q)); last_issued = now },
)

unfoldable pub try_reserve_slot : JvmSlots → Bool → ℕ → Shared → Shared × Option Permit
try_reserve_slot j is_sticky now (g, s) =
    let q = queue_of j is_sticky in
    if leb j.maximum (sum s.issued)
    then ((g, s), none)
    else if j.sticky && of s.issued (not q) == 0 && (sum s.issued + 1 == j.maximum)
    then ((g, s), none)
    else if not (required j q s.issued)
        && (not (allows g j.kind) || ltb (now - s.last_issued) j.ramp)
    then ((g, s), none)
    else (grant j q now (g, s), some (record { queue = q; kind = j.kind }))

-- `reserve_slot` counts itself in `pending`, until `PendingReserve` is dropped.
unfoldable pub begin_reserve : JvmSlots → ResourceGate → ResourceGate
begin_reserve j g = record g { pending = adjust (increment 32) g.pending j.kind }

unfoldable pub end_reserve : JvmSlots → ResourceGate → ResourceGate
end_reserve j g = record g { pending = adjust (decrement 32) g.pending j.kind }

-- How long `reserve_slot` sleeps, at most, before it tries again.
unfoldable pub ramp_wait : JvmSlots → ℕ → State → ℕ
ramp_wait j now s = j.ramp - (now - s.last_issued)

-- `available_slots` on 64-bit words.
unfoldable pub available_slots : JvmSlots → State → ℕ
available_slots j s = (j.maximum + (2 ^ 64 - sum s.issued)) % 2 ^ 64
