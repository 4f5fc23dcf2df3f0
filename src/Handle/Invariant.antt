-- ===== src/Handle/Invariant.antt =====
-- What holds of the handle table between two operations, and the table as a map from handles:
-- src/handle.rs of core-bridge/rust/kt-bridge.
use temporal_kt_bridge.Base.{
  ℕ, ◌^◌, ◌≤◌, ◌<◌, ◌≡◌, refl, arith, ◌==◌, ◌&&◌, if◌then◌else◌, Option, none, some, length,
  get_elem?, All, count,
}
use temporal_kt_bridge.Handle.{Entry, kind, kind_of, generation_of, index_of, Slot, Table, new}

-- What a live handle stands for.
pub record Held : Type 0 where
  pub entry : Entry
  pub owner : ℕ

abbrev pub seen_entry : ℕ → Slot → Option Entry → Option Held
seen_entry x s none = none
seen_entry x s (some e) =
    if (kind e == kind_of x) && (s.generation == generation_of x)
    then some (record { entry = e; owner = s.owner })
    else none

abbrev pub seen : ℕ → Option Slot → Option Held
seen x none = none
seen x (some s) = seen_entry x s s.entry

-- The table as a partial map from handles.
abbrev pub view : Table → ℕ → Option Held
view t x = seen x (get_elem? t.slots (index_of x))

abbrev pub vacant_entry : Option Entry → ℕ
vacant_entry none = 1
vacant_entry (some _) = 0

-- 1 for a slot without an entry, 0 for a live slot and past the end.
abbrev pub vacant : Option Slot → ℕ
vacant none = 0
vacant (some s) = vacant_entry s.entry

pub record IsGood (s : Slot) : Type 0 where
  pub positive : 1 ≤ s.generation
  pub fits : s.generation < 2 ^ 24
  pub unowned : s.entry ≡ none → s.owner ≡ 0

-- Indices fit in a handle, every slot is good, and the free list holds the index of each slot
-- without an entry once, and no other index.
pub record IsWellFormed (t : Table) : Type 0 where
  pub sized : length t.slots ≤ 2 ^ 32
  pub good : All IsGood t.slots
  pub vacancies : (i : ℕ) → count i t.free ≡ vacant (get_elem? t.slots i)

pub new-IsWellFormed : IsWellFormed new
unfolding new
new-IsWellFormed = record { sized = omega arith; good = tt; vacancies = λ i. refl }
