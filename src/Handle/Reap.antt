-- ===== src/Handle/Reap.antt =====
-- Removing a runtime, on the table as a map: `remove_runtime` of src/handle.rs,
-- core-bridge/rust/kt-bridge.
use temporal_kt_bridge.Base.{
  ℕ, zero, suc, ◌^◌, ◌<◌, ◌≡◌, ◌≢◌, refl, sym, ap, ◌∙◌, arith, List, [], ◌∷◌, length, get_elem?,
  set, Option, none, some, Option-cases, Bool, true, false, ◌==◌, leb, if◌then◌else◌, inl, inr,
}
use temporal_kt_bridge.Error.{ok, done}
use temporal_kt_bridge.Handle.{
  Entry, runtime, kind, kind_runtime, index_of, Slot, Table, vacate, validate,
}
use temporal_kt_bridge.Handle.Owned.{expect_runtime, remove_runtime}
use temporal_kt_bridge.Handle.Codec.{kind-bounds, fields}
use temporal_kt_bridge.Handle.Invariant.{Held, view, seen, IsWellFormed}
use temporal_kt_bridge.Handle.Live.{IsLive, view-IsLive, IsLive-validate}
use temporal_kt_bridge.Handle.Remove.{vacated, take_lem, vacate-IsWellFormed, vacate-view}
use temporal_kt_bridge.Handle.Sweep.{owned_entries, swept, Sweeps, sweep}

-- A binding, unless it is of this owner.
abbrev pub unowned_by : ℕ → Option Held → Option Held
unowned_by owner none = none
unowned_by owner (some held) = if held.owner == owner then none else some held

seen-swept :
    (x owner : ℕ) (o : Option Slot) → seen x (swept true owner o) ≡ unowned_by owner (seen x o)
seen-swept x owner none = refl
seen-swept x owner (some s) = elim (Option-cases s.entry) [
  | inl e ↦ rw e (ground (arith, e))
  | inr (held, e) ↦ rw e (ground (arith, e))
]

owned_entries-set :
    (owner i : ℕ) (xs : List Slot) (s s' : Slot)
    → get_elem? xs i ≡ some s
    → s.owner ≢ owner
    → s'.owner ≢ owner
    → owned_entries owner (set xs i s') ≡ owned_entries owner xs
owned_entries-set owner i [] s s' h n n' = refl
owned_entries-set owner zero (x ∷ xs) s s' h n n' = ground arith
owned_entries-set owner (suc i) (x ∷ xs) s s' h n n' =
    ap
      (λ (l : List Entry).
        if x.owner == owner
        then (elim x.entry as (λ _. List Entry) [ none ↦ l | some e ↦ e ∷ l ])
        else l)
      (owned_entries-set owner i xs s s' h n n')

from_start : (j : ℕ) → leb 0 j ≡ true
from_start j = ground arith

module _ (t : Table) (v : IsWellFormed t) (x : ℕ) (lt : x < 2 ^ 64) (s : Slot) (r : ℕ)
    (l : IsLive t x s (runtime r)) (free_standing : s.owner ≡ 0) where
  without_runtime : Table
  without_runtime = vacate t (index_of x) s

  nonzero : x ≢ 0
  nonzero z = omega (fields, kind-bounds (runtime r), l.same_kind, z)

  swept_table : Sweeps without_runtime 0 (length without_runtime.slots) x []
  unfolding without_runtime
  swept_table =
      sweep (length without_runtime.slots) 0 x without_runtime []
        (vacate-IsWellFormed t v (index_of x) s (runtime r) l.at l.holds) nonzero (omega arith)

  children_are : owned_entries x without_runtime.slots ≡ owned_entries x t.slots
  unfolding without_runtime vacate
  children_are =
      owned_entries-set x (index_of x) t.slots s (vacated s) l.at
        (λ e. nonzero (sym e ∙ free_standing)) (λ e. nonzero (sym e))

  accepted : validate t x kind_runtime ≡ ok (index_of x)
  unfolding kind
  accepted = IsLive-validate l

  runs : remove_runtime t x ≡ done (swept_table.table, ok (r, owned_entries x t.slots))
  unfolding remove_runtime expect_runtime swept_table without_runtime
  runs =
      rw (accepted, remove_runtime)
        (rw (take_lem t v (index_of x) s (runtime r) l.at l.holds) (
          rw swept_table.runs
            (ap (λ (es : List Entry). done (swept_table.table, ok (r, es))) children_are)))

  sees :
      (y : ℕ)
      → y < 2 ^ 64
      → view swept_table.table y ≡ (if y == x then none else unowned_by x (view t y))
  unfolding without_runtime
  sees y lty =
      ap (seen y) (swept_table.slots (index_of y))
      ∙ ap (λ (b : Bool). seen y (swept b x (get_elem? without_runtime.slots (index_of y))))
          (from_start (index_of y))
      ∙ seen-swept y x (get_elem? without_runtime.slots (index_of y))
      ∙ ap (unowned_by x) (vacate-view t v x s (runtime r) l lt y lty)
      ∙ either (y == x)
    where
      either :
          (b : Bool)
          → unowned_by x (if b then none else view t y)
            ≡ (if b then none else unowned_by x (view t y))
      either true = refl
      either false = refl

-- What removing a runtime gives: its entries in the order of their slots, and a table without them.
pub record Reaps (t : Table) (x r : ℕ) : Type 0 where
  pub table : Table
  pub runs : remove_runtime t x ≡ done (table, ok (r, owned_entries x t.slots))
  pub valid : IsWellFormed table
  pub unbound :
      (y : ℕ) → y < 2 ^ 64 → view table y ≡ (if y == x then none else unowned_by x (view t y))

-- On a well-formed table, removing a live runtime that no other owns by its 64-bit handle never panics: it hands out the
-- runtime with the entries that it owns, each once and in the order of their slots, unbinds exactly their
-- handles and its own, and leaves the table well-formed.
pub remove_runtime-Reaps :
    (t : Table) (x r : ℕ)
    → IsWellFormed t
    → x < 2 ^ 64
    → view t x ≡ some (record { entry = runtime r; owner = 0 })
    → Reaps t x r
remove_runtime-Reaps t x r v lt bound =
    let (s, l, o) = view-IsLive t x (record { entry = runtime r; owner = 0 }) bound in
    record {
      table = (swept_table t v x lt s r l o).table;
      runs = runs t v x lt s r l o;
      valid = (swept_table t v x lt s r l o).valid;
      unbound = sees t v x lt s r l o;
    }
