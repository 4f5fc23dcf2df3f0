-- ===== src/Queue/Ownership.antt =====
-- Who releases the resource that a completion carries: `Drop for Pending` in src/queue.rs,
-- core-bridge/rust/kt-bridge, on the handle table.
use temporal_kt_bridge.Base.{
  ℕ, ◌^◌, ◌<◌, ◌≡◌, ◌≢◌, refl, arith, List, [], ◌∷◌, map, inl, inr, none, some, true, ◌==◌,
  if◌then◌else◌, ==_ne,
}
use temporal_kt_bridge.Error.{Exec, done, ◌>>=◌}
use temporal_kt_bridge.Handle.{Table, kind}
use temporal_kt_bridge.Handle.Invariant.{Held, view, IsWellFormed}
use temporal_kt_bridge.Handle.Remove.{remove_of_kind_lem}
use temporal_kt_bridge.Queue.{Pending, drop, carried_kind, is_ok}
use temporal_kt_bridge.Queue.Batch.{released}

-- Dropping completions one after another.
unfoldable pub drop_all : Table → List Pending → Exec Table
drop_all t [] = done t
drop_all t (p ∷ ps) = do t' ← drop t p; drop_all t' ps

drop-released : (t : Table) (p : Pending) → drop t (released p) ≡ done t
unfolding drop
drop-released t p = ground arith

-- The completions that a poll has handed out release nothing when they are dropped.
pub drop_all-released : (t : Table) (ps : List Pending) → drop_all t (map released ps) ≡ done t
unfolding drop_all
drop_all-released t [] = refl
drop_all-released t (p ∷ ps) = rw (drop-released t p) (drop_all-released t ps)

-- The handle that a completion owns: a successful creation carries one of this kind.
abbrev pub Owns : Pending → ℕ → Type 0
Owns p k = (is_ok p.status ≡ true) × (p.aux0 ≢ 0) × (carried_kind p.kind ≡ some k)

-- On a well-formed table, a completion that is dropped with the live 64-bit handle that it owns
-- unbinds that handle and no other, and the table stays well-formed.
pub drop-Owns :
    (t : Table) (p : Pending) (k : ℕ) (held : Held)
    → IsWellFormed t
    → p.aux0 < 2 ^ 64
    → Owns p k
    → view t p.aux0 ≡ some held
    → kind held.entry ≡ k
    → (t' : Table) × (drop t p ≡ done t')
      × IsWellFormed t'
      × ((y : ℕ) → y < 2 ^ 64 → view t' y ≡ (if y == p.aux0 then none else view t y))
unfolding drop
drop-Owns t p k held v lt (okay, nonzero, carried) bound ke =
    elim (remove_of_kind_lem t p.aux0 k v lt) [
      | inl (_, t', _, _, runs, v', unbinds, _) ↦
          (t', rw (okay, ==_ne p.aux0 0 nonzero) (rw (carried, drop) (rw runs)), v', unbinds)
      | inr (_, _, refused) ↦ absurd (refused held bound ke)
    ]
