-- ===== src/Ffi/Released.antt =====
-- Freeing an object by its handle: src/lib.rs, core-bridge/rust/kt-bridge.
use temporal_kt_bridge.Base.{ℕ, ◌^◌, ◌<◌, ◌≡◌, ◌≢◌, none, some, ◌==◌, if◌then◌else◌}
use temporal_kt_bridge.Error.{KtError, stale_handle, err, done}
use temporal_kt_bridge.Handle.{Entry, kind, remove_of_kind}
use temporal_kt_bridge.Handle.Invariant.{Held, view, IsWellFormed}
use temporal_kt_bridge.Ffi.Process.{Process, Try}
use temporal_kt_bridge.Ffi.Workers.{removed}

-- The handle was live at the kind: it alone is unbound, and freeing it again is refused as stale.
abbrev pub Released : (Process → Process × Try (Unit {0})) → ℕ → ℕ → Process → Type 0
Released free x k p =
    (held : Held) × (view p.handles x ≡ some held)
    × (kind held.entry ≡ k)
    × IsWellFormed (free p).0.handles
    × ((y : ℕ)
        → y < 2 ^ 64
        → view (free p).0.handles y ≡ (if y == x then none else view p.handles y))
    × ((free (free p).0).1 ≡ done (err stale_handle))

-- It was not: an error, and the table as it was.
abbrev pub Refused : (Process → Process × Try (Unit {0})) → ℕ → ℕ → Process → Type 0
Refused free x k p =
    (e : KtError) × ((free p).1 ≡ done (err e))
    × ((free p).0.handles ≡ p.handles)
    × ((held : Held) → view p.handles x ≡ some held → kind held.entry ≢ k)

module _ (release : Process → Entry → Process × Try (Unit {0}))
    (keeps : (p : Process) (e : Entry) → (release p e).0.handles ≡ p.handles) (x k : ℕ) where
  freeing : Process → Process × Try (Unit {0})
  freeing p = removed p release (remove_of_kind p.handles x k)
