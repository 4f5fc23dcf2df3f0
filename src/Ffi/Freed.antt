-- ===== src/Ffi/Freed.antt =====
-- What closing a runtime leaves behind: `kt_runtime_free` of src/lib.rs, core-bridge/rust/kt-bridge.
use temporal_kt_bridge.Base.{
  ℕ, ◌^◌, ◌<◌, ◌≡◌, ◌≢◌, refl, ap, ◌∙◌, Bytes, List, [], ◌∷◌, ◌++◌, map, Option, none, some, true,
  false, ◌==◌, if◌then◌else◌, ==_refl, ==_ne, ℕ-cases, inl, inr, All, All-weaken,
}
use temporal_kt_bridge.Error.{done}
use temporal_kt_bridge.Handle.{Entry, runtime, client, worker, ephemeral, poller}
use temporal_kt_bridge.Handle.Invariant.{view, IsWellFormed}
use temporal_kt_bridge.Handle.Sweep.{owned_entries}
use temporal_kt_bridge.Handle.Reap.{unowned_by, Reaps, remove_runtime-Reaps}
use temporal_kt_bridge.Runtime.Table.{keys}
use temporal_kt_bridge.Runtime.Requests.{shutdown_answer, drain_pending_for_shutdown_lem}
use temporal_kt_bridge.Worker.{finalized, free}
use temporal_kt_bridge.Ephemeral.{Result, shutdown}
use temporal_kt_bridge.Ffi.Process.{Process, Try}
use temporal_kt_bridge.Ffi.Runtimes.{
  free_worker, shutdown_server, close_child, close_children, first_error, free_runtime,
  shutdown_result, freed, kt_runtime_free,
}

-- A server of the process was shut down, or a worker freed.
abbrev pub Closed : Process → Entry → Type 0
Closed p (ephemeral s) = (p.servers s).server ≡ none
Closed p (worker w) = (p.workers w).entry.state ≡ finalized
Closed p (runtime r) = Unit
Closed p (client c) = Unit
Closed p (poller q) = Unit

-- The parts of the process that closing a child does not touch.
record Leaves (p p' : Process) : Type 0 where
  handles : p'.handles ≡ p.handles
  runtimes : (j : ℕ) → p'.runtimes j ≡ p.runtimes j
  closed : (c : Entry) → Closed p c → Closed p' c

Leaves-all : (p : Process) → Leaves p p
Leaves-all p = record { handles = refl; runtimes = λ j. refl; closed = λ c h. h }

Leaves-then : {p q r : Process} → Leaves p q → Leaves q r → Leaves p r
Leaves-then a b = record {
  handles = b.handles ∙ a.handles;
  runtimes = λ j. b.runtimes j ∙ a.runtimes j;
  closed = λ c h. b.closed c (a.closed c h);
}

module _ (results : ℕ → Result (Unit {0})) where
  servers_then :
      (p : Process) (s : ℕ) (c : Entry) → Closed p c → Closed (shutdown_server (results s) p s).0 c
  unfolding shutdown_server shutdown
  servers_then p s (ephemeral n) h = elim (ℕ-cases s n) [
    | inl same ↦ rw (same, ==_refl n) refl
    | inr other ↦ rw (==_ne s n other) h
  ]
  servers_then p s (worker n) h = h
  servers_then p s (runtime n) h = tt
  servers_then p s (client n) h = tt
  servers_then p s (poller n) h = tt

  workers_then : (p : Process) (w : ℕ) (c : Entry) → Closed p c → Closed (free_worker p w) c
  unfolding free_worker free
  workers_then p w (ephemeral n) h = h
  workers_then p w (worker n) h = elim (ℕ-cases w n) [
    | inl same ↦ rw (same, ==_refl n) refl
    | inr other ↦ rw (==_ne w n other) h
  ]
  workers_then p w (runtime n) h = tt
  workers_then p w (client n) h = tt
  workers_then p w (poller n) h = tt

  close_child-Leaves : (p : Process) (c : Entry) → Leaves p (close_child results p c).0
  unfolding close_child shutdown_server free_worker
  close_child-Leaves p (ephemeral s) = record {
    handles = refl;
    runtimes = λ j. refl;
    closed = servers_then p s;
  }
  close_child-Leaves p (worker w) = record {
    handles = refl;
    runtimes = λ j. refl;
    closed = workers_then p w;
  }
  close_child-Leaves p (runtime n) = Leaves-all p
  close_child-Leaves p (client n) = Leaves-all p
  close_child-Leaves p (poller n) = Leaves-all p

  close_child-Closed : (p : Process) (c : Entry) → Closed (close_child results p c).0 c
  unfolding close_child shutdown_server shutdown free_worker free
  close_child-Closed p (ephemeral s) = rw (==_refl s) refl
  close_child-Closed p (worker w) = rw (==_refl w) refl
  close_child-Closed p (runtime n) = tt
  close_child-Closed p (client n) = tt
  close_child-Closed p (poller n) = tt

  close_children_lem :
      (p : Process) (cs : List Entry) (error : Option Bytes)
      → Leaves p (close_children results p cs error).0
        × All (Closed (close_children results p cs error).0) cs
  unfolding close_children
  close_children_lem p [] error = (Leaves-all p, tt)
  close_children_lem p (c ∷ cs) error =
      let p' = (close_child results p c).0 in
      let (kept, closed) =
        close_children_lem p' cs (first_error error (close_child results p c).1) in
      (Leaves-then (close_child-Leaves p c) kept, (kept.closed c (close_child-Closed p c), closed))

  -- What a call of `kt_runtime_free` on a live runtime does.
  pub record Frees (p : Process) (handle rt : ℕ) (p' : Process) (r : Try (Unit {0})) : Type 0 where
    pub returns : (error : Option Bytes) × (r ≡ done (shutdown_result error))
    pub valid : IsWellFormed p'.handles
    pub unbound :
        (y : ℕ)
        → y < 2 ^ 64
        → view p'.handles y ≡ (if y == handle then none else unowned_by handle (view p.handles y))
    pub children : All (Closed p') (owned_entries handle p.handles.slots)
    pub answered :
        (p'.runtimes rt).requests.queue.queue
        ≡ (p.runtimes rt).requests.queue.queue
          ++ map shutdown_answer (keys (p.runtimes rt).requests.pending)
    pub none_left : (p'.runtimes rt).requests.pending ≡ []
    pub shut :
        ((p'.runtimes rt).requests.closed ≡ true) × ((p'.runtimes rt).requests.queue.closed ≡ true)
    pub others : (j : ℕ) → rt ≢ j → p'.runtimes j ≡ p.runtimes j

  -- The process with the runtime's handles unbound, once its children are closed and it is shut down.
  after : (p : Process) (handle rt : ℕ) → Reaps p.handles handle rt → Process × Option Bytes
  after p handle rt reaps =
      close_children results (record p { handles = reaps.table })
        (owned_entries handle p.handles.slots) none

  Closed-free_runtime :
      (p : Process) (rt : ℕ) (c : Entry) → Closed p c → Closed (free_runtime p rt) c
  unfolding free_runtime
  Closed-free_runtime p rt (ephemeral n) h = h
  Closed-free_runtime p rt (worker n) h = h
  Closed-free_runtime p rt (runtime n) h = tt
  Closed-free_runtime p rt (client n) h = tt
  Closed-free_runtime p rt (poller n) h = tt

  runs :
      (p : Process) (handle rt : ℕ) (reaps : Reaps p.handles handle rt)
      → kt_runtime_free results p handle ≡ (
        free_runtime (after p handle rt reaps).0 rt,
        done (shutdown_result (after p handle rt reaps).1),
      )
  unfolding kt_runtime_free freed after
  runs p handle rt reaps = rw (reaps.runs, kt_runtime_free) refl

  after-Frees :
      (p : Process) (handle rt : ℕ) (reaps : Reaps p.handles handle rt)
      → (p.runtimes rt).requests.queue.closed ≡ false
      → Frees p handle rt
          (free_runtime (after p handle rt reaps).0 rt)
          (done (shutdown_result (after p handle rt reaps).1))
  unfolding free_runtime after
  after-Frees p handle rt reaps opened =
      let start = record p { handles = reaps.table } in
      let children = owned_entries handle p.handles.slots in
      let q = (close_children results start children none).0 in
      let (kept, closed) = close_children_lem start children none in
      let same = kept.runtimes rt in
      let (answered, empty, closed_now, shut) =
        drain_pending_for_shutdown_lem (q.runtimes rt).requests
          (ap (λ e. e.requests.queue.closed) same ∙ opened) in
      record {
        returns = ((close_children results start children none).1, refl);
        valid = rw kept.handles reaps.valid;
        unbound = λ y lt. ap (λ t. view t y) kept.handles ∙ reaps.unbound y lt;
        children =
            All-weaken (Closed q) (Closed (free_runtime q rt)) children (Closed-free_runtime q rt)
              closed;
        answered = rw (==_refl rt) (
            answered
            ∙ ap (λ e. e.requests.queue.queue ++ map shutdown_answer (keys e.requests.pending))
                same);
        none_left = rw (==_refl rt) empty;
        shut = (rw (==_refl rt) closed_now, rw (==_refl rt) shut);
        others = λ j n. rw (==_ne rt j n) (kept.runtimes j);
      }

-- On a process whose handle table is well-formed, closing a live runtime that no other owns by its 64-bit
-- handle, with its queue open, never panics. Its handle and those of everything that it owns are unbound, and no other;
-- each server that it owned is shut down and each worker is finalized, whatever the shutdowns come to;
-- each outstanding request is answered with KT_ERR_SHUTDOWN behind what was queued, and the runtime and
-- its queue are closed; the other runtimes are as before.
pub kt_runtime_free-Frees :
    (results : ℕ → Result (Unit {0})) (p : Process) (handle rt : ℕ)
    → IsWellFormed p.handles
    → handle < 2 ^ 64
    → view p.handles handle ≡ some (record { entry = runtime rt; owner = 0 })
    → (p.runtimes rt).requests.queue.closed ≡ false
    → Frees results p handle rt
        (kt_runtime_free results p handle).0
        (kt_runtime_free results p handle).1
kt_runtime_free-Frees results p handle rt v lt bound opened =
    let reaps = remove_runtime-Reaps p.handles handle rt v lt bound in
    rw (runs results p handle rt reaps) (after-Frees results p handle rt reaps opened)
