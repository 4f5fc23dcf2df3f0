-- ===== src/Worker/Lifecycle.antt =====
-- What holds of a worker in every interleaving: src/worker.rs, core-bridge/rust/kt-bridge.
use temporal_kt_bridge.Base.{◌⊎◌, ℕ, ◌≤◌, ◌≡◌, ◌≢◌, arith, Bool, true, false}
use temporal_kt_bridge.Worker.{
  WorkerState, running, new, core_of, start, start_in, free, has_core, begin_in,
}
use temporal_kt_bridge.Worker.System.{
  Phase, idle, entered, emptied, checked, finalizing, System, Step, starts, frees, leaves, fails,
  begins, initiates, drops, times_out, drains, checks, stops, settles, resumes, forgets, finalizes,
  unwraps, gives_up, cancels_wait, cancels_finalize, Reach, here, next, fresh,
}

-- A worker that can still spawn its poll loops.
abbrev pub startable : WorkerState → Bool
startable (running _ false) = true
startable _ = false

abbrev pub is_running : WorkerState → Bool
is_running (running _ _) = true
is_running _ = false

-- A task holds `shutdown_lock`.
abbrev pub locked : Phase → Bool
locked idle = false
locked _ = true

-- A phase that is reached only when no pump is live.
abbrev pub quiet : Phase → Bool
quiet (emptied _) = true
quiet (checked _) = true
quiet (finalizing _) = true
quiet _ = false

-- A phase that is reached only when Core has been told to shut down.
abbrev pub told : Phase → Bool
told idle = false
told (entered _ _) = false
told _ = true

-- What holds between two sections.
abbrev pub Inv : System → Type 0
Inv x =
    (x.entry.live_pumps ≤ x.spawned)
    × ((x.spawned ≡ 0) ⊎ (x.spawned ≡ 3))
    × (startable x.entry.state ≡ true → x.spawned ≡ 0)
    × (locked x.phase ≡ true → is_running x.entry.state ≡ false)
    × (quiet x.phase ≡ true → x.entry.live_pumps ≡ 0)
    × (x.background ≢ 0 → is_running x.entry.state ≡ false)
    × (x.ready ≢ 0 → (x.entry.live_pumps ≡ 0) × (is_running x.entry.state ≡ false))
    × (told x.phase ≡ true → x.initiated ≡ true)
    × (x.background ≢ 0 → x.initiated ≡ true)
    × (x.ready ≢ 0 → x.initiated ≡ true)

Step-Inv : {x y : System} → Step x y → Inv x → Inv y
unfolding start free has_core core_of new start_in begin_in
Step-Inv {x} starts v = ground arith
Step-Inv {x} frees v = ground arith
Step-Inv {x} (leaves n) v = ground arith
Step-Inv {x} (fails n) v = ground arith
Step-Inv {x} (begins i) v = ground arith
Step-Inv {x} (initiates core started i) v = ground arith
Step-Inv {x} (drops core i) v = ground arith
Step-Inv {x} (times_out core i n) v = ground arith
Step-Inv {x} (drains core i n) v = ground arith
Step-Inv {x} (checks core i n) v = ground arith
Step-Inv {x} (stops core i n) v = ground arith
Step-Inv {x} (settles n m) v = ground arith
Step-Inv {x} (resumes core i n m) v = ground arith
Step-Inv {x} (forgets i n m) v = ground arith
Step-Inv {x} (finalizes core i) v = ground arith
Step-Inv {x} (unwraps core i) v = ground arith
Step-Inv {x} (gives_up core i) v = ground arith
Step-Inv {x} (cancels_wait core i) v = ground arith
Step-Inv {x} (cancels_finalize core i) v = ground arith

Reach-Inv : {x y : System} → Reach x y → Inv x → Inv y
Reach-Inv here v = v
Reach-Inv (next r st) v = Step-Inv st (Reach-Inv r v)

fresh-Inv : (core : ℕ) → Inv (fresh core)
unfolding new
fresh-Inv core = ground arith

-- However starts, shutdowns, force-closes and the ends of pumps interleave, the poll loops of a worker
-- are spawned at most once, all three together, and the count of live pumps never exceeds them.
pub pumps_spawned_once :
    (core : ℕ) (y : System)
    → Reach (fresh core) y
    → ((y.spawned ≡ 0) ⊎ (y.spawned ≡ 3)) × (y.entry.live_pumps ≤ y.spawned)
pumps_spawned_once core y r = let v = Reach-Inv r (fresh-Inv core) in (v.1, v.0)

-- However starts, shutdowns, force-closes and the ends of pumps interleave, while a task is in the
-- loop of `finalize`, Core has been told to shut down, no pump is live, and the worker is not in
-- the running state.
pub finalizing_after_pumps :
    (core c : ℕ) (y : System)
    → Reach (fresh core) y
    → y.phase ≡ finalizing c
    → (y.initiated ≡ true) × (y.entry.live_pumps ≡ 0) × (is_running y.entry.state ≡ false)
finalizing_after_pumps core c y r at =
    let v = Reach-Inv r (fresh-Inv core) in (ground arith, ground arith, ground arith)
