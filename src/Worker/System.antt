-- ===== src/Worker/System.antt =====
-- Starts, shutdowns, force-closes and pumps of one worker as interleavings of their sections:
-- src/worker.rs, core-bridge/rust/kt-bridge.
use temporal_kt_bridge.Base.{ℕ, ◌+◌, ◌-◌, ◌≡◌, ◌≢◌, Bool, true, false, ◌||◌, if◌then◌else◌}
use temporal_kt_bridge.Worker.{
  WorkerState, draining, finalized, WorkerEntry, new, core_of, start, free, Begun, already, begun,
  begin_in,
}
use temporal_kt_bridge.Error.{ok}

-- Where the task stands that holds `shutdown_lock`: there is none, it is past the first section,
-- it waits for the pumps, it ends a worker that was never started, it has seen that no pump is live, it
-- is about to call `finalize`, or in the loop of that.
pub data Phase : Type 0 where
  idle : Phase
  entered : ℕ → Bool → Phase
  waiting : ℕ → Phase
  unstarted : ℕ → Phase
  emptied : ℕ → Phase
  checked : ℕ → Phase
  finalizing : ℕ → Phase

-- `background` counts the tasks that wait for the pumps after a grace period ran out, `ready` those of
-- them that have seen that no pump is live, `spawned` the poll
-- loops ever spawned; `initiated` says whether Core's shutdown was initiated, `finished` how often
-- `finalize_shutdown` was called.
pub record System : Type 0 where
  pub entry : WorkerEntry
  pub phase : Phase
  pub background : ℕ
  pub ready : ℕ
  pub spawned : ℕ
  pub initiated : Bool
  pub finished : ℕ

abbrev pub phase_after : Begun → Phase
phase_after already = idle
phase_after (begun core started) = entered core started

abbrev pub with_state : System → WorkerState → System
with_state x s = record x { entry = record x.entry { state = s } }

pub data Step (x : System) : System → Type 0 where
  starts : Step x (record x { entry = (start x.entry).0; spawned = x.spawned + (start x.entry).2 })
  frees :
      Step x (record x { entry = (free x.entry).0; initiated = x.initiated || (free x.entry).2 })
  -- A poll loop ends, by itself or since it was aborted.
  leaves :
      x.entry.live_pumps ≢ 0
      → Step x (record x { entry = record x.entry { live_pumps = x.entry.live_pumps - 1 } })
  -- A pump that met an error or a panic initiates Core's shutdown.
  fails : x.entry.live_pumps ≢ 0 → Step x (record x { initiated = true })
  begins :
      x.phase ≡ idle
      → Step x (record x {
        entry = record x.entry { state = (begin_in x.entry.state).0 };
        phase = phase_after (begin_in x.entry.state).1;
      })
  initiates :
      (core : ℕ) (started : Bool)
      → x.phase ≡ entered core started
      → Step x
          (record x { phase = if started then waiting core else unstarted core; initiated = true })
  drops :
      (core : ℕ)
      → x.phase ≡ unstarted core
      → Step x (record (with_state x finalized) { phase = idle })
  times_out :
      (core : ℕ)
      → x.phase ≡ waiting core
      → x.entry.live_pumps ≢ 0
      → Step x (record x { phase = idle; background = x.background + 1 })
  drains :
      (core : ℕ)
      → x.phase ≡ waiting core
      → x.entry.live_pumps ≡ 0
      → Step x (record x { phase = emptied core })
  checks :
      (core : ℕ)
      → x.phase ≡ emptied core
      → x.entry.state ≢ finalized
      → Step x (record x { phase = checked core })
  -- A force-close came first.
  stops :
      (core : ℕ)
      → x.phase ≡ emptied core
      → x.entry.state ≡ finalized
      → Step x (record x { phase = idle })
  settles :
      x.background ≢ 0
      → x.entry.live_pumps ≡ 0
      → Step x (record x { background = x.background - 1; ready = x.ready + 1 })
  resumes :
      (core : ℕ)
      → x.phase ≡ idle
      → x.ready ≢ 0
      → core_of x.entry.state ≡ ok core
      → Step x (record x { phase = checked core; ready = x.ready - 1 })
  forgets :
      x.phase ≡ idle
      → x.ready ≢ 0
      → x.entry.state ≡ finalized
      → Step x (record x { ready = x.ready - 1 })
  finalizes :
      (core : ℕ)
      → x.phase ≡ checked core
      → Step x (record (with_state x finalized) { phase = finalizing core })
  unwraps :
      (core : ℕ)
      → x.phase ≡ finalizing core
      → Step x (record x { phase = idle; finished = x.finished + 1 })
  gives_up :
      (core : ℕ)
      → x.phase ≡ finalizing core
      → Step x (record (with_state x (draining core)) { phase = idle })
  -- The request of a shutdown is cancelled where it waits.
  cancels_wait : (core : ℕ) → x.phase ≡ waiting core → Step x (record x { phase = idle })
  cancels_finalize : (core : ℕ) → x.phase ≡ finalizing core → Step x (record x { phase = idle })

pub data Reach (x : System) : System → Type 0 where
  here : Reach x x
  next : {y z : System} → Reach x y → Step y z → Reach x z

abbrev pub fresh : ℕ → System
fresh core = record {
  entry = new core;
  phase = idle;
  background = 0;
  ready = 0;
  spawned = 0;
  initiated = false;
  finished = 0;
}
