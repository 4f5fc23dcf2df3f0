-- ===== src/Ephemeral/Lifecycle.antt =====
-- The life of one server: src/ephemeral.rs, core-bridge/rust/kt-bridge. Shutdowns run under the lock of
-- the entry and can be cancelled; freeing the handle and dropping the entry start tracked tasks.
use temporal_kt_bridge.Base.{ℕ, ◌+◌, ◌-◌, ◌≡◌, ◌≢◌, Option, none, some, Bool, true, false}
use temporal_kt_bridge.Ephemeral.{EphemeralEntry}

-- `shutting`: a shutdown holds the lock and awaits Core's. `tasks` are the cleanups that the tracker
-- counts, `tokens` its reservations, `discarded` the server that `drop` moved into its cleanup (the
-- reservation beside it stays in `drop` and is released when `drop` returns, the cleanup spawned),
-- `reaped` how often a shutdown of Core's server has ended.
pub record System : Type 0 where
  pub entry : EphemeralEntry
  pub shutting : Bool
  pub dropped : Bool
  pub discarded : Option ℕ
  pub tasks : ℕ
  pub tokens : ℕ
  pub reaped : ℕ

-- As `start` returns it.
abbrev pub started : EphemeralEntry → System
started e = record {
  entry = e;
  shutting = false;
  dropped = false;
  discarded = none;
  tasks = 0;
  tokens = 1;
  reaped = 0;
}

pub data Step : System → System → Type 0 where
  -- `free`, and its task, which ends when its shutdown has found no server.
  frees : (s : System) → s.dropped ≡ false → Step s (record s { tasks = s.tasks + 1 })
  freed :
      (s : System)
      → s.dropped ≡ false
      → s.shutting ≡ false
      → s.entry.server ≡ none
      → s.tasks ≢ 0
      → Step s (record s { tasks = s.tasks - 1 })
  -- `shutdown` takes the lock, ends, or is cancelled while it awaits.
  begins :
      (s : System) (n : ℕ)
      → s.dropped ≡ false
      → s.shutting ≡ false
      → s.entry.server ≡ some n
      → Step s (record s { shutting = true })
  ends :
      (s : System) (n : ℕ)
      → s.shutting ≡ true
      → s.entry.server ≡ some n
      → Step s (record s {
        entry = record s.entry { server = none };
        shutting = false;
        tokens = s.tokens - 1;
        reaped = s.reaped + 1;
      })
  cancels : (s : System) → s.shutting ≡ true → Step s (record s { shutting = false })
  -- `drop` of the last reference: no shutdown and no task of `free` has one.
  drops :
      (s : System) (n : ℕ)
      → s.dropped ≡ false
      → s.shutting ≡ false
      → s.tasks ≡ 0
      → s.entry.server ≡ some n
      → Step s (record s {
        entry = record s.entry { server = none };
        dropped = true;
        discarded = some n;
        tasks = 1;
        tokens = s.tokens - 1;
      })
  drops_empty :
      (s : System)
      → s.dropped ≡ false
      → s.shutting ≡ false
      → s.tasks ≡ 0
      → s.entry.server ≡ none
      → Step s (record s { dropped = true })
  -- The cleanup of a discarded server.
  discards :
      (s : System) (n : ℕ)
      → s.discarded ≡ some n
      → Step s (record s { discarded = none; tasks = s.tasks - 1; reaped = s.reaped + 1 })

pub data Reach (s0 : System) : System → Type 0 where
  begin : Reach s0 s0
  next : (s s' : System) → Reach s0 s → Step s s' → Reach s0 s'
