-- ===== src/Ephemeral/Reaped.antt =====
-- Every server is reaped, once: src/ephemeral.rs, core-bridge/rust/kt-bridge.
use temporal_kt_bridge.Base.{ℕ, ◌+◌, ◌≡◌, arith, Option, none, some, true, false}
use temporal_kt_bridge.Ephemeral.{EphemeralServer, entry_of}
use temporal_kt_bridge.Ephemeral.Lifecycle.{
  System, started, Step, frees, freed, begins, ends, cancels, drops, drops_empty, discards, Reach,
  begin, next,
}

abbrev pub present : Option ℕ → ℕ
present none = 0
present (some _) = 1

pub record Inv (s : System) : Type 0 where
  -- A reservation stands for a server that is in the entry.
  pub reserved : present s.entry.server ≡ s.tokens
  -- The server is in the entry, in the cleanup of a drop, or reaped.
  pub once : s.reaped + present s.entry.server + present s.discarded ≡ 1
  pub shut : s.shutting ≡ true → (present s.entry.server ≡ 1) × (s.dropped ≡ false)
  pub gone : s.dropped ≡ true → (s.entry.server ≡ none) × (s.tasks ≡ present s.discarded)
  pub alive : s.dropped ≡ false → s.discarded ≡ none

started-Inv : (server : EphemeralServer) → Inv (started (entry_of server))
unfolding entry_of
started-Inv server = ground arith

Step-Inv : {s s' : System} → Step s s' → Inv s → Inv s'
Step-Inv (frees s d) v = ground arith
Step-Inv (freed s d h n t) v = ground arith
Step-Inv (begins s n d h e) v = ground arith
Step-Inv (ends s n h e) v = ground arith
Step-Inv (cancels s h) v = ground arith
Step-Inv (drops s n d h t e) v = ground arith
Step-Inv (drops_empty s d h t e) v = ground arith
Step-Inv (discards s n e) v = ground arith

pub Reach-Inv :
    (server : EphemeralServer) {s : System} → Reach (started (entry_of server)) s → Inv s
Reach-Inv server begin = started-Inv server
Reach-Inv server (next s s' r st) = Step-Inv st (Reach-Inv server r)
