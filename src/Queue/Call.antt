-- ===== src/Queue/Call.antt =====
-- The whole call of `poll`: src/queue.rs, core-bridge/rust/kt-bridge.
use temporal_kt_bridge.Base.{
  is_empty, ℕ, ◌^◌, ◌≤◌, ◌≡◌, ◌≢◌, refl, sym, subst, ◌∙◌, List, [], ◌∷◌, All, map, length, ◌⊎◌, inl,
  inr, true, false, ==_ne, if◌then◌else◌, Option-cases,
}
use temporal_kt_bridge.Base.Int.{ℤ}
use temporal_kt_bridge.Error.{shutdown, ok, err}
use temporal_kt_bridge.Queue.{State}
use temporal_kt_bridge.Queue.Poll.{
  Poller, Resume, wait, drained, undrained, total_len, enter, leave, Call, parked, returned, finish,
  after_wait, after_enter, poll,
}
use temporal_kt_bridge.Queue.Waiting.{Ready, Awaits, Sleeps, wait-Awaits, wait-Sleeps}
use temporal_kt_bridge.Queue.Batch.{released}
use temporal_kt_bridge.Queue.Deliver.{Outcome, deliver_lem}

-- A poll that has stopped waiting with state `s`, and the outcome of its delivery.
pub record Served (p : Poller) (address cap : ℕ) (s : State) (c : Call) : Type 0 where
  pub outcome : Outcome address cap p.buf s
  pub call :
      c
      ≡ returned
          (record { buf = outcome.buf; in_poll = false })
          (record {
            buf = outcome.buf;
            state = undrained cap s;
            result =
                if is_empty (drained cap s)
                then (if s.closed then err shutdown else ok 0)
                else ok (length outcome.records);
            records = outcome.records;
            spent = map released (drained cap s);
          })

polling :
    (p : Poller) (address cap : ℕ) (timeout : ℤ) (s : State) (rs : List Resume)
    → cap ≢ 0
    → p.in_poll ≡ false
    → poll p false address cap timeout s rs
      ≡ after_wait (record p { in_poll = true }) address cap (wait timeout s rs)
unfolding poll enter after_enter
polling p address cap timeout s rs room free = rw (==_ne cap 0 room, free) refl

-- The batch that a state would give is small enough for the slab.
abbrev pub IsSmall : ℕ → State → Type 0
IsSmall cap s = total_len (drained cap s) ≤ 2 ^ 62

-- What a poll goes on with is queued in one of the states that it saw.
Ready-IsSmall :
    (cap : ℕ) (timeout : ℤ) (s s' : State) → Ready timeout s s' → IsSmall cap s → IsSmall cap s'
unfolding drained
Ready-IsSmall cap timeout s s' (inl (_, same)) h = subst (IsSmall cap) (sym same) h
Ready-IsSmall cap timeout s s' (inr (inl (_, _, _, same))) h = subst (IsSmall cap) (sym same) h
Ready-IsSmall cap timeout s s' (inr (inr (_, _, same))) h = subst (IsSmall cap) (sym same) h

Awaits-IsSmall :
    (cap : ℕ) (timeout : ℤ) (s s' : State) (rs : List Resume)
    → Awaits timeout s rs s'
    → IsSmall cap s
    → All (λ r. IsSmall cap r.state) rs
    → IsSmall cap s'
Awaits-IsSmall cap timeout s s' [] a h hs = Ready-IsSmall cap timeout s s' a h
Awaits-IsSmall cap timeout s s' (r ∷ rs) (inl a) h hs = Ready-IsSmall cap timeout s s' a h
Awaits-IsSmall cap timeout s s' (r ∷ rs) (inr (_, inl (_, same))) h hs =
    subst (IsSmall cap) (sym same) hs.0
Awaits-IsSmall cap timeout s s' (r ∷ rs) (inr (_, inr (_, a))) h hs =
    Awaits-IsSmall cap timeout r.state s' rs a hs.0 hs.1

-- A poll by a poller that no thread is polling, into a buffer that is not null and has room, never
-- panics and is never refused, if none of the queues that it sees gives a batch of more than 2 ^ 62
-- bytes. Either it is still parked: then every state that it saw was idle (no completion, not closed,
-- no wake), the caller wishes to wait and the deadline has not passed. Or it returns the delivery from
-- a state and frees the poller: that of the first state it saw in which there is a completion or the
-- queue is closed, or there is a wake, which it consumes, or the caller does not wish to wait; or the
-- state in which it found its deadline passed, every one before being idle.
pub poll_lem :
    (p : Poller) (address cap : ℕ) (timeout : ℤ) (s : State) (rs : List Resume)
    → cap ≢ 0
    → p.in_poll ≡ false
    → IsSmall cap s
    → All (λ r. IsSmall cap r.state) rs
    → (Sleeps timeout s rs × (poll p false address cap timeout s rs ≡ parked))
      ⊎ ((s' : State) × Awaits timeout s rs s'
          × Served p address cap s' (poll p false address cap timeout s rs))
unfolding after_wait finish undrained drained leave
poll_lem p address cap timeout s rs room free h hs = elim (Option-cases (wait timeout s rs)) [
  | inl e ↦ inl (
    wait-Sleeps timeout s rs e,
    polling p address cap timeout s rs room free ∙ rw (e, after_wait),
  )
  | inr (s', e) ↦
      let a = wait-Awaits timeout s s' rs e in
      let outcome = deliver_lem address cap p.buf s' (Awaits-IsSmall cap timeout s s' rs a h hs) in
      inr (
        s',
        a,
        record {
          outcome = outcome;
          call =
              polling p address cap timeout s rs room free
              ∙ rw (e, after_wait) (rw (outcome.runs, finish, leave));
        },
      )
]
