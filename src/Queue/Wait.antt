-- ===== src/Queue/Wait.antt =====
-- The wait loop of `poll`: src/queue.rs, core-bridge/rust/kt-bridge.
use temporal_kt_bridge.Base.{
  ◌-◌, ◌<◌, ◌≡◌, ◌↔◌, refl, sym, ap, ◌∙◌, arith, List, [], ◌∷◌, ◌⊎◌, inl, inr, none, some, false,
  ◌&&◌, Bool-cases, Option-cases, if◌then◌else◌,
}
use temporal_kt_bridge.Base.Int.{ℤ}
use temporal_kt_bridge.Queue.{State, wake}
use temporal_kt_bridge.Queue.Poll.{check, Resume, wait, no_wait, has_deadline}

-- Nothing to do: no completion, no close, no wake that is not yet consumed.
pub record IsIdle (s : State) : Type 0 where
  pub empty : s.queue ≡ []
  pub opened : s.closed ≡ false
  pub unwoken : s.wakes ≡ 0

-- The tests park a poller exactly in an idle state, unless the caller does not wish to wait.
pub check-none_iff :
    (timeout : ℤ) (s : State) → (check timeout s ≡ none) ↔ (IsIdle s × (no_wait timeout ≡ false))
unfolding check
check-none_iff timeout s = (ground arith, ground arith)

pub wait-some :
    (timeout : ℤ) (s : State) (r : Resume) (rs : List Resume) {s' : State}
    → check timeout s ≡ some s'
    → wait timeout s (r ∷ rs) ≡ some s'
unfolding wait
wait-some timeout s r rs e = rw (e, wait)

pub wait-none :
    (timeout : ℤ) (s : State) (r : Resume) (rs : List Resume)
    → check timeout s ≡ none
    → wait timeout s (r ∷ rs)
      ≡ (if has_deadline timeout && r.timed_out then some r.state else wait timeout r.state rs)
unfolding wait
wait-none timeout s r rs e = rw (e, wait)

-- The state that the poller saw last.
abbrev pub last_seen : State → List Resume → State
last_seen s [] = s
last_seen s (r ∷ rs) = last_seen r.state rs

-- A poller is still parked only if the state that it saw last was idle: a completion, a close or a
-- wake that was there before the poll began, or at any resumption, is never slept through.
pub wait_parked :
    (timeout : ℤ) (s : State) (rs : List Resume)
    → wait timeout s rs ≡ none
    → IsIdle (last_seen s rs) × (no_wait timeout ≡ false)
unfolding wait
wait_parked timeout s [] h = (check-none_iff timeout s).0 h
wait_parked timeout s (r ∷ rs) h = elim (Option-cases (check timeout s)) [
  | inr (s', e) ↦ absurd (returned (sym (wait-some timeout s r rs e) ∙ h))
  | inl e ↦ elim (Bool-cases (has_deadline timeout && r.timed_out)) [
    | inl late ↦ absurd (returned {s' = r.state} (sym (wait-none timeout s r rs e ∙ rw late) ∙ h))
    | inr early ↦ wait_parked timeout r.state rs (sym (wait-none timeout s r rs e ∙ rw early) ∙ h)
  ]
]
  where
    returned : {s' : State} → some s' ≡ none → ⊥
    returned e = cc

-- The poller held the lock on this state: at its start or after one of its resumptions.
abbrev pub Among : State → State → List Resume → Type 0
Among seen s [] = seen ≡ s
Among seen s (r ∷ rs) = (seen ≡ s) ⊎ Among seen r.state rs

check-some :
    (timeout : ℤ) (s s' : State)
    → check timeout s ≡ some s'
    → s'.queue ≡ []
    → s'.closed ≡ false
    → no_wait timeout ≡ false
    → (0 < s.wakes) × (s' ≡ record s { wakes = s.wakes - 1 })
unfolding check
check-some timeout s s' h empty opened waits = ground arith

-- A poll that waits without a deadline comes back with an open and empty queue only by consuming
-- one of the wakes of a state that it saw.
pub wait_empty_handed :
    (timeout : ℤ) (s s' : State) (rs : List Resume)
    → wait timeout s rs ≡ some s'
    → s'.queue ≡ []
    → s'.closed ≡ false
    → no_wait timeout ≡ false
    → has_deadline timeout ≡ false
    → (seen : State) × Among seen s rs
      × (0 < seen.wakes)
      × (s' ≡ record seen { wakes = seen.wakes - 1 })
unfolding wait
wait_empty_handed timeout s s' [] h empty opened waits forever =
    let (woken, same) = check-some timeout s s' h empty opened waits in (s, refl, woken, same)
wait_empty_handed timeout s s' (r ∷ rs) h empty opened waits forever =
    elim (Option-cases (check timeout s)) [
      | inr (s'', e) ↦
          let same' : s'' ≡ s' = cc (wait-some timeout s r rs e) in
          let (woken, same) = check-some timeout s s' (e ∙ ap some same') empty opened waits in
          (s, inl refl, woken, same)
      | inl e ↦
          let later : wait timeout r.state rs ≡ some s' =
            sym (wait-none timeout s r rs e ∙ rw forever) ∙ h in
          let (seen, among, woken, same) =
            wait_empty_handed timeout r.state s' rs later empty opened waits forever in
          (seen, inr among, woken, same)
    ]

-- On an open and empty queue a poll whose wait begins after one more wake goes on at once,
-- whatever its timeout, and leaves the state as it was before the wake.
pub check-wake :
    (timeout : ℤ) (s : State) → s.queue ≡ [] → s.closed ≡ false → check timeout (wake s) ≡ some s
unfolding check wake
check-wake timeout s empty opened = ground arith
