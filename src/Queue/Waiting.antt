-- ===== src/Queue/Waiting.antt =====
-- What the wait of `poll` comes to, without its loop: src/queue.rs, core-bridge/rust/kt-bridge.
use temporal_kt_bridge.Base.{
  ◌-◌, ◌<◌, ◌≡◌, ◌≢◌, sym, ◌∙◌, arith, List, [], ◌∷◌, ◌⊎◌, inl, inr, none, some, Bool, true, false,
  ◌&&◌, Bool-cases, Option-cases,
}
use temporal_kt_bridge.Base.Int.{ℤ}
use temporal_kt_bridge.Queue.{State}
use temporal_kt_bridge.Queue.Poll.{check, Resume, wait, no_wait, has_deadline}
use temporal_kt_bridge.Queue.Wait.{IsIdle, check-none_iff, wait-some, wait-none}

-- The states in which a poll does not park, and the state that it goes on with: there is a completion
-- or the queue is closed; or a wake is consumed; or the caller does not wish to wait.
abbrev pub Ready : ℤ → State → State → Type 0
Ready timeout s s' =
    (((s.queue ≢ []) ⊎ (s.closed ≡ true)) × (s' ≡ s))
    ⊎ (((s.queue ≡ [])
          × (s.closed ≡ false)
          × (0 < s.wakes)
          × (s' ≡ record s { wakes = s.wakes - 1 }))
        ⊎ (IsIdle s × (no_wait timeout ≡ true) × (s' ≡ s)))

-- The states in which it parks.
abbrev pub Parks : ℤ → State → Type 0
Parks timeout s = IsIdle s × (no_wait timeout ≡ false)

abbrev pub expired : ℤ → Resume → Bool
expired timeout r = has_deadline timeout && r.timed_out

-- A poll that held the lock on `s` and then on the states of its resumptions goes on with `s'`: from
-- the first of them that is ready, or from the first after which its deadline had passed. Before it,
-- it parked in each.
abbrev pub Awaits : ℤ → State → List Resume → State → Type 0
Awaits timeout s [] s' = Ready timeout s s'
Awaits timeout s (r ∷ rs) s' =
    Ready timeout s s'
    ⊎ (Parks timeout s
        × (((expired timeout r ≡ true) × (s' ≡ r.state))
            ⊎ ((expired timeout r ≡ false) × Awaits timeout r.state rs s')))

-- A poll that is still parked: it parked in every state that it saw, and its deadline has not passed.
abbrev pub Sleeps : ℤ → State → List Resume → Type 0
Sleeps timeout s [] = Parks timeout s
Sleeps timeout s (r ∷ rs) =
    Parks timeout s × (expired timeout r ≡ false) × Sleeps timeout r.state rs

check-Ready : (timeout : ℤ) (s s' : State) → check timeout s ≡ some s' → Ready timeout s s'
unfolding check
check-Ready timeout s s' h = ground arith

pub wait-Awaits :
    (timeout : ℤ) (s s' : State) (rs : List Resume)
    → wait timeout s rs ≡ some s'
    → Awaits timeout s rs s'
unfolding wait
wait-Awaits timeout s s' [] h = check-Ready timeout s s' h
wait-Awaits timeout s s' (r ∷ rs) h = elim (Option-cases (check timeout s)) [
  | inr (s'', e) ↦ inl (check-Ready timeout s s' (e ∙ sym (wait-some timeout s r rs e) ∙ h))
  | inl e ↦ elim (Bool-cases (expired timeout r)) [
    | inl late ↦
        let same : some r.state ≡ some s' = sym (wait-none timeout s r rs e ∙ rw late) ∙ h in
        inr ((check-none_iff timeout s).0 e, inl (late, cc))
    | inr early ↦ inr (
      (check-none_iff timeout s).0 e,
      inr (
        early,
        wait-Awaits timeout r.state s' rs (sym (wait-none timeout s r rs e ∙ rw early) ∙ h),
      ),
    )
  ]
]

pub wait-Sleeps :
    (timeout : ℤ) (s : State) (rs : List Resume) → wait timeout s rs ≡ none → Sleeps timeout s rs
unfolding wait
wait-Sleeps timeout s [] h = (check-none_iff timeout s).0 h
wait-Sleeps timeout s (r ∷ rs) h = elim (Option-cases (check timeout s)) [
  | inr (s'', e) ↦ absurd (returned {s' = s''} (sym (wait-some timeout s r rs e) ∙ h))
  | inl e ↦ elim (Bool-cases (expired timeout r)) [
    | inl late ↦ absurd (returned {s' = r.state} (sym (wait-none timeout s r rs e ∙ rw late) ∙ h))
    | inr early ↦ (
      (check-none_iff timeout s).0 e,
      early,
      wait-Sleeps timeout r.state rs (sym (wait-none timeout s r rs e ∙ rw early) ∙ h),
    )
  ]
]
  where
    returned : {s' : State} → some s' ≡ none → ⊥
    returned e = cc
