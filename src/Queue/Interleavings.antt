-- ===== src/Queue/Interleavings.antt =====
-- What holds of the threads on one completion queue in every interleaving: src/queue.rs,
-- core-bridge/rust/kt-bridge.
use temporal_kt_bridge.Base.{
  ℕ, zero, suc, ◌≡◌, ◌≢◌, refl, sym, ap, ◌∙◌, arith, List, [], ◌∷◌, ◌++◌, map, append_assoc,
  drop-nil, get_elem?, set, some, false, All,
}
use temporal_kt_bridge.Base.Int.{ℤ}
use temporal_kt_bridge.Queue.{Pending, State, new, close, wake}
use temporal_kt_bridge.Queue.Poll.{check, drained, undrained}
use temporal_kt_bridge.Queue.Wait.{IsIdle, check-none_iff}
use temporal_kt_bridge.Queue.Deliver.{drained-append}
use temporal_kt_bridge.Queue.Push.{push-queue, push-closed}
use temporal_kt_bridge.Queue.Threads.{
  Phase, outside, testing, parked, notify, System, Step, pushes, refuses, wakes, closes, enters,
  parks, returns, spurious, expires, Reach, here, next, is_parked, IsInitial,
}

-- What holds between two critical sections: nobody is parked unless there is nothing to do, and
-- what was accepted is what was handed out followed by what is queued.
pub record Inv (x : System) : Type 0 where
  pub awake : (i : ℕ) (timeout : ℤ) → get_elem? x.threads i ≡ some (parked timeout) → IsIdle x.state
  pub ordered : x.delivered ++ x.state.queue ≡ x.accepted

notify-awake :
    (ts : List Phase) (i : ℕ) (timeout : ℤ) → get_elem? (map notify ts) i ≢ some (parked timeout)
notify-awake [] i timeout h = cc
notify-awake (outside ∷ ts) zero timeout h = cc
notify-awake (testing t ∷ ts) zero timeout h = cc
notify-awake (parked t ∷ ts) zero timeout h = cc
notify-awake (t ∷ ts) (suc i) timeout h = notify-awake ts i timeout h

-- A thread that is still parked after another has moved on was parked before.
set-awake :
    (ts : List Phase) (i : ℕ) (p : Phase) (j : ℕ) (timeout : ℤ)
    → is_parked p ≡ false
    → get_elem? (set ts i p) j ≡ some (parked timeout)
    → get_elem? ts j ≡ some (parked timeout)
set-awake [] i p j timeout h e = e
set-awake (t ∷ ts) zero p zero timeout h e = ground arith
set-awake (t ∷ ts) zero p (suc j) timeout h e = e
set-awake (t ∷ ts) (suc i) p zero timeout h e = e
set-awake (t ∷ ts) (suc i) p (suc j) timeout h e = set-awake ts i p j timeout h e

check-same :
    (timeout : ℤ) (s s' : State)
    → check timeout s ≡ some s'
    → (s'.queue ≡ s.queue) × (IsIdle s → IsIdle s')
unfolding check
check-same timeout s s' h = (ground arith, λ idle. ground arith)

undrained-IsIdle : (cap : ℕ) (s : State) → IsIdle s → IsIdle (undrained cap s)
unfolding undrained
undrained-IsIdle cap s idle = record {
  empty = rw (idle.empty, drop-nil);
  opened = idle.opened;
  unwoken = idle.unwoken;
}

ordered-drained :
    (delivered accepted : List Pending) (cap : ℕ) (s : State)
    → delivered ++ s.queue ≡ accepted
    → (delivered ++ drained cap s) ++ (undrained cap s).queue ≡ accepted
ordered-drained delivered accepted cap s h =
    append_assoc delivered (drained cap s) (undrained cap s).queue
    ∙ ap (◌++◌ delivered) (drained-append cap s)
    ∙ h

Step-Inv : {x y : System} → Step x y → Inv x → Inv y
unfolding close wake
Step-Inv {x} (pushes p opened) v = record {
  awake = λ i timeout at. absurd (notify-awake x.threads i timeout at);
  ordered = rw (push-queue x.state p opened) (
      sym (append_assoc x.delivered x.state.queue (p ∷ []))
      ∙ ap (λ (l : List Pending). l ++ p ∷ []) v.ordered);
}
Step-Inv {x} (refuses p closed) v = record {
  awake = λ i timeout at. rw (push-closed x.state p closed) (v.awake i timeout at);
  ordered = rw (push-closed x.state p closed) v.ordered;
}
Step-Inv {x} wakes v = record {
  awake = λ i timeout at. absurd (notify-awake x.threads i timeout at);
  ordered = v.ordered;
}
Step-Inv {x} closes v = record {
  awake = λ i timeout at. absurd (notify-awake x.threads i timeout at);
  ordered = v.ordered;
}
Step-Inv {x} (enters i timeout at) v = record {
  awake = λ j later e. v.awake j later (set-awake x.threads i (testing timeout) j later refl e);
  ordered = v.ordered;
}
Step-Inv {x} (parks i timeout at stuck) v = record {
  awake = λ j later e. ((check-none_iff timeout x.state).0 stuck).0;
  ordered = v.ordered;
}
Step-Inv {x} (returns i cap timeout s at went) v =
    let (same, still) = check-same timeout x.state s went in
    record {
      awake = λ j later e.
          undrained-IsIdle cap s
            (still (v.awake j later (set-awake x.threads i outside j later refl e)));
      ordered =
          ordered-drained x.delivered x.accepted cap s (ap (◌++◌ x.delivered) same ∙ v.ordered);
    }
Step-Inv {x} (spurious i timeout at) v = record {
  awake = λ j later e. v.awake j later (set-awake x.threads i (testing timeout) j later refl e);
  ordered = v.ordered;
}
Step-Inv {x} (expires i cap timeout at late) v = record {
  awake = λ j later e.
      undrained-IsIdle cap x.state (v.awake j later (set-awake x.threads i outside j later refl e));
  ordered = ordered-drained x.delivered x.accepted cap x.state v.ordered;
}

outside-awake :
    (ts : List Phase) (i : ℕ) (timeout : ℤ)
    → All (λ p. p ≡ outside) ts
    → get_elem? ts i ≢ some (parked timeout)
outside-awake [] i timeout h e = cc
outside-awake (t ∷ ts) zero timeout h e = ground arith
outside-awake (t ∷ ts) (suc i) timeout h e = outside-awake ts i timeout h.1 e

Reach-Inv : {x y : System} → Reach x y → Inv x → Inv y
Reach-Inv here v = v
Reach-Inv (next r st) v = Step-Inv st (Reach-Inv r v)

initial-Inv : (x : System) → IsInitial x → Inv x
unfolding new
initial-Inv x (fresh, out, none_accepted, none_delivered) = record {
  awake = λ i timeout e. absurd (outside-awake x.threads i timeout out e);
  ordered = rw (none_delivered, none_accepted, fresh);
}

-- In every interleaving of pushes, wakes, closes, spurious returns, timeouts and polls by any
-- number of threads on a new queue, no thread is parked while a completion is queued, a wake is
-- unconsumed or the queue is closed.
pub no_lost_wakeup :
    (x y : System) (i : ℕ) (timeout : ℤ)
    → IsInitial x
    → Reach x y
    → get_elem? y.threads i ≡ some (parked timeout)
    → IsIdle y.state
no_lost_wakeup x y i timeout h r e = (Reach-Inv r (initial-Inv x h)).awake i timeout e

-- In every interleaving of pushes, wakes, closes, spurious returns, timeouts and polls by any
-- number of threads on a new queue, the completions handed out, followed by those still queued,
-- are the accepted ones, each once and in the order of their pushes.
pub delivered_in_order :
    (x y : System) → IsInitial x → Reach x y → y.delivered ++ y.state.queue ≡ y.accepted
delivered_in_order x y h r = (Reach-Inv r (initial-Inv x h)).ordered
