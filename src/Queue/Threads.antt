-- ===== src/Queue/Threads.antt =====
-- Pollers, producers and wakers on one completion queue as interleavings of their critical sections:
-- src/queue.rs, core-bridge/rust/kt-bridge.
use temporal_kt_bridge.Base.{
  ℕ, ◌≡◌, List, [], ◌∷◌, ◌++◌, map, get_elem?, set, none, some, Bool, true, false, All,
}
use temporal_kt_bridge.Base.Int.{ℤ}
use temporal_kt_bridge.Queue.{Pending, State, new, push, close, wake}
use temporal_kt_bridge.Queue.Poll.{check, drained, undrained, has_deadline}

-- One pump thread: outside `poll`, about to run the tests of the wait loop under the lock, or parked
-- on the condition variable.
pub data Phase : Type 0 where
  outside : Phase
  testing : ℤ → Phase
  parked : ℤ → Phase

-- `notify_all`.
abbrev pub notify : Phase → Phase
notify outside = outside
notify (testing timeout) = testing timeout
notify (parked timeout) = testing timeout

-- The queue with the threads that poll it, and the history: what was accepted and what was handed
-- out, in order.
pub record System : Type 0 where
  pub state : State
  pub threads : List Phase
  pub accepted : List Pending
  pub delivered : List Pending

-- One critical section of one thread. `wait` gives up the lock as it parks, so a test that fails and
-- the parking are one step.
pub data Step (x : System) : System → Type 0 where
  pushes :
      (p : Pending)
      → x.state.closed ≡ false
      → Step x (record {
        state = (push x.state p).0;
        threads = map notify x.threads;
        accepted = x.accepted ++ p ∷ [];
        delivered = x.delivered;
      })
  refuses : (p : Pending) → x.state.closed ≡ true → Step x (record x { state = (push x.state p).0 })
  wakes : Step x (record x { state = wake x.state; threads = map notify x.threads })
  closes : Step x (record x { state = close x.state; threads = map notify x.threads })
  enters :
      (i : ℕ) (timeout : ℤ)
      → get_elem? x.threads i ≡ some outside
      → Step x (record x { threads = set x.threads i (testing timeout) })
  parks :
      (i : ℕ) (timeout : ℤ)
      → get_elem? x.threads i ≡ some (testing timeout)
      → check timeout x.state ≡ none
      → Step x (record x { threads = set x.threads i (parked timeout) })
  returns :
      (i cap : ℕ) (timeout : ℤ) (s : State)
      → get_elem? x.threads i ≡ some (testing timeout)
      → check timeout x.state ≡ some s
      → Step x (record x {
        state = undrained cap s;
        threads = set x.threads i outside;
        delivered = x.delivered ++ drained cap s;
      })
  spurious :
      (i : ℕ) (timeout : ℤ)
      → get_elem? x.threads i ≡ some (parked timeout)
      → Step x (record x { threads = set x.threads i (testing timeout) })
  expires :
      (i cap : ℕ) (timeout : ℤ)
      → get_elem? x.threads i ≡ some (parked timeout)
      → has_deadline timeout ≡ true
      → Step x (record x {
        state = undrained cap x.state;
        threads = set x.threads i outside;
        delivered = x.delivered ++ drained cap x.state;
      })

pub data Reach (x : System) : System → Type 0 where
  here : Reach x x
  next : {y z : System} → Reach x y → Step y z → Reach x z

abbrev pub is_parked : Phase → Bool
is_parked (parked _) = true
is_parked _ = false

-- A new queue and any number of threads that do not yet poll.
abbrev pub IsInitial : System → Type 0
IsInitial x =
    (x.state ≡ new) × All (λ p. p ≡ outside) x.threads × (x.accepted ≡ []) × (x.delivered ≡ [])
