-- ===== src/Queue/Push.antt =====
-- What a push does to the queue: src/queue.rs, core-bridge/rust/kt-bridge.
use temporal_kt_bridge.Base.{◌≡◌, arith, [], ◌∷◌, ◌++◌, true, false}
use temporal_kt_bridge.Queue.{Pending, State, push}

pub push-queue :
    (s : State) (p : Pending) → s.closed ≡ false → (push s p).0.queue ≡ s.queue ++ p ∷ []
unfolding push
push-queue s p opened = rw opened

pub push-open : (s : State) (p : Pending) → s.closed ≡ false → (push s p).0.closed ≡ false
unfolding push
push-open s p opened = ground arith

pub push-closed : (s : State) (p : Pending) → s.closed ≡ true → (push s p).0 ≡ s
unfolding push
push-closed s p closed = ground arith
