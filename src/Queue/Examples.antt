-- ===== src/Queue/Examples.antt =====
-- Runs of the completion queue of src/queue.rs, core-bridge/rust/kt-bridge.
use temporal_kt_bridge.Base.{
  ℕ, zero, suc, ◌^◌, ◌<◌, ◌≡◌, refl, arith, [], ◌∷◌, ◌++◌, count, none, some, ◌⊎◌, ◌==◌, false,
  if◌then◌else◌, get_elem?,
}
use temporal_kt_bridge.Base.Int.{pos, negsuc}
use temporal_kt_bridge.Error.{done}
use temporal_kt_bridge.Abi.{client_connected}
use temporal_kt_bridge.Handle.{Table, client, kind, kind_of, generation_of, index_of}
use temporal_kt_bridge.Handle.Invariant.{IsWellFormed, view, vacant}
use temporal_kt_bridge.Queue.{
  Pending, State, new, push, ack, with_kind, with_aux0, with_payload, carried_kind, drop,
}
use temporal_kt_bridge.Queue.Slab.{BatchBuf}
use temporal_kt_bridge.Queue.Poll.{Poller, Resume, check, wait, drained, undrained, poll, parked}
use temporal_kt_bridge.Queue.Deliver.{Outcome, deliver_lem}
use temporal_kt_bridge.Queue.Wait.{IsIdle}
use temporal_kt_bridge.Queue.Waiting.{Awaits, Sleeps}
use temporal_kt_bridge.Queue.Ownership.{drop-Owns}
use temporal_kt_bridge.Queue.Call.{Served, poll_lem}
use temporal_kt_bridge.Queue.Threads.{
  System, outside, testing, pushes, enters, parks, returns, wakes, spurious, here, next, Reach,
  IsInitial,
}
use temporal_kt_bridge.Queue.Threads
use temporal_kt_bridge.Queue.Interleavings.{no_lost_wakeup, delivered_in_order}

abbrev first : Pending
first = record {
  req_id = 7;
  kind = client_connected;
  status = pos 0;
  payload = 1 ∷ 2 ∷ [];
  aux0 = 0x0200_0001_0000_0000;
  aux1 = 0;
}

abbrev second : Pending
second = record {
  req_id = 8;
  kind = client_connected;
  status = negsuc 7;
  payload = [];
  aux0 = 0;
  aux1 = 0;
}

abbrev two_queued : State
two_queued = record { queue = first ∷ second ∷ []; wakes = 0; closed = false }

abbrev idle : State
idle = record { queue = []; wakes = 0; closed = false }

abbrev woken : State
woken = record { queue = []; wakes = 1; closed = false }

abbrev wake_up : Resume
wake_up = record { state = woken; timed_out = false }

abbrev empty_buf : BatchBuf
empty_buf = record { base = 0; bytes = []; used = 0 }

abbrev poller : Poller
poller = record { buf = empty_buf; in_poll = false }

-- A batch of one leaves the second completion queued.
takes_one : (drained 1 two_queued ≡ first ∷ []) × ((undrained 1 two_queued).queue ≡ second ∷ [])
unfolding drained undrained
takes_one = (refl, refl)

-- The builders of a completion.
builds :
    with_payload (with_aux0 (with_kind (ack 7) client_connected) 0x0200_0001_0000_0000) (1 ∷ 2 ∷ [])
    ≡ first
unfolding with_payload with_aux0 with_kind ack
builds = refl

deliver_lem_example : Outcome 4096 1 empty_buf two_queued
deliver_lem_example = deliver_lem 4096 1 empty_buf two_queued (unfold drained in omega arith)

-- A poller that parks on an idle queue goes on with a wake, and consumes it.
wakes_up : wait (negsuc 0) idle (wake_up ∷ []) ≡ some idle
unfolding wait check
wakes_up = refl

poll_lem_example :
    (Sleeps (negsuc 0) idle (wake_up ∷ [])
      × (poll poller false 4096 1 (negsuc 0) idle (wake_up ∷ []) ≡ parked))
    ⊎ ((s' : State) × Awaits (negsuc 0) idle (wake_up ∷ []) s'
        × Served poller 4096 1 s' (poll poller false 4096 1 (negsuc 0) idle (wake_up ∷ [])))
poll_lem_example =
    poll_lem poller 4096 1 (negsuc 0) idle (wake_up ∷ []) (omega arith) refl
      (unfold drained in omega arith) (unfold drained in (omega arith, tt))

-- A table with one client, which a completion carries.
abbrev one_client : Table
one_client = record {
  slots = record { generation = 1; owner = 0; entry = some (client 5) } ∷ [];
  free = [];
}

one_client-vacancies : (i : ℕ) → count i one_client.free ≡ vacant (get_elem? one_client.slots i)
one_client-vacancies zero = refl
one_client-vacancies (suc i) = refl

one_client-IsWellFormed : IsWellFormed one_client
one_client-IsWellFormed = record {
  sized = omega arith;
  good = (record { positive = omega arith; fits = omega arith; unowned = λ e. cc }, tt);
  vacancies = one_client-vacancies;
}

drop-Owns_example :
    (t' : Table) × (drop one_client first ≡ done t')
    × IsWellFormed t'
    × ((y : ℕ)
        → y < 2 ^ 64
        → view t' y ≡ (if y == 0x0200_0001_0000_0000 then none else view one_client y))
drop-Owns_example =
    drop-Owns one_client first 2 (record { entry = client 5; owner = 0 }) one_client-IsWellFormed
      (omega arith) (refl, omega arith, unfold carried_kind in refl)
      (unfold kind kind_of generation_of index_of in refl) (unfold kind in refl)

-- A poller that parks, is woken by a push and takes what was pushed.
abbrev quiet : System
quiet = record { state = new; threads = outside ∷ []; accepted = []; delivered = [] }

abbrev asleep : System
asleep = record {
  state = new;
  threads = Threads.parked (negsuc 0) ∷ [];
  accepted = [];
  delivered = [];
}

falls_asleep : Reach quiet asleep
unfolding new
falls_asleep =
    next (next here (enters 0 (negsuc 0) refl)) (parks 0 (negsuc 0) refl (unfold check in refl))

no_lost_wakeup_example : IsIdle new
no_lost_wakeup_example =
    no_lost_wakeup quiet asleep 0 (negsuc 0) (refl, (refl, tt), refl, refl) falls_asleep refl

abbrev served : System
served = record {
  state = record { queue = []; wakes = 0; closed = false };
  threads = outside ∷ [];
  accepted = first ∷ [];
  delivered = first ∷ [];
}

serves : Reach quiet served
unfolding new push check drained undrained
serves =
    next (next falls_asleep (pushes first refl))
      (returns 0 4 (negsuc 0) (record { queue = first ∷ []; wakes = 0; closed = false }) refl refl)

delivered_in_order_example : (first ∷ []) ++ [] ≡ first ∷ []
delivered_in_order_example = delivered_in_order quiet served (refl, (refl, tt), refl, refl) serves
