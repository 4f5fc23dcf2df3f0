-- ===== src/Ffi/Pollers.antt =====
-- The entry points of src/lib.rs, core-bridge/rust/kt-bridge, on pollers.
use temporal_kt_bridge.Base.{ℕ, text, List, [], Bool, false, ◌||◌, if◌then◌else◌}
use temporal_kt_bridge.Base.Int.{ℤ}
use temporal_kt_bridge.Error.{invalid_argument, ok, err, done, panics}
use temporal_kt_bridge.Abi.{KtCompletion}
use temporal_kt_bridge.Handle.{poller, kind_poller, insert, remove_of_kind}
use temporal_kt_bridge.Handle.Owned.{get_runtime, get_poller}
use temporal_kt_bridge.Queue.{State, wake}
use temporal_kt_bridge.Queue.Poll.{Resume, Call, parked, returned, panicked, poll}
use temporal_kt_bridge.Ffi.Process.{PollerObject, Process, assign, Try, ◌>>=◌, perform, not_null}
use temporal_kt_bridge.Ffi.Runtimes.{inserted}
use temporal_kt_bridge.Ffi.Workers.{removed, drop_entry}

-- A poller of the queue of a runtime, with an empty slab.
unfoldable pub new_poller : ℕ → PollerObject
new_poller rt = record {
  poller = record { buf = record { base = 0; bytes = []; used = 0 }; in_poll = false };
  runtime = rt;
}

unfoldable pub kt_poller_new : Process → ℕ → Bool → Process × Try ℕ
kt_poller_new p runtime_handle out_is_null =
    perform p
      (do
        _ ← not_null (text "out_poller is null") out_is_null
        get_runtime p.handles runtime_handle)
      (λ rt.
        inserted (record p { pollers = assign p.pollers p.next (new_poller rt) })
          (insert p.handles (poller p.next)))

-- The queue that a poller shares.
unfoldable pub queue_of : Process → ℕ → State
queue_of p q = (p.runtimes (p.pollers q).runtime).requests.queue

unfoldable pub put_queue : Process → ℕ → State → Process
put_queue p rt s = record p {
  runtimes =
      assign p.runtimes rt
        (record (p.runtimes rt) { requests = record (p.runtimes rt).requests { queue = s } });
}

-- What a call of `kt_poller_poll` comes to: it has not returned, or it returns with the records that it
-- wrote and the count.
pub data Polling : Type 0 where
  waits : Polling
  polled : Process → List KtCompletion → Try ℕ → Polling

unfoldable pub after_poll : Process → ℕ → Call → Polling
after_poll p q parked = waits
after_poll p q (panicked m) = polled p [] (panics m)
after_poll p q (returned own r) =
    polled
      (put_queue (record p { pollers = assign p.pollers q (record (p.pollers q) { poller = own }) })
        (p.pollers q).runtime r.state)
      r.records (done r.result)

-- `resumes` is what other threads leave when the poller is resumed, `address` where its slab stands if it
-- has to grow.
unfoldable pub kt_poller_poll : Process → ℕ → Bool → Bool → ℕ → ℕ → ℤ → List Resume → Polling
kt_poller_poll p handle out_is_null count_is_null address cap timeout resumes =
    if out_is_null || count_is_null
    then polled p [] (done (err (invalid_argument (text "out/out_count is null"))))
    else elim (get_poller p.handles handle) [
      | panics m ↦ polled p [] (panics m)
      | done (err e) ↦ polled p [] (done (err e))
      | done (ok q) ↦
          after_poll p q
            (poll (p.pollers q).poller out_is_null address cap timeout (queue_of p q) resumes)
    ]

unfoldable pub kt_poller_wake : Process → ℕ → Process × Try (Unit {0})
kt_poller_wake p handle =
    perform p (get_poller p.handles handle)
      (λ q. (put_queue p (p.pollers q).runtime (wake (queue_of p q)), done (ok tt)))

unfoldable pub kt_poller_free : Process → ℕ → Process × Try (Unit {0})
kt_poller_free p handle = removed p drop_entry (remove_of_kind p.handles handle kind_poller)
