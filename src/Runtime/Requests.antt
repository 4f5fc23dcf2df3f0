-- ===== src/Runtime/Requests.antt =====
-- The operations on the table of outstanding requests: src/runtime.rs, core-bridge/rust/kt-bridge.
use temporal_kt_bridge.Base.{
  ℕ, ◌≡◌, refl, sym, ap, ◌∙◌, arith, text, List, [], ◌∷◌, ◌++◌, map, append_assoc, true, false,
  append-nil, set,
}
use temporal_kt_bridge.Error.{kt_err_shutdown}
use temporal_kt_bridge.Queue.{Pending, push, close, error}
use temporal_kt_bridge.Queue.Push.{push-queue, push-open}
use temporal_kt_bridge.Runtime.{Requests, Runtime, drain_each, drain_pending_for_shutdown}
use temporal_kt_bridge.Runtime.Table.{keys}

abbrev pub shutdown_answer : ℕ → Pending
shutdown_answer r = error r kt_err_shutdown (text "runtime is shutting down")

-- The drain answers each request that it is given, in order, behind what is queued.
drain_each-queue :
    (m : Requests) (e : Runtime)
    → e.queue.closed ≡ false
    → ((drain_each m e).queue.queue ≡ e.queue.queue ++ map shutdown_answer (keys m))
      × ((drain_each m e).queue.closed ≡ false)
      × ((drain_each m e).pending ≡ e.pending)
      × ((drain_each m e).closed ≡ e.closed)
unfolding drain_each
drain_each-queue [] e opened = (sym (append-nil e.queue.queue), opened, refl, refl)
drain_each-queue ((r, t) ∷ m) e opened =
    let (queued, still, pending, closed) =
      drain_each-queue m
        (record e { tokens = set e.tokens t true; queue = (push e.queue (shutdown_answer r)).0 })
        (push-open e.queue (shutdown_answer r) opened) in
    (
      queued
          ∙ ap (λ (l : List Pending). l ++ map shutdown_answer (keys m))
              (push-queue e.queue (shutdown_answer r) opened)
          ∙ append_assoc e.queue.queue (shutdown_answer r ∷ []) (map shutdown_answer (keys m)),
      still,
      pending,
      closed,
    )

-- With its queue open, shutdown answers every outstanding request with KT_ERR_SHUTDOWN, behind
-- what was queued, forgets the requests and closes the runtime and its queue.
pub drain_pending_for_shutdown_lem :
    (e : Runtime)
    → e.queue.closed ≡ false
    → let e' = drain_pending_for_shutdown e in
      (e'.queue.queue ≡ e.queue.queue ++ map shutdown_answer (keys e.pending))
      × (e'.pending ≡ [])
      × (e'.closed ≡ true)
      × (e'.queue.closed ≡ true)
unfolding drain_pending_for_shutdown close
drain_pending_for_shutdown_lem e opened =
    let (queued, _, none_left, shut) =
      drain_each-queue e.pending (record e { pending = []; closed = true }) opened in
    (queued, none_left, shut, refl)

-- A second shutdown changes nothing.
pub drain_pending_for_shutdown-again :
    (e : Runtime)
    → e.pending ≡ []
    → e.closed ≡ true
    → e.queue.closed ≡ true
    → drain_pending_for_shutdown e ≡ e
unfolding drain_pending_for_shutdown drain_each close
drain_pending_for_shutdown-again e none_left closed shut = rw none_left (ground arith)
