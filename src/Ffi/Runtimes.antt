-- ===== src/Ffi/Runtimes.antt =====
-- The entry points of src/lib.rs, core-bridge/rust/kt-bridge, on runtimes, with what they call in
-- src/runtime.rs.
use temporal_kt_bridge.Base.{
  is_empty, ℕ, ◌+◌, Bytes, text, List, [], ◌∷◌, ◌++◌, Option, none, some, Bool, true, not, ◌==◌,
  if◌then◌else◌,
}
use temporal_kt_bridge.Error.{failed, KtResult, ok, err, Exec, done, panics}
use temporal_kt_bridge.Handle.{Entry, runtime, client, worker, ephemeral, poller, Table, insert}
use temporal_kt_bridge.Handle.Owned.{get_runtime, remove_runtime}
use temporal_kt_bridge.Runtime.{Runtime, drain_pending_for_shutdown, cancel}
use temporal_kt_bridge.Runtime
use temporal_kt_bridge.Worker.{has_core}
use temporal_kt_bridge.Worker
use temporal_kt_bridge.Telemetry.{MetricBatch, drain}
use temporal_kt_bridge.Telemetry
use temporal_kt_bridge.Ephemeral.{Result, success, failure, shutdown}
use temporal_kt_bridge.Ffi.{Out, write_out, slice}
use temporal_kt_bridge.Ffi.Process.{
  RuntimeEntry, Spawned, Process, assign, Try, ◌>>=◌, try, perform, not_null,
}

pub record TelemetryOptions : Type 0 where
  pub buffer_metrics : Bool
  pub forward_logs : Bool
  pub log_filter : Bytes

pub record RuntimeOptions : Type 0 where
  pub telemetry : Option TelemetryOptions
  pub worker_heartbeat_interval_millis : Option ℕ

-- What Core's runtime is made with: the filter of forwarded logs, the meter, and the interval of
-- heartbeats in milliseconds.
pub record CoreOptions : Type 0 where
  pub logging : Option Bytes
  pub metrics : Option Telemetry.State
  pub heartbeat_interval : Option ℕ

unfoldable pub buffered : Option TelemetryOptions → Option Telemetry.State
buffered none = none
buffered (some o) = if o.buffer_metrics then some Telemetry.new else none

unfoldable pub forwarded : Option TelemetryOptions → Option Bytes
forwarded none = none
forwarded (some o) =
    if o.forward_logs
    then some (if is_empty o.log_filter then text "WARN" else o.log_filter)
    else none

unfoldable pub heartbeat : Option ℕ → Option ℕ
heartbeat none = some 60_000
heartbeat (some n) = if not (n == 0) then some n else none

unfoldable pub core_options : RuntimeOptions → CoreOptions
core_options o = record {
  logging = forwarded o.telemetry;
  metrics = buffered o.telemetry;
  heartbeat_interval = heartbeat o.worker_heartbeat_interval_millis;
}

-- `create` is the construction of Core's options and of its runtime.
unfoldable pub new_entry :
    (CoreOptions → KtResult (Unit {0})) → RuntimeOptions → KtResult RuntimeEntry
new_entry create o = elim (create (core_options o)) [
  | err e ↦ err e
  | ok _ ↦ ok (record {
    requests = Runtime.new_runtime;
    metrics = (core_options o).metrics;
    metric_batch = none;
    logs = [];
  })
]

-- An object is stored, its entry inserted and its handle written out.
unfoldable pub inserted : Process → Exec (Table × ℕ) → Process × Try ℕ
inserted p (panics m) = (p, panics m)
inserted p (done (t, handle)) = (record p { handles = t; next = p.next + 1 }, done (ok handle))

unfoldable pub kt_runtime_new :
    (Bytes → KtResult RuntimeOptions)
    → (CoreOptions → KtResult (Unit {0}))
    → Process
    → Option Bytes
    → ℕ
    → Bool
    → Process × Try ℕ
kt_runtime_new decode create p cfg cfg_len out_is_null =
    perform p
      (do
        _ ← not_null (text "out_runtime is null") out_is_null
        bytes ← try (slice cfg cfg_len)
        options ← try (decode bytes)
        try (new_entry create options))
      (λ e.
        inserted (record p { runtimes = assign p.runtimes p.next e })
          (insert p.handles (runtime p.next)))

-- `info` is the encoded `RuntimeInfo` with the version of Core.
unfoldable pub kt_runtime_info : Bytes → Process → ℕ → Out → ℕ → Out × Try (Unit {0})
kt_runtime_info info p handle out cap = elim (get_runtime p.handles handle) [
  | panics m ↦ (out, panics m)
  | done (err e) ↦ (out, done (err e))
  | done (ok _) ↦ let (out', r) = write_out info out cap in (out', done r)
]

abbrev no_batch : MetricBatch
no_batch = record { definitions = []; updates = []; logs = [] }

unfoldable pub with_logs : RuntimeEntry → MetricBatch → RuntimeEntry × MetricBatch
with_logs e b = (record e { logs = [] }, record b { logs = b.logs ++ e.logs })

unfoldable pub drained :
    RuntimeEntry → Exec (Telemetry.State × MetricBatch) → Exec (RuntimeEntry × MetricBatch)
drained e (panics m) = panics m
drained e (done (s, b)) = done (with_logs (record e { metrics = some s }) b)

unfoldable pub drain_metrics : RuntimeEntry → Exec (RuntimeEntry × MetricBatch)
drain_metrics e = elim e.metrics [
  | none ↦ done (with_logs e no_batch)
  | some s ↦ drained e (drain s)
]

unfoldable pub encoded :
    (MetricBatch → Bytes) → Exec (RuntimeEntry × MetricBatch) → Exec (RuntimeEntry × Bytes)
encoded encode (panics m) = panics m
encoded encode (done (e, b)) = done (e, encode b)

-- `get_or_insert_with`.
unfoldable pub batch_bytes : (MetricBatch → Bytes) → RuntimeEntry → Exec (RuntimeEntry × Bytes)
batch_bytes encode e = elim e.metric_batch [
  | some bytes ↦ done (e, bytes)
  | none ↦ encoded encode (drain_metrics e)
]

-- The batch is kept unless it was written out.
unfoldable pub retained : RuntimeEntry → Bytes → KtResult (Unit {0}) → RuntimeEntry
retained e bytes (ok _) = record e { metric_batch = none }
retained e bytes (err _) = record e { metric_batch = some bytes }

unfoldable pub retrieve :
    Process → ℕ → Out → ℕ → Exec (RuntimeEntry × Bytes) → (Process × Out) × Try (Unit {0})
retrieve p rt out cap (panics m) = ((p, out), panics m)
retrieve p rt out cap (done (e, bytes)) =
    let (out', r) = write_out bytes out cap in
    ((record p { runtimes = assign p.runtimes rt (retained e bytes r) }, out'), done r)

unfoldable pub kt_runtime_retrieve_metrics :
    (MetricBatch → Bytes) → Process → ℕ → Out → ℕ → (Process × Out) × Try (Unit {0})
kt_runtime_retrieve_metrics encode p handle out cap = elim (get_runtime p.handles handle) [
  | panics m ↦ ((p, out), panics m)
  | done (err e) ↦ ((p, out), done (err e))
  | done (ok rt) ↦ retrieve p rt out cap (batch_bytes encode (p.runtimes rt))
]

-- `worker::free` on a worker of the process.
unfoldable pub free_worker : Process → ℕ → Process
free_worker p w =
    let o = p.workers w in
    record p {
      workers = assign p.workers w (record o {
        entry = (Worker.free o.entry).0;
        initiated = if has_core o.entry.state then true else o.initiated;
      });
    }

unfoldable pub shutdown_server : Result (Unit {0}) → Process → ℕ → Process × Result (Unit {0})
shutdown_server result p s =
    let (e, r) = shutdown result (p.servers s) in (record p { servers = assign p.servers s e }, r)

-- One child of a runtime that is closed: a server is shut down, with what that comes to, and then the
-- entry is closed. Closing a server that was shut down does no more.
unfoldable pub close_child : (ℕ → Result (Unit {0})) → Process → Entry → Process × Option Bytes
close_child results p (ephemeral s) =
    let (p', r) = shutdown_server (results s) p s in
    (p', elim r [ success _ ↦ none | failure e ↦ some e ])
close_child results p (worker w) = (free_worker p w, none)
close_child results p (runtime _) = (p, none)
close_child results p (client _) = (p, none)
close_child results p (poller _) = (p, none)

-- `get_or_insert` keeps the first error.
unfoldable pub first_error : Option Bytes → Option Bytes → Option Bytes
first_error (some e) other = some e
first_error none other = other

unfoldable pub close_children :
    (ℕ → Result (Unit {0})) → Process → List Entry → Option Bytes → Process × Option Bytes
close_children results p [] error = (p, error)
close_children results p (c ∷ cs) error =
    let (p', e) = close_child results p c in close_children results p' cs (first_error error e)

-- `free_runtime`, which awaits the tasks of the runtime: each has ended when it returns.
unfoldable pub without_tasks : ℕ → List Spawned → List Spawned
without_tasks rt [] = []
without_tasks rt (s ∷ ss) =
    let rest = without_tasks rt ss in if s.runtime == rt then rest else s ∷ rest

unfoldable pub free_runtime : Process → ℕ → Process
free_runtime p rt = record p {
  runtimes =
      assign p.runtimes rt
        (record (p.runtimes rt) { requests = drain_pending_for_shutdown (p.runtimes rt).requests });
  spawned = without_tasks rt p.spawned;
}

unfoldable pub shutdown_result : Option Bytes → KtResult (Unit {0})
shutdown_result none = ok tt
shutdown_result (some e) = err (failed e)

unfoldable pub freed :
    (ℕ → Result (Unit {0})) → Process → KtResult (ℕ × List Entry) → Process × Try (Unit {0})
freed results p (err e) = (p, done (err e))
freed results p (ok (rt, children)) =
    let (p', error) = close_children results p children none in
    (free_runtime p' rt, done (shutdown_result error))

-- `results` is what Core's shutdown of each server comes to.
unfoldable pub kt_runtime_free : (ℕ → Result (Unit {0})) → Process → ℕ → Process × Try (Unit {0})
kt_runtime_free results p handle = elim (remove_runtime p.handles handle) [
  | panics m ↦ (p, panics m)
  | done (t, r) ↦ freed results (record p { handles = t }) r
]

unfoldable pub cancel_in : Process → ℕ → ℕ → Process
cancel_in p rt req_id = record p {
  runtimes =
      assign p.runtimes rt
        (record (p.runtimes rt) { requests = cancel (p.runtimes rt).requests req_id });
}

unfoldable pub kt_cancel : Process → ℕ → ℕ → Process × Try (Unit {0})
kt_cancel p handle req_id =
    perform p (get_runtime p.handles handle) (λ rt. (cancel_in p rt req_id, done (ok tt)))
