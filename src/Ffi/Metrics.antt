-- ===== src/Ffi/Metrics.antt =====
-- A batch of metrics survives the calls that could not take it: src/lib.rs, core-bridge/rust/kt-bridge.
use temporal_kt_bridge.Base.{
  ℕ, ◌^◌, ◌≤◌, ◌<◌, ◌≡◌, refl, ap, ◌∙◌, Bytes, ◌++◌, length, drop, none, some, ==_refl,
}
use temporal_kt_bridge.Error.{KtError, buffer_too_small, KtResult, ok, err, done}
use temporal_kt_bridge.Handle.{runtime}
use temporal_kt_bridge.Handle.Lookup.{Resolves, getters_iff}
use temporal_kt_bridge.Telemetry.{MetricBatch}
use temporal_kt_bridge.Ffi.{Out, write_out}
use temporal_kt_bridge.Ffi.Copies.{write_out-Reports}
use temporal_kt_bridge.Ffi.Process.{RuntimeEntry, Process, Try}
use temporal_kt_bridge.Ffi.Runtimes.{batch_bytes, retained, retrieve, kt_runtime_retrieve_metrics}

-- What a call on a live runtime does, given the bytes that it would hand out.
record Retrieves (p : Process) (rt : ℕ) (out : Out) (cap : ℕ) (e : RuntimeEntry) (bytes : Bytes)
    (r : (Process × Out) × Try (Unit {0})) : Type 0 where
  result : r.1 ≡ done (write_out bytes out cap).1
  memory : r.0.1 ≡ (write_out bytes out cap).0
  entry : r.0.0.runtimes rt ≡ retained e bytes (write_out bytes out cap).1

retrieve-Retrieves :
    (encode : MetricBatch → Bytes) (p : Process) (handle rt : ℕ) (out : Out) (cap : ℕ)
    (e : RuntimeEntry) (bytes : Bytes)
    → Resolves p.handles handle (runtime rt)
    → batch_bytes encode (p.runtimes rt) ≡ done (e, bytes)
    → Retrieves p rt out cap e bytes (kt_runtime_retrieve_metrics encode p handle out cap)
unfolding kt_runtime_retrieve_metrics retrieve
retrieve-Retrieves encode p handle rt out cap e bytes resolves has =
    rw ((getters_iff p.handles handle rt).0.1 resolves, kt_runtime_retrieve_metrics)
      (rw has (record { result = refl; memory = refl; entry = rw (==_refl rt) refl }))

retained_error :
    (e : RuntimeEntry) (bytes : Bytes) (x : KtError) (r : KtResult (Unit {0}))
    → r ≡ err x
    → (retained e bytes r).metric_batch ≡ some bytes
unfolding retained
retained_error e bytes x (err y) h = refl
retained_error e bytes x (ok y) h = cc

kept_bytes :
    (encode : MetricBatch → Bytes) (e : RuntimeEntry) (bytes : Bytes)
    → e.metric_batch ≡ some bytes
    → batch_bytes encode e ≡ done (e, bytes)
unfolding batch_bytes
kept_bytes encode e bytes h = rw h refl

retained_ok :
    (e : RuntimeEntry) (bytes : Bytes) (r : KtResult (Unit {0}))
    → r ≡ ok tt
    → retained e bytes r ≡ record e { metric_batch = none }
unfolding retained
retained_ok e bytes r h = rw h refl

-- With a batch that a u32 can count and a place for its length, a call that retrieves the metrics of a
-- live runtime into a buffer that is too small answers BufferTooSmall, with the length of the batch. Whatever
-- happens between, as long as the runtime is live and the batch that the first call left is there, a later
-- call with a place for the length and a buffer that is large enough gets the batch that the first one had
-- drained, whole, and takes it off without draining the meter again.
pub metrics_survive_retry :
    (encode : MetricBatch → Bytes) (p q : Process) (handle rt cap cap' n n' : ℕ) (out out' : Out)
    (memory bytes : Bytes) (e : RuntimeEntry)
    → Resolves p.handles handle (runtime rt)
    → Resolves q.handles handle (runtime rt)
    → batch_bytes encode (p.runtimes rt) ≡ done (e, bytes)
    → length bytes < 2 ^ 32
    → out.len ≡ some n
    → cap < length bytes
    → (q.runtimes rt).metric_batch
      ≡ ((kt_runtime_retrieve_metrics encode p handle out cap).0.0.runtimes rt).metric_batch
    → out'.len ≡ some n'
    → out'.buffer ≡ some memory
    → length bytes ≤ cap'
    → let first = kt_runtime_retrieve_metrics encode p handle out cap in
      let second = kt_runtime_retrieve_metrics encode q handle out' cap' in
      (first.1 ≡ done (err buffer_too_small))
      × (first.0.1.len ≡ some (length bytes))
      × (second.1 ≡ done (ok tt))
      × (second.0.1.buffer ≡ some (bytes ++ drop (length bytes) memory))
      × (second.0.0.runtimes rt ≡ record (q.runtimes rt) { metric_batch = none })
metrics_survive_retry encode p q handle rt cap cap' n n' out out' memory bytes e live live' has fits
      len small same len' buffer room =
    let one = retrieve-Retrieves encode p handle rt out cap e bytes live has in
    let refused = write_out-Reports bytes out cap n len fits in
    let is_small = refused.small.0 small in
    let left : (q.runtimes rt).metric_batch ≡ some bytes =
      same
      ∙ ap (λ (x : RuntimeEntry). x.metric_batch) one.entry
      ∙ retained_error e bytes buffer_too_small (write_out bytes out cap).1 is_small in
    let two =
      retrieve-Retrieves encode q handle rt out' cap' (q.runtimes rt) bytes live'
        (kept_bytes encode (q.runtimes rt) bytes left) in
    let taken = (write_out-Reports bytes out' cap' n' len' fits).whole memory buffer room in
    (
      one.result ∙ ap (λ (r : KtResult (Unit {0})). done r) is_small,
      ap (λ (o : Out). o.len) one.memory ∙ refused.len,
      two.result ∙ ap (λ (r : KtResult (Unit {0})). done r) taken.0,
      ap (λ (o : Out). o.buffer) two.memory ∙ taken.1,
      two.entry ∙ retained_ok (q.runtimes rt) bytes (write_out bytes out' cap').1 taken.0,
    )
