-- ===== src/Ffi/Workers.antt =====
-- The entry points of src/lib.rs, core-bridge/rust/kt-bridge, on workers, servers and clients that start
-- no request.
use temporal_kt_bridge.Base.{
  ℕ, Bytes, text, List, Option, none, some, Bool, true, ltb, if◌then◌else◌,
}
use temporal_kt_bridge.Error.{
  invalid_argument, failed, KtResult, ok, err, Exec, done, panics, static_str,
}
use temporal_kt_bridge.Handle.{
  Entry, runtime, client, worker, ephemeral, poller, kind_client, kind_worker, kind_ephemeral,
  Table, remove_of_kind,
}
use temporal_kt_bridge.Handle.Owned.{get_runtime, get_worker, get_ephemeral, require_owner}
use temporal_kt_bridge.Worker.{core_of, start, has_core}
use temporal_kt_bridge.Slots.{ResourceGate, update, stats}
use temporal_kt_bridge.Ephemeral.{EphemeralServerInfo, Result, success, failure, info}
use temporal_kt_bridge.Ffi.{Out, write_out}
use temporal_kt_bridge.Ffi.Process.{
  WorkerObject, Process, assign, Try, ◌>>=◌, try, perform, not_null,
}
use temporal_kt_bridge.Ffi.Runtimes.{free_worker, shutdown_server}

unfoldable pub put_worker : Process → ℕ → WorkerObject → Process
put_worker p w o = record p { workers = assign p.workers w o }

unfoldable pub start_worker : Process → ℕ → Process × Try (Unit {0})
start_worker p w =
    let (e, r, _) = start (p.workers w).entry in
    (put_worker p w (record (p.workers w) { entry = e }), done r)

unfoldable pub kt_worker_start : Process → ℕ → ℕ → Process × Try (Unit {0})
kt_worker_start p runtime_handle worker_handle =
    perform p
      (do
        _ ← get_runtime p.handles runtime_handle
        _ ← require_owner p.handles worker_handle runtime_handle
        get_worker p.handles worker_handle)
      (start_worker p)

-- A finalized worker is left alone, without an error.
unfoldable pub initiate : Process → ℕ → Process × Try (Unit {0})
initiate p w =
    if has_core (p.workers w).entry.state
    then (put_worker p w (record (p.workers w) { initiated = true }), done (ok tt))
    else (p, done (ok tt))

unfoldable pub kt_worker_initiate_shutdown : Process → ℕ → Process × Try (Unit {0})
kt_worker_initiate_shutdown p worker_handle =
    perform p (get_worker p.handles worker_handle) (initiate p)

unfoldable pub gate_of : Option ResourceGate → KtResult ResourceGate
gate_of none = err (invalid_argument (text "worker has no JVM resource tuner"))
gate_of (some g) = ok g

unfoldable pub allowed_mask : ℕ → Try (Unit {0})
allowed_mask allow =
    if ltb 15 allow
    then done (err (invalid_argument (text "resource admission mask must be between 0 and 15")))
    else done (ok tt)

-- With the eight numbers that are written out.
unfoldable pub kt_worker_update_resource : Process → ℕ → ℕ → Bool → Process × Try (List ℕ)
kt_worker_update_resource p worker_handle allow out_is_null =
    perform p
      (do
        _ ← not_null (text "out_stats is null") out_is_null
        _ ← allowed_mask allow
        w ← get_worker p.handles worker_handle
        _ ← try (core_of (p.workers w).entry.state)
        gate ← try (gate_of (p.workers w).resources)
        done (ok (w, gate)))
      (λ (w, gate). (
        put_worker p w (record (p.workers w) { resources = some (update gate allow) }),
        done (ok (stats (update gate allow))),
      ))

-- An entry is removed, and `release` is what is done with it.
unfoldable pub removed :
    Process
    → (Process → Entry → Process × Try (Unit {0}))
    → Exec (Table × KtResult Entry)
    → Process × Try (Unit {0})
removed p release (panics m) = (p, panics m)
removed p release (done (t, err e)) = (record p { handles = t }, done (err e))
removed p release (done (t, ok e)) = release (record p { handles = t }) e

-- Its reference is dropped.
unfoldable pub drop_entry : Process → Entry → Process × Try (Unit {0})
drop_entry p e = (p, done (ok tt))

unfoldable pub release_worker : Process → Entry → Process × Try (Unit {0})
release_worker p (worker w) = (free_worker p w, done (ok tt))
release_worker p (runtime _) = (p, done (ok tt))
release_worker p (client _) = (p, done (ok tt))
release_worker p (ephemeral _) = (p, done (ok tt))
release_worker p (poller _) = (p, done (ok tt))

unfoldable pub reaped : Process × Result (Unit {0}) → Process × Try (Unit {0})
reaped (p, success _) = (p, done (ok tt))
reaped (p, failure e) = (p, done (err (failed e)))

-- `results` is what Core's shutdown of each server comes to.
unfoldable pub release_ephemeral :
    (ℕ → Result (Unit {0})) → Process → Entry → Process × Try (Unit {0})
release_ephemeral results p (ephemeral s) = reaped (shutdown_server (results s) p s)
release_ephemeral results p (runtime _) =
    (p, panics (static_str (text "internal error: entered unreachable code")))
release_ephemeral results p (client _) =
    (p, panics (static_str (text "internal error: entered unreachable code")))
release_ephemeral results p (worker _) =
    (p, panics (static_str (text "internal error: entered unreachable code")))
release_ephemeral results p (poller _) =
    (p, panics (static_str (text "internal error: entered unreachable code")))

unfoldable pub kt_client_free : Process → ℕ → Process × Try (Unit {0})
kt_client_free p handle = removed p drop_entry (remove_of_kind p.handles handle kind_client)

unfoldable pub kt_worker_free : Process → ℕ → Process × Try (Unit {0})
kt_worker_free p handle = removed p release_worker (remove_of_kind p.handles handle kind_worker)

unfoldable pub kt_ephemeral_free : (ℕ → Result (Unit {0})) → Process → ℕ → Process × Try (Unit {0})
kt_ephemeral_free results p handle =
    removed p (release_ephemeral results) (remove_of_kind p.handles handle kind_ephemeral)

unfoldable pub kt_ephemeral_info :
    (EphemeralServerInfo → Bytes) → Process → ℕ → Out → ℕ → Out × Try (Unit {0})
kt_ephemeral_info encode p handle out cap = elim (get_ephemeral p.handles handle) [
  | panics m ↦ (out, panics m)
  | done (err e) ↦ (out, done (err e))
  | done (ok s) ↦ let (out', r) = write_out (encode (info (p.servers s))) out cap in (out', done r)
]
