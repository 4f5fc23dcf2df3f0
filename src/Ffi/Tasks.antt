-- ===== src/Ffi/Tasks.antt =====
-- The entry points of src/lib.rs, core-bridge/rust/kt-bridge, that make a worker and record a heartbeat,
-- and the completion of a task in src/worker.rs.
use temporal_kt_bridge.Base.{
  ℕ, ◌+◌, Bytes, text, decimal, ◌++◌, List, [], ◌∷◌, Option, none, some, Bool, false, ◌==◌, ◌||◌,
  if◌then◌else◌,
}
use temporal_kt_bridge.Error.{KtResult, ok, Exec, done, panics}
use temporal_kt_bridge.Handle.{worker, Cleanup, free_worker, free_ephemeral, Inserted, insert_owned}
use temporal_kt_bridge.Handle.Owned.{get_runtime, get_client, get_worker, require_owner}
use temporal_kt_bridge.Slots.{ResourceGate}
use temporal_kt_bridge.Slots
use temporal_kt_bridge.Worker.{core_of}
use temporal_kt_bridge.Worker
use temporal_kt_bridge.Worker.Options.{is_jvm}
use temporal_kt_bridge.Worker.Config.{Standard, Options, WorkerConfig, worker_config}
use temporal_kt_bridge.Ephemeral.{Result, success, failure}
use temporal_kt_bridge.Ffi.{slice}
use temporal_kt_bridge.Ffi.Process.{Process, assign, Try, ◌>>=◌, try, perform, not_null}
use temporal_kt_bridge.Ffi.Runtimes

-- What prost and Core make of a completion, by the kind of its task: the error of decoding it, and the
-- error of completing it.
pub record Completions : Type 0 where
  pub decode_error : ℕ → Bytes → Option Bytes
  pub complete_error : ℕ → ℕ → Bytes → Option Bytes

unfoldable pub outcome : Option Bytes → Result (Unit {0})
outcome none = success tt
outcome (some e) = failure e

unfoldable pub complete : Completions → ℕ → ℕ → Bytes → Result (Unit {0})
complete api core task_kind bytes =
    if task_kind == 0 || task_kind == 1 || task_kind == 2
    then elim (api.decode_error task_kind bytes) [
      | some e ↦ failure e
      | none ↦ outcome (api.complete_error core task_kind bytes)
    ]
    else failure (text "unknown task kind " ++ decimal task_kind)

-- The heartbeat that Core's worker records.
unfoldable pub kt_worker_heartbeat :
    {A : Type 0} → (Bytes → KtResult A) → Process → ℕ → Option Bytes → ℕ → Try (ℕ × A)
kt_worker_heartbeat decode p worker_handle proto_bytes proto_len = do
  w ← get_worker p.handles worker_handle
  core ← try (core_of (p.workers w).entry.state)
  bytes ← try (slice proto_bytes proto_len)
  heartbeat ← try (decode bytes)
  done (ok (core, heartbeat))

-- The gate of a worker that the JVM admits.
unfoldable pub resources_of : Options → Option ResourceGate
resources_of o = if is_jvm o.slots.resource_tuner then some Slots.new else none

-- The cleanups of an entry that could not be inserted.
unfoldable pub clean : Process → List Cleanup → Process
clean p [] = p
clean p (free_worker w ∷ cs) = clean (Runtimes.free_worker p w) cs
clean p (free_ephemeral s ∷ cs) = clean p cs

unfoldable pub stored : Process → Exec Inserted → Process × Try ℕ
stored p (panics m) = (p, panics m)
stored p (done i) =
    (clean (record p { handles = i.table; next = p.next + 1 }) i.closing, done i.result)

unfoldable pub new_worker : Process → ℕ → Options → ℕ → Process × Try ℕ
new_worker p runtime_handle o core =
    stored
      (record p {
        workers =
            assign p.workers p.next
              (record { entry = Worker.new core; resources = resources_of o; initiated = false });
      })
      (insert_owned p.handles runtime_handle (worker p.next))

-- `build` is the error of Core's builder, `init` is Core's `init_worker` with the client.
unfoldable pub kt_worker_new :
    Standard
    → (Bytes → KtResult Options)
    → (WorkerConfig → Option Bytes)
    → (WorkerConfig → ℕ → KtResult ℕ)
    → Process
    → ℕ
    → ℕ
    → Option Bytes
    → ℕ
    → Bool
    → Process × Try ℕ
kt_worker_new std decode build init p runtime_handle client_handle cfg cfg_len out_is_null =
    perform p
      (do
        _ ← not_null (text "out_worker is null") out_is_null
        _ ← get_runtime p.handles runtime_handle
        _ ← require_owner p.handles client_handle runtime_handle
        cl ← get_client p.handles client_handle
        bytes ← try (slice cfg cfg_len)
        options ← try (decode bytes)
        config ← try (worker_config std build options)
        core ← try (init config cl)
        done (ok (options, core)))
      (λ (options, core). new_worker p runtime_handle options core)
