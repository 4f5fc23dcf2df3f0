-- ===== src/Ffi/Requests.antt =====
-- The entry points of src/lib.rs, core-bridge/rust/kt-bridge, that start a request: what each checks, and
-- the operation that it spawns.
use temporal_kt_bridge.Base.{ℕ, max, Bytes, text, ◌++◌, Option, none, some, ltb, if◌then◌else◌}
use temporal_kt_bridge.Error.{invalid_argument, ok, err, done}
use temporal_kt_bridge.Handle.Owned.{
  get_runtime, get_client, get_worker, get_ephemeral, require_owner,
}
use temporal_kt_bridge.Worker.{core_of}
use temporal_kt_bridge.Client.{Environment, connection_options}
use temporal_kt_bridge.Rpc.{from_u32}
use temporal_kt_bridge.Ephemeral.{decode_options}
use temporal_kt_bridge.Ffi.{slice}
use temporal_kt_bridge.Ffi.Process.{
  Process, connect, call, validate, complete, shutdown_worker, start_server, shutdown_server,
  Messages, Try, ◌>>=◌, try, request_id, submit,
}

-- Bytes that are read as text.
unfoldable pub utf8 : Messages → Bytes → Try Bytes
utf8 m bytes = elim (m.utf8_error bytes) [
  | some e ↦ done (err (invalid_argument (text "rpc name is not UTF-8: " ++ e)))
  | none ↦ done (ok bytes)
]

module _ (m : Messages) (env : Environment Bytes) (p : Process) where
  unfoldable pub kt_client_connect : ℕ → Option Bytes → ℕ → ℕ → Process × Try (Unit {0})
  kt_client_connect runtime cfg cfg_len req_id = submit p req_id (do
    _ ← request_id req_id
    rt ← get_runtime p.handles runtime
    bytes ← try (slice cfg cfg_len)
    config ← try (m.decode_client bytes)
    options ← try (connection_options env config)
    done (ok (rt, connect runtime options config.namespace)))

  unfoldable pub kt_client_rpc :
      ℕ → ℕ → ℕ → Option Bytes → ℕ → Option Bytes → ℕ → ℕ → ℕ → Process × Try (Unit {0})
  kt_client_rpc runtime client service rpc_ptr rpc_len req_ptr req_len timeout_millis req_id =
      submit p req_id (do
        _ ← request_id req_id
        rt ← get_runtime p.handles runtime
        _ ← require_owner p.handles client runtime
        cl ← get_client p.handles client
        service ← try (from_u32 service)
        name ← try (slice rpc_ptr rpc_len)
        rpc_name ← utf8 m name
        request ← try (slice req_ptr req_len)
        done (
            ok (
              rt,
              call cl service rpc_name request
                  (if ltb 0 timeout_millis then some timeout_millis else none),
            )))

  unfoldable pub kt_worker_validate : ℕ → ℕ → ℕ → Process × Try (Unit {0})
  kt_worker_validate runtime worker req_id = submit p req_id (do
    _ ← request_id req_id
    rt ← get_runtime p.handles runtime
    _ ← require_owner p.handles worker runtime
    w ← get_worker p.handles worker
    core ← try (core_of (p.workers w).entry.state)
    done (ok (rt, validate core)))

  unfoldable pub kt_worker_complete : ℕ → ℕ → ℕ → Option Bytes → ℕ → ℕ → Process × Try (Unit {0})
  kt_worker_complete runtime worker task_kind proto_bytes proto_len req_id = submit p req_id (do
    _ ← request_id req_id
    rt ← get_runtime p.handles runtime
    _ ← require_owner p.handles worker runtime
    w ← get_worker p.handles worker
    core ← try (core_of (p.workers w).entry.state)
    bytes ← try (slice proto_bytes proto_len)
    done (ok (rt, complete core task_kind bytes)))

  unfoldable pub kt_worker_shutdown : ℕ → ℕ → ℕ → ℕ → Process × Try (Unit {0})
  kt_worker_shutdown runtime worker grace_millis req_id = submit p req_id (do
    _ ← request_id req_id
    rt ← get_runtime p.handles runtime
    _ ← require_owner p.handles worker runtime
    w ← get_worker p.handles worker
    done (ok (rt, shutdown_worker w (max grace_millis 1))))

  unfoldable pub kt_ephemeral_start : ℕ → Option Bytes → ℕ → ℕ → Process × Try (Unit {0})
  kt_ephemeral_start runtime cfg cfg_len req_id = submit p req_id (do
    _ ← request_id req_id
    rt ← get_runtime p.handles runtime
    bytes ← try (slice cfg cfg_len)
    options ← try (decode_options m.decode_server bytes)
    done (ok (rt, start_server runtime options)))

  unfoldable pub kt_ephemeral_shutdown : ℕ → ℕ → ℕ → Process × Try (Unit {0})
  kt_ephemeral_shutdown runtime server req_id = submit p req_id (do
    _ ← request_id req_id
    rt ← get_runtime p.handles runtime
    _ ← require_owner p.handles server runtime
    s ← get_ephemeral p.handles server
    done (ok (rt, shutdown_server s)))
