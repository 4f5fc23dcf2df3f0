-- ===== src/Ffi/Examples.antt =====
-- Calls of the entry points of src/lib.rs, core-bridge/rust/kt-bridge.
use temporal_kt_bridge.Base.{ℕ, ◌≡◌, refl, arith, Bytes, text, [], ◌∷◌, some, none, false, ◌⊎◌}
use temporal_kt_bridge.Error.{ok, err, buffer_too_small, done, invalid_argument}
use temporal_kt_bridge.Abi.{abi_probe_values}
use temporal_kt_bridge.Handle.{
  runtime, client, ephemeral, validate, validate_slot, validate_entry, kind_of, generation_of,
  index_of, kind, slot_at,
}
use temporal_kt_bridge.Handle.Owned.{get_runtime, with_entry, live_entry}
use temporal_kt_bridge.Handle.Lookup.{Resolves}
use temporal_kt_bridge.Handle.Sample.{
  runtime_handle, worker_handle, table, table-IsWellFormed, table-runtime,
}
use temporal_kt_bridge.Queue.{new}
use temporal_kt_bridge.Runtime.{new_runtime}
use temporal_kt_bridge.Worker.{running}
use temporal_kt_bridge.Telemetry.{MetricBatch}
use temporal_kt_bridge.Client.{Environment, parsed}
use temporal_kt_bridge.Ephemeral.{Result, success, failure}
use temporal_kt_bridge.Ffi.{Out, write_out, write_buffer, slice, kt_abi_probe}
use temporal_kt_bridge.Ffi.Copies.{Reports, write_out-Reports}
use temporal_kt_bridge.Ffi.Process.{RuntimeEntry, Process, Messages}
use temporal_kt_bridge.Ffi.Accepted.{SettledRequest}
use temporal_kt_bridge.Ffi.Planned.{worker_validate, enter, request_settled}
use temporal_kt_bridge.Ffi.Runtimes.{
  batch_bytes, drain_metrics, with_logs, encoded, kt_runtime_retrieve_metrics, kt_runtime_free,
  retrieve, retained,
}
use temporal_kt_bridge.Ffi.Metrics.{metrics_survive_retry}
use temporal_kt_bridge.Ffi.Answers.{Answered, connection, connect_answer, start_answer}
use temporal_kt_bridge.Ffi.Created.{HandsOver, Discards, creations_settled}
use temporal_kt_bridge.Ffi.Released.{Released}
use temporal_kt_bridge.Ffi.Freed.{Frees, kt_runtime_free-Frees}

-- The runtime 7 with one line of logs, its worker 8, and no server running.
abbrev entry : RuntimeEntry
entry = record {
  requests = new_runtime;
  metrics = none;
  metric_batch = none;
  logs =
      record { target = text "t"; level = text "WARN"; message = text "m"; fields_json = text "{}" }
      ∷ [];
}

abbrev process : Process
process = record {
  handles = table;
  runtimes = λ r. entry;
  workers = λ w. record {
    entry = record { state = running 5 false; live_pumps = 0; pumps = 0 };
    resources = none;
    initiated = false;
  };
  pollers = λ q. record {
    poller = record { buf = record { base = 0; bytes = []; used = 0 }; in_poll = false };
    runtime = 7;
  };
  servers = λ s. record { server = none; pid = 0; target = []; has_test_service = false };
  spawned = [];
  next = 9;
}

abbrev encode : MetricBatch → Bytes
encode b = 1 ∷ 2 ∷ 3 ∷ []

write_out-Reports_example :
    Reports
      (1 ∷ 2 ∷ [])
      (record { buffer = some (0 ∷ []); len = some 0 })
      1
      (write_out (1 ∷ 2 ∷ []) (record { buffer = some (0 ∷ []); len = some 0 }) 1).0
      (write_out (1 ∷ 2 ∷ []) (record { buffer = some (0 ∷ []); len = some 0 }) 1).1
write_out-Reports_example =
    write_out-Reports (1 ∷ 2 ∷ []) (record { buffer = some (0 ∷ []); len = some 0 }) 1 0 refl
      (omega arith)

probe_without_buffer : (kt_abi_probe none 0).1 ≡ 12
unfolding kt_abi_probe abi_probe_values
probe_without_buffer = refl

null_with_length :
    slice none 4_096 ≡ err (invalid_argument (text "null pointer with non-zero length"))
unfolding slice
null_with_length = refl

resolves : Resolves table runtime_handle (runtime 7)
resolves = (0, table-runtime)

-- The process with the batch that a call could not hand out.
abbrev retaining : Process
retaining = record process { runtimes = λ r. record entry { metric_batch = some (1 ∷ 2 ∷ 3 ∷ []) } }

abbrev small : Out
small = record { buffer = none; len = some 0 }

abbrev large : Out
large = record { buffer = some (0 ∷ 0 ∷ 0 ∷ 0 ∷ []); len = some 0 }

abbrev fetched : RuntimeEntry
fetched = record entry { logs = [] }

has_batch : batch_bytes encode entry ≡ done (fetched, 1 ∷ 2 ∷ 3 ∷ [])
unfolding batch_bytes drain_metrics encoded with_logs
has_batch = refl

batch_retained :
    (retaining.runtimes 7).metric_batch
    ≡ ((kt_runtime_retrieve_metrics encode process runtime_handle small 0).0.0.runtimes
        7).metric_batch
unfolding kt_runtime_retrieve_metrics get_runtime with_entry live_entry slot_at validate
    validate_slot validate_entry kind_of generation_of index_of kind retrieve retained batch_bytes
    drain_metrics encoded with_logs write_out write_buffer
batch_retained = refl

metrics_survive_retry_example :
    let first = kt_runtime_retrieve_metrics encode process runtime_handle small 0 in
    let second = kt_runtime_retrieve_metrics encode retaining runtime_handle large 4 in
    (first.1 ≡ done (err buffer_too_small))
    × (first.0.1.len ≡ some 3)
    × (second.1 ≡ done (ok tt))
    × (second.0.1.buffer ≡ some (1 ∷ 2 ∷ 3 ∷ 0 ∷ []))
    × (second.0.0.runtimes 7 ≡ record (retaining.runtimes 7) { metric_batch = none })
metrics_survive_retry_example =
    metrics_survive_retry encode process retaining runtime_handle 7 0 4 0 0 small large
      (0 ∷ 0 ∷ 0 ∷ 0 ∷ []) (1 ∷ 2 ∷ 3 ∷ []) fetched resolves resolves has_batch (omega arith) refl
      (omega arith) batch_retained refl refl (omega arith)

environment : Environment Bytes
environment = record { parse = λ url. parsed url; version = []; pid = 1; hostname = [] }

messages : Messages
messages = record {
  decode_client = λ b. err (invalid_argument []);
  decode_server = λ b. err (invalid_argument []);
  encode_metrics = encode;
  encode_server = λ i. [];
  utf8_error = λ b. none;
}

request_settled_example :
    SettledRequest process runtime_handle 3
      (enter messages environment process (worker_validate runtime_handle worker_handle 3))
request_settled_example =
    request_settled messages environment process (worker_validate runtime_handle worker_handle 3)

-- Every shutdown of a server fails.
fails : ℕ → Result (Unit {0})
fails s = failure (text "gone")

open_queue : (process.runtimes 7).requests.queue.closed ≡ false
unfolding new_runtime new
open_queue = refl

kt_runtime_free-Frees_example :
    Frees fails process runtime_handle 7
      (kt_runtime_free fails process runtime_handle).0
      (kt_runtime_free fails process runtime_handle).1
kt_runtime_free-Frees_example =
    kt_runtime_free-Frees fails process runtime_handle 7 table-IsWellFormed (omega arith)
      table-runtime open_queue

creations_settled_example :
    ((a : Answered) × (connect_answer (λ f. f.details) table runtime_handle 3 (connection 9)
        ≡ done a)
      × (HandsOver table runtime_handle (client 9) a ⊎ Discards table runtime_handle (client 9) a))
    × ((a : Answered) × (start_answer table runtime_handle 3 (success (4, 1 ∷ [])) ≡ done a)
        × (HandsOver table runtime_handle (ephemeral 4) a
            ⊎ Discards table runtime_handle (ephemeral 4) a))
creations_settled_example =
    creations_settled (λ f. f.details) table runtime_handle 3 9 4 (1 ∷ []) table-IsWellFormed
      (omega arith)
