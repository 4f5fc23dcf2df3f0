-- ===== src/Worker/Pump.antt =====
-- The poll loop of a worker, `pump` of src/worker.rs, core-bridge/rust/kt-bridge.
use temporal_kt_bridge.Base.{ℕ, ◌+◌, Bytes, text, List, [], ◌∷◌, ◌++◌, Bool, true, false}
use temporal_kt_bridge.Error.{Payload, panic_message, kt_err_failed, kt_err_panic}
use temporal_kt_bridge.Abi.{
  KtKind, task_workflow_activation, task_activity, task_nexus, task_stream_end, worker_failed,
}
use temporal_kt_bridge.Queue.{Pending, ack, error, with_kind, with_payload, with_aux0, with_aux1}

pub data TaskKind : Type 0 where
  workflow_activation activity nexus : TaskKind

unfoldable pub code_of : TaskKind → ℕ
code_of workflow_activation = 0
code_of activity = 1
code_of nexus = 2

unfoldable pub completion_kind : TaskKind → KtKind
completion_kind workflow_activation = task_workflow_activation
completion_kind activity = task_activity
completion_kind nexus = task_nexus

-- What one poll of Core comes to: an encoded task, the end of the stream, another error, or a panic.
pub data Polled : Type 0 where
  task : Bytes → Polled
  shut_down : Polled
  failure : Bytes → Polled
  unwinds : Payload → Polled

abbrev pub pushed : ℕ
pushed = 0

-- The four completions that a pump pushes, under the worker's handle and the kind of the stream.
unfoldable pub about : TaskKind → ℕ → Pending → Pending
about k handle p = with_aux1 (with_aux0 p handle) (code_of k)

unfoldable pub delivers : TaskKind → ℕ → Bytes → Pending
delivers k handle bytes =
    about k handle (with_payload (with_kind (ack pushed) (completion_kind k)) bytes)

unfoldable pub ends : TaskKind → ℕ → Pending
ends k handle = about k handle (with_kind (ack pushed) task_stream_end)

unfoldable pub reports : TaskKind → ℕ → Bytes → Pending
reports k handle m = about k handle (with_kind (error pushed kt_err_failed m) worker_failed)

unfoldable pub reports_panic : TaskKind → ℕ → Payload → Pending
reports_panic k handle p = about k handle (
    with_kind (error pushed kt_err_panic (text "worker poll panic: " ++ panic_message p))
      worker_failed)

-- What a pump has done: its pushes in order, how often it initiated Core's shutdown, and whether it has
-- ended.
pub record Pumped : Type 0 where
  pub pushes : List Pending
  pub initiated : ℕ
  pub ended : Bool

abbrev pub first_push : Pending → Pumped → Pumped
first_push p r = record r { pushes = p ∷ r.pushes }

-- The loop over what Core's polls come to. An error is reported once, with a call of
-- `initiate_shutdown`; then the loop goes on.
unfoldable pub pump_from : Bool → TaskKind → ℕ → List Polled → Pumped
pump_from reported k handle [] = record { pushes = []; initiated = 0; ended = false }
pump_from reported k handle (task bytes ∷ ps) =
    first_push (delivers k handle bytes) (pump_from reported k handle ps)
pump_from reported k handle (shut_down ∷ ps) = record {
  pushes = ends k handle ∷ [];
  initiated = 0;
  ended = true;
}
pump_from true k handle (failure m ∷ ps) = pump_from true k handle ps
pump_from false k handle (failure m ∷ ps) =
    let r = pump_from true k handle ps in
    record (first_push (reports k handle m) r) { initiated = 1 + r.initiated }
pump_from reported k handle (unwinds p ∷ ps) = record {
  pushes = reports_panic k handle p ∷ ends k handle ∷ [];
  initiated = 1;
  ended = true;
}

unfoldable pub pump : TaskKind → ℕ → List Polled → Pumped
pump k handle ps = pump_from false k handle ps
