-- ===== src/Ffi/Process.antt =====
-- The state that the entry points of src/lib.rs, core-bridge/rust/kt-bridge, share: the process-wide
-- handle table, and the objects that its entries name. An `Arc` is a number, which the maps here resolve.
use temporal_kt_bridge.Base.{ℕ, Bytes, text, List, [], ◌∷◌, ◌++◌, Option, Bool, ◌==◌, if◌then◌else◌}
use temporal_kt_bridge.Error.{invalid_argument, KtResult, ok, err, Exec, done, panics}
use temporal_kt_bridge.Handle.{Table}
use temporal_kt_bridge.Queue.Poll.{Poller}
use temporal_kt_bridge.Runtime.{Runtime, Task, spawn_request}
use temporal_kt_bridge.Slots.{ResourceGate}
use temporal_kt_bridge.Worker.{WorkerEntry}
use temporal_kt_bridge.Telemetry.{MetricBatch, LogRecord}
use temporal_kt_bridge.Telemetry
use temporal_kt_bridge.Client.{ClientOptions, ConnectionOptions}
use temporal_kt_bridge.Rpc.{Service}
use temporal_kt_bridge.Ephemeral.{EphemeralServerOptions, EphemeralServerInfo, EphemeralEntry}

-- `requests` has the queue, the table of requests and its closed flag; `logs` is what Core has buffered
-- to be fetched.
pub record RuntimeEntry : Type 0 where
  pub requests : Runtime
  pub metrics : Option Telemetry.State
  pub metric_batch : Option Bytes
  pub logs : List LogRecord

-- `initiated`: Core's worker was told to shut down.
pub record WorkerObject : Type 0 where
  pub entry : WorkerEntry
  pub resources : Option ResourceGate
  pub initiated : Bool

-- A poller with the runtime whose queue it shares.
pub record PollerObject : Type 0 where
  pub poller : Poller
  pub runtime : ℕ

-- The operations that the tasks of requests run, with what their closures own. A URL is its text.
pub data Operation : Type 0 where
  connect : ℕ → ConnectionOptions Bytes → Bytes → Operation
  call : ℕ → Service → Bytes → Bytes → Option ℕ → Operation
  validate : ℕ → Operation
  complete : ℕ → ℕ → Bytes → Operation
  shutdown_worker : ℕ → ℕ → Operation
  start_server : ℕ → EphemeralServerOptions → Operation
  shutdown_server : ℕ → Operation

pub record Spawned : Type 0 where
  pub runtime : ℕ
  pub task : Task
  pub operation : Operation

-- `next` is the number of the next object.
pub record Process : Type 0 where
  pub handles : Table
  pub runtimes : ℕ → RuntimeEntry
  pub workers : ℕ → WorkerObject
  pub pollers : ℕ → PollerObject
  pub servers : ℕ → EphemeralEntry
  pub spawned : List Spawned
  pub next : ℕ

-- A map with one item changed.
abbrev pub assign {ℓ} : {A : Type ℓ} → (ℕ → A) → ℕ → A → ℕ → A
assign f i a j = if i == j then a else f j

-- What the code takes from prost and from the standard library: the decoding of messages, their
-- encoding, and the error of reading bytes as UTF-8.
pub record Messages : Type 0 where
  pub decode_client : Bytes → KtResult ClientOptions
  pub decode_server : Bytes → KtResult EphemeralServerOptions
  pub encode_metrics : MetricBatch → Bytes
  pub encode_server : EphemeralServerInfo → Bytes
  pub utf8_error : Bytes → Option Bytes

-- The body of an entry point up to a `?`: a value, an error, or a panic.
abbrev pub Try {ℓ} : Type ℓ → Type ℓ
Try A = Exec (KtResult A)

infixl 5 ◌>>=◌
abbrev pub ◌>>=◌ {ℓ κ} : {A : Type ℓ} {B : Type κ} → Try A → (A → Try B) → Try B
done (ok a) >>= f = f a
done (err e) >>= f = done (err e)
panics m >>= f = panics m

abbrev pub try {ℓ} : {A : Type ℓ} → KtResult A → Try A
try r = done r

-- A body that has read the process and goes on to change it.
abbrev pub perform {ℓ κ} :
    {A : Type ℓ} {B : Type κ} → Process → Try A → (A → Process × Try B) → Process × Try B
perform p (done (ok a)) f = f a
perform p (done (err e)) f = (p, done (err e))
perform p (panics m) f = (p, panics m)

-- `out.is_null()` of a pointer that the result is written to.
unfoldable pub not_null : Bytes → Bool → Try (Unit {0})
not_null message null = if null then done (err (invalid_argument message)) else done (ok tt)

unfoldable pub request_id : ℕ → Try (Unit {0})
request_id req_id =
    if req_id == 0
    then done (err (invalid_argument (text "req_id 0 is reserved for pushed events")))
    else done (ok tt)

-- The end of an entry point that spawns a request.
unfoldable pub spawned :
    Process → ℕ → Operation → Runtime × KtResult Task → Process × Try (Unit {0})
spawned p rt op (e, r) =
    let p' = record p {
      runtimes = assign p.runtimes rt (record (p.runtimes rt) { requests = e });
    } in
    elim r [
      | err x ↦ (p', done (err x))
      | ok task ↦ (
        record p' {
          spawned = p.spawned ++ record { runtime = rt; task = task; operation = op } ∷ [];
        },
        done (ok tt),
      )
    ]

unfoldable pub submit : Process → ℕ → Try (ℕ × Operation) → Process × Try (Unit {0})
submit p req_id plan =
    perform p plan (λ (rt, op). spawned p rt op (spawn_request (p.runtimes rt).requests req_id))
