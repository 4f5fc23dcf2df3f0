-- ===== src/Runtime.antt =====
-- src/runtime.rs of core-bridge/rust/kt-bridge: the table of outstanding requests and the request
-- tasks. Core, the telemetry and the task tracker are not part of this state.
pub mod Table
pub mod Requests
pub mod System
pub mod Account
pub mod Once
pub mod Answered
pub mod Cancelled
mod Examples
use temporal_kt_bridge.Base.{
  ℕ, ◌+◌, Bytes, text, decimal, List, [], ◌∷◌, ◌++◌, length, get_elem?, set, Option, none, some,
  Bool, true, false, ◌==◌, ◌||◌, if◌then◌else◌,
}
use temporal_kt_bridge.Error.{
  invalid_argument, shutdown, KtResult, ok, err, Payload, panic_message, kt_err_cancelled,
  kt_err_panic, kt_err_shutdown,
}
use temporal_kt_bridge.Queue.{Pending, State, push, error}
use temporal_kt_bridge.Queue

-- The hash map of `pending`, from a request id to its cancellation token. Its iteration order is
-- that of the list.
abbrev pub Requests : Type 0
Requests = List (ℕ × ℕ)

unfoldable pub contains_key : ℕ → Requests → Bool
contains_key r [] = false
contains_key r ((k, _) ∷ m) = k == r || contains_key r m

unfoldable pub remove : ℕ → Requests → Requests
remove r [] = []
remove r ((k, t) ∷ m) = if k == r then m else (k, t) ∷ remove r m

unfoldable pub get : ℕ → Requests → Option ℕ
get r [] = none
get r ((k, t) ∷ m) = if k == r then some t else get r m

-- `tokens` is the store of cancellation tokens: a token is an index, shared by the table and the
-- task of its request, and the entry says whether it is cancelled.
pub record Runtime : Type 0 where
  pub queue : State
  pub pending : Requests
  pub closed : Bool
  pub tokens : List Bool

unfoldable pub new_runtime : Runtime
new_runtime = record { queue = Queue.new; pending = []; closed = false; tokens = [] }

unfoldable pub register : Runtime → ℕ → Runtime × KtResult ℕ
register e req_id =
    if e.closed
    then (e, err shutdown)
    else if contains_key req_id e.pending
    then (e, err (invalid_argument (text "duplicate req_id " ++ decimal req_id)))
    else (
      record e { pending = (req_id, length e.tokens) ∷ e.pending; tokens = e.tokens ++ false ∷ [] },
      ok (length e.tokens),
    )

unfoldable pub retire : Runtime → ℕ → Runtime × Bool
retire e req_id = (record e { pending = remove req_id e.pending }, contains_key req_id e.pending)

unfoldable pub cancel_token : List Bool → Option ℕ → List Bool
cancel_token tokens none = tokens
cancel_token tokens (some t) = set tokens t true

unfoldable pub cancel : Runtime → ℕ → Runtime
cancel e req_id = record e { tokens = cancel_token e.tokens (get req_id e.pending) }

-- The loop over the drained table: each token is cancelled, each request answered.
unfoldable pub drain_each : Requests → Runtime → Runtime
drain_each [] e = e
drain_each ((req_id, t) ∷ m) e = drain_each m (record e {
  tokens = set e.tokens t true;
  queue = (push e.queue (error req_id kt_err_shutdown (text "runtime is shutting down"))).0;
})

unfoldable pub drain_pending_for_shutdown : Runtime → Runtime
drain_pending_for_shutdown e =
    let drained = drain_each e.pending (record e { pending = []; closed = true }) in
    record drained { queue = Queue.close drained.queue }

-- The task that `spawn_request` tracks: it holds the request id and the request's token, and then the
-- `result` of its `select!`.
pub record Task : Type 0 where
  pub req_id : ℕ
  pub token : ℕ
  pub result : Option Pending

-- What the operation of a request comes to: a completion, or a panic.
pub data Outcome : Type 0 where
  completes : Pending → Outcome
  unwinds : Payload → Outcome

unfoldable pub spawned : ℕ → Runtime × KtResult ℕ → Runtime × KtResult Task
spawned req_id (e, err x) = (e, err x)
spawned req_id (e, ok t) = (e, ok (record { req_id = req_id; token = t; result = none }))

unfoldable pub spawn_request : Runtime → ℕ → Runtime × KtResult Task
spawn_request e req_id = spawned req_id (register e req_id)

unfoldable pub is_cancelled : List Bool → ℕ → Bool
is_cancelled tokens t = elim (get_elem? tokens t) [ none ↦ false | some b ↦ b ]

unfoldable pub outcome_pending : ℕ → Outcome → Pending
outcome_pending req_id (completes p) = p
outcome_pending req_id (unwinds m) = error req_id kt_err_panic (text "panic: " ++ panic_message m)

-- The biased `select!`, which holds no lock: the token is looked at first.
unfoldable pub select : Runtime → Task → Outcome → Pending
select e task o =
    if is_cancelled e.tokens task.token
    then error task.req_id kt_err_cancelled (text "cancelled")
    else outcome_pending task.req_id o

-- The end of the task, under the lock of the table, which it takes once the select is over: the result
-- is sent if this call retires the request, and dropped if not, or if the queue is closed.
unfoldable pub finish_task : Runtime → Task → Pending → Runtime × Option Pending
finish_task e task result =
    if contains_key task.req_id e.pending
    then (
      record e { pending = remove task.req_id e.pending; queue = (push e.queue result).0 },
      (push e.queue result).1,
    )
    else (e, some result)
