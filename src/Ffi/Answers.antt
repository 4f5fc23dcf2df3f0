-- ===== src/Ffi/Answers.antt =====
-- What the tasks of the requests of src/lib.rs, core-bridge/rust/kt-bridge, answer once their operation
-- has come to an end.
use temporal_kt_bridge.Base.{ℕ, Bytes, text, List, [], ◌++◌, Option, none, some, if◌then◌else◌}
use temporal_kt_bridge.Error.{
  code, to_string, kt_err_failed, kt_err_invalid_argument, KtResult, ok, err, Exec, done, ◌>>=◌,
}
use temporal_kt_bridge.Abi.{client_connected, rpc, ephemeral_started}
use temporal_kt_bridge.Handle.{client, ephemeral, Cleanup, Table, Inserted, insert_owned}
use temporal_kt_bridge.Queue.{Pending, ack, error, is_ok, with_kind, with_payload, with_aux0}
use temporal_kt_bridge.Client.{ClientConnectError, RpcFailure, connect_failure}
use temporal_kt_bridge.Rpc.{RpcOutcome}
use temporal_kt_bridge.Ephemeral.{Result, success, failure}

-- A table, the answer, and the cleanups that were started.
abbrev pub Answered : Type 0
Answered = Table × Pending × List Cleanup

-- The answer of an insertion that `build` makes from the handle.
unfoldable pub created : ℕ → (ℕ → Pending) → Inserted → Answered
created req_id build i = elim i.result [
  | ok handle ↦ (i.table, build handle, i.closing)
  | err e ↦ (i.table, error req_id (code e) (to_string e), i.closing)
]

unfoldable pub answer_of : ℕ → (ℕ → Pending) → Exec Inserted → Exec Answered
answer_of req_id build insertion = do i ← insertion; done (created req_id build i)

-- What connecting comes to: a client, or an error.
pub data Connected : Type 0 where
  connection : ℕ → Connected
  refused : ClientConnectError → Connected

unfoldable pub connected : ℕ → ℕ → Pending
connected req_id handle = with_aux0 (with_kind (ack req_id) client_connected) handle

unfoldable pub connect_answer : (RpcFailure → Bytes) → Table → ℕ → ℕ → Connected → Exec Answered
connect_answer encode t owner req_id (connection c) =
    answer_of req_id (connected req_id) (insert_owned t owner (client c))
connect_answer encode t owner req_id (refused e) = done (t, connect_failure encode req_id e, [])

-- `info` is the encoded `EphemeralServerInfo` of the server.
unfoldable pub started : ℕ → Bytes → ℕ → Pending
started req_id info handle =
    with_payload (with_aux0 (with_kind (ack req_id) ephemeral_started) handle) info

unfoldable pub start_answer : Table → ℕ → ℕ → Result (ℕ × Bytes) → Exec Answered
start_answer t owner req_id (success (s, info)) =
    answer_of req_id (started req_id info) (insert_owned t owner (ephemeral s))
start_answer t owner req_id (failure e) = done (t, error req_id kt_err_failed e, [])

unfoldable pub rpc_answer : ℕ → KtResult RpcOutcome → Pending
rpc_answer req_id (ok o) =
    if is_ok o.status_code
    then with_payload (with_kind (ack req_id) rpc) o.payload
    else with_payload (with_kind (error req_id o.status_code o.message) rpc) o.payload
rpc_answer req_id (err e) = with_kind (error req_id (code e) (to_string e)) rpc

-- The error of a validation by the server.
unfoldable pub validate_answer : ℕ → Option Bytes → Pending
validate_answer req_id none = ack req_id
validate_answer req_id (some e) =
    error req_id kt_err_invalid_argument (text "worker validation failed: " ++ e)

-- The answer of a completion, and of the shutdown of a worker or a server.
unfoldable pub result_answer : ℕ → Result (Unit {0}) → Pending
result_answer req_id (success _) = ack req_id
result_answer req_id (failure e) = error req_id kt_err_failed e
