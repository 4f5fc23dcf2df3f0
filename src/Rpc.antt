-- ===== src/Rpc.antt =====
-- src/rpc.rs of core-bridge/rust/kt-bridge: one gRPC call. The tables of RPC names, which are generated,
-- are an argument.
pub mod Outcomes
mod Examples
use temporal_kt_bridge.Base.{
  is_empty, ℕ, Bytes, text, decimal, eqb, List, [], ◌∷◌, ◌++◌, Option, none, some, Bool, true,
  false, ◌==◌, if◌then◌else◌,
}
use temporal_kt_bridge.Base.Int.{ℤ, pos}
use temporal_kt_bridge.Error.{
  invalid_argument, KtResult, ok, err, GrpcStatus, grpc_status_code, grpc_deadline_exceeded,
}
use temporal_kt_bridge.Client.{Status, RpcFailure}

pub data Service : Type 0 where
  workflow operator test : Service

unfoldable pub from_u32 : ℕ → KtResult Service
from_u32 value =
    if value == 0
    then ok workflow
    else if value == 1
    then ok operator
    else if value == 2
    then ok test
    else err (invalid_argument (text "unknown service " ++ decimal value))

pub record RpcOutcome : Type 0 where
  pub payload : Bytes
  pub status_code : ℤ
  pub message : Bytes

-- A status with the texts of the errors in its source chain.
pub record Failure : Type 0 where
  pub status : Status
  pub causes : List Bytes

-- What a call comes to: the encoded response, or a failure.
pub data Answer : Type 0 where
  answered : Bytes → Answer
  failed : Failure → Answer

-- A call in flight: what it comes to, and whether it is still in flight when a time has elapsed.
pub record Future : Type 0 where
  pub answer : Answer
  pub outlives : ℕ → Bool

-- One RPC of a service: the error of decoding its request, and the call, with the timeout that the
-- request carries.
pub record Method : Type 0 where
  pub decode_error : Bytes → Option Bytes
  pub invoke : Bytes → Option ℕ → Future

-- What the code takes from outside: the RPCs by service and name, those of the test service that have no
-- request, the encoding of a failure, and the debug texts of a status code and of a duration.
pub record Grpc : Type 0 where
  pub method : Service → Bytes → Option Method
  pub unit_method : Bytes → Option (Option ℕ → Future)
  pub encode : RpcFailure → Bytes
  pub debug_code : ℕ → Bytes
  pub debug_duration : ℕ → Bytes

unfoldable pub join : List Bytes → Bytes
join [] = []
join (b ∷ []) = b
join (b ∷ c ∷ bs) = b ++ text ": " ++ join (c ∷ bs)

module _ (g : Grpc) where
  unfoldable pub deadline_exceeded : Bytes → Failure
  deadline_exceeded message = record {
    status = record {
      status = record { status_code = grpc_deadline_exceeded; sources = [] };
      message = message;
      details = [];
    };
    causes = [];
  }

  unfoldable pub with_deadline : Option ℕ → Future → Answer
  with_deadline none call = call.answer
  with_deadline (some t) call =
      if call.outlives t
      then failed
          (deadline_exceeded (text "client deadline of " ++ g.debug_duration t ++ text " elapsed"))
      else call.answer

  unfoldable pub chain_message : Bytes → List Bytes → Bytes
  chain_message code [] = code ++ text " with no message"
  chain_message code (c ∷ cs) = code ++ text ": " ++ join (c ∷ cs)

  unfoldable pub status_message : Failure → Bytes
  status_message f =
      if is_empty f.status.message
      then chain_message (g.debug_code f.status.status.status_code) f.causes
      else f.status.message

  unfoldable pub outcome : Answer → RpcOutcome
  outcome (answered response) = record { payload = response; status_code = pos 0; message = [] }
  outcome (failed f) = record {
    payload = g.encode (record { message = status_message f; details = f.status.details });
    status_code = grpc_status_code f.status.status;
    message = status_message f;
  }

  -- The arm of `dispatch!` that the name selects.
  unfoldable pub dispatch : Option Method → Bytes → Bytes → Option ℕ → KtResult RpcOutcome
  dispatch none rpc bytes timeout = err (invalid_argument (text "unknown rpc " ++ rpc))
  dispatch (some m) rpc bytes timeout = elim (m.decode_error bytes) [
    | some e ↦ err (invalid_argument (rpc ++ text " request: " ++ e))
    | none ↦ ok (outcome (with_deadline timeout (m.invoke bytes timeout)))
  ]

  unfoldable pub call_test_service_unit : Bytes → Option ℕ → Option RpcOutcome
  call_test_service_unit rpc timeout = elim (g.unit_method rpc) [
    | some invoke ↦ some (outcome (with_deadline timeout (invoke timeout)))
    | none ↦ none
  ]

  unfoldable pub call_test_service : Bytes → Bytes → Option ℕ → KtResult RpcOutcome
  call_test_service rpc bytes timeout = elim (call_test_service_unit rpc timeout) [
    | some o ↦ ok o
    | none ↦ dispatch (g.method test rpc) rpc bytes timeout
  ]

  unfoldable pub call : Service → Bytes → Bytes → Option ℕ → KtResult RpcOutcome
  call workflow rpc bytes timeout = dispatch (g.method workflow rpc) rpc bytes timeout
  call operator rpc bytes timeout = dispatch (g.method operator rpc) rpc bytes timeout
  call test rpc bytes timeout = call_test_service rpc bytes timeout
