-- ===== src/Rpc/Examples.antt =====
-- A call that outlives its deadline: src/rpc.rs, core-bridge/rust/kt-bridge.
use temporal_kt_bridge.Base.{◌≡◌, refl, text, decimal, [], ◌∷◌, some, none, true}
use temporal_kt_bridge.Base.Int.{pos}
use temporal_kt_bridge.Error.{ok, err, invalid_argument, grpc_status_code}
use temporal_kt_bridge.Rpc.{
  workflow, Method, Grpc, answered, from_u32, call, dispatch, with_deadline, outcome,
  deadline_exceeded, status_message,
}
use temporal_kt_bridge.Rpc.Outcomes.{Tells, in_flight, call-Tells}

-- Every name is an RPC that answers its request, after more than a second.
abbrev slow : Method
slow = record {
  decode_error = λ bytes. none;
  invoke = λ bytes timeout. record { answer = answered bytes; outlives = λ t. true };
}

abbrev grpc : Grpc
grpc = record {
  method = λ service rpc. some slow;
  unit_method = λ rpc. none;
  encode = λ f. f.message;
  debug_code = λ code. text "Unknown";
  debug_duration = λ t. text "1s";
}

call-Tells_example :
    Tells grpc
      (some 1_000)
      (in_flight grpc workflow (text "QueryWorkflow") (7 ∷ []) (some 1_000))
      (call grpc workflow (text "QueryWorkflow") (7 ∷ []) (some 1_000))
call-Tells_example = call-Tells grpc workflow (text "QueryWorkflow") (7 ∷ []) (some 1_000)

deadline_elapsed :
    call grpc workflow (text "QueryWorkflow") (7 ∷ []) (some 1_000)
    ≡ ok (record {
      payload = text "client deadline of 1s elapsed";
      status_code = pos 4;
      message = text "client deadline of 1s elapsed";
    })
unfolding call dispatch with_deadline outcome deadline_exceeded status_message grpc_status_code text
deadline_elapsed = refl

-- There is no service 3.
health_rejected : from_u32 3 ≡ err (invalid_argument (text "unknown service 3"))
unfolding from_u32 text decimal
health_rejected = refl
