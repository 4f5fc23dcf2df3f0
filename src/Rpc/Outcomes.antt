-- ===== src/Rpc/Outcomes.antt =====
-- What the JVM learns of a gRPC call: src/rpc.rs, core-bridge/rust/kt-bridge.
use temporal_kt_bridge.Base.{
  append-nonempty, is_empty, ℕ, ◌≡◌, ◌≢◌, refl, Bytes, text, List, [], ◌∷◌, ◌++◌, Option, none,
  some, if◌then◌else◌, ◌⊎◌, inl, inr,
}
use temporal_kt_bridge.Base.Int.{pos}
use temporal_kt_bridge.Error.{invalid_argument, KtResult, ok, err, grpc_status_code}
use temporal_kt_bridge.Rpc.{
  Service, workflow, operator, test, RpcOutcome, Failure, Answer, answered, failed, Future, Method,
  Grpc, join, with_deadline, chain_message, status_message, outcome, dispatch,
  call_test_service_unit, call_test_service, call,
}

-- The call has a response, and the outcome carries it.
abbrev pub Responds : RpcOutcome → Answer → Type 0
Responds o a =
    (response : Bytes) × (a ≡ answered response)
    × (o ≡ record { payload = response; status_code = pos 0; message = [] })

-- The call has failed: the outcome has the code of the status and a message, and its payload is the
-- message with the details.
abbrev pub Fails : Grpc → RpcOutcome → Answer → Type 0
Fails g o a =
    (f : Failure) × (a ≡ failed f)
    × (o.status_code ≡ grpc_status_code f.status.status)
    × (o.message ≢ [])
    × (o.payload ≡ g.encode (record { message = o.message; details = f.status.details }))

-- The call that a name selects, if the request is accepted.
abbrev pub selected : Grpc → Service → Bytes → Bytes → Option ℕ → Option Future
selected g service rpc bytes timeout = elim (g.method service rpc) [
  | none ↦ none
  | some m ↦ elim (m.decode_error bytes) [ some e ↦ none | none ↦ some (m.invoke bytes timeout) ]
]

abbrev pub in_flight : Grpc → Service → Bytes → Bytes → Option ℕ → Option Future
in_flight g test rpc bytes timeout = elim (g.unit_method rpc) [
  | some invoke ↦ some (invoke timeout)
  | none ↦ selected g test rpc bytes timeout
]
in_flight g workflow rpc bytes timeout = selected g workflow rpc bytes timeout
in_flight g operator rpc bytes timeout = selected g operator rpc bytes timeout

chain_message-nonempty :
    (g : Grpc) (code : Bytes) (causes : List Bytes) → chain_message g code causes ≢ []
unfolding chain_message text
chain_message-nonempty g [] [] = λ e. cc
chain_message-nonempty g (x ∷ code) [] = λ e. cc
chain_message-nonempty g code (c ∷ cs) = append-nonempty code (text ": ") (join (c ∷ cs)) (λ e. cc)

status_message-nonempty : (g : Grpc) (f : Failure) → status_message g f ≢ []
unfolding status_message
status_message-nonempty g f = by_message f.status.message
  where
    by_message :
        (m : Bytes)
        → (if is_empty m
            then chain_message g (g.debug_code f.status.status.status_code) f.causes
            else m)
          ≢ []
    by_message [] = chain_message-nonempty g (g.debug_code f.status.status.status_code) f.causes
    by_message (x ∷ m) = λ e. cc

outcome_cases : (g : Grpc) (a : Answer) → Responds (outcome g a) a ⊎ Fails g (outcome g a) a
unfolding outcome
outcome_cases g (answered response) = inl (response, refl, refl)
outcome_cases g (failed f) = inr (f, refl, refl, status_message-nonempty g f, refl)

-- What a call tells of the future that it awaits.
abbrev pub Tells : Grpc → Option ℕ → Option Future → KtResult RpcOutcome → Type 0
Tells g timeout none r = (e : Bytes) × (r ≡ err (invalid_argument e))
Tells g timeout (some future) r =
    (o : RpcOutcome) × (r ≡ ok o)
    × (Responds o (with_deadline g timeout future) ⊎ Fails g o (with_deadline g timeout future))

dispatch-Tells :
    (g : Grpc) (service : Service) (rpc bytes : Bytes) (timeout : Option ℕ)
    → Tells g timeout
        (selected g service rpc bytes timeout)
        (dispatch g (g.method service rpc) rpc bytes timeout)
unfolding dispatch
dispatch-Tells g service rpc bytes timeout = by_method (g.method service rpc)
  where
    by_decoding :
        (m : Method) (e : Option Bytes)
        → Tells g timeout
            (elim e [ some e ↦ none | none ↦ some (m.invoke bytes timeout) ])
            (elim e [
              | some e ↦ err (invalid_argument (rpc ++ text " request: " ++ e))
              | none ↦ ok (outcome g (with_deadline g timeout (m.invoke bytes timeout)))
            ])
    by_decoding m (some e) = (rpc ++ text " request: " ++ e, refl)
    by_decoding m none =
        let a = with_deadline g timeout (m.invoke bytes timeout) in
        (outcome g a, refl, outcome_cases g a)

    by_method :
        (m : Option Method)
        → Tells g timeout
            (elim m [
              | none ↦ none
              | some m ↦ elim (m.decode_error bytes) [
                | some e ↦ none
                | none ↦ some (m.invoke bytes timeout)
              ]
            ])
            (dispatch g m rpc bytes timeout)
    by_method none = (text "unknown rpc " ++ rpc, refl)
    by_method (some m) = by_decoding m (m.decode_error bytes)

abbrev unit_outcome : Grpc → Option ℕ → Option (Option ℕ → Future) → Option RpcOutcome
unit_outcome g timeout u = elim u [
  | some invoke ↦ some (outcome g (with_deadline g timeout (invoke timeout)))
  | none ↦ none
]

test-Tells :
    (g : Grpc) (rpc bytes : Bytes) (timeout : Option ℕ)
    → Tells g timeout (in_flight g test rpc bytes timeout) (call_test_service g rpc bytes timeout)
unfolding call_test_service call_test_service_unit
test-Tells g rpc bytes timeout = by_unit (g.unit_method rpc)
  where
    by_unit :
        (u : Option (Option ℕ → Future))
        → Tells g timeout
            (elim u [
              | some invoke ↦ some (invoke timeout)
              | none ↦ selected g test rpc bytes timeout
            ])
            (elim (unit_outcome g timeout u) [
              | some o ↦ ok o
              | none ↦ dispatch g (g.method test rpc) rpc bytes timeout
            ])
    by_unit (some invoke) =
        let a = with_deadline g timeout (invoke timeout) in (outcome g a, refl, outcome_cases g a)
    by_unit none = dispatch-Tells g test rpc bytes timeout

-- A call is rejected as an invalid argument if its name or its request is, and else has an outcome of
-- what it comes to under the deadline: a response goes through as it is, with the status 0; a failure
-- has the code of its status, a message that is never empty, and the message and the details as payload.
pub call-Tells :
    (g : Grpc) (service : Service) (rpc bytes : Bytes) (timeout : Option ℕ)
    → Tells g timeout (in_flight g service rpc bytes timeout) (call g service rpc bytes timeout)
unfolding call
call-Tells g workflow rpc bytes timeout = dispatch-Tells g workflow rpc bytes timeout
call-Tells g operator rpc bytes timeout = dispatch-Tells g operator rpc bytes timeout
call-Tells g test rpc bytes timeout = test-Tells g rpc bytes timeout
