-- ===== src/Error/Codes.antt =====
-- The codes of src/error.rs of core-bridge/rust/kt-bridge: what a caller can tell from a code.
use temporal_kt_bridge.Base.{
  ◌≡◌, ◌≢◌, refl, arith, Bool, true, false, ◌||◌, ◌&&◌, List, [], ◌∷◌, ◌==◌, if◌then◌else◌, ℕ,
}
use temporal_kt_bridge.Base.Int.{pos}
use temporal_kt_bridge.Error.{
  KtError, kt_ok, kt_err_panic, code, invalid_argument, failed, GrpcStatus, grpc_status_code,
  chain_code, grpc_cancelled, grpc_deadline_exceeded,
}

-- The variant of an error, its message forgotten.
abbrev pub without_message : KtError → KtError
without_message (invalid_argument _) = invalid_argument []
without_message (failed _) = failed []
without_message e = e

-- Two errors have one code only if they are of one variant, and no error has the code of success
-- or that of a panic.
pub code_tells_apart :
    (a b : KtError)
    → (code a ≡ code b → without_message a ≡ without_message b)
      × (code a ≢ kt_ok)
      × (code a ≢ kt_err_panic)
unfolding code
code_tells_apart a b = ground arith

-- Whether some error of the source chain is tonic's expired timeout.
abbrev pub any : List Bool → Bool
any [] = false
any (b ∷ bs) = b || any bs

chain_code-any :
    (c : ℕ) (bs : List Bool) → chain_code c bs ≡ (if any bs then grpc_deadline_exceeded else c)
unfolding chain_code
chain_code-any c [] = refl
chain_code-any c (true ∷ bs) = refl
chain_code-any c (false ∷ bs) = chain_code-any c bs

-- A status becomes DEADLINE_EXCEEDED exactly when it is CANCELLED and some error of its source
-- chain is tonic's expired timeout; every other status keeps its code.
pub grpc_status_code_lem :
    (s : GrpcStatus)
    → grpc_status_code s
      ≡ pos (
          if (s.status_code == grpc_cancelled) && any s.sources
          then grpc_deadline_exceeded
          else s.status_code)
unfolding grpc_status_code
grpc_status_code_lem s = ground (arith, chain_code-any s.status_code s.sources)
