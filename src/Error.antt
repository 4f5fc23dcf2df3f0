-- ===== src/Error.antt =====
-- src/error.rs and src/panic.rs of core-bridge/rust/kt-bridge, with the codes of src/abi.rs: the errors
-- of the bridge, the panics of its code, and the containment of both at the FFI boundary.
pub mod Codes
pub mod Contain
mod Examples
use temporal_kt_bridge.Base.{
  ℕ, Bytes, text, ◌++◌, List, [], ◌∷◌, Bool, true, false, ◌==◌, if◌then◌else◌,
}
use temporal_kt_bridge.Base.Int.{ℤ, pos, negsuc}

pub data KtError : Type 0 where
  invalid_argument : Bytes → KtError
  stale_handle : KtError
  wrong_handle_kind : KtError
  shutdown : KtError
  worker_shut_down : KtError
  cancelled : KtError
  buffer_too_small : KtError
  failed : Bytes → KtError

pub data KtResult {ℓ} (A : Type ℓ) : Type ℓ where
  ok : A → KtResult A
  err : KtError → KtResult A

abbrev pub kt_ok : ℤ
kt_ok = pos 0

abbrev pub kt_err_panic : ℤ
kt_err_panic = negsuc 0

abbrev pub kt_err_invalid_argument : ℤ
kt_err_invalid_argument = negsuc 1

abbrev pub kt_err_stale_handle : ℤ
kt_err_stale_handle = negsuc 2

abbrev pub kt_err_wrong_handle_kind : ℤ
kt_err_wrong_handle_kind = negsuc 3

abbrev pub kt_err_shutdown : ℤ
kt_err_shutdown = negsuc 4

abbrev pub kt_err_worker_shut_down : ℤ
kt_err_worker_shut_down = negsuc 5

abbrev pub kt_err_cancelled : ℤ
kt_err_cancelled = negsuc 6

abbrev pub kt_err_failed : ℤ
kt_err_failed = negsuc 7

abbrev pub kt_err_buffer_too_small : ℤ
kt_err_buffer_too_small = negsuc 8

-- The wire code of an error.
unfoldable pub code : KtError → ℤ
code (invalid_argument _) = kt_err_invalid_argument
code stale_handle = kt_err_stale_handle
code wrong_handle_kind = kt_err_wrong_handle_kind
code shutdown = kt_err_shutdown
code worker_shut_down = kt_err_worker_shut_down
code cancelled = kt_err_cancelled
code buffer_too_small = kt_err_buffer_too_small
code (failed _) = kt_err_failed

-- The text of an error, from its `#[error]` attribute.
unfoldable pub to_string : KtError → Bytes
unfolding text
to_string (invalid_argument m) = text "invalid argument: " ++ m
to_string stale_handle = text "stale handle"
to_string wrong_handle_kind = text "handle is not of the expected kind"
to_string shutdown = text "runtime is shutting down"
to_string worker_shut_down = text "worker already shut down"
to_string cancelled = text "cancelled"
to_string buffer_too_small = text "buffer too small"
to_string (failed m) = m

-- What a panic carries: a literal, an owned text, or a value that is neither.
pub data Payload : Type 0 where
  static_str : Bytes → Payload
  owned : Bytes → Payload
  opaque : Payload

-- Code that returns, or that unwinds with a panic.
pub data Exec {ℓ} (A : Type ℓ) : Type ℓ where
  done : A → Exec A
  panics : Payload → Exec A

infixl 5 ◌>>=◌
abbrev pub ◌>>=◌ {ℓ κ} : {A : Type ℓ} {B : Type κ} → Exec A → (A → Exec B) → Exec B
done a >>= f = f a
panics p >>= f = panics p

unfoldable pub panic_message : Payload → Bytes
unfolding text
panic_message (static_str m) = m
panic_message (owned m) = m
panic_message opaque = text "non-string panic payload"

-- The state of one thread's `LAST_ERROR`: `set_last_error` clears it and writes the message.
unfoldable pub set_last_error : Bytes → Bytes → Bytes
set_last_error slot message = message

-- Runs the body of an entry point. It takes the thread's last error and gives the status code with
-- the last error as the call leaves it.
unfoldable pub guard : Bytes → Exec (KtResult (Unit {0})) → ℤ × Bytes
unfolding code to_string set_last_error panic_message text
guard last (done (ok tt)) = (kt_ok, last)
guard last (done (err e)) = (code e, set_last_error last (to_string e))
guard last (panics p) = (kt_err_panic, set_last_error last (text "panic: " ++ panic_message p))

-- What the code reads of a tonic status: its code, and for each error of its source chain whether
-- that is tonic's `TimeoutExpired`.
pub record GrpcStatus : Type 0 where
  pub status_code : ℕ
  pub sources : List Bool

abbrev pub grpc_cancelled : ℕ
grpc_cancelled = 1

abbrev pub grpc_deadline_exceeded : ℕ
grpc_deadline_exceeded = 4

-- The walk over the source chain: the first expired timeout decides.
chain_code : ℕ → List Bool → ℕ
chain_code c [] = c
chain_code c (true ∷ rest) = grpc_deadline_exceeded
chain_code c (false ∷ rest) = chain_code c rest

unfoldable pub grpc_status_code : GrpcStatus → ℤ
unfolding chain_code
grpc_status_code s =
    pos (
      if s.status_code == grpc_cancelled then chain_code s.status_code s.sources else s.status_code)
