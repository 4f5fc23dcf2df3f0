-- ===== src/Queue.antt =====
-- src/queue.rs of core-bridge/rust/kt-bridge: the completion queue. `Queue.Poll` has the poll.
pub mod Slab
pub mod Poll
pub mod Room
pub mod Batch
pub mod Deliver
pub mod Wait
pub mod Waiting
pub mod Push
pub mod Ownership
pub mod Threads
pub mod Interleavings
pub mod Call
mod Examples
use temporal_kt_bridge.Base.{
  ℕ, zero, suc, ◌+◌, Bytes, List, [], ◌∷◌, ◌++◌, Option, none, some, Bool, true, false, ◌==◌, ◌||◌,
  not, if◌then◌else◌,
}
use temporal_kt_bridge.Base.Int.{ℤ, pos, negsuc}
use temporal_kt_bridge.Error.{Exec, done, ◌>>=◌, kt_ok}
use temporal_kt_bridge.Abi.{KtKind, client_connected, ephemeral_started}
use temporal_kt_bridge.Abi
use temporal_kt_bridge.Handle.{Table, kind_client, kind_ephemeral, remove_of_kind}

-- A completion with its payload.
pub record Pending : Type 0 where
  pub req_id : ℕ
  pub kind : KtKind
  pub status : ℤ
  pub payload : Bytes
  pub aux0 : ℕ
  pub aux1 : ℕ

unfoldable pub ack : ℕ → Pending
ack req_id = record {
  req_id = req_id;
  kind = Abi.ack;
  status = kt_ok;
  payload = [];
  aux0 = 0;
  aux1 = 0;
}

unfoldable pub error : ℕ → ℤ → Bytes → Pending
error req_id status message = record {
  req_id = req_id;
  kind = Abi.ack;
  status = status;
  payload = message;
  aux0 = 0;
  aux1 = 0;
}

-- The builders `kind`, `payload`, `aux0` and `aux1`.
unfoldable pub with_kind : Pending → KtKind → Pending
with_kind p k = record p { kind = k }

unfoldable pub with_payload : Pending → Bytes → Pending
with_payload p bytes = record p { payload = bytes }

unfoldable pub with_aux0 : Pending → ℕ → Pending
with_aux0 p n = record p { aux0 = n }

unfoldable pub with_aux1 : Pending → ℕ → Pending
with_aux1 p n = record p { aux1 = n }

abbrev pub is_ok : ℤ → Bool
is_ok (pos n) = n == 0
is_ok (negsuc n) = false

-- The kind of the handle that a successful creation carries.
unfoldable pub carried_kind : KtKind → Option ℕ
carried_kind client_connected = some kind_client
carried_kind ephemeral_started = some kind_ephemeral
carried_kind _ = none

-- `Drop for Pending`, on the process-wide handle table. The result of the removal is ignored.
unfoldable pub drop : Table → Pending → Exec Table
drop t p = if not (is_ok p.status) || p.aux0 == 0 then done t else elim (carried_kind p.kind) [
  | none ↦ done t
  | some k ↦ do (t', _) ← remove_of_kind t p.aux0 k; done t'
]

pub record State : Type 0 where
  pub queue : List Pending
  pub wakes : ℕ
  pub closed : Bool

unfoldable pub new : State
new = record { queue = []; wakes = 0; closed = false }

-- A push, with the completion that a closed queue drops.
unfoldable pub push : State → Pending → State × Option Pending
push s p = if s.closed then (s, some p) else (record s { queue = s.queue ++ p ∷ [] }, none)

unfoldable pub close : State → State
close s = record s { closed = true }

unfoldable pub is_closed : State → Bool
is_closed s = s.closed

unfoldable pub wake : State → State
wake s = record s { wakes = s.wakes + 1 }
