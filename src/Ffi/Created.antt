-- ===== src/Ffi/Created.antt =====
-- A creation hands its handle over or closes its object: src/lib.rs, core-bridge/rust/kt-bridge.
use temporal_kt_bridge.Base.{ℕ, ◌^◌, ◌<◌, ◌≡◌, refl, Bytes, [], length, some, ◌⊎◌, inl, inr}
use temporal_kt_bridge.Error.{shutdown, code, to_string, kt_ok, kt_err_shutdown, done}
use temporal_kt_bridge.Handle.{Entry, runtime, client, ephemeral, kind, close, Table, insert_owned}
use temporal_kt_bridge.Handle.Invariant.{IsWellFormed}
use temporal_kt_bridge.Handle.Lookup.{Resolves, Binds, insert_owned_lem}
use temporal_kt_bridge.Queue.{Pending, ack, error, with_kind, with_payload, with_aux0, carried_kind}
use temporal_kt_bridge.Client.{RpcFailure}
use temporal_kt_bridge.Ephemeral.{success}
use temporal_kt_bridge.Ffi.Answers.{
  Answered, created, answer_of, connection, connected, connect_answer, started, start_answer,
}

-- The answer carries the handle of the new object, at the kind under which dropping it releases it.
abbrev pub HandsOver : Table → ℕ → Entry → Answered → Type 0
HandsOver t owner e (t', answer, closing) =
    (r : ℕ) × Resolves t owner (runtime r)
    × (answer.status ≡ kt_ok)
    × (carried_kind answer.kind ≡ some (kind e))
    × Binds t e owner t' answer.aux0
    × (closing ≡ [])

-- The runtime is gone: the object is closed, and no handle is bound or told.
abbrev pub Discards : Table → ℕ → Entry → Answered → Type 0
Discards t owner e (t', answer, closing) =
    ((r : ℕ) → ¬ Resolves t owner (runtime r))
    × (answer.status ≡ kt_err_shutdown)
    × (answer.aux0 ≡ 0)
    × (t' ≡ t)
    × (closing ≡ close e)

creation_settled :
    (t : Table) (owner req_id : ℕ) (e : Entry) (build : ℕ → Pending)
    → IsWellFormed t
    → length t.slots < 2 ^ 32
    → ((h : ℕ)
        → ((build h).status ≡ kt_ok)
          × (carried_kind (build h).kind ≡ some (kind e))
          × ((build h).aux0 ≡ h))
    → (a : Answered) × (answer_of req_id build (insert_owned t owner e) ≡ done a)
      × (HandsOver t owner e a ⊎ Discards t owner e a)
unfolding answer_of created
creation_settled t owner req_id e build v room built = elim (insert_owned_lem t owner e v room) [
  | inl (r, t', h, resolves, runs, binds) ↦
      let (status, carried, told) = built h in
      ((t', build h, []), rw runs refl, inl (r, resolves, status, carried, rw told binds, refl))
  | inr (gone, runs) ↦ (
    (t, error req_id (code shutdown) (to_string shutdown), close e),
    rw runs refl,
    inr (gone, unfold error code in refl, unfold error in refl, refl, refl),
  )
]

-- On a well-formed table with room for one more index, the answer of a connection that succeeded and of a
-- server that was started either hands over the handle that it has bound for the new object under a live
-- runtime, at the kind under which an undelivered answer releases it; or, with the runtime gone, is an
-- error without a handle, and the object is closed with the table unchanged.
pub creations_settled :
    (encode : RpcFailure → Bytes) (t : Table) (owner req_id c s : ℕ) (info : Bytes)
    → IsWellFormed t
    → length t.slots < 2 ^ 32
    → ((a : Answered) × (connect_answer encode t owner req_id (connection c) ≡ done a)
        × (HandsOver t owner (client c) a ⊎ Discards t owner (client c) a))
      × ((a : Answered) × (start_answer t owner req_id (success (s, info)) ≡ done a)
          × (HandsOver t owner (ephemeral s) a ⊎ Discards t owner (ephemeral s) a))
unfolding connect_answer start_answer
creations_settled encode t owner req_id c s info v room = (
  creation_settled t owner req_id (client c) (connected req_id) v room
      (λ h. unfold connected ack with_kind with_aux0 carried_kind kind in (refl, refl, refl)),
  creation_settled t owner req_id (ephemeral s) (started req_id info) v room (λ h.
      unfold started ack with_kind with_aux0 with_payload carried_kind kind in (refl, refl, refl)),
)
