-- ===== src/Handle/Examples.antt =====
-- Runs of the handle table of src/handle.rs, core-bridge/rust/kt-bridge.
use temporal_kt_bridge.Base.{ℕ, ◌≡◌, ◌↔◌, refl, arith, [], ◌∷◌, none, some, ◌⊎◌}
use temporal_kt_bridge.Error.{shutdown, stale_handle, wrong_handle_kind, ok, err, done}
use temporal_kt_bridge.Base.{◌≢◌, List, ◌<◌, ◌^◌, length}
use temporal_kt_bridge.Handle.{new}
use temporal_kt_bridge.Handle.{
  Entry, runtime, client, worker, ephemeral, poller, kind_runtime, kind_poller, kind_of,
  generation_of, index_of, encode, Table, close, place, slot_at, validate_slot, validate_entry,
  take, taken, vacate, next_generation, kind, insert, insert_owned, insert_into, validate,
}
use temporal_kt_bridge.Handle.Owned.{
  require_owner, remove_runtime, expect_runtime, reap, get_runtime, get_client, get_worker,
  get_ephemeral, get_poller,
}
use temporal_kt_bridge.Handle.Codec.{encode-fields}
use temporal_kt_bridge.Handle.Sample.{
  runtime_handle, worker_handle, freed_slot, table, table-IsWellFormed, table-runtime,
}
use temporal_kt_bridge.Handle.Refinement.{
  Op, insert_free, insert_under, remove_owner, Reply, bound, execute, Map, reply_inserted,
  reply_closed,
}
use temporal_kt_bridge.Handle.Refinement
use temporal_kt_bridge.Handle.Simulation.{IsWord}
use temporal_kt_bridge.Handle.Traces.{Runs, go, stop, Permits, table_refines_map}
use temporal_kt_bridge.Handle.Reap.{Reaps, remove_runtime-Reaps}
use temporal_kt_bridge.Handle.Invariant.{view}
use temporal_kt_bridge.Handle.Remove.{Removes, Refuses, remove_of_kind_lem}
use temporal_kt_bridge.Handle.Owner.{require_owner_iff}
use temporal_kt_bridge.Handle.Lookup.{Resolves, Binds, insert_owned_lem, getters_iff}

remove_of_kind_lem_example : Removes table worker_handle 3 ⊎ Refuses table worker_handle 3
remove_of_kind_lem_example =
    remove_of_kind_lem table worker_handle 3 table-IsWellFormed (omega arith)

getters_iff_example :
    ((get_runtime table worker_handle ≡ done (ok 8)) ↔ Resolves table worker_handle (runtime 8))
    × ((get_client table worker_handle ≡ done (ok 8)) ↔ Resolves table worker_handle (client 8))
    × ((get_worker table worker_handle ≡ done (ok 8)) ↔ Resolves table worker_handle (worker 8))
    × ((get_ephemeral table worker_handle ≡ done (ok 8))
        ↔ Resolves table worker_handle (ephemeral 8))
    × ((get_poller table worker_handle ≡ done (ok 8)) ↔ Resolves table worker_handle (poller 8))
getters_iff_example = getters_iff table worker_handle 8

insert_owned_lem_example :
    ((r : ℕ) × (t' : Table) × (h : ℕ) × Resolves table runtime_handle (runtime r)
      × (insert_owned table runtime_handle (client 9)
          ≡ done (record { table = t'; result = ok h; closing = [] }))
      × Binds table (client 9) runtime_handle t' h)
    ⊎ (((r : ℕ) → ¬ Resolves table runtime_handle (runtime r))
        × (insert_owned table runtime_handle (client 9)
            ≡ done (record { table = table; result = err shutdown; closing = close (client 9) })))
insert_owned_lem_example =
    insert_owned_lem table runtime_handle (client 9) table-IsWellFormed (omega arith)

require_owner_iff_example : (require_owner table worker_handle runtime_handle ≡ done (ok tt)) ↔ (
    (e : Entry) × (view table worker_handle ≡ some (record { entry = e; owner = runtime_handle })))
require_owner_iff_example = require_owner_iff table worker_handle runtime_handle

encode-fields_example :
    encode (kind_of worker_handle) (generation_of worker_handle) (index_of worker_handle)
    ≡ worker_handle
encode-fields_example = encode-fields worker_handle (omega arith)

-- A freed slot is filled again under its new generation.
abbrev refilled : Table
refilled = record {
  slots =
      record { generation = 1; owner = 0; entry = some (runtime 7) }
      ∷ record { generation = 1; owner = runtime_handle; entry = some (worker 8) }
      ∷ record { generation = 2; owner = 0; entry = some (poller 4) }
      ∷ [];
  free = [];
}

refills : insert table (poller 4) ≡ done (refilled, 0x0500_0002_0000_0002)
unfolding insert insert_into place slot_at encode kind
refills = refl

-- The handle that the slot had before is stale, and one with a forged kind is refused.
stale_before : validate refilled 0x0500_0001_0000_0002 kind_poller ≡ err stale_handle
unfolding validate validate_slot kind_of generation_of index_of
stale_before = refl

forged : validate refilled 0x0100_0002_0000_0002 kind_runtime ≡ err wrong_handle_kind
unfolding validate validate_slot validate_entry kind_of generation_of index_of kind
forged = refl

-- Closing a runtime takes the worker that it owns, and leaves the freed slots on the free list.
abbrev closed : Table
closed = record {
  slots =
      record { generation = 2; owner = 0; entry = none }
      ∷ record { generation = 2; owner = 0; entry = none }
      ∷ freed_slot
      ∷ [];
  free = 1 ∷ 0 ∷ 2 ∷ [];
}

closes : remove_runtime table runtime_handle ≡ done (closed, ok (7, worker 8 ∷ []))
unfolding remove_runtime validate validate_slot validate_entry kind_of generation_of index_of kind
    take taken vacate next_generation slot_at expect_runtime reap
closes = refl

remove_runtime-Reaps_example : Reaps table runtime_handle 7
remove_runtime-Reaps_example =
    remove_runtime-Reaps table runtime_handle 7 table-IsWellFormed (omega arith) table-runtime

-- A runtime, its worker, and the end of both.
abbrev one_runtime : Table
one_runtime = record {
  slots = record { generation = 1; owner = 0; entry = some (runtime 7) } ∷ [];
  free = [];
}

abbrev both : Table
both = record {
  slots =
      record { generation = 1; owner = 0; entry = some (runtime 7) }
      ∷ record { generation = 1; owner = runtime_handle; entry = some (worker 8) }
      ∷ [];
  free = [];
}

abbrev ended : Table
ended = record {
  slots =
      record { generation = 2; owner = 0; entry = none }
      ∷ record { generation = 2; owner = 0; entry = none }
      ∷ [];
  free = 1 ∷ 0 ∷ [];
}

not_a_runtime : kind (worker 8) ≢ kind_runtime
unfolding kind
not_a_runtime = λ e. omega (arith, e)

abbrev trace : List (Op × Reply)
trace =
    (insert_free (runtime 7), bound runtime_handle)
    ∷ (insert_under runtime_handle (worker 8) not_a_runtime, bound worker_handle)
    ∷ (remove_owner runtime_handle, Refinement.closed 7)
    ∷ []

trace-Runs : Runs new trace ended
unfolding new execute insert insert_into insert_owned place slot_at encode reply_inserted
    reply_closed validate validate_slot validate_entry kind_of generation_of index_of kind
    remove_runtime take taken vacate next_generation expect_runtime reap
trace-Runs =
    go new one_runtime ended (insert_free (runtime 7)) (bound runtime_handle)
      ((insert_under runtime_handle (worker 8) not_a_runtime, bound worker_handle)
        ∷ (remove_owner runtime_handle, Refinement.closed 7)
        ∷ [])
      tt (omega arith) refl
      (go one_runtime both ended (insert_under runtime_handle (worker 8) not_a_runtime)
        (bound worker_handle) ((remove_owner runtime_handle, Refinement.closed 7) ∷ [])
        (omega arith) (omega arith) refl
        (go both ended ended (remove_owner runtime_handle) (Refinement.closed 7) [] (omega arith)
          (omega arith) refl (stop ended)))

table_refines_map_example :
    ((m : Map) × Permits (λ x. none) trace m × ((x : ℕ) → x < 2 ^ 64 → view ended x ≡ m x))
    × ((op : Op)
        → IsWord op
        → length ended.slots < 2 ^ 32
        → (t' : Table) × (reply : Reply) × (execute ended op ≡ done (t', reply)))
table_refines_map_example = table_refines_map trace ended trace-Runs
