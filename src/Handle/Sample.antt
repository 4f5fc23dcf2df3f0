-- ===== src/Handle/Sample.antt =====
-- A handle table with a runtime and its worker, for the examples: src/handle.rs of
-- core-bridge/rust/kt-bridge.
use temporal_kt_bridge.Base.{ℕ, zero, suc, ◌≡◌, refl, arith, count, [], ◌∷◌, none, some, get_elem?}
use temporal_kt_bridge.Handle.{runtime, worker, Slot, Table, kind, kind_of, generation_of, index_of}
use temporal_kt_bridge.Handle.Invariant.{view, IsWellFormed, vacant}

-- A runtime, a worker that it owns, and a slot that was freed once.
abbrev pub runtime_handle : ℕ
runtime_handle = 0x0100_0001_0000_0000

abbrev pub worker_handle : ℕ
worker_handle = 0x0300_0001_0000_0001

abbrev pub freed_slot : Slot
freed_slot = record { generation = 2; owner = 0; entry = none }

abbrev pub table : Table
table = record {
  slots =
      record { generation = 1; owner = 0; entry = some (runtime 7) }
      ∷ record { generation = 1; owner = runtime_handle; entry = some (worker 8) }
      ∷ freed_slot
      ∷ [];
  free = 2 ∷ [];
}

table-vacancies : (i : ℕ) → count i table.free ≡ vacant (get_elem? table.slots i)
table-vacancies zero = refl
table-vacancies (suc zero) = refl
table-vacancies (suc (suc zero)) = refl
table-vacancies (suc (suc (suc i))) = ground arith

pub table-IsWellFormed : IsWellFormed table
table-IsWellFormed = record {
  sized = omega arith;
  good = (
    record { positive = omega arith; fits = omega arith; unowned = λ e. cc },
    (
      record { positive = omega arith; fits = omega arith; unowned = λ e. cc },
      (record { positive = omega arith; fits = omega arith; unowned = λ e. refl }, tt),
    ),
  );
  vacancies = table-vacancies;
}

pub table-runtime : view table runtime_handle ≡ some (record { entry = runtime 7; owner = 0 })
unfolding kind kind_of generation_of index_of
table-runtime = refl

pub table-worker :
    view table worker_handle ≡ some (record { entry = worker 8; owner = runtime_handle })
unfolding kind kind_of generation_of index_of
table-worker = refl
