-- ===== src/Handle.antt =====
-- src/handle.rs: the table that turns opaque u64 handles into the bridge's objects.
pub mod Owned
pub mod Codec
pub mod Invariant
pub mod Insert
pub mod Live
pub mod Remove
pub mod Lookup
pub mod Owner
pub mod Sweep
pub mod Reap
pub mod Sample
pub mod Refinement
pub mod Simulation
pub mod Traces
mod Examples
use temporal_kt_bridge.Base.{
  ℕ, zero, suc, ◌+◌, ◌-◌, ◌*◌, ◌/◌, ◌%◌, ◌^◌, max, bit_and, bit_or, Bytes, text, decimal, List, [],
  ◌∷◌, ◌++◌, length, get_elem?, set, Option, none, some, Bool, true, false, ◌==◌, ltb, not,
  if◌then◌else◌,
}
use temporal_kt_bridge.Error.{
  KtError, invalid_argument, stale_handle, wrong_handle_kind, shutdown, KtResult, ok, err, Exec,
  done, panics, ◌>>=◌, static_str, owned,
}

-- Each entry holds an `Arc`: the number says which object it shares.
pub data Entry : Type 0 where
  runtime client worker ephemeral poller : ℕ → Entry

abbrev pub kind_runtime : ℕ
kind_runtime = 1

abbrev pub kind_client : ℕ
kind_client = 2

abbrev pub kind_worker : ℕ
kind_worker = 3

abbrev pub kind_ephemeral : ℕ
kind_ephemeral = 4

abbrev pub kind_poller : ℕ
kind_poller = 5

unfoldable pub kind : Entry → ℕ
kind (runtime _) = kind_runtime
kind (client _) = kind_client
kind (worker _) = kind_worker
kind (ephemeral _) = kind_ephemeral
kind (poller _) = kind_poller

-- What `Entry::close` starts outside the table: a worker is freed, a server is freed.
pub data Cleanup : Type 0 where
  free_worker free_ephemeral : ℕ → Cleanup

unfoldable pub close : Entry → List Cleanup
close (worker w) = free_worker w ∷ []
close (ephemeral s) = free_ephemeral s ∷ []
close _ = []

pub record Slot : Type 0 where
  pub generation : ℕ
  pub owner : ℕ
  pub entry : Option Entry

-- The head of `free` is the end of the source's vector.
pub record Table : Type 0 where
  pub slots : List Slot
  pub free : List ℕ

unfoldable pub new : Table
new = record { slots = []; free = [] }

abbrev pub kind_shift : ℕ
kind_shift = 56

abbrev pub gen_shift : ℕ
gen_shift = 32

abbrev pub gen_mask : ℕ
gen_mask = 0x00FF_FFFF

-- `x << k` and `x >> k` on u64, and the casts to u8 and u32.
abbrev pub shl : ℕ → ℕ → ℕ
shl x k = x * 2 ^ k % 2 ^ 64

abbrev pub shr : ℕ → ℕ → ℕ
shr x k = x / 2 ^ k

abbrev pub as_u8 : ℕ → ℕ
as_u8 x = x % 2 ^ 8

abbrev pub as_u32 : ℕ → ℕ
as_u32 x = x % 2 ^ 32

-- The three fields of a handle, as the code reads them.
unfoldable pub kind_of : ℕ → ℕ
kind_of h = as_u8 (shr h kind_shift)

unfoldable pub generation_of : ℕ → ℕ
generation_of h = as_u32 (bit_and (shr h gen_shift) gen_mask)

unfoldable pub index_of : ℕ → ℕ
index_of h = as_u32 h

unfoldable pub encode : ℕ → ℕ → ℕ → ℕ
encode k generation index =
    bit_or (bit_or (shl k kind_shift) (shl (bit_and generation gen_mask) gen_shift)) index

-- `slots[index]`.
unfoldable pub slot_at : List Slot → ℕ → Exec Slot
slot_at slots index = elim (get_elem? slots index) [
  | none ↦ panics (
      owned (
        text "index out of bounds: the len is "
        ++ decimal (length slots)
        ++ text " but the index is "
        ++ decimal index))
  | some s ↦ done s
]

-- The slot that an insertion fills, with its index: the last one freed, or a new one at the end.
unfoldable pub place : List ℕ → Table → Entry → ℕ → Exec (Table × ℕ)
place (index ∷ free) t e owner = do
  s ← slot_at t.slots index
  done (
    record { slots = set t.slots index (record s { entry = some e; owner = owner }); free = free },
    index,
  )
place [] t e owner =
    let slots = t.slots ++ record { generation = 1; owner = owner; entry = some e } ∷ [] in
    done (record { slots = slots; free = [] }, as_u32 (length slots - 1))

unfoldable pub insert_into : Table → Entry → ℕ → Exec (Table × ℕ)
insert_into t e owner = do
  (t', index) ← place t.free t e owner
  s ← slot_at t'.slots index
  done (t', encode (kind e) s.generation index)

unfoldable pub insert : Table → Entry → Exec (Table × ℕ)
insert t e = insert_into t e 0

-- The last two checks of `validate`, on the slot that the index names.
unfoldable pub validate_entry : Option Entry → ℕ → ℕ → KtResult ℕ
validate_entry none index expected_kind = err stale_handle
validate_entry (some e) index expected_kind =
    if not (kind e == expected_kind) then err wrong_handle_kind else ok index

unfoldable pub validate_slot : Option Slot → ℕ → ℕ → KtResult ℕ
validate_slot none handle expected_kind = err stale_handle
validate_slot (some s) handle expected_kind =
    if not (s.generation == generation_of handle)
    then err stale_handle
    else validate_entry s.entry (index_of handle) expected_kind

unfoldable pub validate : Table → ℕ → ℕ → KtResult ℕ
validate t handle expected_kind =
    if handle == 0
    then err stale_handle
    else if not (kind_of handle == expected_kind)
    then err wrong_handle_kind
    else validate_slot (get_elem? t.slots (index_of handle)) handle expected_kind

-- The generation of a slot once its entry is taken: 24 bits, and never 0.
unfoldable pub next_generation : ℕ → ℕ
next_generation g = max (bit_and (as_u32 (g + 1)) gen_mask) 1

-- The table without the entry of a slot.
unfoldable pub vacate : Table → ℕ → Slot → Table
vacate t index s = record {
  slots =
      set t.slots index
        (record { generation = next_generation s.generation; owner = 0; entry = none });
  free = as_u32 index ∷ t.free;
}

-- `expect` panics on a slot without an entry.
unfoldable pub taken : Option Entry → Table → ℕ → Slot → Exec (Table × Entry)
taken none t index s = panics (static_str (text "validated live slot"))
taken (some e) t index s = done (vacate t index s, e)

unfoldable pub take : Table → ℕ → Exec (Table × Entry)
take t index = do s ← slot_at t.slots index; taken s.entry t index s

unfoldable pub remove_of_kind : Table → ℕ → ℕ → Exec (Table × KtResult Entry)
remove_of_kind t handle expected_kind = elim (validate t handle expected_kind) [
  | err e ↦ done (t, err e)
  | ok index ↦ do (t', e) ← take t index; done (t', ok e)
]

-- The result of `insert_owned`, with the cleanup that a refused entry starts.
pub record Inserted : Type 0 where
  pub table : Table
  pub result : KtResult ℕ
  pub closing : List Cleanup

unfoldable pub insert_owned : Table → ℕ → Entry → Exec Inserted
insert_owned t owner e = elim (validate t owner kind_runtime) [
  | err _ ↦ done (record { table = t; result = err shutdown; closing = close e })
  | ok _ ↦ do
    (t', handle) ← insert_into t e owner
    done (record { table = t'; result = ok handle; closing = [] })
]
