-- ===== src/Abi.antt =====
-- src/abi.rs of core-bridge/rust/kt-bridge: the one struct that crosses to the JVM.
use temporal_kt_bridge.Base.{ℕ, ◌+◌, ◌-◌, ◌*◌, ◌/◌, List, [], ◌∷◌, ◌++◌}
use temporal_kt_bridge.Base.Int.{ℤ}

pub data KtKind : Type 0 where
  ack client_connected rpc task_workflow_activation task_activity task_nexus : KtKind
  task_stream_end worker_failed ephemeral_started server_log log : KtKind

-- `kind as u32`.
unfoldable pub discriminant : KtKind → ℕ
discriminant ack = 0
discriminant client_connected = 1
discriminant rpc = 2
discriminant task_workflow_activation = 3
discriminant task_activity = 4
discriminant task_nexus = 5
discriminant task_stream_end = 6
discriminant worker_failed = 7
discriminant ephemeral_started = 8
discriminant server_log = 9
discriminant log = 10

abbrev pub kind_count : ℕ
kind_count = 11

pub record KtCompletion : Type 0 where
  pub req_id : ℕ
  pub kind : ℕ
  pub status : ℤ
  pub payload : ℕ
  pub payload_len : ℕ
  pub aux0 : ℕ
  pub aux1 : ℕ

abbrev pub kt_abi_version : ℕ
kt_abi_version = 3

abbrev pub kt_abi_magic : ℕ
kt_abi_magic = 0x4B54_4231

-- The sizes of the fields of `KtCompletion`, in order; each is its own alignment.
abbrev field_sizes : List ℕ
field_sizes = 8 ∷ 4 ∷ 4 ∷ 8 ∷ 8 ∷ 8 ∷ 8 ∷ []

abbrev align_up : ℕ → ℕ → ℕ
align_up offset alignment = (offset + alignment - 1) / alignment * alignment

-- The `repr(C)` rule: each field stands at the next multiple of its alignment.
offsets_from : ℕ → List ℕ → List ℕ
offsets_from at [] = []
offsets_from at (size ∷ sizes) = align_up at size ∷ offsets_from (align_up at size + size) sizes

end_from : ℕ → List ℕ → ℕ
end_from at [] = at
end_from at (size ∷ sizes) = end_from (align_up at size + size) sizes

abbrev pub usize_bits : ℕ
usize_bits = 64

unfoldable pub abi_probe_values : List ℕ
unfolding offsets_from end_from
abi_probe_values =
    kt_abi_magic
    ∷ kt_abi_version
    ∷ align_up (end_from 0 field_sizes) 8
    ∷ (offsets_from 0 field_sizes ++ usize_bits ∷ kind_count ∷ [])
