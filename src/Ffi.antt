-- ===== src/Ffi.antt =====
-- src/lib.rs of core-bridge/rust/kt-bridge: the entry points that the JVM calls. `Ffi.Process` has the
-- state that they share, `Ffi.Entries` and `Ffi.Requests` the entry points.
pub mod Copies
pub mod Process
pub mod Requests
pub mod Settles
pub mod Accepted
pub mod Planned
pub mod Answers
pub mod Created
pub mod Runtimes
pub mod Metrics
pub mod Freed
pub mod Workers
pub mod Pollers
pub mod Released
pub mod Tasks
mod Examples
use temporal_kt_bridge.Base.{
  ℕ, ◌-◌, ◌%◌, ◌^◌, min, Bytes, text, List, [], ◌∷◌, ◌++◌, length, take, drop, Option, none, some,
  Bool, true, false, ◌==◌, ltb, if◌then◌else◌,
}
use temporal_kt_bridge.Error.{KtError, invalid_argument, buffer_too_small, KtResult, ok, err}
use temporal_kt_bridge.Abi.{abi_probe_values}

-- The caller's memory: a buffer, which is null or has these bytes, and the place for a length, which is
-- null or holds this number.
pub record Out : Type 0 where
  pub buffer : Option Bytes
  pub len : Option ℕ

-- `copy_nonoverlapping` of the first `n` items.
unfoldable pub copy {ℓ} : {A : Type ℓ} → ℕ → List A → List A → List A
copy n src memory = take n src ++ drop n memory

-- `write_out` once the length is written.
unfoldable pub write_buffer : Bytes → Out → ℕ → Out × KtResult (Unit {0})
write_buffer src out cap =
    if ltb cap (length src)
    then (out, err buffer_too_small)
    else if length src == 0
    then (out, ok tt)
    else elim out.buffer [
      | none ↦ (out, err (invalid_argument (text "out is null")))
      | some memory ↦ (record out { buffer = some (copy (length src) src memory) }, ok tt)
    ]

unfoldable pub write_out : Bytes → Out → ℕ → Out × KtResult (Unit {0})
write_out src out cap = elim out.len [
  | none ↦ (out, err (invalid_argument (text "out_len is null")))
  | some _ ↦ write_buffer src (record out { len = some (length src % 2 ^ 32) }) cap
]

unfoldable pub slice : Option Bytes → ℕ → KtResult Bytes
slice ptr len = if len == 0 then ok [] else elim ptr [
  | none ↦ err (invalid_argument (text "null pointer with non-zero length"))
  | some memory ↦ ok (take len memory)
]

unfoldable pub copy_out {ℓ} : {A : Type ℓ} → List A → Option (List A) → ℕ → Option (List A)
copy_out src none cap = none
copy_out src (some memory) cap = some (copy (min cap (length src)) src memory)

unfoldable pub kt_abi_probe : Option (List ℕ) → ℕ → Option (List ℕ) × ℕ
kt_abi_probe out cap = (copy_out abi_probe_values out cap, length abi_probe_values % 2 ^ 32)

-- On the last error of the calling thread.
unfoldable pub kt_last_error : Bytes → Option Bytes → ℕ → Option Bytes × ℕ
kt_last_error message out cap = (copy_out message out cap, length message % 2 ^ 32)
