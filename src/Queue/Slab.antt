-- ===== src/Queue/Slab.antt =====
-- `BatchBuf` of src/queue.rs, core-bridge/rust/kt-bridge: the memory that the payloads of one batch
-- share, and the laws of writing into it.
use temporal_kt_bridge.Base.{
  ℕ, zero, suc, ◌+◌, ◌-◌, ◌*◌, ◌%◌, ◌^◌, max, Bytes, text, ◌++◌, length, take, drop, replicate, ltb,
  leb, if◌then◌else◌,
}
use temporal_kt_bridge.Error.{Exec, done, panics, static_str, owned}

-- `base` is the address of the vector's allocation.
pub record BatchBuf : Type 0 where
  pub base : ℕ
  pub bytes : Bytes
  pub used : ℕ

unfoldable pub reset : BatchBuf → BatchBuf
reset b = record b { used = 0 }

-- The bytes with `src` copied over those from `start` on.
unfoldable pub write : Bytes → ℕ → Bytes → Bytes
write bytes start src = take start bytes ++ src ++ drop (start + length src) bytes

-- Copies `src` behind what is used, and gives its address and length. The slice panics past the end.
unfoldable pub put : BatchBuf → Bytes → Exec (BatchBuf × ℕ × ℕ)
put b src =
    if leb (b.used + length src) (length b.bytes)
    then done (
      record b { bytes = write b.bytes b.used src; used = b.used + length src },
      b.base + b.used,
      length src,
    )
    else panics (owned (text "range end index out of range for slice"))

-- `next_power_of_two`: the first of p, 2p, 4p, … that is not below n.
unfoldable pub power_from : ℕ → ℕ → ℕ → ℕ
power_from zero p n = p
power_from (suc fuel) p n = let more = power_from fuel (p * 2) n in if leb n p then p else more

-- A usize has 64 bits: 2 ^ 64, which is the power for a number above 2 ^ 63, wraps to 0 in a build without
-- overflow checks, like the release build.
unfoldable pub next_power_of_two : ℕ → ℕ
next_power_of_two n = power_from 64 1 n % 2 ^ 64

-- `Vec::resize`, which cuts off or fills up with 0. No vector is larger than `isize::MAX` bytes. One
-- that grows may move: `address` is where it then stands.
unfoldable pub resize : ℕ → ℕ → BatchBuf → Exec BatchBuf
resize address n b =
    if ltb (2 ^ 63 - 1) n
    then panics (static_str (text "capacity overflow"))
    else done
        (record b { base = address; bytes = take n b.bytes ++ replicate (n - length b.bytes) 0 })

-- Room for `total` bytes.
unfoldable pub reserve : ℕ → ℕ → BatchBuf → Exec BatchBuf
reserve address total b =
    if ltb (length b.bytes) total
    then resize address (max (next_power_of_two total) (64 * 1024)) b
    else done b

-- What the JVM reads at an address of the allocation.
unfoldable pub read : BatchBuf → ℕ → ℕ → Bytes
read b address len = take len (drop (address - b.base) b.bytes)
