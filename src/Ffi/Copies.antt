-- ===== src/Ffi/Copies.antt =====
-- Copying a result into the caller's memory: `write_out` of src/lib.rs, core-bridge/rust/kt-bridge.
use temporal_kt_bridge.Base.{
  ℕ, ◌^◌, ◌≤◌, ◌<◌, ◌≡◌, ◌≢◌, arith, Bytes, ◌++◌, length, drop, take-all, some,
}
use temporal_kt_bridge.Error.{buffer_too_small, KtResult, ok, err}
use temporal_kt_bridge.Ffi.{Out, copy, write_buffer, write_out}

-- What a call of `write_out` with a place for the length does.
pub record Reports (src : Bytes) (out : Out) (cap : ℕ) (out' : Out) (r : KtResult (Unit {0}))
    : Type 0 where
  pub len : out'.len ≡ some (length src)
  pub small :
      (cap < length src → r ≡ err buffer_too_small) × (r ≡ err buffer_too_small → cap < length src)
  pub kept : r ≢ ok tt → out'.buffer ≡ out.buffer
  pub whole :
      (memory : Bytes)
      → out.buffer ≡ some memory
      → length src ≤ cap
      → (r ≡ ok tt) × (out'.buffer ≡ some (src ++ drop (length src) memory))

-- With a place for the length, and a source that a u32 can count, `write_out` always writes the length
-- of the source there. It answers BufferTooSmall exactly if the capacity is less than that; a call that
-- fails leaves the buffer as it is; and into a buffer that is not null and large enough it copies the
-- whole source, and no more.
pub write_out-Reports :
    (src : Bytes) (out : Out) (cap n : ℕ)
    → out.len ≡ some n
    → length src < 2 ^ 32
    → Reports src out cap (write_out src out cap).0 (write_out src out cap).1
unfolding write_out write_buffer copy
write_out-Reports src out cap n h fits = record {
  len = ground arith;
  small = ground arith;
  kept = ground arith;
  whole = λ memory b room. ground (arith, take-all (length src) src);
}
