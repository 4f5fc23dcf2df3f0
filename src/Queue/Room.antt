-- ===== src/Queue/Room.antt =====
-- The slab grows enough for a batch: src/queue.rs, core-bridge/rust/kt-bridge.
use temporal_kt_bridge.Base.{
  ℕ, zero, suc, ◌-◌, ◌*◌, ◌^◌, ◌≤◌, max, ◌≡◌, refl, ap, arith, Bytes, ◌++◌, length, take, replicate,
  ltb, length-append, length-take, length-replicate, Bool-cases, inl, inr, false,
}
use native.Mathlib.Nat.{pow-suc}
use temporal_kt_bridge.Error.{done}
use temporal_kt_bridge.Queue.Slab.{BatchBuf, power_from, next_power_of_two, resize, reserve}

power_from-ge : (fuel p n : ℕ) → n ≤ p * 2 ^ fuel → n ≤ power_from fuel p n
unfolding power_from
power_from-ge zero p n h = omega arith
power_from-ge (suc fuel) p n h = ground (arith, power_from-ge fuel (p * 2) n, doubled)
  where
    doubled : n ≤ p * 2 * 2 ^ fuel
    doubled = omega (arith, ap (λ (t : ℕ). p * t) (pow-suc 2 fuel))

grows : (p k : ℕ) → p ≤ p * 2 ^ k
grows p zero = omega arith
grows p (suc k) = omega (arith, grows p k, ap (λ (t : ℕ). p * t) (pow-suc 2 k))

-- The doubling stops at the first power that is large enough.
power_from-le : (fuel p k n : ℕ) → n ≤ p * 2 ^ k → power_from fuel p n ≤ p * 2 ^ k
unfolding power_from
power_from-le zero p zero n h = omega arith
power_from-le zero p (suc k) n h = grows p (suc k)
power_from-le (suc fuel) p zero n h = ground arith
power_from-le (suc fuel) p (suc k) n h =
    ground (arith, grows p (suc k), power_from-le fuel (p * 2) k n, doubled)
  where
    doubled : p * 2 * 2 ^ k ≡ p * 2 ^ suc k
    doubled = omega (arith, ap (λ (t : ℕ). p * t) (pow-suc 2 k))

next_power_of_two-bounds :
    (n : ℕ) → n ≤ 2 ^ 62 → (n ≤ next_power_of_two n) × (next_power_of_two n ≤ 2 ^ 62)
unfolding next_power_of_two
next_power_of_two-bounds n h =
    let above = power_from-ge 64 1 n (omega arith) in
    let below = power_from-le 64 1 62 n (omega arith) in
    (omega (arith, above, below), omega (arith, below))

length-resized :
    (n : ℕ) (bytes : Bytes) → length (take n bytes ++ replicate (n - length bytes) 0) ≡ n
length-resized n bytes = omega (
  arith,
  length-append (take n bytes) (replicate (n - length bytes) 0),
  length-take n bytes,
  length-replicate {A = ℕ} (n - length bytes) 0,
)

pub record Reserved (address total : ℕ) (b : BatchBuf) : Type 0 where
  pub buf : BatchBuf
  pub runs : reserve address total b ≡ done buf
  pub room : total ≤ length buf.bytes
  pub used : buf.used ≡ b.used

-- Up to 2 ^ 62 bytes the power does not wrap, and the vector can grow to it.
pub reserve-Reserved :
    (address total : ℕ) (b : BatchBuf) → total ≤ 2 ^ 62 → Reserved address total b
unfolding reserve resize
reserve-Reserved address total b h = elim (Bool-cases (ltb (length b.bytes) total)) [
  | inl short ↦ record {
    buf = record b {
      base = address;
      bytes = take size b.bytes ++ replicate (size - length b.bytes) 0;
    };
    runs = rw (short, fits) refl;
    room = omega (arith, length-resized size b.bytes, bounds);
    used = refl;
  }
  | inr enough ↦ record { buf = b; runs = rw enough refl; room = ground arith; used = refl }
]
  where
    bounds : (total ≤ next_power_of_two total) × (next_power_of_two total ≤ 2 ^ 62)
    bounds = next_power_of_two-bounds total h

    size : ℕ
    size = max (next_power_of_two total) (64 * 1024)

    fits : ltb (2 ^ 63 - 1) size ≡ false
    fits = ground (arith, bounds)
