-- ===== src/Runtime/Table.antt =====
-- The table of outstanding requests as a map: src/runtime.rs, core-bridge/rust/kt-bridge.
use temporal_kt_bridge.Base.{
  ℕ, ◌+◌, ◌≡◌, ◌≢◌, refl, arith, List, [], ◌∷◌, count, true, false, ◌==◌, if◌then◌else◌,
}
use temporal_kt_bridge.Runtime.{Requests, contains_key, remove}

abbrev pub keys : Requests → List ℕ
keys [] = []
keys ((k, _) ∷ m) = k ∷ keys m

-- Retiring takes one entry away, that of its request, if there is one.
pub count-remove :
    (r q : ℕ) (m : Requests)
    → count q (keys m)
      ≡ count q (keys (remove r m)) + (if contains_key r m then (if r == q then 1 else 0) else 0)
unfolding contains_key remove
count-remove r q [] = omega arith
count-remove r q ((k, t) ∷ m) = ground (arith, count-remove r q m)

pub contains_key-count : (r : ℕ) (m : Requests) → contains_key r m ≡ false → count r (keys m) ≡ 0
unfolding contains_key
contains_key-count r [] h = refl
contains_key-count r ((k, t) ∷ m) h = ground (arith, contains_key-count r m)

pub count-contains_key : (r : ℕ) (m : Requests) → contains_key r m ≡ true → count r (keys m) ≢ 0
unfolding contains_key
count-contains_key r [] h = ground arith
count-contains_key r ((k, t) ∷ m) h = ground (arith, count-contains_key r m)
