-- ===== src/Slots/Permits.antt =====
-- Counting the permits of a supplier: src/jvm_slots.rs, core-bridge/rust/kt-bridge.
use temporal_kt_bridge.Base.{
  ℕ, zero, suc, ◌+◌, ◌-◌, ◌%◌, ◌^◌, ◌<◌, ◌≡◌, ◌≢◌, refl, arith, List, [], ◌∷◌, length, get_elem?,
  All, some, Bool, true, false, not, if◌then◌else◌,
}
use temporal_kt_bridge.Slots.{Issued, of, put, sum, Permit, adjust, increment, decrement}
use temporal_kt_bridge.Slots.System.{erase}

abbrev pub same : Bool → Bool → Bool
same true q = q
same false q = not q

-- How many of the permits are of this queue.
abbrev pub held : Bool → List Permit → ℕ
held q [] = 0
held q (p ∷ ps) = (if same p.queue q then 1 else 0) + held q ps

pub length-held : (ps : List Permit) → length ps ≡ held false ps + held true ps
length-held [] = refl
length-held (p ∷ ps) = ground (arith, length-held ps)

pub held-erase :
    (q : Bool) (ps : List Permit) (i : ℕ) (p : Permit)
    → get_elem? ps i ≡ some p
    → held q ps ≡ (if same p.queue q then 1 else 0) + held q (erase ps i)
held-erase q [] i p h = cc
held-erase q (u ∷ ps) zero p h = ground arith
held-erase q (u ∷ ps) (suc i) p h = omega (arith, held-erase q ps i p h)

pub length-erase :
    (ps : List Permit) (i : ℕ) (p : Permit)
    → get_elem? ps i ≡ some p
    → length ps ≡ 1 + length (erase ps i)
length-erase [] i p h = cc
length-erase (u ∷ ps) zero p h = omega arith
length-erase (u ∷ ps) (suc i) p h = omega (arith, length-erase ps i p h)

pub All-erase {ℓ} : (P : Permit → Type ℓ) (ps : List Permit) (i : ℕ) → All P ps → All P (erase ps i)
All-erase P [] i h = h
All-erase P (u ∷ ps) zero h = h.1
All-erase P (u ∷ ps) (suc i) h = (h.0, All-erase P ps i h.1)

pub get_elem?-adjust :
    (f : ℕ → ℕ) (ns : List ℕ) (i n : ℕ)
    → get_elem? ns i ≡ some n
    → get_elem? (adjust f ns i) i ≡ some (f n)
get_elem?-adjust f [] i n h = cc
get_elem?-adjust f (m ∷ ns) zero n h = ground arith
get_elem?-adjust f (m ∷ ns) (suc i) n h = get_elem?-adjust f ns i n h

pub increment_word : (n : ℕ) → increment 32 (n % 2 ^ 32) ≡ (n + 1) % 2 ^ 32
increment_word n = omega arith

pub decrement_word : (n : ℕ) → n ≢ 0 → decrement 32 (n % 2 ^ 32) ≡ (n - 1) % 2 ^ 32
decrement_word n z = omega arith

-- A queue has one slot more, or one less; nothing wraps.
abbrev pub raise : Issued → Bool → Issued
raise i q = put i q (increment 64 (of i q))

abbrev pub lower : Issued → Bool → Issued
lower i q = put i q (decrement 64 (of i q))

module _ (i : Issued) (small : sum i < 2 ^ 32) where
  pub of-raise : (q r : Bool) → of (raise i q) r ≡ (if same q r then 1 else 0) + of i r
  of-raise false false = omega (arith, small)
  of-raise false true = omega (arith, small)
  of-raise true false = omega (arith, small)
  of-raise true true = omega (arith, small)

  pub sum-raise : (q : Bool) → sum (raise i q) ≡ sum i + 1
  sum-raise false = omega (arith, small)
  sum-raise true = omega (arith, small)

  pub of-lower : (q r : Bool) → of i q ≢ 0 → of i r ≡ (if same q r then 1 else 0) + of (lower i q) r
  of-lower false false n = omega (arith, small)
  of-lower false true n = omega (arith, small)
  of-lower true false n = omega (arith, small)
  of-lower true true n = omega (arith, small)

  pub sum-lower : (q : Bool) → of i q ≢ 0 → sum i ≡ sum (lower i q) + 1
  sum-lower false n = omega (arith, small)
  sum-lower true n = omega (arith, small)

-- A slot that leaves one for the other queue, if that has none, leaves each queue below the maximum.
pub raise-below :
    (i : Issued) (m : ℕ) (q r : Bool)
    → m < 2 ^ 32
    → sum i < m
    → (of i (not q) ≡ 0 → sum i + 1 ≢ m)
    → of i r < m
    → of (raise i q) r < m
raise-below i m false false lim below kept h = grind arith
raise-below i m false true lim below kept h = grind arith
raise-below i m true false lim below kept h = grind arith
raise-below i m true true lim below kept h = grind arith

pub sum-of : (i : Issued) (q : Bool) → sum i ≡ of i q + of i (not q)
sum-of i false = omega arith
sum-of i true = omega arith
