-- ===== src/Handle/Codec.antt =====
-- The layout `[kind:u8 | generation:u24 | index:u32]` of a handle, src/handle.rs of
-- core-bridge/rust/kt-bridge.
use temporal_kt_bridge.Base.{
  ℕ, ◌+◌, ◌*◌, ◌^◌, ◌/◌, ◌%◌, ◌<◌, ◌≤◌, ◌≡◌, ◌≢◌, ◌∙◌, refl, ap, ap₂, arith, bit_and, bit_or, max,
}
use temporal_kt_bridge.Base.Bits.{bit_or_disjoint, bit_and_mask}
use temporal_kt_bridge.Handle.{
  Entry, kind, kind_of, generation_of, index_of, encode, next_generation, shl, gen_mask, gen_shift,
  kind_shift,
}

pub kind-bounds : (e : Entry) → (1 ≤ kind e) × (kind e < 6)
unfolding kind
kind-bounds e = ground arith

-- In range the fields are laid side by side.
pub encode-sum :
    (k g i : ℕ) → k < 2 ^ 8 → g < 2 ^ 24 → i < 2 ^ 32 → encode k g i ≡ k * 2 ^ 56 + g * 2 ^ 32 + i
unfolding encode
encode-sum k g i hk hg hi =
    ap (λ (x : ℕ). bit_or x i) joined
    ∙ ap (λ (x : ℕ). bit_or x i) regrouped
    ∙ bit_or_disjoint 32 (k * 2 ^ 24 + g) i hi
    ∙ omega arith
  where
    high : shl k kind_shift ≡ k * 2 ^ 56
    high = omega arith

    middle : shl (bit_and g gen_mask) gen_shift ≡ g * 2 ^ 32
    middle = omega (arith, bit_and_mask 24 g)

    joined :
        bit_or (shl k kind_shift) (shl (bit_and g gen_mask) gen_shift) ≡ k * 2 ^ 56 + g * 2 ^ 32
    joined = ap₂ bit_or high middle ∙ bit_or_disjoint 56 k (g * 2 ^ 32) (omega arith)

    regrouped : k * 2 ^ 56 + g * 2 ^ 32 ≡ (k * 2 ^ 24 + g) * 2 ^ 32
    regrouped = omega arith

pub kind_of_lem : (h : ℕ) → kind_of h ≡ h / 2 ^ 56 % 2 ^ 8
unfolding kind_of
kind_of_lem h = refl

pub generation_of_lem : (h : ℕ) → generation_of h ≡ h / 2 ^ 32 % 2 ^ 24
unfolding generation_of
generation_of_lem h = omega (arith, bit_and_mask 24 (h / 2 ^ 32))

pub index_of_lem : (h : ℕ) → index_of h ≡ h % 2 ^ 32
unfolding index_of
index_of_lem h = refl

pub ruleset fields = (arith, kind_of_lem, generation_of_lem, index_of_lem)

-- The three fields of a handle read back.
pub fields-encode :
    (k g i : ℕ)
    → k < 2 ^ 8
    → g < 2 ^ 24
    → i < 2 ^ 32
    → (kind_of (encode k g i) ≡ k)
      × (generation_of (encode k g i) ≡ g)
      × (index_of (encode k g i) ≡ i)
fields-encode k g i hk hg hi = omega (fields, encode-sum k g i)

-- A u64 is determined by its fields.
pub encode-fields : (h : ℕ) → h < 2 ^ 64 → encode (kind_of h) (generation_of h) (index_of h) ≡ h
encode-fields h lt = omega (fields, encode-sum (kind_of h) (generation_of h) (index_of h))

pub next_generation_lem : (g : ℕ) → g < 2 ^ 24 → next_generation g ≡ max ((g + 1) % 2 ^ 24) 1
unfolding next_generation
next_generation_lem g h = omega (arith, bit_and_mask 24 ((g + 1) % 2 ^ 32))
