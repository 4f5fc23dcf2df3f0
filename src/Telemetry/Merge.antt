-- ===== src/Telemetry/Merge.antt =====
-- What extending an attribute set comes to: src/telemetry.rs, core-bridge/rust/kt-bridge.
use temporal_kt_bridge.Base.{
  Bytes, eqb, eqb_refl, eqb-eq, List, [], ◌∷◌, ◌++◌, append_assoc, append-nil, Option, none, some,
  Option-cases, if◌then◌else◌, inl, inr, ◌≡◌, refl, sym, ap, ◌∙◌, arith,
}
use temporal_kt_bridge.Telemetry.Attributes.{
  AttributeValue, KeyValue, MetricAttributes, without, extend_with, existing, extend_attributes,
  last_value,
}

-- No key stands twice.
abbrev pub IsKeyed : List KeyValue → Type 0
IsKeyed [] = Unit
IsKeyed (a ∷ kvs) = (last_value a.key kvs ≡ none) × IsKeyed kvs

-- The second value, unless there is none.
abbrev pub override : Option AttributeValue → Option AttributeValue → Option AttributeValue
override x (some v) = some v
override x none = x

last_value-append :
    (k : Bytes) (xs ys : List KeyValue)
    → last_value k (xs ++ ys) ≡ override (last_value k xs) (last_value k ys)
last_value-append k [] ys = elim (Option-cases (last_value k ys)) [
  | inl e ↦ rw e refl
  | inr (v, e) ↦ rw e refl
]
last_value-append k (a ∷ xs) ys =
    ground (arith, last_value-append k xs ys, Option-cases (last_value k ys))

last_value-without :
    (k j : Bytes) (xs : List KeyValue)
    → last_value k (without j xs) ≡ (if eqb j k then none else last_value k xs)
unfolding without
last_value-without k j [] = ground arith
last_value-without k j (a ∷ xs) =
    ground
      (arith, last_value-without k j xs, eqb-eq a.key j, eqb-eq a.key k, eqb-eq j k, eqb_refl j)

-- One attribute more: the others of its key go.
last_value-put :
    (k : Bytes) (a : KeyValue) (kvs : List KeyValue)
    → last_value k (without a.key kvs ++ a ∷ []) ≡ last_value k (kvs ++ a ∷ [])
last_value-put k a kvs =
    let left = last_value-append k (without a.key kvs) (a ∷ []) in
    let right = last_value-append k kvs (a ∷ []) in
    ground (arith, left, right, last_value-without k a.key kvs)

IsKeyed-without : (j : Bytes) (kvs : List KeyValue) → IsKeyed kvs → IsKeyed (without j kvs)
unfolding without
IsKeyed-without j [] h = tt
IsKeyed-without j (a ∷ kvs) h =
    ground (arith, IsKeyed-without j kvs h.1, last_value-without a.key j kvs)

IsKeyed-append :
    (kvs : List KeyValue) (a : KeyValue)
    → IsKeyed kvs
    → last_value a.key kvs ≡ none
    → IsKeyed (kvs ++ a ∷ [])
IsKeyed-append [] a h n = (refl, tt)
IsKeyed-append (b ∷ kvs) a h n = ground (
  arith,
  IsKeyed-append kvs a h.1,
  last_value-append b.key kvs (a ∷ []),
  eqb-eq a.key b.key,
  eqb_refl a.key,
)

extend_with_lem :
    (kvs new : List KeyValue)
    → IsKeyed kvs
    → ((k : Bytes) → last_value k (extend_with kvs new) ≡ last_value k (kvs ++ new))
      × IsKeyed (extend_with kvs new)
unfolding extend_with
extend_with_lem kvs [] h = (λ k. sym (ap (last_value k) (append-nil kvs)), h)
extend_with_lem kvs (a ∷ new) h =
    let put = without a.key kvs ++ a ∷ [] in
    let gone : last_value a.key (without a.key kvs) ≡ none =
      last_value-without a.key a.key kvs ∙ rw (eqb_refl a.key) refl in
    let keyed : IsKeyed put =
      IsKeyed-append (without a.key kvs) a (IsKeyed-without a.key kvs h) gone in
    let (values, distinct) = extend_with_lem put new keyed in
    (
      λ k.
          values k
          ∙ last_value-append k put new
          ∙ ap (λ (x : Option AttributeValue). override x (last_value k new))
              (last_value-put k a kvs)
          ∙ sym (last_value-append k (kvs ++ a ∷ []) new)
          ∙ ap (last_value k) (append_assoc kvs (a ∷ []) new),
      distinct,
    )

-- Extending a set of attributes whose keys are distinct gives one whose keys are distinct, and in which
-- every key has the value that stands last for it in the old attributes with the new ones after them.
pub extend_attributes_lem :
    (m : MetricAttributes) (new : List KeyValue)
    → IsKeyed (existing m)
    → ((k : Bytes)
        → last_value k (existing (extend_attributes m new)) ≡ last_value k (existing m ++ new))
      × IsKeyed (existing (extend_attributes m new))
unfolding extend_attributes existing
extend_attributes_lem m new h = extend_with_lem (existing m) new h
