-- ===== src/Handle/Sweep.antt =====
-- Removing a runtime with everything that it owns: `remove_runtime` of src/handle.rs,
-- core-bridge/rust/kt-bridge.
use temporal_kt_bridge.Base.{
  ℕ, zero, suc, ◌+◌, ◌≤◌, ◌≡◌, ◌≢◌, refl, sym, ap, ◌∙◌, subst, arith, List, [], ◌∷◌, ◌++◌,
  append_assoc, append-nil, length, get_elem?, get_elem?-lt, get_elem?_of_lt, set, length-set, drop,
  Option, none, some, Option-cases, Bool, true, false, Bool-cases, ℕ-cases, ==_ne, ◌&&◌, ◌==◌, leb,
  if◌then◌else◌, inl, inr, All-get_elem?, ==_refl,
}
use temporal_kt_bridge.Error.{done}
use temporal_kt_bridge.Handle.{Entry, Slot, Table, take, vacate}
use temporal_kt_bridge.Handle.Owned.{reap}
use temporal_kt_bridge.Handle.Invariant.{IsGood, IsWellFormed}
use temporal_kt_bridge.Handle.Insert.{slot_at_lem}
use temporal_kt_bridge.Handle.Remove.{vacated, take_lem, vacate-slots, vacate-IsWellFormed}

-- The entries that an owner has, in the order of their slots.
abbrev pub owned_entries : ℕ → List Slot → List Entry
owned_entries owner [] = []
owned_entries owner (s ∷ ss) =
    let rest = owned_entries owner ss in
    if s.owner == owner then (elim s.entry [ none ↦ rest | some e ↦ e ∷ rest ]) else rest

-- A slot once the scan has passed it.
abbrev pub swept : Bool → ℕ → Option Slot → Option Slot
swept passed owner none = none
swept passed owner (some s) = some (if passed && s.owner == owner then vacated s else s)

drop-get_elem? {ℓ} :
    {A : Type ℓ} (xs : List A) (i : ℕ) (v : A)
    → get_elem? xs i ≡ some v
    → drop i xs ≡ v ∷ drop (suc i) xs
drop-get_elem? [] i v h = ground arith
drop-get_elem? (x ∷ xs) zero v h = ap (λ y. y ∷ xs) (cc)
drop-get_elem? (x ∷ xs) (suc i) v h = drop-get_elem? xs i v h

drop-past {ℓ} : {A : Type ℓ} (xs : List A) (i : ℕ) → length xs ≤ i → drop i xs ≡ []
drop-past [] zero h = refl
drop-past [] (suc i) h = refl
drop-past (x ∷ xs) zero h = absurd (omega arith)
drop-past (x ∷ xs) (suc i) h = drop-past xs i (omega arith)

drop-set {ℓ} :
    {A : Type ℓ} (xs : List A) (i : ℕ) (v : A) → drop (suc i) (set xs i v) ≡ drop (suc i) xs
drop-set [] i v = refl
drop-set (x ∷ xs) zero v = refl
drop-set (x ∷ xs) (suc i) v = drop-set xs i v

-- What the scan of the slots from `index` on does.
pub record Sweeps (t : Table) (index left owner : ℕ) (children : List Entry) : Type 0 where
  pub table : Table
  pub runs :
      reap left index owner t children
      ≡ done (table, children ++ owned_entries owner (drop index t.slots))
  pub valid : IsWellFormed table
  pub slots : (j : ℕ) → get_elem? table.slots j ≡ swept (leb index j) owner (get_elem? t.slots j)

unswept :
    (t : Table) (owner index : ℕ) (j : ℕ)
    → length t.slots ≤ index
    → get_elem? t.slots j ≡ swept (leb index j) owner (get_elem? t.slots j)
unswept t owner index j h = elim (Option-cases (get_elem? t.slots j)) [
  | inl e ↦ rw e refl
  | inr (s, e) ↦
      let below : leb index j ≡ false = ground (arith, get_elem?-lt t.slots j e) in
      rw (e, below) refl
]

one_more : (k : ℕ) → suc k ≡ k + 1
one_more k = omega arith

module _ (t : Table) (index left owner : ℕ) (children : List Entry) (s : Slot)
    (at : get_elem? t.slots index ≡ some s) where
  rest_entries : drop index t.slots ≡ s ∷ drop (index + 1) t.slots
  rest_entries =
      drop-get_elem? t.slots index s at ∙ ap (λ (k : ℕ). s ∷ drop k t.slots) (one_more index)

  skipped_run :
      (s.owner == owner) ≡ false
      → reap (suc left) index owner t children ≡ reap left (index + 1) owner t children
  unfolding reap
  skipped_run h = rw (slot_at_lem t.slots index at, reap) (rw h refl)

  taken_run :
      (t' : Table) (e : Entry)
      → (s.owner == owner) ≡ true
      → take t index ≡ done (t', e)
      → reap (suc left) index owner t children ≡ reap left (index + 1) owner t' (children ++ e ∷ [])
  unfolding reap
  taken_run t' e h k = rw (slot_at_lem t.slots index at, reap) (rw (h, k) refl)

  skipped_entries :
      (s.owner == owner) ≡ false
      → owned_entries owner (drop index t.slots) ≡ owned_entries owner (drop (index + 1) t.slots)
  skipped_entries h = rw (rest_entries, h) refl

  taken_entries :
      (e : Entry)
      → (s.owner == owner) ≡ true
      → s.entry ≡ some e
      → owned_entries owner (drop index t.slots)
        ≡ e ∷ owned_entries owner (drop (index + 1) t.slots)
  taken_entries e h k = rw (rest_entries, h, k) refl

  -- A slot at another index is swept or not as before; this one is passed.
  skipped_slots :
      (j : ℕ)
      → (s.owner == owner) ≡ false
      → swept (leb (index + 1) j) owner (get_elem? t.slots j)
        ≡ swept (leb index j) owner (get_elem? t.slots j)
  skipped_slots j h = elim (ℕ-cases index j) [
    | inl same ↦ rw (← same, at, h) (ground arith)
    | inr other ↦ let same : leb (index + 1) j ≡ leb index j = ground arith in rw same
  ]

  taken_slots :
      (v : IsWellFormed t) (e : Entry)
      → s.entry ≡ some e
      → (j : ℕ) → (s.owner == owner) ≡ true
      → owner ≢ 0
      → swept (leb (index + 1) j) owner (get_elem? (vacate t index s).slots j)
        ≡ swept (leb index j) owner (get_elem? t.slots j)
  taken_slots v e holds j h n = elim (ℕ-cases index j) [
    | inl same ↦
        let past : leb (suc index) index ≡ false = ground arith in
        rw (vacate-slots t v index s e at holds j, ← same, ==_refl index, at, h) (ground arith)
    | inr other ↦
        let same : leb (index + 1) j ≡ leb index j = ground arith in
        rw (vacate-slots t v index s e at holds j, ==_ne index j other, same) refl
  ]

has_entry :
    (s : Slot) (owner : ℕ)
    → IsGood s
    → (s.owner == owner) ≡ true
    → owner ≢ 0
    → (e : Entry) × (s.entry ≡ some e)
has_entry s owner g h n = elim (Option-cases s.entry) [
  | inl empty ↦ absurd (n (omega (arith, g.unowned empty, same)))
  | inr found ↦ found
]
  where
    same : s.owner ≡ owner
    same = ground arith

vacate-length :
    (t : Table) (index : ℕ) (s : Slot) → length (vacate t index s).slots ≡ length t.slots
unfolding vacate
vacate-length t index s = length-set t.slots index (vacated s)

vacate-rest :
    (t : Table) (index : ℕ) (s : Slot)
    → drop (index + 1) (vacate t index s).slots ≡ drop (index + 1) t.slots
unfolding vacate
vacate-rest t index s =
    subst (λ (k : ℕ). drop k (set t.slots index (vacated s)) ≡ drop k t.slots) (one_more index)
      (drop-set t.slots index (vacated s))

pub sweep :
    (left index owner : ℕ) (t : Table) (children : List Entry)
    → IsWellFormed t
    → owner ≢ 0
    → index + left ≡ length t.slots
    → Sweeps t index left owner children
sweep zero index owner t children v n all = record {
  table = t;
  runs =
      unfold reap in
      rw (drop-past t.slots index (omega (arith, all)))
        (ap (λ (l : List Entry). done (t, l)) (sym (append-nil children)));
  valid = v;
  slots = λ j. unswept t owner index j (omega (arith, all));
}
sweep (suc left) index owner t children v n all =
    let (s, at) = get_elem?_of_lt t.slots index (omega (arith, all)) in
    elim (Bool-cases (s.owner == owner)) [
      | inl owned ↦
          let (e, holds) =
            has_entry s owner (All-get_elem? IsGood t.slots index v.good at) owned n in
          let t' = vacate t index s in
          let rest =
            sweep left (index + 1) owner t' (children ++ e ∷ [])
              (vacate-IsWellFormed t v index s e at holds) n
              (omega (arith, all, vacate-length t index s)) in
          record {
            table = rest.table;
            runs =
                taken_run t index left owner children s at t' e owned
                  (take_lem t v index s e at holds)
                ∙ rest.runs
                ∙ ap (λ (l : List Entry). done (rest.table, l))
                    (append_assoc children (e ∷ [])
                        (owned_entries owner (drop (index + 1) t'.slots))
                      ∙ ap (λ (l : List Slot). children ++ e ∷ owned_entries owner l)
                          (vacate-rest t index s)
                      ∙ ap (λ (l : List Entry). children ++ l)
                          (sym (taken_entries t index left owner children s at e owned holds)));
            valid = rest.valid;
            slots = λ j.
                rest.slots j ∙ taken_slots t index left owner children s at v e holds j owned n;
          }
      | inr other ↦
          let rest = sweep left (index + 1) owner t children v n (omega (arith, all)) in
          record {
            table = rest.table;
            runs =
                skipped_run t index left owner children s at other
                ∙ rest.runs
                ∙ ap (λ (l : List Entry). done (rest.table, children ++ l))
                    (sym (skipped_entries t index left owner children s at other));
            valid = rest.valid;
            slots = λ j. rest.slots j ∙ skipped_slots t index left owner children s at j other;
          }
    ]
