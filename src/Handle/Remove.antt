-- ===== src/Handle/Remove.antt =====
-- Removal from the handle table of src/handle.rs, of core-bridge/rust/kt-bridge.
use temporal_kt_bridge.Base.{
  ℕ, ◌^◌, ◌≤◌, ◌<◌, ◌≡◌, ◌≢◌, refl, sym, ap, subst, arith, ◌==◌, if◌then◌else◌, Option, none, some,
  ◌∷◌, get_elem?, count, inl, inr, ◌⊎◌, ◌∙◌, All-set, All-get_elem?, get_elem?-set, length-set,
  get_elem?-lt, count-cons_self, count-cons_ne, Bool, ◌&&◌, ℕ-cases, ==_ne, ==_refl,
}
use temporal_kt_bridge.Error.{KtError, stale_handle, ok, err, done}
use temporal_kt_bridge.Handle.{
  Entry, kind, kind_of, generation_of, index_of, encode, Slot, Table, next_generation, vacate, take,
  taken, validate, remove_of_kind,
}
use temporal_kt_bridge.Handle.Codec.{next_generation_lem, encode-fields, kind-bounds, fields}
use temporal_kt_bridge.Handle.Invariant.{Held, view, vacant, IsGood, IsWellFormed}
use temporal_kt_bridge.Handle.Insert.{slot_at_lem, same_fields}
use temporal_kt_bridge.Handle.Live.{
  IsLive, IsLive-view, view-IsLive, IsLive-validate, validate-IsLive, validate-cases,
  validate-stale,
}

pub next_generation-bounds :
    (g : ℕ)
    → 1 ≤ g
    → g < 2 ^ 24
    → (1 ≤ next_generation g) × (next_generation g < 2 ^ 24) × (next_generation g ≢ g)
next_generation-bounds g p h = omega (arith, next_generation_lem g h)

abbrev pub vacated : Slot → Slot
vacated s = record { generation = next_generation s.generation; owner = 0; entry = none }

module _ (t : Table) (v : IsWellFormed t) (i : ℕ) (s : Slot) (e : Entry)
    (at : get_elem? t.slots i ≡ some s) (holds : s.entry ≡ some e) where
  pub take_lem : take t i ≡ done (vacate t i s, e)
  unfolding take taken
  take_lem = rw (slot_at_lem t.slots i at, holds)

  pub vacate-slots :
      (j : ℕ)
      → get_elem? (vacate t i s).slots j
        ≡ (if i == j then some (vacated s) else get_elem? t.slots j)
  unfolding vacate
  vacate-slots j = get_elem?-set t.slots i (vacated s) j (get_elem?-lt t.slots i at)

  vacate-count : (j : ℕ) → count j (vacate t i s).free ≡ count j (i ∷ t.free)
  unfolding vacate
  vacate-count j =
      ap (λ (k : ℕ). count j (k ∷ t.free)) (omega (arith, v.sized, get_elem?-lt t.slots i at))

  pub vacate-IsWellFormed : IsWellFormed (vacate t i s)
  vacate-IsWellFormed = record {
    sized = unfold vacate in rw (length-set t.slots i (vacated s)) v.sized;
    good = unfold vacate in All-set IsGood t.slots i (vacated s) v.good fresh;
    vacancies = λ j. vacate-count j ∙ counted j;
  }
    where
      old : IsGood s
      old = All-get_elem? IsGood t.slots i v.good at

      fresh : IsGood (vacated s)
      fresh =
          let (p, f, _) = next_generation-bounds s.generation old.positive old.fits in
          record { positive = p; fits = f; unowned = λ _. refl }

      once : vacant (get_elem? t.slots i) ≡ 0
      once = rw (at, holds)

      counted_self : count i (i ∷ t.free) ≡ vacant (get_elem? (vacate t i s).slots i)
      counted_self =
          rw (vacate-slots i, ==_refl i)
            (omega (arith, v.vacancies i, count-cons_self i t.free, once))

      counted : (j : ℕ) → count j (i ∷ t.free) ≡ vacant (get_elem? (vacate t i s).slots j)
      counted j = elim (ℕ-cases i j) [
        | inl same ↦
            subst (λ k. count k (i ∷ t.free) ≡ vacant (get_elem? (vacate t i s).slots k)) same
              counted_self
        | inr n ↦
            count-cons_ne j i t.free n
            ∙ v.vacancies j
            ∙ ap vacant (sym (vacate-slots j ∙ rw (==_ne i j n)))
      ]

-- Taking the entry of a live handle unbinds that handle and no other.
pub vacate-view :
    (t : Table) (v : IsWellFormed t) (x : ℕ) (s : Slot) (e : Entry)
    → IsLive t x s e
    → x < 2 ^ 64
    → (y : ℕ) → y < 2 ^ 64
    → view (vacate t (index_of x) s) y ≡ (if y == x then none else view t y)
vacate-view t v x s e l lx y ly = elim (ℕ-cases (index_of x) (index_of y)) [
  | inl same ↦
      rw
        (
          vacate-slots t v (index_of x) s e l.at l.holds (index_of y),
          ← same,
          ==_refl (index_of x),
          l.at,
          l.holds,
          tests (sym same),
        )
        (either (y == x))
  | inr n ↦ rw (
    vacate-slots t v (index_of x) s e l.at l.holds (index_of y),
    ==_ne (index_of x) (index_of y) n,
    ==_ne y x (λ same. n (ap index_of (sym same))),
  )
]
  where
    old : IsGood s
    old = All-get_elem? IsGood t.slots (index_of x) v.good l.at

    whole : encode (kind e) s.generation (index_of x) ≡ x
    whole = rw (l.same_kind, l.same_generation) (encode-fields x lx)

    tests :
        index_of y ≡ index_of x
        → ((kind e == kind_of y) && (s.generation == generation_of y)) ≡ (y == x)
    tests same =
        same_fields (kind e) s.generation (index_of x) y (omega (arith, kind-bounds e)) old.fits
          (omega fields) ly same
        ∙ ap (λ (h : ℕ). y == h) whole

    either :
        (b : Bool)
        → let held : Option Held = some (record { entry = e; owner = s.owner }) in
          none ≡ (if b then none else (if b then held else none))
    either b = ground arith

-- What `remove_of_kind` does with a handle that is live at the kind asked for: it hands out the
-- entry and unbinds the handle, and the table stays well-formed.
abbrev pub Removes : Table → ℕ → ℕ → Type 0
Removes t x k =
    (held : Held) × (t' : Table) × (view t x ≡ some held)
    × (kind held.entry ≡ k)
    × (remove_of_kind t x k ≡ done (t', ok held.entry))
    × IsWellFormed t'
    × ((y : ℕ) → y < 2 ^ 64 → view t' y ≡ (if y == x then none else view t y))
    × (remove_of_kind t' x k ≡ done (t', err stale_handle))

-- With any other handle it returns an error and leaves the table as it is.
abbrev pub Refuses : Table → ℕ → ℕ → Type 0
Refuses t x k =
    (e : KtError) × (remove_of_kind t x k ≡ done (t, err e))
    × ((held : Held) → view t x ≡ some held → kind held.entry ≢ k)

remove_accepted :
    (t : Table) (x k : ℕ) {i : ℕ} (t' : Table) (e : Entry)
    → validate t x k ≡ ok i
    → take t i ≡ done (t', e)
    → remove_of_kind t x k ≡ done (t', ok e)
unfolding remove_of_kind
remove_accepted t x k t' e accepted runs = rw (accepted, remove_of_kind) (rw runs)

remove_refused :
    (t : Table) (x k : ℕ) {e : KtError}
    → validate t x k ≡ err e
    → remove_of_kind t x k ≡ done (t, err e)
unfolding remove_of_kind
remove_refused t x k refused = rw (refused, remove_of_kind)

remove-Removes :
    (t : Table) (v : IsWellFormed t) (x : ℕ) (s : Slot) (e : Entry)
    → IsLive t x s e
    → x < 2 ^ 64
    → Removes t x (kind e)
remove-Removes t v x s e l lt = (
  record { entry = e; owner = s.owner },
  vacate t (index_of x) s,
  IsLive-view l,
  refl,
  remove_accepted t x (kind e) (vacate t (index_of x) s) e (IsLive-validate l)
      (take_lem t v (index_of x) s e l.at l.holds),
  vacate-IsWellFormed t v (index_of x) s e l.at l.holds,
  vacate-view t v x s e l lt,
  remove_refused (vacate t (index_of x) s) x (kind e) stale,
)
  where
    old : IsGood s
    old = All-get_elem? IsGood t.slots (index_of x) v.good l.at

    stale : validate (vacate t (index_of x) s) x (kind e) ≡ err stale_handle
    stale = rw l.same_kind (
        validate-stale (vacate t (index_of x) s) x (vacated s)
          (vacate-slots t v (index_of x) s e l.at l.holds (index_of x) ∙ rw (==_refl (index_of x)))
          (λ same.
            (next_generation-bounds s.generation old.positive old.fits).2
              (same ∙ sym l.same_generation)))

-- On a well-formed table `remove_of_kind` of a 64-bit handle never panics: a handle that is live
-- at the kind asked for is removed, it alone, and a second removal of it is refused as stale; any
-- other is refused with an error, the table unchanged.
pub remove_of_kind_lem :
    (t : Table) (x k : ℕ) → IsWellFormed t → x < 2 ^ 64 → Removes t x k ⊎ Refuses t x k
remove_of_kind_lem t x k v lt = elim (validate-cases t x k) [
  | inl (i, accepted) ↦
      let (s, e, l, ke, _) = validate-IsLive t x k i accepted in
      inl (subst (Removes t x) ke (remove-Removes t v x s e l lt))
  | inr (e, refused) ↦ inr (
    e,
    remove_refused t x k refused,
    λ held bound ke.
        let (s, l, _) = view-IsLive t x held bound in
        let accepted : validate t x k ≡ ok (index_of x) = rw (← ke) (IsLive-validate l) in cc,
  )
]
