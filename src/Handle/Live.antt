-- ===== src/Handle/Live.antt =====
-- What `validate` of src/handle.rs, of core-bridge/rust/kt-bridge, accepts.
use temporal_kt_bridge.Base.{
  ℕ, ◌≡◌, ◌≢◌, refl, sym, ◌∙◌, arith, ◌==◌, if◌then◌else◌, Option, none, some, get_elem?, ◌⊎◌, inl,
  inr, ==_refl, ==_ne,
}
use temporal_kt_bridge.Error.{KtError, KtResult, ok, err, stale_handle}
use temporal_kt_bridge.Handle.{
  Entry, kind, kind_of, generation_of, index_of, Slot, Table, validate, validate_slot,
  validate_entry,
}
use temporal_kt_bridge.Handle.Codec.{kind-bounds, fields}
use temporal_kt_bridge.Handle.Invariant.{Held, view, seen}

-- The handle names this slot, which holds this entry.
pub record IsLive (t : Table) (x : ℕ) (s : Slot) (e : Entry) : Type 0 where
  pub at : get_elem? t.slots (index_of x) ≡ some s
  pub holds : s.entry ≡ some e
  pub same_kind : kind e ≡ kind_of x
  pub same_generation : s.generation ≡ generation_of x

pub IsLive-view :
    {t : Table} {x : ℕ} {s : Slot} {e : Entry}
    → IsLive t x s e
    → view t x ≡ some (record { entry = e; owner = s.owner })
IsLive-view {t} {x} {s} {e} l =
    rw (
      l.at,
      l.holds,
      l.same_kind,
      l.same_generation,
      ==_refl (kind_of x),
      ==_refl (generation_of x),
    )

seen-some :
    (x : ℕ) (o : Option Slot) (held : Held)
    → seen x o ≡ some held
    → (s : Slot) × (o ≡ some s)
      × (s.entry ≡ some held.entry)
      × (kind held.entry ≡ kind_of x)
      × (s.generation ≡ generation_of x)
      × (s.owner ≡ held.owner)
seen-some x none held h = ground arith
seen-some x (some s) held h = (s, refl, ground arith, ground arith, ground arith, ground arith)

pub view-IsLive :
    (t : Table) (x : ℕ) (held : Held)
    → view t x ≡ some held
    → (s : Slot) × IsLive t x s held.entry × (s.owner ≡ held.owner)
view-IsLive t x held h =
    let (s, at, holds, k, g, o) = seen-some x (get_elem? t.slots (index_of x)) held h in
    (s, record { at = at; holds = holds; same_kind = k; same_generation = g }, o)

-- A live handle is accepted at its kind.
pub IsLive-validate :
    {t : Table} {x : ℕ} {s : Slot} {e : Entry}
    → IsLive t x s e
    → validate t x (kind e) ≡ ok (index_of x)
unfolding validate validate_slot validate_entry
IsLive-validate {t} {x} {s} {e} l = rw (
  ==_ne x 0 nonzero,
  ← l.same_kind,
  ==_refl (kind e),
  l.at,
  ← l.same_generation,
  ==_refl s.generation,
  l.holds,
  ==_refl (kind e),
)
  where
    nonzero : x ≢ 0
    nonzero z = omega (fields, kind-bounds e, l.same_kind)

validate_entry-ok :
    (o : Option Entry) (j k i : ℕ)
    → validate_entry o j k ≡ ok i
    → (e : Entry) × (o ≡ some e) × (kind e ≡ k) × (i ≡ j)
unfolding validate_entry
validate_entry-ok none j k i h = ground arith
validate_entry-ok (some e) j k i h = (e, refl, ground arith, ground arith)

validate_slot-ok :
    (o : Option Slot) (x k i : ℕ)
    → validate_slot o x k ≡ ok i
    → (s : Slot) × (o ≡ some s)
      × (s.generation ≡ generation_of x)
      × (validate_entry s.entry (index_of x) k ≡ ok i)
unfolding validate_slot
validate_slot-ok none x k i h = ground arith
validate_slot-ok (some s) x k i h = (s, refl, ground arith, ground arith)

validate-slot :
    (t : Table) (x k i : ℕ)
    → validate t x k ≡ ok i
    → (kind_of x ≡ k) × (validate_slot (get_elem? t.slots (index_of x)) x k ≡ ok i)
unfolding validate
validate-slot t x k i h = ground arith

-- Only a live handle is accepted, at its kind.
pub validate-IsLive :
    (t : Table) (x k i : ℕ)
    → validate t x k ≡ ok i
    → (s : Slot) × (e : Entry) × IsLive t x s e × (kind e ≡ k) × (i ≡ index_of x)
validate-IsLive t x k i h =
    let (kx, in_slot) = validate-slot t x k i h in
    let (s, at, g, in_entry) = validate_slot-ok (get_elem? t.slots (index_of x)) x k i in_slot in
    let (e, holds, ke, same) = validate_entry-ok s.entry (index_of x) k i in_entry in
    (
      s,
      e,
      record { at = at; holds = holds; same_kind = ke ∙ sym kx; same_generation = g },
      ke,
      same,
    )

-- Every handle is accepted at its kind or refused with an error.
pub validate-cases :
    (t : Table) (x k : ℕ)
    → ((i : ℕ) × (validate t x k ≡ ok i)) ⊎ ((e : KtError) × (validate t x k ≡ err e))
validate-cases t x k = result-cases (validate t x k)
  where
    result-cases : (r : KtResult ℕ) → ((i : ℕ) × (r ≡ ok i)) ⊎ ((e : KtError) × (r ≡ err e))
    result-cases (ok i) = inl (i, refl)
    result-cases (err e) = inr (e, refl)

-- A handle whose slot has moved on to another generation is stale, at its own kind.
pub validate-stale :
    (t : Table) (x : ℕ) (s : Slot)
    → get_elem? t.slots (index_of x) ≡ some s
    → s.generation ≢ generation_of x
    → validate t x (kind_of x) ≡ err stale_handle
unfolding validate validate_slot
validate-stale t x s at g =
    rw (==_refl (kind_of x), at, ==_ne s.generation (generation_of x) g) (either (err stale_handle))
  where
    either : (r : KtResult ℕ) → (if x == 0 then r else r) ≡ r
    either r = ground arith
