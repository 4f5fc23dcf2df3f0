-- ===== src/Handle/Owner.antt =====
-- Which runtime owns a handle: `require_owner` of src/handle.rs, core-bridge/rust/kt-bridge.
use temporal_kt_bridge.Base.{
  ℕ, ◌≡◌, ◌≢◌, ◌↔◌, sym, ap, ◌∙◌, arith, ◌==◌, not, if◌then◌else◌, some, inl, inr, ==_refl, text,
}
use temporal_kt_bridge.Error.{KtError, invalid_argument, KtResult, ok, err, Exec, done}
use temporal_kt_bridge.Handle.{Entry, kind_of, index_of, Slot, Table, validate}
use temporal_kt_bridge.Handle.Owned.{require_owner}
use temporal_kt_bridge.Handle.Invariant.{view}
use temporal_kt_bridge.Handle.Insert.{slot_at_lem}
use temporal_kt_bridge.Handle.Live.{
  IsLive, IsLive-view, view-IsLive, IsLive-validate, validate-IsLive, validate-cases,
}

-- On a live handle the owner of its slot is compared.
pub live_owner :
    (t : Table) (x owner : ℕ) {s : Slot} {e : Entry}
    → IsLive t x s e
    → require_owner t x owner
      ≡ done (
          if not (s.owner == owner)
          then err (invalid_argument (text "handle belongs to a different runtime"))
          else ok tt)
unfolding require_owner
live_owner t x owner l =
    let accepted : validate t x (kind_of x) ≡ ok (index_of x) =
      rw (← l.same_kind) (IsLive-validate l) in
    rw (accepted, require_owner) (rw (slot_at_lem t.slots (index_of x) l.at))

pub stale_owner :
    (t : Table) (x owner : ℕ) {e : KtError}
    → validate t x (kind_of x) ≡ err e
    → require_owner t x owner ≡ done (err e)
unfolding require_owner
stale_owner t x owner refused = rw (refused, require_owner)

abbrev compared : ℕ → ℕ → KtResult (Unit {0})
compared n owner =
    if not (n == owner)
    then err (invalid_argument (text "handle belongs to a different runtime"))
    else ok tt

owned_only : (n owner : ℕ) → compared n owner ≡ ok tt → n ≡ owner
owned_only n owner h = ground arith

done_ok : {r : KtResult (Unit {0})} → done r ≡ done (ok tt) → r ≡ ok tt
done_ok h = ground arith

refused_not : {e : KtError} {r : Exec (KtResult (Unit {0}))} → r ≡ done (err e) → r ≢ done (ok tt)
refused_not h k = cc

-- `require_owner` accepts exactly the live handles whose entry the runtime owns, whatever their kind.
pub require_owner_iff :
    (t : Table) (x owner : ℕ)
    → (require_owner t x owner ≡ done (ok tt))
      ↔ ((e : Entry) × (view t x ≡ some (record { entry = e; owner = owner })))
require_owner_iff t x owner = (to, from)
  where
    to :
        require_owner t x owner ≡ done (ok tt)
        → (e : Entry) × (view t x ≡ some (record { entry = e; owner = owner }))
    to h = elim (validate-cases t x (kind_of x)) [
      | inl (i, accepted) ↦
          let (s, e, l, _, _) = validate-IsLive t x (kind_of x) i accepted in
          let mine = owned_only s.owner owner (done_ok (sym (live_owner t x owner l) ∙ h)) in
          (e, IsLive-view l ∙ ap (λ (o : ℕ). some (record { entry = e; owner = o })) mine)
      | inr (e, refused) ↦ absurd (refused_not (stale_owner t x owner refused) h)
    ]

    from :
        (e : Entry) × (view t x ≡ some (record { entry = e; owner = owner }))
        → require_owner t x owner ≡ done (ok tt)
    from (e, bound) =
        let (s, l, mine) = view-IsLive t x (record { entry = e; owner = owner }) bound in
        live_owner t x owner l ∙ rw (mine, ==_refl owner)
