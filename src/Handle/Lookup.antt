-- ===== src/Handle/Lookup.antt =====
-- Insertion and lookup in the handle table against its view as a map: src/handle.rs of
-- core-bridge/rust/kt-bridge.
use temporal_kt_bridge.Base.{
  ℕ, ◌^◌, ◌*◌, ◌+◌, ◌<◌, ◌≡◌, ◌≢◌, ◌↔◌, refl, sym, ap, ◌∙◌, arith, ◌==◌, if◌then◌else◌, none, some,
  [], length, get_elem?, inl, inr, ◌⊎◌, Option-cases,
}
use temporal_kt_bridge.Error.{KtError, shutdown, KtResult, ok, err, done}
use temporal_kt_bridge.Handle.{
  Entry, runtime, client, worker, ephemeral, poller, kind, kind_of, kind_runtime, index_of, encode,
  Slot, Table, insert_into, insert_owned, close, validate,
}
use temporal_kt_bridge.Handle.Owned.{
  with_entry, live_entry, get_runtime, get_client, get_worker, get_ephemeral, get_poller,
  as_runtime, as_client, as_worker, as_ephemeral, as_poller,
}
use temporal_kt_bridge.Handle.Codec.{kind-bounds, encode-sum}
use temporal_kt_bridge.Handle.Invariant.{Held, view, IsWellFormed}
use temporal_kt_bridge.Handle.Insert.{insert_into-Insertion, Insertion, Insertion-view, slot_at_lem}
use temporal_kt_bridge.Handle.Live.{
  IsLive-view, view-IsLive, IsLive-validate, validate-IsLive, validate-cases,
}

-- An insertion went through with this table and this handle: a new binding, every other kept.
abbrev pub Binds : Table → Entry → ℕ → Table → ℕ → Type 0
Binds t e owner t' h =
    IsWellFormed t'
    × (h ≢ 0)
    × (h < 2 ^ 64)
    × (view t h ≡ none)
    × ((x : ℕ)
        → x < 2 ^ 64
        → view t' x ≡ (if x == h then some (record { entry = e; owner = owner }) else view t x))

-- An insertion into a well-formed table with room for one more index never panics, and binds a
-- handle that no live entry had.
pub insert_into-Binds :
    (t : Table) (e : Entry) (owner : ℕ)
    → IsWellFormed t
    → length t.slots < 2 ^ 32
    → (t' : Table) × (h : ℕ) × (insert_into t e owner ≡ done (t', h)) × Binds t e owner t' h
insert_into-Binds t e owner v room = (
  ins.table,
  encode (kind e) ins.generation ins.index,
  ins.runs,
  (
    ins.valid,
    λ z. omega (arith, sum, kind-bounds e, ins.fits, ins.narrow),
    omega (arith, sum, kind-bounds e, ins.fits, ins.narrow),
    (Insertion-view ins 0 (omega arith)).0,
    λ x lt. (Insertion-view ins x lt).1,
  ),
)
  where
    ins : Insertion t e owner
    ins = insert_into-Insertion t e owner v room

    sum :
        encode (kind e) ins.generation ins.index
        ≡ kind e * 2 ^ 56 + ins.generation * 2 ^ 32 + ins.index
    sum =
        encode-sum (kind e) ins.generation ins.index (omega (arith, kind-bounds e)) ins.fits
          ins.narrow

-- A live handle hands its entry to `f`; any other is an error.
pub with_entry-view :
    (t : Table) (x : ℕ) (f : Entry → KtResult ℕ)
    → ((held : Held) → view t x ≡ some held → with_entry t x f ≡ done (f held.entry))
      × (view t x ≡ none → (e : KtError) × (with_entry t x f ≡ done (err e)))
with_entry-view t x f = (live, dead)
  where
    found :
        (s : Slot) (e : Entry)
        → validate t x (kind_of x) ≡ ok (index_of x)
        → get_elem? t.slots (index_of x) ≡ some s
        → s.entry ≡ some e
        → with_entry t x f ≡ done (f e)
    found s e accepted at holds =
        unfold with_entry live_entry in
        rw (accepted, with_entry)
          (rw (slot_at_lem t.slots (index_of x) at) (rw (holds, live_entry)))

    live : (held : Held) → view t x ≡ some held → with_entry t x f ≡ done (f held.entry)
    live held bound =
        let (s, l, _) = view-IsLive t x held bound in
        found s held.entry (rw (← l.same_kind) (IsLive-validate l)) l.at l.holds

    dead : view t x ≡ none → (e : KtError) × (with_entry t x f ≡ done (err e))
    dead unbound = elim (validate-cases t x (kind_of x)) [
      | inl (i, accepted) ↦
          let (s, e, l, _, _) = validate-IsLive t x (kind_of x) i accepted in
          absurd (clash (IsLive-view l))
      | inr (e, refused) ↦ (e, unfold with_entry in rw (refused, with_entry))
    ]
      where
        clash : {h : Held} → view t x ≡ some h → ⊥
        clash bound = cc

-- The entry that `wrap n` makes is what `as` reads `n` from, and nothing else.
abbrev Reads : (Entry → KtResult ℕ) → (ℕ → Entry) → Type 0
Reads as_entry wrap =
    (e : Entry) (n : ℕ) → (as_entry e ≡ ok n → e ≡ wrap n) × (as_entry (wrap n) ≡ ok n)

abbrev pub Resolves : Table → ℕ → Entry → Type 0
Resolves t x e = (owner : ℕ) × (view t x ≡ some (record { entry = e; owner = owner }))

getter_iff :
    (as_entry : Entry → KtResult ℕ) (wrap : ℕ → Entry)
    → Reads as_entry wrap
    → (t : Table) (x n : ℕ) → (with_entry t x as_entry ≡ done (ok n)) ↔ Resolves t x (wrap n)
getter_iff as_entry wrap reads t x n = (to, from)
  where
    to : with_entry t x as_entry ≡ done (ok n) → Resolves t x (wrap n)
    to h = elim (Option-cases (view t x)) [
      | inl unbound ↦ let (e, refused) = (with_entry-view t x as_entry).1 unbound in absurd (cc)
      | inr (held, bound) ↦
          let runs : done (as_entry held.entry) ≡ done (ok n) =
            sym ((with_entry-view t x as_entry).0 held bound) ∙ h in
          let same : held.entry ≡ wrap n = (reads held.entry n).0 (cc) in
          (
            held.owner,
            bound ∙ ap (λ (e : Entry). some (record { entry = e; owner = held.owner })) same,
          )
    ]

    from : Resolves t x (wrap n) → with_entry t x as_entry ≡ done (ok n)
    from (owner, bound) =
        (with_entry-view t x as_entry).0 (record { entry = wrap n; owner = owner }) bound
        ∙ ap done (reads (wrap n) n).1

-- Each typed getter succeeds exactly on the handles that resolve to an entry of its own variant,
-- and gives the object of that entry.
pub getters_iff :
    (t : Table) (x n : ℕ)
    → ((get_runtime t x ≡ done (ok n)) ↔ Resolves t x (runtime n))
      × ((get_client t x ≡ done (ok n)) ↔ Resolves t x (client n))
      × ((get_worker t x ≡ done (ok n)) ↔ Resolves t x (worker n))
      × ((get_ephemeral t x ≡ done (ok n)) ↔ Resolves t x (ephemeral n))
      × ((get_poller t x ≡ done (ok n)) ↔ Resolves t x (poller n))
unfolding get_runtime get_client get_worker get_ephemeral get_poller
getters_iff t x n = (
  getter_iff as_runtime runtime (λ e m. (ground arith, refl)) t x n,
  getter_iff as_client client (λ e m. (ground arith, refl)) t x n,
  getter_iff as_worker worker (λ e m. (ground arith, refl)) t x n,
  getter_iff as_ephemeral ephemeral (λ e m. (ground arith, refl)) t x n,
  getter_iff as_poller poller (λ e m. (ground arith, refl)) t x n,
)

pub runtime-cases : (x : Entry) → kind x ≡ kind_runtime → (r : ℕ) × (x ≡ runtime r)
unfolding kind
runtime-cases (runtime r) k = (r, refl)
runtime-cases (client r) k = absurd (omega arith)
runtime-cases (worker r) k = absurd (omega arith)
runtime-cases (ephemeral r) k = absurd (omega arith)
runtime-cases (poller r) k = absurd (omega arith)

pub runtime_accepted :
    (t : Table) (x r o : ℕ)
    → view t x ≡ some (record { entry = runtime r; owner = o })
    → validate t x kind_runtime ≡ ok (index_of x)
unfolding kind
runtime_accepted t x r o bound =
    let (s, l, _) = view-IsLive t x (record { entry = runtime r; owner = o }) bound in
    IsLive-validate l

-- On a well-formed table with room for one more index `insert_owned` binds the entry under the
-- runtime, if that handle is a live runtime; if not, it leaves the table as it is, answers Shutdown
-- and closes the entry.
pub insert_owned_lem :
    (t : Table) (owner : ℕ) (e : Entry)
    → IsWellFormed t
    → length t.slots < 2 ^ 32
    → ((r : ℕ) × (t' : Table) × (h : ℕ) × Resolves t owner (runtime r)
        × (insert_owned t owner e ≡ done (record { table = t'; result = ok h; closing = [] }))
        × Binds t e owner t' h)
      ⊎ (((r : ℕ) → ¬ Resolves t owner (runtime r))
          × (insert_owned t owner e
              ≡ done (record { table = t; result = err shutdown; closing = close e })))
unfolding insert_owned
insert_owned_lem t owner e v room = elim (validate-cases t owner kind_runtime) [
  | inl (i, accepted) ↦
      let (s, held, l, ke, _) = validate-IsLive t owner kind_runtime i accepted in
      let (t', h, runs, binds) = insert_into-Binds t e owner v room in
      let (r, is_runtime) = runtime-cases held ke in
      inl (
        r,
        t',
        h,
        (s.owner, rw (← is_runtime) (IsLive-view l)),
        rw (accepted, insert_owned) (rw runs),
        binds,
      )
  | inr (refusal, refused) ↦ inr (
    λ r (o, bound).
        let accepted : validate t owner kind_runtime ≡ ok (index_of owner) =
          runtime_accepted t owner r o bound in
        cc,
    rw (refused, insert_owned),
  )
]
