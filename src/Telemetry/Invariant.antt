-- ===== src/Telemetry/Invariant.antt =====
-- What holds of the meter of src/telemetry.rs, core-bridge/rust/kt-bridge, between two calls: every id
-- that was given out is that of one definition.
use temporal_kt_bridge.Base.{
  ℕ, ◌+◌, ◌-◌, ◌≤◌, ◌≡◌, refl, sym, ap, ap₂, ◌∙◌, subst, lt-or-le, Bool-cases, arith, Bytes, eqb,
  eqb_refl, eqb-eq, List, [], ◌∷◌, ◌++◌, length, length-append, get_elem?, get_elem?-append_left,
  get_elem?-append_end, get_elem?-lt, All, All-weaken, none, some, ◌==◌, ==_refl, ◌&&◌,
  if◌then◌else◌, inl, inr,
}
use temporal_kt_bridge.Telemetry.{
  Definition, Parameters, State, new, find, add_instrument, max_updates,
}

-- An id of the meter.
abbrev pub IsId : State → ℕ → Type 0
IsId s id = (1 ≤ id) × (id ≤ length s.definitions)

pub record IsWellFormed (s : State) : Type 0 where
  -- An entry of the map names the definition with its id.
  pub entries :
      (name : Bytes) (kind id : ℕ)
      → find name kind s.instruments ≡ some id
      → (d : Definition) × (get_elem? s.definitions (id - 1) ≡ some d)
        × (1 ≤ id)
        × (d.name ≡ name)
        × (d.kind ≡ kind)
  -- A definition has its position as its id, and is the one of its name and kind.
  pub named :
      (i : ℕ) (d : Definition)
      → get_elem? s.definitions i ≡ some d
      → (d.id ≡ i + 1) × (find d.name d.kind s.instruments ≡ some (i + 1))
  pub samples : All (λ x. IsId s x.instrument) s.updates
  pub bounded : length s.updates ≤ max_updates

pub new-IsWellFormed : IsWellFormed new
unfolding new find
new-IsWellFormed = record {
  entries = λ name kind id h. cc;
  named = λ i d h. cc;
  samples = tt;
  bounded = omega arith;
}

module _ (s : State) (v : IsWellFormed s) (kind : ℕ) (params : Parameters)
    (none_yet : find params.name kind s.instruments ≡ none) where
  unfoldable pub added : State
  unfolding add_instrument
  added = (add_instrument s kind params).0

  defined : Definition
  defined = record {
    id = length s.definitions + 1;
    name = params.name;
    description = params.description;
    unit = params.unit;
    kind = kind;
  }

  definitions-added : added.definitions ≡ s.definitions ++ defined ∷ []
  unfolding added defined
  definitions-added = refl

  wider : length added.definitions ≡ length s.definitions + 1
  wider = ap length definitions-added ∙ length-append s.definitions (defined ∷ []) ∙ omega arith

  pub find-added :
      (name : Bytes) (k : ℕ)
      → find name k added.instruments ≡ (
          if eqb params.name name && kind == k
          then some (length s.definitions + 1)
          else find name k s.instruments)
  unfolding added find
  find-added name k = refl

  entries-added :
      (name : Bytes) (k id : ℕ)
      → find name k added.instruments ≡ some id
      → (d : Definition) × (get_elem? added.definitions (id - 1) ≡ some d)
        × (1 ≤ id)
        × (d.name ≡ name)
        × (d.kind ≡ k)
  unfolding defined
  entries-added name k id h = elim (Bool-cases (eqb params.name name && kind == k)) [
    | inl same ↦
        let id_is : length s.definitions + 1 ≡ id = ground (arith, find-added name k) in
        (
          defined,
          ap (λ (ds : List Definition). get_elem? ds (id - 1)) definitions-added
              ∙ ap (get_elem? (s.definitions ++ defined ∷ [])) (omega (arith, id_is))
              ∙ get_elem?-append_end s.definitions defined,
          omega (arith, id_is),
          ground (arith, eqb-eq params.name name),
          ground arith,
        )
    | inr differs ↦
        let (d, at, p, n, ke) = v.entries name k id (ground (arith, find-added name k)) in
        (
          d,
          ap (λ (ds : List Definition). get_elem? ds (id - 1)) definitions-added
              ∙ get_elem?-append_left s.definitions (defined ∷ []) (id - 1)
                  (get_elem?-lt s.definitions (id - 1) at)
              ∙ at,
          p,
          n,
          ke,
        )
  ]

  named-old :
      (i : ℕ) (d : Definition)
      → get_elem? s.definitions i ≡ some d
      → (d.id ≡ i + 1) × (find d.name d.kind added.instruments ≡ some (i + 1))
  named-old i d h =
      let (id_is, found) = v.named i d h in
      (
        id_is,
        elim (Bool-cases (eqb params.name d.name && kind == d.kind)) [
          | inl same ↦
              let names : params.name ≡ d.name = ground (arith, eqb-eq params.name d.name) in
              let kinds : kind ≡ d.kind = ground arith in
              absurd
                (clash (sym none_yet ∙ ap₂ (λ n k. find n k s.instruments) names kinds ∙ found))
          | inr differs ↦ find-added d.name d.kind ∙ rw differs found
        ],
      )
    where
      clash : none ≡ some (i + 1) → ⊥
      clash e = cc

  named-new :
      (d : Definition)
      → get_elem? (s.definitions ++ defined ∷ []) (length s.definitions) ≡ some d
      → (d.id ≡ length s.definitions + 1)
        × (find d.name d.kind added.instruments ≡ some (length s.definitions + 1))
  named-new d h =
      let is_new : defined ≡ d = cc (get_elem?-append_end s.definitions defined) in
      subst
        (λ (d : Definition).
          (d.id ≡ length s.definitions + 1)
          × (find d.name d.kind added.instruments ≡ some (length s.definitions + 1)))
        is_new fresh
    where
      fresh :
          (defined.id ≡ length s.definitions + 1)
          × (find defined.name defined.kind added.instruments ≡ some (length s.definitions + 1))
      fresh =
          unfold defined in
          (refl, find-added params.name kind ∙ rw (eqb_refl params.name, ==_refl kind))

  named-added :
      (i : ℕ) (d : Definition)
      → get_elem? added.definitions i ≡ some d
      → (d.id ≡ i + 1) × (find d.name d.kind added.instruments ≡ some (i + 1))
  named-added i d h =
      let at = sym (ap (λ (ds : List Definition). get_elem? ds i) definitions-added) ∙ h in
      elim (lt-or-le i (length s.definitions)) [
        | inl old ↦
            named-old i d (sym (get_elem?-append_left s.definitions (defined ∷ []) i old) ∙ at)
        | inr new ↦
            let last : i ≡ length s.definitions =
              omega (arith, wider, get_elem?-lt added.definitions i h) in
            subst
              (λ j.
                get_elem? (s.definitions ++ defined ∷ []) j ≡ some d
                → (d.id ≡ j + 1) × (find d.name d.kind added.instruments ≡ some (j + 1)))
              (sym last) (named-new d) at
      ]

  pub added-IsWellFormed : IsWellFormed added
  added-IsWellFormed = record {
    entries = entries-added;
    named = named-added;
    samples =
        unfold added in
        All-weaken (λ x. IsId s x.instrument) (λ x. IsId added x.instrument) s.updates
          (λ x h. (h.0, omega (arith, h.1, wider))) v.samples;
    bounded = unfold added in v.bounded;
  }
