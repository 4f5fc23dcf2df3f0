-- ===== src/Telemetry/Instruments.antt =====
-- The ids of instruments: src/telemetry.rs, core-bridge/rust/kt-bridge.
use temporal_kt_bridge.Base.{
  ℕ, ◌+◌, ◌≡◌, refl, sym, ap₂, ◌∙◌, arith, Bytes, eqb, eqb_refl, eqb-eq, ◌==◌, ==_refl, ◌&&◌,
  length, none, some, Option-cases, inl, inr, Bool-cases,
}
use temporal_kt_bridge.Telemetry.{Parameters, State, find, add_instrument, instrument}
use temporal_kt_bridge.Telemetry.Invariant.{IsWellFormed, added, added-IsWellFormed, find-added}

-- The meter after an instrument was asked for, and the id that it got.
pub record Instrumented (s : State) (kind : ℕ) (params : Parameters) (s' : State) (id : ℕ)
    : Type 0 where
  pub valid : IsWellFormed s'
  pub found : find params.name kind s'.instruments ≡ some id
  -- Earlier instruments keep their ids, and the samples stay.
  pub kept :
      (n : Bytes) (k i : ℕ) → find n k s.instruments ≡ some i → find n k s'.instruments ≡ some i
  pub updates : s'.updates ≡ s.updates
  pub dropped : s'.dropped ≡ s.dropped

instrument_known :
    (s : State) (kind id : ℕ) (params : Parameters)
    → find params.name kind s.instruments ≡ some id
    → instrument s kind params ≡ (s, id)
unfolding instrument
instrument_known s kind id params h = rw (h, instrument)

instrument_new :
    (s : State) (v : IsWellFormed s) (kind : ℕ) (params : Parameters)
    (h : find params.name kind s.instruments ≡ none)
    → instrument s kind params ≡ (added s v kind params h, length s.definitions + 1)
unfolding instrument added add_instrument
instrument_new s v kind params h = rw (h, instrument) refl

unchanged :
    (s : State) (v : IsWellFormed s) (kind : ℕ) (params : Parameters)
    (h : find params.name kind s.instruments ≡ none) (n : Bytes) (k i : ℕ)
    → find n k s.instruments ≡ some i
    → find n k (added s v kind params h).instruments ≡ some i
unchanged s v kind params h n k i at = elim (Bool-cases (eqb params.name n && kind == k)) [
  | inl same ↦
      let names : params.name ≡ n = ground (arith, eqb-eq params.name n) in
      let kinds : kind ≡ k = ground arith in
      absurd (clash (sym h ∙ ap₂ (λ a b. find a b s.instruments) names kinds ∙ at))
  | inr differs ↦ find-added s v kind params h n k ∙ rw differs at
]
  where
    clash : none ≡ some i → ⊥
    clash e = cc

-- Asking for an instrument keeps the meter well-formed, its samples and the ids that it gave out, and
-- gives the id that its name and kind have from then on.
pub instrument-Instrumented :
    (s : State) (kind : ℕ) (params : Parameters)
    → IsWellFormed s
    → Instrumented s kind params (instrument s kind params).0 (instrument s kind params).1
instrument-Instrumented s kind params v =
    elim (Option-cases (find params.name kind s.instruments)) [
      | inr (id, known) ↦
          rw (instrument_known s kind id params known) (record {
            valid = v;
            found = known;
            kept = λ n k i h. h;
            updates = refl;
            dropped = refl;
          })
      | inl unknown ↦ rw (instrument_new s v kind params unknown) (record {
        valid = added-IsWellFormed s v kind params unknown;
        found =
            find-added s v kind params unknown params.name kind
            ∙ rw (eqb_refl params.name, ==_refl kind);
        kept = unchanged s v kind params unknown;
        updates = unfold added in refl;
        dropped = unfold added in refl;
      })
    ]
