-- ===== src/Telemetry/Meter.antt =====
-- The runs of the meter of src/telemetry.rs, core-bridge/rust/kt-bridge: Core asks for instruments and
-- records with those that it has, the JVM drains. Each step holds the lock.
use temporal_kt_bridge.Base.{
  ℕ, ◌-◌, ◌≡◌, sym, ap, ◌∙◌, subst, arith, List, [], ◌∷◌, length, length-append, get_elem?,
  get_elem?-lt, All, All-append, some, ℕ-cases, ==_ne, inl, inr, ◌↔◌, Bytes,
}
use temporal_kt_bridge.Error.{done}
use temporal_kt_bridge.Telemetry.{
  Definition, Parameters, Sample, State, Value, MetricBatch, new, find, instrument, record_value,
  push_sample, tail, max_updates, drain, definitions_at, ids_of,
}
use temporal_kt_bridge.Telemetry.Attributes.{MetricAttributes}
use temporal_kt_bridge.Telemetry.Invariant.{IsWellFormed, IsId, new-IsWellFormed}
use temporal_kt_bridge.Telemetry.Overflow.{length-tail}
use temporal_kt_bridge.Telemetry.Instruments.{instrument-Instrumented}

pub data Step : State → State → Type 0 where
  asks : (s : State) (kind : ℕ) (params : Parameters) → Step s (instrument s kind params).0
  -- An instrument that was given out carries the id of its name and kind.
  measures :
      (s : State) (name : Bytes) (kind id : ℕ) (attributes : MetricAttributes) (value : Value)
      → find name kind s.instruments ≡ some id
      → Step s (record_value s id attributes value)
  drains : (s s' : State) (b : MetricBatch) → drain s ≡ done (s', b) → Step s s'

-- From one state of the meter to another, the first step first.
pub data Run : State → State → Type 0 where
  stop : (s : State) → Run s s
  go : (s t u : State) → Step s t → Run t u → Run s u

-- What a step leaves: the invariant, and the ids that were given out.
pub record Kept (s s' : State) : Type 0 where
  pub valid : IsWellFormed s'
  pub ids :
      (n : Bytes) (k i : ℕ) → find n k s.instruments ≡ some i → find n k s'.instruments ≡ some i

tail-All : (P : Sample → Type 0) (xs : List Sample) → All P xs → All P (tail xs)
tail-All P [] h = tt
tail-All P (x ∷ xs) h = h.1

measures-Kept :
    (s : State) (x : Sample)
    → IsWellFormed s
    → IsId s x.instrument
    → Kept s (push_sample max_updates s x)
unfolding push_sample
measures-Kept s x v h = elim (ℕ-cases (length s.updates) max_updates) [
  | inl full ↦
      rw (push_sample, full)
        (record {
          valid = record {
            entries = v.entries;
            named = v.named;
            samples =
                All-append (λ x. IsId s x.instrument) (tail s.updates) (x ∷ [])
                  (tail-All (λ x. IsId s x.instrument) s.updates v.samples) (h, tt);
            bounded =
                omega (arith, full, length-append (tail s.updates) (x ∷ []), length-tail s.updates);
          };
          ids = λ n k i e. e;
        })
  | inr room ↦
      rw (push_sample, ==_ne (length s.updates) max_updates room)
        (record {
          valid = record {
            entries = v.entries;
            named = v.named;
            samples = All-append (λ x. IsId s x.instrument) s.updates (x ∷ []) v.samples (h, tt);
            bounded = omega (arith, room, v.bounded, length-append s.updates (x ∷ []));
          };
          ids = λ n k i e. e;
        })
]

-- A drain that returns has emptied the queue and left the rest.
drained_state :
    (s s' : State) (b : MetricBatch)
    → drain s ≡ done (s', b)
    → record s { updates = []; dropped = 0 } ≡ s'
unfolding drain
drained_state s s' b e = ground (arith, definitions_at s.definitions (ids_of s.updates))

Step-Kept : {s s' : State} → Step s s' → IsWellFormed s → Kept s s'
unfolding record_value
Step-Kept (asks s kind params) v =
    let i = instrument-Instrumented s kind params v in record { valid = i.valid; ids = i.kept }
Step-Kept (measures s name kind id attributes value found) v =
    let (d, at, p, _, _) = v.entries name kind id found in
    measures-Kept s (record { instrument = id; attributes = attributes; value = value }) v
      (p, omega (arith, p, get_elem?-lt s.definitions (id - 1) at))
Step-Kept (drains s s' b e) v = subst (Kept s) (drained_state s s' b e) (record {
  valid = record { entries = v.entries; named = v.named; samples = tt; bounded = omega arith };
  ids = λ n k i e. e;
})

pub Run-Kept : {s s' : State} → Run s s' → IsWellFormed s → Kept s s'
Run-Kept (stop s) v = record { valid = v; ids = λ n k i e. e }
Run-Kept (go s t u now later) v =
    let a = Step-Kept now v in
    let b = Run-Kept later a.valid in
    record { valid = b.valid; ids = λ n k i e. b.ids n k i (a.ids n k i e) }

-- In a run from the new meter, the id that an instrument has got is the id that a later one gets, whatever
-- is asked for, recorded and drained between them, if and only if the two have the same name and kind.
pub instrument_ids :
    (s s' : State) (kind kind' : ℕ) (params params' : Parameters)
    → Run new s
    → Run (instrument s kind params).0 s'
    → ((instrument s kind params).1 ≡ (instrument s' kind' params').1)
      ↔ ((params.name ≡ params'.name) × (kind ≡ kind'))
instrument_ids s s' kind kind' params params' before between =
    let first = instrument-Instrumented s kind params (Run-Kept before new-IsWellFormed).valid in
    let kept = Run-Kept between first.valid in
    let second = instrument-Instrumented s' kind' params' kept.valid in
    let id = (instrument s kind params).1 in
    let id' = (instrument s' kind' params').1 in
    let m = (instrument s' kind' params').0 in
    let known : find params.name kind m.instruments ≡ some id =
      second.kept params.name kind id (kept.ids params.name kind id first.found) in
    (
      λ same.
          let (d, at, _, names, kinds) = second.valid.entries params.name kind id known in
          let (d', at', _, names', kinds') =
            second.valid.entries params'.name kind' id' second.found in
          let one : d ≡ d' =
            cc (sym at ∙ ap (λ (i : ℕ). get_elem? m.definitions (i - 1)) same ∙ at') in
          (
            sym names ∙ ap (λ (x : Definition). x.name) one ∙ names',
            sym kinds ∙ ap (λ (x : Definition). x.kind) one ∙ kinds',
          ),
      λ (names, kinds). cc (
          sym known
          ∙ ap (λ (n : Bytes). find n kind m.instruments) names
          ∙ ap (λ (k : ℕ). find params'.name k m.instruments) kinds
          ∙ second.found),
    )
