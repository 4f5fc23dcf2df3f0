-- ===== src/Telemetry/Drain.antt =====
-- What the JVM gets when it drains the meter: src/telemetry.rs, core-bridge/rust/kt-bridge.
use temporal_kt_bridge.Base.{
  ℕ, ◌+◌, ◌-◌, ◌%◌, ◌^◌, ◌<◌, ◌≡◌, refl, ap, ◌∙◌, arith, List, [], ◌∷◌, map, length, get_elem?,
  get_elem?_of_lt, All, All-weaken, some, Bool, false, ◌==◌, ◌||◌,
}
use temporal_kt_bridge.Error.{done}
use temporal_kt_bridge.Telemetry.{
  Definition, Sample, State, MetricBatch, insert_id, ids_of, definition_at, definitions_at,
  to_update, drop_logs, drain,
}
use temporal_kt_bridge.Telemetry.Invariant.{IsWellFormed, IsId}

abbrev pub IsAscending : List ℕ → Type 0
IsAscending [] = Unit
IsAscending (n ∷ ns) = All (λ m. n < m) ns × IsAscending ns

abbrev pub member : ℕ → List ℕ → Bool
member n [] = false
member n (m ∷ ms) = m == n || member n ms

-- Some sample is of the instrument.
abbrev pub uses : ℕ → List Sample → Bool
uses n [] = false
uses n (x ∷ xs) = x.instrument == n || uses n xs

member-insert_id : (k n : ℕ) (ns : List ℕ) → member k (insert_id n ns) ≡ (n == k || member k ns)
member-insert_id k n [] = refl
member-insert_id k n (m ∷ ms) = ground (arith, member-insert_id k n ms)

insert_id-All :
    (k n : ℕ) (ns : List ℕ) → k < n → All (λ m. k < m) ns → All (λ m. k < m) (insert_id n ns)
insert_id-All k n [] h a = (h, tt)
insert_id-All k n (m ∷ ms) h a = ground (arith, insert_id-All k n ms)

insert_id-IsAscending : (n : ℕ) (ns : List ℕ) → IsAscending ns → IsAscending (insert_id n ns)
insert_id-IsAscending n [] a = (tt, tt)
insert_id-IsAscending n (m ∷ ms) (above, a) =
    let below : n < m → All (λ k. n < k) ms =
      λ h. All-weaken (λ k. m < k) (λ k. n < k) ms (λ k g. omega (arith, g, h)) above in
    ground (arith, insert_id-IsAscending n ms a, insert_id-All m n ms, below)

ids_of-IsAscending : (xs : List Sample) → IsAscending (ids_of xs)
unfolding ids_of
ids_of-IsAscending [] = tt
ids_of-IsAscending (x ∷ xs) = insert_id-IsAscending x.instrument (ids_of xs) (ids_of-IsAscending xs)

member-ids_of : (n : ℕ) (xs : List Sample) → member n (ids_of xs) ≡ uses n xs
unfolding ids_of
member-ids_of n [] = refl
member-ids_of n (x ∷ xs) =
    member-insert_id n x.instrument (ids_of xs)
    ∙ ap (λ (b : Bool). x.instrument == n || b) (member-ids_of n xs)

insert_id-ids :
    (s : State) (n : ℕ) (ns : List ℕ) → IsId s n → All (IsId s) ns → All (IsId s) (insert_id n ns)
insert_id-ids s n [] h a = (h, tt)
insert_id-ids s n (m ∷ ms) h a = ground (arith, insert_id-ids s n ms h)

ids_of-ids :
    (s : State) (xs : List Sample) → All (λ x. IsId s x.instrument) xs → All (IsId s) (ids_of xs)
unfolding ids_of
ids_of-ids s [] a = tt
ids_of-ids s (x ∷ xs) (h, a) = insert_id-ids s x.instrument (ids_of xs) h (ids_of-ids s xs a)

-- The definition with an id.
abbrev pub Defines : State → Definition → Type 0
Defines s d = get_elem? s.definitions (d.id - 1) ≡ some d

definition_at_lem :
    (s : State) (id : ℕ)
    → IsWellFormed s
    → length s.definitions < 2 ^ 64
    → IsId s id
    → (d : Definition) × (definition_at s.definitions id ≡ done d) × (d.id ≡ id) × Defines s d
unfolding definition_at
definition_at_lem s id v small (p, h) =
    let (d, at) = get_elem?_of_lt s.definitions (id - 1) (omega (arith, p, h)) in
    let (id_is, _) = v.named (id - 1) d at in
    let same : d.id ≡ id = omega (arith, id_is, p) in
    let wrapped : (id + (2 ^ 64 - 1)) % 2 ^ 64 ≡ id - 1 = omega (arith, p, h, small) in
    (
      d,
      rw (wrapped, at, definition_at),
      same,
      ap (get_elem? s.definitions) (omega (arith, same)) ∙ at,
    )

definitions_at_lem :
    (s : State) (ids : List ℕ)
    → IsWellFormed s
    → length s.definitions < 2 ^ 64
    → All (IsId s) ids
    → (ds : List Definition) × (definitions_at s.definitions ids ≡ done ds)
      × (map (λ d. d.id) ds ≡ ids)
      × All (Defines s) ds
unfolding definitions_at
definitions_at_lem s [] v small a = ([], refl, refl, tt)
definitions_at_lem s (id ∷ ids) v small (h, a) =
    let (d, runs, same, defines) = definition_at_lem s id v small h in
    let (ds, rest, names, all) = definitions_at_lem s ids v small a in
    (
      d ∷ ds,
      rw (runs, rest),
      ap (λ (k : ℕ). k ∷ map (λ (d : Definition). d.id) ds) same ∙ ap (◌∷◌ id) names,
      (defines, all),
    )

-- What a drain of a meter hands out.
pub record Drained (s : State) (b : MetricBatch) : Type 0 where
  pub runs : drain s ≡ done (record s { updates = []; dropped = 0 }, b)
  pub updates : b.updates ≡ map to_update s.updates
  pub logs : b.logs ≡ drop_logs s.dropped
  pub ascending : IsAscending (map (λ d. d.id) b.definitions)
  pub named : (n : ℕ) → member n (map (λ d. d.id) b.definitions) ≡ uses n s.updates
  pub defined : All (Defines s) b.definitions

-- A drain of a well-formed meter with fewer than 2 ^ 64 definitions never panics: it hands out every sample that is queued, in order, with
-- the definitions of the instruments that have a sample, each once and in the order of their ids, and
-- a warning if samples were dropped; and it leaves the queue empty and the definitions as they are.
pub drain-Drained :
    (s : State) → IsWellFormed s → length s.definitions < 2 ^ 64 → (b : MetricBatch) × Drained s b
unfolding drain
drain-Drained s v small =
    let (ds, runs, names, all) =
      definitions_at_lem s (ids_of s.updates) v small (ids_of-ids s s.updates v.samples) in
    (
      record { definitions = ds; updates = map to_update s.updates; logs = drop_logs s.dropped },
      record {
        runs = rw runs;
        updates = refl;
        logs = refl;
        ascending = rw names (ids_of-IsAscending s.updates);
        named = λ n. ap (member n) names ∙ member-ids_of n s.updates;
        defined = all;
      },
    )
