-- ===== src/Telemetry.antt =====
-- src/telemetry.rs of core-bridge/rust/kt-bridge: Core's metrics, buffered for the JVM. A double is
-- the number of its 64 bits. `Telemetry.Attributes` has the attribute sets.
pub mod Attributes
pub mod Invariant
pub mod Instruments
pub mod Overflow
pub mod Drain
pub mod Meter
pub mod Merge
mod Examples
use temporal_kt_bridge.Base.{
  ℕ, zero, suc, ◌+◌, ◌-◌, ◌%◌, ◌^◌, min, Bytes, text, decimal, eqb, List, [], ◌∷◌, ◌++◌, map,
  length, get_elem?, Option, none, some, Bool, true, false, ◌==◌, ◌&&◌, ltb, if◌then◌else◌,
}
use temporal_kt_bridge.Base.Int.{ℤ, pos}
use temporal_kt_bridge.Error.{Exec, done, panics, owned, ◌>>=◌}
use temporal_kt_bridge.Telemetry.Attributes.{
  MetricAttributes, empty, MetricAttribute, attributes_to_proto,
}

-- `metric_update::Value`.
pub data Value : Type 0 where
  int_value : ℤ → Value
  double_value : ℕ → Value

-- `MetricDefinition` and `MetricParameters`.
pub record Definition : Type 0 where
  pub id : ℕ
  pub name : Bytes
  pub description : Bytes
  pub unit : Bytes
  pub kind : ℕ

pub record Parameters : Type 0 where
  pub name : Bytes
  pub description : Bytes
  pub unit : Bytes

pub record Sample : Type 0 where
  pub instrument : ℕ
  pub attributes : MetricAttributes
  pub value : Value

-- The hash map `instruments` is an association list from a name and a kind.
pub record State : Type 0 where
  pub instruments : List ((Bytes × ℕ) × ℕ)
  pub definitions : List Definition
  pub updates : List Sample
  pub dropped : ℕ

unfoldable pub new : State
new = record { instruments = []; definitions = []; updates = []; dropped = 0 }

unfoldable pub find : Bytes → ℕ → List ((Bytes × ℕ) × ℕ) → Option ℕ
find name kind [] = none
find name kind (((n, k), id) ∷ rest) =
    let other = find name kind rest in if eqb n name && k == kind then some id else other

unfoldable pub add_instrument : State → ℕ → Parameters → State × ℕ
add_instrument s kind params =
    let id = length s.definitions + 1 in
    (
      record s {
        instruments = ((params.name, kind), id) ∷ s.instruments;
        definitions =
            s.definitions
            ++ record {
              id = id;
              name = params.name;
              description = params.description;
              unit = params.unit;
              kind = kind;
            }
              ∷ [];
      },
      id,
    )

-- The id that the instrument carries. It starts with the empty attributes.
unfoldable pub instrument : State → ℕ → Parameters → State × ℕ
instrument s kind params = elim (find params.name kind s.instruments) [
  | some id ↦ (s, id)
  | none ↦ add_instrument s kind params
]

unfoldable pub histogram_duration : State → Parameters → State × ℕ
histogram_duration s params = instrument s 5 (record params { unit = text "ms" })

abbrev pub max_updates : ℕ
max_updates = 65_536

abbrev pub tail : List Sample → List Sample
tail [] = []
tail (x ∷ xs) = xs

-- `record` of an instrument, on a queue that holds `limit` updates.
unfoldable pub push_sample : ℕ → State → Sample → State
push_sample limit s x =
    if length s.updates == limit
    then record s { updates = tail s.updates ++ x ∷ []; dropped = (s.dropped + 1) % 2 ^ 64 }
    else record s { updates = s.updates ++ x ∷ [] }

unfoldable pub record_value : State → ℕ → MetricAttributes → Value → State
record_value s id attributes value =
    push_sample max_updates s (record { instrument = id; attributes = attributes; value = value })

-- `unsigned`, and the milliseconds of a duration: the larger values are cut to those of an i64.
unfoldable pub unsigned : ℕ → Value
unsigned value = int_value (pos (min value (2 ^ 63 - 1)))

-- `BTreeSet`: ascending, each once.
abbrev pub insert_id : ℕ → List ℕ → List ℕ
insert_id n [] = n ∷ []
insert_id n (m ∷ ms) =
    let rest = insert_id n ms in if ltb n m then n ∷ m ∷ ms else if n == m then m ∷ ms else m ∷ rest

unfoldable pub ids_of : List Sample → List ℕ
ids_of [] = []
ids_of (x ∷ xs) = insert_id x.instrument (ids_of xs)

-- `definitions[id as usize - 1]`. The subtraction wraps for an id of 0, which then is out of range.
unfoldable pub definition_at : List Definition → ℕ → Exec Definition
definition_at ds id = elim (get_elem? ds ((id + (2 ^ 64 - 1)) % 2 ^ 64)) [
  | some d ↦ done d
  | none ↦ panics (
      owned (
        text "index out of bounds: the len is "
        ++ decimal (length ds)
        ++ text " but the index is "
        ++ decimal ((id + (2 ^ 64 - 1)) % 2 ^ 64)))
]

unfoldable pub definitions_at : List Definition → List ℕ → Exec (List Definition)
definitions_at ds [] = done []
definitions_at ds (id ∷ ids) = do
  d ← definition_at ds id
  rest ← definitions_at ds ids
  done (d ∷ rest)

pub record MetricUpdate : Type 0 where
  pub instrument : ℕ
  pub attributes : List MetricAttribute
  pub value : Value

pub record LogRecord : Type 0 where
  pub target : Bytes
  pub level : Bytes
  pub message : Bytes
  pub fields_json : Bytes

pub record MetricBatch : Type 0 where
  pub definitions : List Definition
  pub updates : List MetricUpdate
  pub logs : List LogRecord

unfoldable pub to_update : Sample → MetricUpdate
to_update x = record {
  instrument = x.instrument;
  attributes = attributes_to_proto x.attributes;
  value = x.value;
}

unfoldable pub drop_logs : ℕ → List LogRecord
drop_logs dropped =
    if dropped == 0
    then []
    else record {
      target = text "temporal_kt_bridge::metrics";
      level = text "WARN";
      message =
          text "Dropped "
          ++ decimal dropped
          ++ text " oldest metric updates because the JVM did not drain the buffer in time";
      fields_json = [];
    }
      ∷ []

unfoldable pub drain : State → Exec (State × MetricBatch)
drain s = do
  definitions ← definitions_at s.definitions (ids_of s.updates)
  done (
    record s { updates = []; dropped = 0 },
    record {
      definitions = definitions;
      updates = map to_update s.updates;
      logs = drop_logs s.dropped;
    },
  )
