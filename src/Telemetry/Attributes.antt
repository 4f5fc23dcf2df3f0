-- ===== src/Telemetry/Attributes.antt =====
-- The attribute sets of src/telemetry.rs, core-bridge/rust/kt-bridge.
use temporal_kt_bridge.Base.{
  ℕ, Bytes, eqb, List, [], ◌∷◌, ◌++◌, map, Option, none, some, Bool, if◌then◌else◌,
}
use temporal_kt_bridge.Base.Int.{ℤ}

-- `Value` of opentelemetry; a value of another type counts by its text.
pub data AttributeValue : Type 0 where
  string : Bytes → AttributeValue
  i64 : ℤ → AttributeValue
  f64 : ℕ → AttributeValue
  bool : Bool → AttributeValue
  array : Bytes → AttributeValue

pub record KeyValue : Type 0 where
  pub key : Bytes
  pub value : AttributeValue

-- Core's `MetricAttributes`: `other` stands for the variants that other meters make.
pub data MetricAttributes : Type 0 where
  otel : List KeyValue → MetricAttributes
  empty : MetricAttributes
  other : MetricAttributes

-- `retain` with a key that differs.
unfoldable pub without : Bytes → List KeyValue → List KeyValue
without k [] = []
without k (a ∷ kvs) = let rest = without k kvs in if eqb a.key k then rest else a ∷ rest

unfoldable pub extend_with : List KeyValue → List KeyValue → List KeyValue
extend_with kvs [] = kvs
extend_with kvs (a ∷ new) = extend_with (without a.key kvs ++ a ∷ []) new

unfoldable pub existing : MetricAttributes → List KeyValue
existing (otel kvs) = kvs
existing empty = []
existing other = []

unfoldable pub extend_attributes : MetricAttributes → List KeyValue → MetricAttributes
extend_attributes m new = otel (extend_with (existing m) new)

unfoldable pub new_attributes : List KeyValue → MetricAttributes
new_attributes new = extend_attributes empty new

-- `MetricAttribute`, with `metric_attribute::Value`.
pub data ProtoValue : Type 0 where
  string_value : Bytes → ProtoValue
  int_value : ℤ → ProtoValue
  double_value : ℕ → ProtoValue
  bool_value : Bool → ProtoValue

pub record MetricAttribute : Type 0 where
  pub key : Bytes
  pub value : ProtoValue

unfoldable pub value_to_proto : AttributeValue → ProtoValue
value_to_proto (string v) = string_value v
value_to_proto (i64 v) = int_value v
value_to_proto (f64 v) = double_value v
value_to_proto (bool v) = bool_value v
value_to_proto (array v) = string_value v

unfoldable pub attributes_to_proto : MetricAttributes → List MetricAttribute
attributes_to_proto (otel kvs) =
    map (λ (a : KeyValue). record { key = a.key; value = value_to_proto a.value }) kvs
attributes_to_proto empty = []
attributes_to_proto other = []

-- The last value that a list of attributes gives to a key.
abbrev pub last_value : Bytes → List KeyValue → Option AttributeValue
last_value k [] = none
last_value k (a ∷ kvs) = elim (last_value k kvs) [
  | some v ↦ some v
  | none ↦ if eqb a.key k then some a.value else none
]
