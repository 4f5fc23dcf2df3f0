-- ===== src/Telemetry/Examples.antt =====
-- Runs of the meter: src/telemetry.rs, core-bridge/rust/kt-bridge.
use temporal_kt_bridge.Base.{
  ℕ, ◌+◌, ◌-◌, ◌%◌, ◌^◌, ◌≤◌, ◌<◌, ◌≡◌, refl, arith, text, Bytes, List, [], ◌∷◌, ◌++◌, map, length,
  drop, some, ◌↔◌,
}
use temporal_kt_bridge.Base.Int.{pos}
use temporal_kt_bridge.Telemetry.{
  Parameters, Sample, State, MetricBatch, new, find, instrument, add_instrument, histogram_duration,
  record_value, push_sample, unsigned, int_value, ids_of,
}
use temporal_kt_bridge.Telemetry.Attributes.{
  KeyValue, MetricAttributes, empty, otel, string, i64, existing, extend_attributes, last_value,
}
use temporal_kt_bridge.Telemetry.Invariant.{IsWellFormed, new-IsWellFormed}
use temporal_kt_bridge.Telemetry.Overflow.{push_all, push_all_lem}
use temporal_kt_bridge.Telemetry.Drain.{Drained, drain-Drained}
use temporal_kt_bridge.Telemetry.Meter.{asks, measures, Run, stop, go, Run-Kept, instrument_ids}
use temporal_kt_bridge.Telemetry.Merge.{IsKeyed, extend_attributes_lem}

abbrev requests : Parameters
requests = record { name = text "requests"; description = text "Requests"; unit = text "1" }

abbrev latency : Parameters
latency = record { name = text "latency"; description = text "Latency"; unit = text "s" }

abbrev counting : State
counting = (instrument new 0 requests).0

abbrev counted : State
counted = record_value counting 1 empty (unsigned 3)

counting-Run : Run new counting
counting-Run = go new counting counting (asks new 0 requests) (stop counting)

counting_finds : find (text "requests") 0 counting.instruments ≡ some 1
unfolding instrument new find add_instrument text
counting_finds = refl

counted-Run : Run counting counted
counted-Run =
    go counting counted counted
      (measures counting (text "requests") 0 1 empty (unsigned 3) counting_finds) (stop counted)

counted-IsWellFormed : IsWellFormed counted
counted-IsWellFormed = (Run-Kept counted-Run (Run-Kept counting-Run new-IsWellFormed).valid).valid

-- The parameters' unit does not count for a histogram of durations.
duration_in_ms : map (λ d. d.unit) (histogram_duration new latency).0.definitions ≡ text "ms" ∷ []
unfolding histogram_duration instrument new find add_instrument
duration_in_ms = refl

largest_count : unsigned (2 ^ 64 - 1) ≡ int_value (pos (2 ^ 63 - 1))
unfolding unsigned
largest_count = refl

measure : ℕ → Sample
measure n = record { instrument = n; attributes = empty; value = unsigned n }

abbrev three : List Sample
three = measure 1 ∷ measure 2 ∷ measure 1 ∷ []

three_ids : ids_of three ≡ 1 ∷ 2 ∷ []
unfolding ids_of measure
three_ids = refl

new_drops : new.dropped < 2 ^ 64
unfolding new
new_drops = omega arith

new_holds : length new.updates ≤ 2
unfolding new
new_holds = omega arith

push_all_lem_example :
    let over = length (new.updates ++ three) - 2 in
    ((push_all 2 new three).updates ≡ drop over (new.updates ++ three))
    × ((push_all 2 new three).dropped ≡ (new.dropped + over) % 2 ^ 64)
    × (length (push_all 2 new three).updates ≤ 2)
push_all_lem_example = push_all_lem 2 new three (omega arith) new_drops new_holds

few : length counted.definitions < 2 ^ 64
unfolding record_value push_sample instrument new find add_instrument
few = omega arith

drain-Drained_example : (b : MetricBatch) × Drained counted b
drain-Drained_example = drain-Drained counted counted-IsWellFormed few

instrument_ids_example :
    ((instrument new 0 requests).1 ≡ (instrument counted 0 requests).1)
    ↔ ((requests.name ≡ requests.name) × (◌≡◌ {A = ℕ} 0 0))
instrument_ids_example = instrument_ids new counted 0 0 requests requests (stop new) counted-Run

abbrev old_attributes : MetricAttributes
old_attributes = otel (record { key = text "queue"; value = string (text "a") } ∷ [])

abbrev new_values : List KeyValue
new_values =
    record { key = text "queue"; value = string (text "b") }
    ∷ record { key = text "n"; value = i64 (pos 1) }
    ∷ []

old-IsKeyed : IsKeyed (existing old_attributes)
unfolding existing
old-IsKeyed = (refl, tt)

extend_attributes_lem_example :
    ((k : Bytes)
      → last_value k (existing (extend_attributes old_attributes new_values))
        ≡ last_value k (existing old_attributes ++ new_values))
    × IsKeyed (existing (extend_attributes old_attributes new_values))
extend_attributes_lem_example = extend_attributes_lem old_attributes new_values old-IsKeyed
