-- ===== src/Worker/Stream.antt =====
-- What the JVM sees of one poll stream: `pump` of src/worker.rs, core-bridge/rust/kt-bridge.
use temporal_kt_bridge.Base.{
  ℕ, ◌+◌, ◌≤◌, ◌≡◌, refl, ap, arith, Bytes, List, [], ◌∷◌, ◌++◌, none, Bool, true, false, All,
  if◌then◌else◌, ◌==◌,
}
use temporal_kt_bridge.Abi.{KtKind, discriminant, task_stream_end, worker_failed}
use temporal_kt_bridge.Queue.{
  Pending, ack, error, with_kind, with_payload, with_aux0, with_aux1, carried_kind,
}
use temporal_kt_bridge.Worker.Pump.{
  TaskKind, code_of, completion_kind, Polled, task, shut_down, failure, unwinds, Pumped, about,
  delivers, ends, reports, reports_panic, pump_from, pump,
}

-- The tasks that Core hands out before the stream ends, and whether it ends.
abbrev pub tasks : List Polled → List Bytes
tasks [] = []
tasks (task bytes ∷ ps) = bytes ∷ tasks ps
tasks (failure _ ∷ ps) = tasks ps
tasks (shut_down ∷ ps) = []
tasks (unwinds _ ∷ ps) = []

abbrev pub stops : List Polled → Bool
stops [] = false
stops (task _ ∷ ps) = stops ps
stops (failure _ ∷ ps) = stops ps
stops (shut_down ∷ ps) = true
stops (unwinds _ ∷ ps) = true

-- A completion of one kind.
abbrev pub is_kind : KtKind → Pending → Bool
is_kind k p = discriminant p.kind == discriminant k

abbrev pub payloads : KtKind → List Pending → List Bytes
payloads k [] = []
payloads k (p ∷ ps) = let rest = payloads k ps in if is_kind k p then p.payload ∷ rest else rest

abbrev pub number : KtKind → List Pending → ℕ
number k [] = 0
number k (p ∷ ps) = (if is_kind k p then 1 else 0) + number k ps

-- The completions of a stream name its worker and its kind, answer no request and own no handle.
abbrev pub IsAbout : TaskKind → ℕ → Pending → Type 0
IsAbout k handle p =
    (p.req_id ≡ 0) × (p.aux0 ≡ handle) × (p.aux1 ≡ code_of k) × (carried_kind p.kind ≡ none)

-- What a pump pushes for these polls.
pub record Stream (reported : Bool) (k : TaskKind) (handle : ℕ) (ps : List Polled) (r : Pumped)
    : Type 0 where
  pub handed_out : payloads (completion_kind k) r.pushes ≡ tasks ps
  pub ended : r.ended ≡ stops ps
  pub closed_once : number task_stream_end r.pushes ≡ (if stops ps then 1 else 0)
  pub failures : number worker_failed r.pushes ≡ r.initiated
  pub reported_once : r.initiated ≤ (if reported then 1 else 2)
  pub addressed : All (IsAbout k handle) r.pushes
  pub closed_last :
      stops ps ≡ true → (before : List Pending) × (r.pushes ≡ before ++ ends k handle ∷ [])

pump_from-Stream :
    (reported : Bool) (k : TaskKind) (handle : ℕ) (ps : List Polled)
    → Stream reported k handle ps (pump_from reported k handle ps)
unfolding pump_from about delivers ends reports reports_panic completion_kind code_of ack error
    with_kind with_payload with_aux0 with_aux1 carried_kind discriminant
pump_from-Stream reported k handle [] = record {
  handed_out = ground arith;
  ended = ground arith;
  closed_once = ground arith;
  failures = ground arith;
  reported_once = ground arith;
  addressed = tt;
  closed_last = λ h. cc;
}
pump_from-Stream reported k handle (task bytes ∷ ps) =
    let rest = pump_from-Stream reported k handle ps in
    record {
      handed_out = ground arith;
      ended = ground arith;
      closed_once = ground arith;
      failures = ground arith;
      reported_once = ground arith;
      addressed = ((refl, refl, refl, ground arith), rest.addressed);
      closed_last = λ h.
          let (before, e) = rest.closed_last h in
          (delivers k handle bytes ∷ before, ap (◌∷◌ (delivers k handle bytes)) e);
    }
pump_from-Stream reported k handle (shut_down ∷ ps) = record {
  handed_out = ground arith;
  ended = ground arith;
  closed_once = ground arith;
  failures = ground arith;
  reported_once = ground arith;
  addressed = ((refl, refl, refl, refl), tt);
  closed_last = λ h. ([], refl);
}
pump_from-Stream true k handle (failure m ∷ ps) =
    let rest = pump_from-Stream true k handle ps in
    record {
      handed_out = ground arith;
      ended = ground arith;
      closed_once = ground arith;
      failures = ground arith;
      reported_once = ground arith;
      addressed = rest.addressed;
      closed_last = rest.closed_last;
    }
pump_from-Stream false k handle (failure m ∷ ps) =
    let rest = pump_from-Stream true k handle ps in
    record {
      handed_out = ground arith;
      ended = ground arith;
      closed_once = ground arith;
      failures = ground arith;
      reported_once = ground arith;
      addressed = ((refl, refl, refl, refl), rest.addressed);
      closed_last = λ h.
          let (before, e) = rest.closed_last h in
          (reports k handle m ∷ before, ap (◌∷◌ (reports k handle m)) e);
    }
pump_from-Stream reported k handle (unwinds p ∷ ps) = record {
  handed_out = ground arith;
  ended = ground arith;
  closed_once = ground arith;
  failures = ground arith;
  reported_once = ground arith;
  addressed = ((refl, refl, refl, refl), ((refl, refl, refl, refl), tt));
  closed_last = λ h. (reports_panic k handle p ∷ [], refl);
}

-- Whatever Core's polls come to, the JVM gets the tasks in order, up to the end of the stream; the
-- pump ends exactly if Core reports the end or a poll panics, and then the last completion, and no
-- other, says that the stream has ended; at most two completions report a failure, with one call
-- of `initiate_shutdown` for each; and every completion names the worker and the stream, answers
-- no request and owns no handle.
pub pump-Stream :
    (k : TaskKind) (handle : ℕ) (ps : List Polled) → Stream false k handle ps (pump k handle ps)
unfolding pump
pump-Stream k handle ps = pump_from-Stream false k handle ps
