-- ===== src/Queue/Deliver.antt =====
-- What a poll delivers once it has stopped waiting: src/queue.rs, core-bridge/rust/kt-bridge.
use temporal_kt_bridge.Base.{
  is_empty, ℕ, suc, ◌^◌, ◌≤◌, min, ◌≡◌, refl, sym, ap, ◌∙◌, arith, List, [], ◌∷◌, ◌++◌, map, length,
  if◌then◌else◌, take-append-drop, length-take, Bool-cases, inl, inr, true,
}
use temporal_kt_bridge.Error.{shutdown, ok, err, done}
use temporal_kt_bridge.Abi.{KtCompletion}
use temporal_kt_bridge.Queue.{Pending, State}
use temporal_kt_bridge.Queue.Slab.{BatchBuf, reset}
use temporal_kt_bridge.Queue.Poll.{total_len, summed, drained, undrained, batch_size, deliver}
use temporal_kt_bridge.Queue.Room.{Reserved, reserve-Reserved}
use temporal_kt_bridge.Queue.Batch.{Delivers, released, Filled, fill-Filled}

pub drained-append : (cap : ℕ) (s : State) → drained cap s ++ (undrained cap s).queue ≡ s.queue
unfolding drained undrained
drained-append cap s = take-append-drop (batch_size cap s) s.queue

pub length-drained : (cap : ℕ) (s : State) → length (drained cap s) ≡ min cap (length s.queue)
unfolding drained
length-drained cap s = omega (arith, length-take (batch_size cap s) s.queue)

Delivers-length :
    (b : BatchBuf) (ps : List Pending) (rs : List KtCompletion)
    → Delivers b ps rs
    → length rs ≡ length ps
Delivers-length b [] [] h = refl
Delivers-length b [] (r ∷ rs) h = absurd h
Delivers-length b (p ∷ ps) [] h = absurd h
Delivers-length b (p ∷ ps) (r ∷ rs) h = ap suc (Delivers-length b ps rs h.1)

is_empty-nil : (ps : List Pending) → is_empty ps ≡ true → ps ≡ []
is_empty-nil [] h = refl
is_empty-nil (p ∷ ps) h = ground arith

-- The outcome of a delivery from state `s` into a buffer of `cap` records.
pub record Outcome (address cap : ℕ) (b : BatchBuf) (s : State) : Type 0 where
  pub buf : BatchBuf
  pub records : List KtCompletion
  pub runs :
      deliver address cap b s
      ≡ done (record {
        buf = buf;
        state = undrained cap s;
        result =
            if is_empty (drained cap s)
            then (if s.closed then err shutdown else ok 0)
            else ok (length records);
        records = records;
        spent = map released (drained cap s);
      })
  pub delivers : Delivers buf (drained cap s) records
  pub count : length records ≡ min cap (length s.queue)
  pub order : drained cap s ++ (undrained cap s).queue ≡ s.queue

reset-used : (b : BatchBuf) → (reset b).used ≡ 0
unfolding reset
reset-used b = refl

-- A delivery whose batch holds at most 2 ^ 62 bytes never panics. It writes one record for each of
-- the first `cap` completions of the queue, in order, each with its payload readable, and leaves
-- the others queued in order; with nothing queued it answers Shutdown on a closed queue and 0 on
-- an open one.
pub deliver_lem :
    (address cap : ℕ) (b : BatchBuf) (s : State)
    → total_len (drained cap s) ≤ 2 ^ 62
    → Outcome address cap b s
unfolding deliver
deliver_lem address cap b s small = elim (Bool-cases (is_empty (drained cap s))) [
  | inl none_left ↦
      let nothing : drained cap s ≡ [] = is_empty-nil (drained cap s) none_left in
      record {
        buf = b;
        records = [];
        runs = rw nothing;
        delivers = rw nothing tt;
        count = sym (ap length nothing) ∙ length-drained cap s;
        order = drained-append cap s;
      }
  | inr some_left ↦ record {
    buf = full.buf;
    records = full.records;
    runs =
        rw (some_left, whole, space.runs, full.runs)
          (ap
            (λ (n : ℕ). done (record {
              buf = full.buf;
              state = undrained cap s;
              result = ok n;
              records = full.records;
              spent = map released (drained cap s);
            }))
            (sym (Delivers-length full.buf (drained cap s) full.records full.delivers)));
    delivers = full.delivers;
    count =
        Delivers-length full.buf (drained cap s) full.records full.delivers ∙ length-drained cap s;
    order = drained-append cap s;
  }
]
  where
    whole : summed (drained cap s) ≡ total_len (drained cap s)
    whole = omega (arith, small)

    space : Reserved address (total_len (drained cap s)) (reset b)
    space = reserve-Reserved address (total_len (drained cap s)) (reset b) small

    full : Filled space.buf (drained cap s)
    full =
        fill-Filled space.buf (drained cap s) (omega (arith, space.room, space.used, reset-used b))
