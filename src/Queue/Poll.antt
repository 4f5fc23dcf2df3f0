-- ===== src/Queue/Poll.antt =====
-- `PollerEntry::poll` of src/queue.rs, core-bridge/rust/kt-bridge.
use temporal_kt_bridge.Base.{
  is_empty, ℕ, ◌+◌, ◌-◌, ◌%◌, ◌^◌, min, text, List, [], ◌∷◌, length, take, drop, Option, none, some,
  Bool, true, false, ◌==◌, ◌||◌, ◌&&◌, not, ltb, if◌then◌else◌,
}
use temporal_kt_bridge.Base.Int.{ℤ, pos, negsuc}
use temporal_kt_bridge.Error.{
  invalid_argument, shutdown, KtResult, ok, err, Exec, done, panics, Payload, ◌>>=◌,
}
use temporal_kt_bridge.Abi.{KtCompletion, discriminant}
use temporal_kt_bridge.Queue.{Pending, State}
use temporal_kt_bridge.Queue.Slab.{BatchBuf, reset, put, reserve}

-- `timeout_millis == 0` and `timeout_millis > 0`.
abbrev pub no_wait : ℤ → Bool
no_wait (pos n) = n == 0
no_wait (negsuc n) = false

abbrev pub has_deadline : ℤ → Bool
has_deadline (pos n) = ltb 0 n
has_deadline (negsuc n) = false

-- One pass over the tests of the wait loop, under the lock: the state to go on with, or `none` where
-- the poller parks.
unfoldable pub check : ℤ → State → Option State
check timeout s =
    if not (is_empty s.queue) || s.closed
    then some s
    else if ltb 0 s.wakes
    then some (record s { wakes = s.wakes - 1 })
    else if no_wait timeout
    then some s
    else none

-- The return of `Condvar::wait` or `wait_until`: the state that the other threads left, and whether
-- the deadline had passed. It may be spurious.
pub record Resume : Type 0 where
  pub state : State
  pub timed_out : Bool

-- The wait loop over the resumptions of the poller; `none` when it is still parked after the last.
unfoldable pub wait : ℤ → State → List Resume → Option State
wait timeout s [] = check timeout s
wait timeout s (r ∷ rs) = elim (check timeout s) [
  | some s' ↦ some s'
  | none ↦
      let again = wait timeout r.state rs in
      if has_deadline timeout && r.timed_out then some r.state else again
]

-- The batch: what `drain(..take)` removes from the queue, and what it leaves.
abbrev pub batch_size : ℕ → State → ℕ
batch_size cap s = min cap (length s.queue)

unfoldable pub drained : ℕ → State → List Pending
drained cap s = take (batch_size cap s) s.queue

unfoldable pub undrained : ℕ → State → State
undrained cap s = record s { queue = drop (batch_size cap s) s.queue }

abbrev pub total_len : List Pending → ℕ
total_len [] = 0
total_len (p ∷ ps) = length p.payload + total_len ps

-- The sum of the lengths as a usize.
abbrev pub summed : List Pending → ℕ
summed ps = total_len ps % 2 ^ 64

abbrev pub completion : Pending → ℕ → ℕ → KtCompletion
completion p address len = record {
  req_id = p.req_id;
  kind = discriminant p.kind;
  status = p.status;
  payload = address;
  payload_len = len;
  aux0 = p.aux0;
  aux1 = p.aux1;
}

-- Copies one payload; an empty one takes no room and has address 0.
unfoldable pub put_payload : BatchBuf → Pending → Exec (BatchBuf × ℕ × ℕ)
put_payload b p = if is_empty p.payload then done (b, 0, 0) else put b p.payload

-- The loop over the batch: the records written, and the completions as they stand when they are
-- dropped, each without the resource that the caller now owns.
unfoldable pub fill : BatchBuf → List Pending → Exec (BatchBuf × List KtCompletion × List Pending)
fill b [] = done (b, [], [])
fill b (p ∷ ps) = do
  (b', address, len) ← put_payload b p
  (b'', records, spent) ← fill b' ps
  done (b'', completion p address len ∷ records, record p { aux0 = 0 } ∷ spent)

pub record Poller : Type 0 where
  pub buf : BatchBuf
  pub in_poll : Bool

-- The swap of `in_poll`, which rejects a second thread.
unfoldable pub enter : Poller → Poller × KtResult (Unit {0})
enter p = (
  record p { in_poll = true },
  if p.in_poll
      then err (
          invalid_argument (
            text
              "this poller is already being polled by another thread; each poller belongs to one pump thread"))
      else ok tt,
)

-- `Drop for InPoll`.
unfoldable pub leave : Poller → Poller
leave p = record p { in_poll = false }

-- What a poll returns, with the records it wrote and the completions it drops.
pub record Polled : Type 0 where
  pub buf : BatchBuf
  pub state : State
  pub result : KtResult ℕ
  pub records : List KtCompletion
  pub spent : List Pending

-- The rest of `poll` once the wait is over with state `s`.
unfoldable pub deliver : ℕ → ℕ → BatchBuf → State → Exec Polled
deliver address cap b s =
    if is_empty (drained cap s)
    then done (record {
      buf = b;
      state = undrained cap s;
      result = if s.closed then err shutdown else ok 0;
      records = [];
      spent = [];
    })
    else (do
      large ← reserve address (summed (drained cap s)) (reset b)
      (b', records, spent) ← fill large (drained cap s)
      done (record {
        buf = b';
        state = undrained cap s;
        result = ok (length (drained cap s));
        records = records;
        spent = spent;
      }))

-- What a call of `poll` comes to: it returns, or it is still parked.
pub data Call : Type 0 where
  parked : Call
  returned : Poller → Polled → Call
  panicked : Payload → Call

-- A poll that returns before it looks at the queue.
abbrev pub early : Poller → State → KtResult ℕ → Call
early p s r = returned p (record { buf = p.buf; state = s; result = r; records = []; spent = [] })

unfoldable pub finish : Poller → Exec Polled → Call
finish p (panics m) = panicked m
finish p (done r) = returned (leave (record p { buf = r.buf })) r

unfoldable pub after_wait : Poller → ℕ → ℕ → Option State → Call
after_wait p address cap none = parked
after_wait p address cap (some s) = finish p (deliver address cap p.buf s)

unfoldable pub after_enter : Poller × KtResult (Unit {0}) → ℕ → ℕ → ℤ → State → List Resume → Call
after_enter (p, err e) address cap timeout s rs = early p s (err e)
after_enter (p, ok _) address cap timeout s rs = after_wait p address cap (wait timeout s rs)

-- The whole call. `out_is_null` says whether the caller's buffer is null; `address` is where the
-- slab stands if it has to grow; `s` is the queue as the call locks it, `rs` its resumptions.
unfoldable pub poll : Poller → Bool → ℕ → ℕ → ℤ → State → List Resume → Call
poll p out_is_null address cap timeout s rs =
    if cap == 0
    then early p s (ok 0)
    else if out_is_null
    then early p s (err (invalid_argument (text "out is null")))
    else after_enter (enter p) address cap timeout s rs
