-- ===== src/Runtime/Account.antt =====
-- What each section does to the account of the requests: src/runtime.rs, core-bridge/rust/kt-bridge.
use temporal_kt_bridge.Base.{
  ℕ, zero, suc, ◌+◌, ◌≡◌, refl, ap, ◌∙◌, arith, List, [], ◌∷◌, ◌++◌, map, map-append, count,
  count-append, get_elem?, set, All, none, some, false, ◌==◌, if◌then◌else◌, length,
}
use temporal_kt_bridge.Error.{KtError, ok, err}
use temporal_kt_bridge.Queue.{Pending, State, push, error}
use temporal_kt_bridge.Queue.Push.{push-queue}
use temporal_kt_bridge.Queue.Poll.{drained, undrained}
use temporal_kt_bridge.Queue.Deliver.{drained-append}
use temporal_kt_bridge.Runtime.{
  Runtime, contains_key, register, Task, Outcome, completes, unwinds, spawned, spawn_request,
  outcome_pending, select,
}
use temporal_kt_bridge.Runtime.Requests.{shutdown_answer}
use temporal_kt_bridge.Runtime.System.{erase, Answers}

abbrev pub ids : List Pending → List ℕ
ids = map (λ p. p.req_id)

abbrev pub task_ids : List Task → List ℕ
task_ids = map (λ t. t.req_id)

pub count-erase :
    (r : ℕ) (ts : List Task) (i : ℕ) (t : Task)
    → get_elem? ts i ≡ some t
    → count r (task_ids ts) ≡ (if t.req_id == r then 1 else 0) + count r (task_ids (erase ts i))
count-erase r [] i t h = cc
count-erase r (u ∷ ts) zero t h = ground arith
count-erase r (u ∷ ts) (suc i) t h = omega (arith, count-erase r ts i t h)

-- A task keeps its request.
pub task_ids-set :
    (ts : List Task) (i : ℕ) (t u : Task)
    → get_elem? ts i ≡ some t
    → u.req_id ≡ t.req_id
    → task_ids (set ts i u) ≡ task_ids ts
task_ids-set [] i t u at same = cc
task_ids-set (v ∷ ts) zero t u at same = ap (λ (r : ℕ). r ∷ task_ids ts) (same ∙ ground (arith, at))
task_ids-set (v ∷ ts) (suc i) t u at same = ap (◌∷◌ v.req_id) (task_ids-set ts i t u at same)

-- What a task has selected answers its request.
abbrev pub IsOwn : Task → Type 0
IsOwn t = (p : Pending) → t.result ≡ some p → p.req_id ≡ t.req_id

pub All-erase : (P : Task → Type 0) (ts : List Task) (i : ℕ) → All P ts → All P (erase ts i)
All-erase P [] i hs = hs
All-erase P (v ∷ ts) zero hs = hs.1
All-erase P (v ∷ ts) (suc i) hs = (hs.0, All-erase P ts i hs.1)

pub ids-shutdown : (rs : List ℕ) → ids (map shutdown_answer rs) ≡ rs
unfolding error
ids-shutdown [] = refl
ids-shutdown (r ∷ rs) = ap (◌∷◌ r) (ids-shutdown rs)

-- A poll moves completions from the queue to the caller.
pub ids-drained :
    (r cap : ℕ) (delivered : List Pending) (s : State)
    → count r (ids (delivered ++ drained cap s)) + count r (ids (undrained cap s).queue)
      ≡ count r (ids delivered) + count r (ids s.queue)
ids-drained r cap delivered s = omega (
  arith,
  ap (λ (l : List Pending). count r (ids l)) (drained-append cap s),
  ap (count r) (map-append (λ (p : Pending). p.req_id) (drained cap s) (undrained cap s).queue),
  count-append r (ids (drained cap s)) (ids (undrained cap s).queue),
  ap (count r) (map-append (λ (p : Pending). p.req_id) delivered (drained cap s)),
  count-append r (ids delivered) (ids (drained cap s)),
)

pub ids-append :
    (r : ℕ) (ps qs : List Pending) → count r (ids (ps ++ qs)) ≡ count r (ids ps) + count r (ids qs)
ids-append r ps qs =
    ap (count r) (map-append (λ (p : Pending). p.req_id) ps qs) ∙ count-append r (ids ps) (ids qs)

pub ids-push :
    (r : ℕ) (s : State) (p : Pending)
    → s.closed ≡ false
    → count r (ids (push s p).0.queue) ≡ count r (ids s.queue) + (if p.req_id == r then 1 else 0)
ids-push r s p opened = omega (
  arith,
  ap (λ (l : List Pending). count r (ids l)) (push-queue s p opened),
  ids-append r s.queue (p ∷ []),
)

-- The answer that a task sends carries the id of its request.
pub select-req_id :
    (e : Runtime) (t : Task) (o : Outcome) → Answers t.req_id o → (select e t o).req_id ≡ t.req_id
unfolding select outcome_pending error
select-req_id e t (completes p) h = ground arith
select-req_id e t (unwinds m) h = ground arith

-- A request that is spawned is entered under its id, with a new token; the runtime is open and did not
-- know the id.
pub record Spawned (x : Runtime) (r : ℕ) (e : Runtime) (t : Task) : Type 0 where
  pub opened : x.closed ≡ false
  pub unknown : contains_key r x.pending ≡ false
  pub pending : e.pending ≡ (r, length x.tokens) ∷ x.pending
  pub queue : e.queue ≡ x.queue
  pub closed : e.closed ≡ x.closed
  pub tokens : e.tokens ≡ x.tokens ++ false ∷ []
  pub req_id : t.req_id ≡ r
  pub token : t.token ≡ length x.tokens
  pub unselected : t.result ≡ none

pub spawn_request-Spawned :
    (x : Runtime) (r : ℕ) (e : Runtime) (t : Task) → spawn_request x r ≡ (e, ok t) → Spawned x r e t
unfolding spawn_request register spawned
spawn_request-Spawned x r e t h = record {
  opened = ground arith;
  unknown = ground arith;
  pending = ground arith;
  queue = ground arith;
  closed = ground arith;
  tokens = ground arith;
  req_id = ground arith;
  token = ground arith;
  unselected = ground arith;
}

pub spawn_request-err :
    (x : Runtime) (r : ℕ) (e : Runtime) (k : KtError) → spawn_request x r ≡ (e, err k) → e ≡ x
unfolding spawn_request register spawned
spawn_request-err x r e k h = ground arith
