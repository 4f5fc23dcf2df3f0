-- ===== src/Runtime/Answered.antt =====
-- What becomes of a request in every interleaving: src/runtime.rs, core-bridge/rust/kt-bridge.
use temporal_kt_bridge.Base.{
  ℕ, suc, ◌+◌, ◌≤◌, ◌≡◌, ◌≢◌, refl, sym, ap, ◌∙◌, subst, arith, List, [], ◌∷◌, count, count-cons_ne,
  ℕ-cases, ==_refl, get_elem?, All-get_elem?, none, some, Bool, true, if◌then◌else◌, Bool-cases,
  inl, inr,
}
use temporal_kt_bridge.Base.Int.{ℤ}
use temporal_kt_bridge.Queue.{Pending, State, new, wake}
use temporal_kt_bridge.Queue.Poll.{check}
use temporal_kt_bridge.Runtime.{
  Requests, Runtime, new_runtime, contains_key, remove, cancel, Task, Outcome, select, finish_task,
}
use temporal_kt_bridge.Runtime.Table.{keys, contains_key-count}
use temporal_kt_bridge.Runtime.System.{
  System, Answers, erase, Step, spawns, rejects, selects, finishes, cancels, emits, polls,
  times_out, wakes, shuts_down, Reach, here, next, start,
}
use temporal_kt_bridge.Runtime.Account.{
  task_ids, IsOwn, select-req_id, spawn_request-Spawned, spawn_request-err,
}
use temporal_kt_bridge.Runtime.Once.{
  Inv, outstanding, answers, spawns-Inv, selects-Inv, finishes-Inv, emits-Inv, polls-Inv,
  shuts_down-Inv, removed-count,
}

check-same :
    (timeout : ℤ) (s s' : State)
    → check timeout s ≡ some s'
    → (s'.queue ≡ s.queue) × (s'.closed ≡ s.closed)
unfolding check
check-same timeout s s' h = (ground arith, ground arith)

Step-Inv : {x y : System} → Step x y → Inv x → Inv y
unfolding cancel wake
Step-Inv {x} (spawns r e t h) v = spawns-Inv x r e t (spawn_request-Spawned x.runtime r e t h) v
Step-Inv {x} (rejects r e k h) v =
    subst (λ a. Inv (record x { runtime = a })) (sym (spawn_request-err x.runtime r e k h)) v
Step-Inv {x} (selects i t o at fresh h) v = selects-Inv x i t o at h v
Step-Inv {x} (finishes i t p at chosen) v =
    finishes-Inv x i t p at (All-get_elem? IsOwn x.tasks i v.own at p chosen) v
Step-Inv {x} (cancels r) v = record {
  together = v.together;
  quiet = v.quiet;
  single = v.single;
  held = v.held;
  own = v.own;
  balanced = v.balanced;
}
Step-Inv {x} (emits p h) v = emits-Inv x p h v
Step-Inv {x} (polls cap timeout s h) v =
    let (same, still) = check-same timeout x.runtime.queue s h in polls-Inv x cap s same still v
Step-Inv {x} (times_out cap) v = polls-Inv x cap x.runtime.queue refl refl v
Step-Inv {x} wakes v = record {
  together = v.together;
  quiet = v.quiet;
  single = v.single;
  held = v.held;
  own = v.own;
  balanced = v.balanced;
}
Step-Inv {x} shuts_down v = shuts_down-Inv x v

pub Reach-Inv : {x y : System} → Reach x y → Inv x → Inv y
Reach-Inv here v = v
Reach-Inv (next r st) v = Step-Inv st (Reach-Inv r v)

pub start-Inv : Inv start
unfolding new_runtime new
start-Inv = record {
  together = refl;
  quiet = λ _. refl;
  single = λ r. omega arith;
  held = λ r. omega arith;
  own = tt;
  balanced = λ r n. refl;
}

-- However requests, their tasks, cancellations, pushed events, polls and shutdowns interleave on a
-- new runtime, each request id but 0 has been answered, in what was handed out and what is queued,
-- as often as it was accepted, less one if it is outstanding; and it is outstanding at most once.
pub answered_once :
    (y : System) (r : ℕ)
    → r ≢ 0
    → Reach start y
    → (count r y.accepted ≡ answers y r + outstanding y r) × (outstanding y r ≤ 1)
answered_once y r n reach = let v = Reach-Inv reach start-Inv in (v.balanced r n, v.single r)

-- Once a runtime has shut down, no request id but 0 is outstanding, whatever interleaves before
-- and after: each has been answered as often as it was accepted.
pub answered_after_shutdown :
    (y : System) (r : ℕ)
    → r ≢ 0
    → Reach start y
    → y.runtime.closed ≡ true
    → (outstanding y r ≡ 0) × (count r y.accepted ≡ answers y r)
answered_after_shutdown y r n reach closed =
    let v = Reach-Inv reach start-Inv in
    let none_left = ap (λ (m : Requests). count r (keys m)) (v.quiet closed) in
    (none_left, omega (arith, v.balanced r n, none_left))

task_of :
    (r : ℕ) (ts : List Task)
    → count r (task_ids ts) ≢ 0
    → (i : ℕ) × (t : Task) × (get_elem? ts i ≡ some t) × (t.req_id ≡ r)
task_of r [] n = absurd (n refl)
task_of r (t ∷ ts) n = elim (ℕ-cases t.req_id r) [
  | inl same ↦ (0, t, refl, same)
  | inr other ↦
      let (i, u, at, mine) =
        task_of r ts (λ e. n (count-cons_ne r t.req_id (task_ids ts) other ∙ e)) in
      (suc i, u, at, mine)
]

retires :
    (e : Runtime) (t : Task) (p : Pending)
    → contains_key t.req_id e.pending ≡ true
    → (finish_task e t p).0.pending ≡ remove t.req_id e.pending
unfolding finish_task
retires e t p known = rw known

known_of : (r : ℕ) (m : Requests) → count r (keys m) ≢ 0 → contains_key r m ≡ true
known_of r m n = elim (Bool-cases (contains_key r m)) [
  | inl known ↦ known
  | inr unknown ↦ absurd (n (contains_key-count r m unknown))
]

abbrev one_if : Bool → ℕ
one_if b = if b then 1 else 0

-- The system once a task has ended with a result.
abbrev pub ended : System → ℕ → Task → Pending → System
ended y i t p = record y { runtime = (finish_task y.runtime t p).0; tasks = erase y.tasks i }

abbrev pub IsAnsweredBy : System → ℕ → System → Type 0
IsAnsweredBy y r z = (outstanding z r ≡ 0) × (answers z r ≡ suc (answers y r))

-- The step that ends the task of an outstanding request answers it.
finishing :
    (y : System) (i : ℕ) (t : Task) (p : Pending)
    → t.req_id ≢ 0
    → Reach start y
    → outstanding y t.req_id ≢ 0
    → get_elem? y.tasks i ≡ some t
    → p.req_id ≡ t.req_id
    → IsAnsweredBy y t.req_id (ended y i t p)
finishing y i t p n reach waits at h =
    let v = Reach-Inv reach start-Inv in
    let w = finishes-Inv y i t p at h v in
    let known = known_of t.req_id y.runtime.pending waits in
    let gone : outstanding (ended y i t p) t.req_id ≡ 0 = omega (
      arith,
      v.single t.req_id,
      ap (λ (m : Requests). count t.req_id (keys m)) (retires y.runtime t p known),
      removed-count t.req_id y.runtime.pending known t.req_id,
      ap one_if (==_refl t.req_id),
    ) in
    (gone, omega (arith, gone, v.balanced t.req_id n, w.balanced t.req_id n, v.single t.req_id))

-- In every interleaving on a new runtime, a request with an id other than 0 that is outstanding has a
-- task. If the task has selected its result, its end answers the request with it and retires the
-- request; if it has not, whatever its operation comes to, its end with what it then selects does.
pub outstanding_has_task :
    (y : System) (r : ℕ)
    → r ≢ 0
    → Reach start y
    → outstanding y r ≢ 0
    → (i : ℕ) × (t : Task) × (get_elem? y.tasks i ≡ some t)
      × (t.req_id ≡ r)
      × ((p : Pending) → t.result ≡ some p → IsAnsweredBy y r (ended y i t p))
      × ((o : Outcome)
          → Answers r o
          → t.result ≡ none
          → IsAnsweredBy y r (ended y i t (select y.runtime t o)))
outstanding_has_task y r n reach waits =
    let v = Reach-Inv reach start-Inv in
    let (i, t, at, mine) = task_of r y.tasks (λ e. waits (omega (arith, e, v.held r))) in
    let ends : (p : Pending) → p.req_id ≡ t.req_id → IsAnsweredBy y r (ended y i t p) = λ p same.
      subst (λ k. IsAnsweredBy y k (ended y i t p)) mine
        (finishing y i t p (λ e. n (sym mine ∙ e)) reach
          (subst (λ k. outstanding y k ≢ 0) (sym mine) waits) at same) in
    (
      i,
      t,
      at,
      mine,
      λ p chosen. ends p (All-get_elem? IsOwn y.tasks i v.own at p chosen),
      λ o h fresh.
          ends (select y.runtime t o)
            (select-req_id y.runtime t o (subst (λ k. Answers k o) (sym mine) h)),
    )
