-- ===== src/Runtime/Cancelled.antt =====
-- A cancelled request answers that it was cancelled: src/runtime.rs, core-bridge/rust/kt-bridge.
use temporal_kt_bridge.Base.{
  ℕ, ◌<◌, ◌≡◌, refl, sym, All, All-set, All-weaken, All-get_elem?, ap, ◌∙◌, subst, arith, text,
  List, [], ◌∷◌, ◌++◌, set, length, get_elem?, get_elem?-lt, get_elem?-append_left,
  get_elem?-set_self, get_elem?-set_ne, ℕ-cases, Option, none, some, Bool, true, false, inl, inr,
}
use temporal_kt_bridge.Error.{kt_err_cancelled}
use temporal_kt_bridge.Queue.{Pending, error}
use temporal_kt_bridge.Queue.Push.{push-queue}
use temporal_kt_bridge.Runtime.{
  Requests, Runtime, contains_key, remove, get, cancel, cancel_token, drain_each,
  drain_pending_for_shutdown, Task, Outcome, is_cancelled, select, finish_task,
}
use temporal_kt_bridge.Runtime.System.{
  System, Step, spawns, rejects, selects, finishes, cancels, emits, polls, times_out, wakes,
  shuts_down, Reach, here, next,
}
use temporal_kt_bridge.Runtime.Account.{All-erase, spawn_request-Spawned, spawn_request-err}

-- No section takes a cancellation back.
abbrev Kept : List Bool → List Bool → Type 0
Kept a b = (t : ℕ) → get_elem? a t ≡ some true → get_elem? b t ≡ some true

set-Kept : (a : List Bool) (i : ℕ) → Kept a (set a i true)
set-Kept a i t h = elim (ℕ-cases i t) [
  | inl e ↦
      subst (λ k. get_elem? (set a i true) k ≡ some true) e
        (get_elem?-set_self a i true (subst (λ k. k < length a) (sym e) (get_elem?-lt a t h)))
  | inr n ↦ get_elem?-set_ne a i t true n ∙ h
]

drain_each-Kept : (m : Requests) (e : Runtime) → Kept e.tokens (drain_each m e).tokens
unfolding drain_each
drain_each-Kept [] e t h = h
drain_each-Kept ((r, k) ∷ m) e t h = drain_each-Kept m _ t (set-Kept e.tokens k t h)

drain-Kept : (e : Runtime) → Kept e.tokens (drain_pending_for_shutdown e).tokens
unfolding drain_pending_for_shutdown
drain-Kept e t h = drain_each-Kept e.pending (record e { pending = []; closed = true }) t h

cancel_token-Kept : (a : List Bool) (k : Option ℕ) → Kept a (cancel_token a k)
unfolding cancel_token
cancel_token-Kept a none t h = h
cancel_token-Kept a (some i) t h = set-Kept a i t h

finish_task-tokens :
    (e : Runtime) (t : Task) (p : Pending) → (finish_task e t p).0.tokens ≡ e.tokens
unfolding finish_task
finish_task-tokens e t p = ground arith

append-Kept : (a : List Bool) → Kept a (a ++ false ∷ [])
append-Kept a t h = get_elem?-append_left a (false ∷ []) t (get_elem?-lt a t h) ∙ h

Step-Kept : {x y : System} → Step x y → Kept x.runtime.tokens y.runtime.tokens
unfolding cancel
Step-Kept {x} (spawns r e t h) k at =
    ap (λ (a : List Bool). get_elem? a k) (spawn_request-Spawned x.runtime r e t h).tokens
    ∙ append-Kept x.runtime.tokens k at
Step-Kept {x} (rejects r e z h) k at =
    subst (λ a. get_elem? a.tokens k ≡ some true) (sym (spawn_request-err x.runtime r e z h)) at
Step-Kept (selects i t o _ _ _) k at = at
Step-Kept {x} (finishes i t p _ _) k at =
    ap (λ (a : List Bool). get_elem? a k) (finish_task-tokens x.runtime t p) ∙ at
Step-Kept {x} (cancels r) k at = cancel_token-Kept x.runtime.tokens (get r x.runtime.pending) k at
Step-Kept (emits p h) k at = at
Step-Kept (polls cap timeout s h) k at = at
Step-Kept (times_out cap) k at = at
Step-Kept wakes k at = at
Step-Kept {x} shuts_down k at = drain-Kept x.runtime k at

Reach-Kept : {x y : System} → Reach x y → Kept x.runtime.tokens y.runtime.tokens
Reach-Kept here k at = at
Reach-Kept (next r st) k at = Step-Kept st k (Reach-Kept r k at)

is_cancelled_of : (a : List Bool) (t : ℕ) → get_elem? a t ≡ some true → is_cancelled a t ≡ true
unfolding is_cancelled
is_cancelled_of a t h = ground arith

cancels-token :
    (e : Runtime) (r t : ℕ)
    → get r e.pending ≡ some t
    → t < length e.tokens
    → get_elem? (cancel e r).tokens t ≡ some true
unfolding cancel cancel_token
cancels-token e r t known h = rw known (get_elem?-set_self e.tokens t true h)

abbrev pub cancellation : ℕ → Pending
cancellation r = error r kt_err_cancelled (text "cancelled")

-- A task with this token has not selected, or nothing but its cancellation.
abbrev IsBound : ℕ → Task → Type 0
IsBound k t = t.token ≡ k → (p : Pending) → t.result ≡ some p → p ≡ cancellation t.req_id

select-cancelled :
    (e : Runtime) (t : Task) (o : Outcome) (k : ℕ)
    → get_elem? e.tokens k ≡ some true
    → t.token ≡ k
    → select e t o ≡ cancellation t.req_id
unfolding select
select-cancelled e t o k at same = rw (is_cancelled_of e.tokens t.token (rw same at))

Step-IsBound :
    {x y : System} (k : ℕ)
    → get_elem? x.runtime.tokens k ≡ some true
    → Step x y
    → All (IsBound k) x.tasks
    → All (IsBound k) y.tasks
Step-IsBound {x} k at (spawns r e t h) b = (
  λ _ p chosen.
      absurd (nothing p (sym (spawn_request-Spawned x.runtime r e t h).unselected ∙ chosen)),
  b,
)
  where
    nothing : (p : Pending) → none ≡ some p → ⊥
    nothing p h = cc
Step-IsBound k at (rejects r e z h) b = b
Step-IsBound {x} k at (selects i t o _ _ _) b =
    All-set (IsBound k) x.tasks i (record t { result = some (select x.runtime t o) }) b
      (λ same p chosen. same_some p chosen ∙ select-cancelled x.runtime t o k at same)
  where
    same_some : (p : Pending) → some (select x.runtime t o) ≡ some p → p ≡ select x.runtime t o
    same_some p h = cc
Step-IsBound {x} k at (finishes i t p _ _) b = All-erase (IsBound k) x.tasks i b
Step-IsBound k at (cancels r) b = b
Step-IsBound k at (emits p h) b = b
Step-IsBound k at (polls cap timeout s h) b = b
Step-IsBound k at (times_out cap) b = b
Step-IsBound k at wakes b = b
Step-IsBound k at shuts_down b = b

Reach-IsBound :
    {x y : System} (k : ℕ)
    → get_elem? x.runtime.tokens k ≡ some true
    → Reach x y
    → All (IsBound k) x.tasks
    → All (IsBound k) y.tasks
Reach-IsBound k at here b = b
Reach-IsBound k at (next r st) b = Step-IsBound k (Reach-Kept r k at) st (Reach-IsBound k at r b)

-- A task with this token has not selected.
abbrev pub IsUnselected : ℕ → Task → Type 0
IsUnselected k t = t.token ≡ k → t.result ≡ none

-- Once an outstanding request is cancelled before its task has selected, whatever interleaves, all
-- that the task can have selected is KT_ERR_CANCELLED: neither the result of the operation nor a
-- panic reaches the caller. When the task then takes the lock, that is queued as the last completion and
-- the request retired, if the request is still outstanding and the queue open; a request that is not
-- outstanding any more, as after a shutdown, gets nothing from the task.
pub cancelled_answer :
    (x y : System) (r k i : ℕ) (t : Task) (p : Pending)
    → get r x.runtime.pending ≡ some k
    → k < length x.runtime.tokens
    → All (IsUnselected k) x.tasks
    → Reach (record x { runtime = cancel x.runtime r }) y
    → get_elem? y.tasks i ≡ some t
    → t.token ≡ k
    → t.result ≡ some p
    → (p ≡ cancellation t.req_id)
      × (contains_key t.req_id y.runtime.pending ≡ true
          → y.runtime.queue.closed ≡ false
          → ((finish_task y.runtime t p).0.queue.queue
              ≡ y.runtime.queue.queue ++ cancellation t.req_id ∷ [])
            × ((finish_task y.runtime t p).0.pending ≡ remove t.req_id y.runtime.pending))
      × (contains_key t.req_id y.runtime.pending ≡ false
          → (finish_task y.runtime t p).0 ≡ y.runtime)
unfolding finish_task
cancelled_answer x y r k i t p known h fresh reach at mine chosen = (
  is_own,
  λ waits opened. (
    rw waits
        (push-queue y.runtime.queue p opened ∙ ap (λ q. y.runtime.queue.queue ++ q ∷ []) is_own),
    rw waits refl,
  ),
  λ gone. rw gone refl,
)
  where
    bound : (ts : List Task) → All (IsUnselected k) ts → All (IsBound k) ts
    bound ts =
        All-weaken (IsUnselected k) (IsBound k) ts
          (λ u quiet same q some_q. absurd (nothing q (sym (quiet same) ∙ some_q)))
      where
        nothing : (q : Pending) → none ≡ some q → ⊥
        nothing q h = cc

    is_own : p ≡ cancellation t.req_id
    is_own =
        All-get_elem? (IsBound k) y.tasks i
          (Reach-IsBound k (cancels-token x.runtime r k known h) reach (bound x.tasks fresh)) at
          mine p chosen
