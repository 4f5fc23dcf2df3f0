-- ===== src/Runtime/Once.antt =====
-- Each request is answered once: src/runtime.rs, core-bridge/rust/kt-bridge.
use temporal_kt_bridge.Base.{
  ℕ, ◌+◌, ◌≤◌, ◌≡◌, ◌≢◌, false_ne_true, sym, ap, ◌∙◌, subst, arith, List, [], ◌∷◌, ◌++◌, count,
  get_elem?, set, All, All-set, none, some, refl, true, false, ◌==◌, if◌then◌else◌, Bool-cases, inl,
  inr, map,
}
use temporal_kt_bridge.Queue.{Pending, State, push}
use temporal_kt_bridge.Queue.Push.{push-open, push-closed}
use temporal_kt_bridge.Queue.Poll.{drained, undrained}
use temporal_kt_bridge.Runtime.{
  Requests, Runtime, contains_key, remove, Task, Outcome, select, finish_task,
  drain_pending_for_shutdown,
}
use temporal_kt_bridge.Runtime.Table.{keys, count-remove, contains_key-count}
use temporal_kt_bridge.Runtime.Requests.{
  shutdown_answer, drain_pending_for_shutdown_lem, drain_pending_for_shutdown-again,
}
use temporal_kt_bridge.Runtime.System.{System, erase, Answers, queued}
use temporal_kt_bridge.Runtime.Account.{
  ids, task_ids, task_ids-set, IsOwn, All-erase, count-erase, ids-shutdown, ids-drained, ids-append,
  ids-push, select-req_id, Spawned,
}

abbrev pub outstanding : System → ℕ → ℕ
outstanding x r = count r (keys x.runtime.pending)

abbrev pub answers : System → ℕ → ℕ
answers x r = count r (ids x.delivered) + count r (ids x.runtime.queue.queue)

-- What holds between two sections.
pub record Inv (x : System) : Type 0 where
  pub together : x.runtime.queue.closed ≡ x.runtime.closed
  pub quiet : x.runtime.closed ≡ true → x.runtime.pending ≡ []
  pub single : (r : ℕ) → outstanding x r ≤ 1
  pub held : (r : ℕ) → outstanding x r ≤ count r (task_ids x.tasks)
  pub own : All IsOwn x.tasks
  pub balanced : (r : ℕ) → r ≢ 0 → count r x.accepted ≡ answers x r + outstanding x r

module _ {x : Runtime} {r : ℕ} {e : Runtime} {t : Task} (s : Spawned x r e t) where
  spawned-open : e.closed ≢ true
  spawned-open h = absurd (false_ne_true (sym s.opened ∙ sym s.closed ∙ h))

  entered :
      (q : ℕ) → count q (keys e.pending) ≡ (if r == q then 1 else 0) + count q (keys x.pending)
  entered q = ap (λ (m : Requests). count q (keys m)) s.pending

  unknown-count : count r (keys x.pending) ≡ 0
  unknown-count = contains_key-count r x.pending s.unknown

  same_answers : (q : ℕ) → count q (ids e.queue.queue) ≡ count q (ids x.queue.queue)
  same_answers q = ap (λ (a : State). count q (ids a.queue)) s.queue

unselected_ne : (p : Pending) → none ≡ some p → ⊥
unselected_ne p h = cc

pub spawns-Inv :
    (x : System) (r : ℕ) (e : Runtime) (t : Task)
    → Spawned x.runtime r e t
    → Inv x
    → Inv (record x { runtime = e; tasks = t ∷ x.tasks; accepted = r ∷ x.accepted })
spawns-Inv x r e t s v = record {
  together = ap (λ (a : State). a.closed) s.queue ∙ v.together ∙ sym s.closed;
  quiet = λ h. absurd (spawned-open s h);
  single = λ q. ground (arith, entered s q, v.single q, unknown-count s);
  held = λ q. omega (arith, entered s q, v.held q, ap (λ (k : ℕ). count q (k ∷ [])) s.req_id);
  own = (λ p h. absurd (unselected_ne p (sym s.unselected ∙ h)), v.own);
  balanced = λ q n. omega (arith, entered s q, v.balanced q n, same_answers s q);
}

pub removed-count :
    (k : ℕ) (m : Requests)
    → contains_key k m ≡ true
    → (r : ℕ) → count r (keys m) ≡ count r (keys (remove k m)) + (if k == r then 1 else 0)
removed-count k m known r = count-remove k r m ∙ rw known

pub known-open :
    (x : System) (r : ℕ)
    → contains_key r x.runtime.pending ≡ true
    → Inv x
    → x.runtime.closed ≡ false
unfolding contains_key
known-open x r known v = elim (Bool-cases x.runtime.closed) [
  | inl closed ↦ absurd (false_ne_true (sym (ap (contains_key r) (v.quiet closed)) ∙ known))
  | inr opened ↦ opened
]

-- The task of an outstanding request sends its answer.
retired-Inv :
    (x : System) (i : ℕ) (t : Task) (p : Pending)
    → get_elem? x.tasks i ≡ some t
    → p.req_id ≡ t.req_id
    → contains_key t.req_id x.runtime.pending ≡ true
    → Inv x
    → Inv (record x {
      runtime = record x.runtime {
        pending = remove t.req_id x.runtime.pending;
        queue = (push x.runtime.queue p).0;
      };
      tasks = erase x.tasks i;
    })
retired-Inv x i t p at h known v =
    let opened = known-open x t.req_id known v in
    let still = v.together ∙ opened in
    let one = removed-count t.req_id x.runtime.pending known in
    record {
      together = push-open x.runtime.queue p still ∙ sym opened;
      quiet = λ closed. absurd (false_ne_true (sym opened ∙ closed));
      single = λ r. omega (arith, one r, v.single r);
      held = λ r. omega (arith, one r, v.held r, count-erase r x.tasks i t at);
      own = All-erase IsOwn x.tasks i v.own;
      balanced = λ r n. omega (
        arith,
        one r,
        v.balanced r n,
        ids-push r x.runtime.queue p still,
        ap (λ (k : ℕ). count r (k ∷ [])) h,
      );
    }

-- A task selects; its request stays outstanding.
pub selects-Inv :
    (x : System) (i : ℕ) (t : Task) (o : Outcome)
    → get_elem? x.tasks i ≡ some t
    → Answers t.req_id o
    → Inv x
    → Inv (record x { tasks = set x.tasks i (record t { result = some (select x.runtime t o) }) })
selects-Inv x i t o at h v =
    let u : Task = record t { result = some (select x.runtime t o) } in
    record {
      together = v.together;
      quiet = v.quiet;
      single = v.single;
      held = λ r. omega (arith, v.held r, ap (count r) (task_ids-set x.tasks i t u at refl));
      own = All-set IsOwn x.tasks i u v.own (λ p same.
          subst (λ (q : Pending). q.req_id ≡ t.req_id)
            (some_injective (select x.runtime t o) p same) (select-req_id x.runtime t o h));
      balanced = v.balanced;
    }
  where
    some_injective : (p q : Pending) → some p ≡ some q → p ≡ q
    some_injective p q h = cc

pub finishes-Inv :
    (x : System) (i : ℕ) (t : Task) (p : Pending)
    → get_elem? x.tasks i ≡ some t
    → p.req_id ≡ t.req_id
    → Inv x
    → Inv (record x { runtime = (finish_task x.runtime t p).0; tasks = erase x.tasks i })
unfolding finish_task
finishes-Inv x i t p at h v = elim (Bool-cases (contains_key t.req_id x.runtime.pending)) [
  | inl known ↦ rw known (retired-Inv x i t p at h known v)
  | inr unknown ↦ rw unknown (record {
    together = v.together;
    quiet = v.quiet;
    single = v.single;
    held = λ r. ground (
      arith,
      v.held r,
      count-erase r x.tasks i t at,
      contains_key-count t.req_id x.runtime.pending unknown,
    );
    own = All-erase IsOwn x.tasks i v.own;
    balanced = v.balanced;
  })
]

pub emits-Inv :
    (x : System) (p : Pending)
    → p.req_id ≡ 0
    → Inv x
    → Inv (record x { runtime = queued x.runtime (push x.runtime.queue p).0 })
emits-Inv x p h v = elim (Bool-cases x.runtime.queue.closed) [
  | inl closed ↦ rw (push-closed x.runtime.queue p closed) v
  | inr opened ↦ record {
    together = push-open x.runtime.queue p opened ∙ sym opened ∙ v.together;
    quiet = v.quiet;
    single = v.single;
    held = v.held;
    own = v.own;
    balanced = λ r n. ground (arith, v.balanced r n, ids-push r x.runtime.queue p opened, h);
  }
]

pub polls-Inv :
    (x : System) (cap : ℕ) (s : State)
    → s.queue ≡ x.runtime.queue.queue
    → s.closed ≡ x.runtime.queue.closed
    → Inv x
    → Inv (record x {
      runtime = queued x.runtime (undrained cap s);
      delivered = x.delivered ++ drained cap s;
    })
unfolding undrained
polls-Inv x cap s same still v = record {
  together = still ∙ v.together;
  quiet = v.quiet;
  single = v.single;
  held = v.held;
  own = v.own;
  balanced = λ r n. omega (
    arith,
    v.balanced r n,
    ids-drained r cap x.delivered s,
    ap (λ (l : List Pending). count r (ids l)) same,
  );
}

pub shuts_down-Inv :
    (x : System) → Inv x → Inv (record x { runtime = drain_pending_for_shutdown x.runtime })
shuts_down-Inv x v = elim (Bool-cases x.runtime.closed) [
  | inl closed ↦
      subst (λ e. Inv (record x { runtime = e }))
        (sym (
          drain_pending_for_shutdown-again x.runtime (v.quiet closed) closed (v.together ∙ closed)))
        v
  | inr opened ↦
      let (queued, none_left, closed, shut) =
        drain_pending_for_shutdown_lem x.runtime (v.together ∙ opened) in
      record {
        together = shut ∙ sym closed;
        quiet = λ _. none_left;
        single = λ r. omega (arith, ap (λ (m : Requests). count r (keys m)) none_left);
        held = λ r. omega (arith, ap (λ (m : Requests). count r (keys m)) none_left);
        own = v.own;
        balanced = λ r n. omega (
          arith,
          v.balanced r n,
          ap (λ (m : Requests). count r (keys m)) none_left,
          ap (λ (l : List Pending). count r (ids l)) queued,
          ids-append r x.runtime.queue.queue (map shutdown_answer (keys x.runtime.pending)),
          ap (count r) (ids-shutdown (keys x.runtime.pending)),
        );
      }
]
