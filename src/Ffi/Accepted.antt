-- ===== src/Ffi/Accepted.antt =====
-- What a call that starts a request leaves behind: src/lib.rs, core-bridge/rust/kt-bridge.
use temporal_kt_bridge.Base.{
  ℕ, ◌≡◌, ◌≢◌, refl, arith, Bool, true, false, text, decimal, [], ◌∷◌, ◌++◌, length, none, ==_refl,
  ==_ne, ◌⊎◌, inl, inr,
}
use temporal_kt_bridge.Error.{KtError, invalid_argument, shutdown, ok, err, done}
use temporal_kt_bridge.Handle.{runtime}
use temporal_kt_bridge.Handle.Owned.{get_runtime}
use temporal_kt_bridge.Handle.Lookup.{Resolves, getters_iff}
use temporal_kt_bridge.Runtime.{Runtime, Task, register, contains_key, spawn_request}
use temporal_kt_bridge.Runtime
use temporal_kt_bridge.Ffi.Process.{RuntimeEntry, Process, Operation, assign, Try, spawned, submit}
use temporal_kt_bridge.Ffi.Settles.{Settles, settled, refused}

-- The call went through: the runtime that the handle resolves to has the request as a new one, with a
-- token that is not cancelled and a task that runs the operation; nothing else has changed.
pub record Accepts (p : Process) (handle req_id : ℕ) (p' : Process) (r : Try (Unit {0}))
    : Type 0 where
  pub rt : ℕ
  pub operation : Operation
  pub resolved : Resolves p.handles handle (runtime rt)
  pub answers : r ≡ done (ok tt)
  pub nonzero : req_id ≢ 0
  pub fresh : contains_key req_id (p.runtimes rt).requests.pending ≡ false
  pub open_yet : (p.runtimes rt).requests.closed ≡ false
  pub pending :
      (p'.runtimes rt).requests.pending
      ≡ (req_id, length (p.runtimes rt).requests.tokens) ∷ (p.runtimes rt).requests.pending
  pub tokens : (p'.runtimes rt).requests.tokens ≡ (p.runtimes rt).requests.tokens ++ false ∷ []
  pub queue : (p'.runtimes rt).requests.queue ≡ (p.runtimes rt).requests.queue
  pub closed : (p'.runtimes rt).requests.closed ≡ false
  pub metrics : (p'.runtimes rt).metrics ≡ (p.runtimes rt).metrics
  pub metric_batch : (p'.runtimes rt).metric_batch ≡ (p.runtimes rt).metric_batch
  pub logs : (p'.runtimes rt).logs ≡ (p.runtimes rt).logs
  pub others : (j : ℕ) → rt ≢ j → p'.runtimes j ≡ p.runtimes j
  pub tasks :
      p'.spawned
      ≡ p.spawned
        ++ record {
          runtime = rt;
          task = record {
            req_id = req_id;
            token = length (p.runtimes rt).requests.tokens;
            result = none;
          };
          operation = operation;
        }
          ∷ []
  pub handles : p'.handles ≡ p.handles
  pub workers : (j : ℕ) → p'.workers j ≡ p.workers j
  pub pollers : (j : ℕ) → p'.pollers j ≡ p.pollers j
  pub servers : (j : ℕ) → p'.servers j ≡ p.servers j
  pub next : p'.next ≡ p.next

-- The call was refused and no part of the process has changed.
pub record Rejects (p : Process) (p' : Process) (r : Try (Unit {0})) : Type 0 where
  pub error : KtError
  pub answers : r ≡ done (err error)
  pub runtimes : (j : ℕ) → p'.runtimes j ≡ p.runtimes j
  pub spawned : p'.spawned ≡ p.spawned
  pub handles : p'.handles ≡ p.handles
  pub workers : (j : ℕ) → p'.workers j ≡ p.workers j
  pub pollers : (j : ℕ) → p'.pollers j ≡ p.pollers j
  pub servers : (j : ℕ) → p'.servers j ≡ p.servers j
  pub next : p'.next ≡ p.next

abbrev pub SettledRequest : Process → ℕ → ℕ → Process × Try (Unit {0}) → Type 0
SettledRequest p handle req_id (p', r) = Accepts p handle req_id p' r ⊎ Rejects p p' r

-- What holds of the runtime and the operation that a plan comes to.
abbrev pub Planned : Process → ℕ → ℕ → ℕ × Operation → Type 0
Planned p handle req_id (rt, op) = (req_id ≢ 0) × (get_runtime p.handles handle ≡ done (ok rt))

assign_same : (f : ℕ → RuntimeEntry) (i j : ℕ) (a : RuntimeEntry) → a ≡ f i → assign f i a j ≡ f j
assign_same f i j a h = ground (arith, h)

assign_ne : (f : ℕ → RuntimeEntry) (i j : ℕ) (a : RuntimeEntry) → i ≢ j → assign f i a j ≡ f j
assign_ne f i j a h = ground arith

assign_self : (f : ℕ → RuntimeEntry) (i : ℕ) (a : RuntimeEntry) → assign f i a i ≡ a
assign_self f i a = ground arith

spawn_cases :
    (e : Runtime) (req_id : ℕ)
    → ((x : KtError) × (spawn_request e req_id ≡ (e, err x)))
      ⊎ ((e.closed ≡ false)
          × (contains_key req_id e.pending ≡ false)
          × (spawn_request e req_id ≡ (
            record e {
              pending = (req_id, length e.tokens) ∷ e.pending;
              tokens = e.tokens ++ false ∷ [];
            },
            ok (record { req_id = req_id; token = length e.tokens; result = none }),
          )))
unfolding spawn_request Runtime.spawned register
spawn_cases e req_id = by_tests e.closed refl (contains_key req_id e.pending) refl
  where
    by_tests :
        (c : Bool)
        → e.closed ≡ c
        → (d : Bool) → contains_key req_id e.pending ≡ d
        → ((x : KtError) × (spawn_request e req_id ≡ (e, err x)))
          ⊎ ((e.closed ≡ false)
              × (contains_key req_id e.pending ≡ false)
              × (spawn_request e req_id ≡ (
                record e {
                  pending = (req_id, length e.tokens) ∷ e.pending;
                  tokens = e.tokens ++ false ∷ [];
                },
                ok (record { req_id = req_id; token = length e.tokens; result = none }),
              )))
    by_tests true hc d hd = inl (shutdown, rw (hc, spawn_request) refl)
    by_tests false hc true hd = inl (
      invalid_argument (text "duplicate req_id " ++ decimal req_id),
      rw (hc, hd, spawn_request) refl,
    )
    by_tests false hc false hd = inr (hc, hd, rw (hc, hd, spawn_request) refl)

module _ (p : Process) (handle req_id : ℕ) where
  spawned_lem :
      (rt : ℕ) (op : Operation)
      → req_id ≢ 0
      → get_runtime p.handles handle ≡ done (ok rt)
      → SettledRequest p handle req_id
          (spawned p rt op (spawn_request (p.runtimes rt).requests req_id))
  unfolding spawned
  spawned_lem rt op nonzero found = elim (spawn_cases (p.runtimes rt).requests req_id) [
    | inl (x, same) ↦ rw same (
        inr (record {
          error = x;
          answers = refl;
          runtimes = λ j. assign_same p.runtimes rt j (p.runtimes rt) refl;
          spawned = refl;
          handles = refl;
          workers = λ j. refl;
          pollers = λ j. refl;
          servers = λ j. refl;
          next = refl;
        }))
    | inr (opened, fresh, registered) ↦ rw registered (
        inl (record {
          rt = rt;
          operation = op;
          resolved = (getters_iff p.handles handle rt).0.0 found;
          answers = refl;
          nonzero = nonzero;
          fresh = fresh;
          open_yet = opened;
          pending = rw (==_refl rt) refl;
          tokens = rw (==_refl rt) refl;
          queue = rw (==_refl rt) refl;
          closed = rw (==_refl rt) opened;
          metrics = rw (==_refl rt) refl;
          metric_batch = rw (==_refl rt) refl;
          logs = rw (==_refl rt) refl;
          others = λ j n. rw (==_ne rt j n) refl;
          tasks = refl;
          handles = refl;
          workers = λ j. refl;
          pollers = λ j. refl;
          servers = λ j. refl;
          next = refl;
        }))
  ]

  pub submit_lem :
      {plan : Try (ℕ × Operation)}
      → Settles (Planned p handle req_id) plan
      → SettledRequest p handle req_id (submit p req_id plan)
  unfolding submit
  submit_lem (settled (rt, op) (nonzero, found)) = spawned_lem rt op nonzero found
  submit_lem (refused e) = inr (record {
    error = e;
    answers = refl;
    runtimes = λ j. refl;
    spawned = refl;
    handles = refl;
    workers = λ j. refl;
    pollers = λ j. refl;
    servers = λ j. refl;
    next = refl;
  })
