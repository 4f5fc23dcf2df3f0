-- ===== src/Handle/Simulation.antt =====
-- Each operation of the handle table does what its specification allows: src/handle.rs of
-- core-bridge/rust/kt-bridge.
use temporal_kt_bridge.Base.{
  ℕ, ◌^◌, ◌<◌, ◌≡◌, ◌≢◌, refl, sym, ap, ◌∙◌, arith, length, Option, none, some, Bool, true, false,
  ◌==◌, if◌then◌else◌, inl, inr,
}
use temporal_kt_bridge.Error.{KtError, shutdown, err, done}
use temporal_kt_bridge.Handle.{Entry, runtime, kind, kind_runtime, Table, insert, validate}
use temporal_kt_bridge.Handle.Owned.{remove_runtime}
use temporal_kt_bridge.Handle.Invariant.{Held, view, IsWellFormed}
use temporal_kt_bridge.Handle.Live.{validate-cases, validate-IsLive, IsLive-view}
use temporal_kt_bridge.Handle.Lookup.{
  Binds, insert_into-Binds, insert_owned_lem, runtime-cases, runtime_accepted,
}
use temporal_kt_bridge.Handle.Remove.{remove_of_kind_lem}
use temporal_kt_bridge.Handle.Reap.{unowned_by, remove_runtime-Reaps}
use temporal_kt_bridge.Handle.Refinement.{
  Op, insert_free, insert_under, remove, remove_owner, Reply, bound, released, closed, refused,
  reply_inserted, reply_removed, reply_closed, execute, Map, bind, unbind, Allowed, binds,
  binds_under, orphaned, releases, not_live, closes, not_runtime,
}

-- The handles of an operation are words.
abbrev pub IsWord : Op → Type 0
IsWord (insert_free e) = Unit
IsWord (insert_under owner e n) = owner < 2 ^ 64
IsWord (remove x k) = x < 2 ^ 64
IsWord (remove_owner x) = x < 2 ^ 64

pub record Related (t : Table) (m : Map) : Type 0 where
  pub valid : IsWellFormed t
  pub agrees : (x : ℕ) → x < 2 ^ 64 → view t x ≡ m x
  pub free_standing :
      (x r o : ℕ) → x < 2 ^ 64 → m x ≡ some (record { entry = runtime r; owner = o }) → o ≡ 0

pub record Simulated (t : Table) (m : Map) (op : Op) : Type 0 where
  pub table : Table
  pub reply : Reply
  pub map : Map
  pub runs : execute t op ≡ done (table, reply)
  pub allowed : Allowed m op reply map
  pub related : Related table map

module _ (t : Table) (m : Map) (rel : Related t m) where
  agrees_after :
      (t' : Table) (f : ℕ → Option Held → Option Held)
      → ((x : ℕ) → x < 2 ^ 64 → view t' x ≡ f x (view t x))
      → (x : ℕ) → x < 2 ^ 64
      → view t' x ≡ f x (m x)
  agrees_after t' f h x lt = h x lt ∙ ap (f x) (rel.agrees x lt)

  bound_kind :
      (e e' : Entry) (o o' : ℕ)
      → ◌≡◌ {A = Option Held}
          (some (record { entry = e; owner = o }))
          (some (record { entry = e'; owner = o' }))
      → (e ≡ e') × (o ≡ o')
  bound_kind e e' o o' h = (ground arith, ground arith)

  -- What a new binding may be.
  Bindable : Entry → ℕ → Type 0
  Bindable e owner = (r : ℕ) → e ≡ runtime r → owner ≡ 0

  bind-free_standing :
      (h : ℕ) (e : Entry) (owner : ℕ)
      → Bindable e owner
      → (x r o : ℕ) → x < 2 ^ 64
      → bind m h (record { entry = e; owner = owner }) x
        ≡ some (record { entry = runtime r; owner = o })
      → o ≡ 0
  unfolding Bindable
  bind-free_standing h e owner b x r o lt eq = by_test (x == h) eq
    where
      by_test :
          (c : Bool)
          → (if c then some (record { entry = e; owner = owner }) else m x)
            ≡ some (record { entry = runtime r; owner = o })
          → o ≡ 0
      by_test true eq = let (es, os) = bound_kind e (runtime r) owner o eq in sym os ∙ b r es
      by_test false eq = rel.free_standing x r o lt eq

  bind-Related :
      (t' : Table) (h : ℕ) (e : Entry) (owner : ℕ)
      → Binds t e owner t' h
      → Bindable e owner
      → Related t' (bind m h (record { entry = e; owner = owner }))
  bind-Related t' h e owner (v, _, _, _, sees) b = record {
    valid = v;
    agrees =
        agrees_after t' (λ x o. if x == h then some (record { entry = e; owner = owner }) else o)
          sees;
    free_standing = bind-free_standing h e owner b;
  }

  unbound : (t' : Table) (h : ℕ) (e : Entry) (owner : ℕ) → Binds t e owner t' h → m h ≡ none
  unbound t' h e owner (_, _, lt, free, _) = sym (rel.agrees h lt) ∙ free

  pub insert_free-Simulated : (e : Entry) → length t.slots < 2 ^ 32 → Simulated t m (insert_free e)
  unfolding execute insert Bindable
  insert_free-Simulated e room =
      let (t', h, runs, b) = insert_into-Binds t e 0 rel.valid room in
      record {
        table = t';
        reply = bound h;
        map = bind m h (record { entry = e; owner = 0 });
        runs = rw runs refl;
        allowed = binds e h b.1 (unbound t' h e 0 b);
        related = bind-Related t' h e 0 b (λ r _. refl);
      }

  pub insert_under-Simulated :
      (owner : ℕ) (e : Entry) (n : kind e ≢ kind_runtime)
      → length t.slots < 2 ^ 32
      → owner < 2 ^ 64
      → Simulated t m (insert_under owner e n)
  unfolding execute reply_inserted Bindable kind
  insert_under-Simulated owner e n room lt = elim (insert_owned_lem t owner e rel.valid room) [
    | inl (r, t', h, (o, live), runs, b) ↦ record {
      table = t';
      reply = bound h;
      map = bind m h (record { entry = e; owner = owner });
      runs = rw runs refl;
      allowed =
          binds_under owner r o e n h (sym (rel.agrees owner lt) ∙ live) b.1
            (unbound t' h e owner b);
      related = bind-Related t' h e owner b (λ r same. absurd (n (ap kind same)));
    }
    | inr (gone, runs) ↦ record {
      table = t;
      reply = refused shutdown;
      map = m;
      runs = rw runs refl;
      allowed = orphaned owner e n (λ r o there. gone r (o, rel.agrees owner lt ∙ there));
      related = rel;
    }
  ]

  -- Unbinding leaves the runtimes without an owner.
  unbind-free_standing :
      (f : ℕ → Option Held → Option Held)
      → ((x : ℕ) (o : Option Held) (held : Held) → f x o ≡ some held → o ≡ some held)
      → (x r o : ℕ) → x < 2 ^ 64
      → f x (m x) ≡ some (record { entry = runtime r; owner = o })
      → o ≡ 0
  unbind-free_standing f keeps x r o lt h =
      rel.free_standing x r o lt (keeps x (m x) (record { entry = runtime r; owner = o }) h)

  pub remove-Simulated : (x k : ℕ) → x < 2 ^ 64 → Simulated t m (remove x k)
  unfolding execute reply_removed
  remove-Simulated x k lt = elim (remove_of_kind_lem t x k rel.valid lt) [
    | inl (held, t', there, same_kind, runs, valid, sees, _) ↦ record {
      table = t';
      reply = released held.entry;
      map = unbind m x;
      runs = rw runs refl;
      allowed = releases x k held (sym (rel.agrees x lt) ∙ there) same_kind;
      related = record {
        valid = valid;
        agrees = agrees_after t' (λ y o. if y == x then none else o) sees;
        free_standing =
            unbind-free_standing (λ y o. if y == x then none else o)
              (λ y o held h. ground (arith, h));
      };
    }
    | inr (e, runs, other) ↦ record {
      table = t;
      reply = refused e;
      map = m;
      runs = rw runs refl;
      allowed = not_live x k e (λ held there. other held (rel.agrees x lt ∙ there));
      related = rel;
    }
  ]

  closed-Simulated :
      (x r : ℕ)
      → x < 2 ^ 64
      → view t x ≡ some (record { entry = runtime r; owner = 0 })
      → Simulated t m (remove_owner x)
  unfolding execute reply_closed
  closed-Simulated x r lt there =
      let reaps = remove_runtime-Reaps t x r rel.valid lt there in
      record {
        table = reaps.table;
        reply = closed r;
        map = λ y. if y == x then none else unowned_by x (m y);
        runs = rw reaps.runs refl;
        allowed = closes x r (sym (rel.agrees x lt) ∙ there);
        related = record {
          valid = reaps.valid;
          agrees =
              agrees_after reaps.table (λ y o. if y == x then none else unowned_by x o)
                reaps.unbound;
          free_standing =
              unbind-free_standing (λ y o. if y == x then none else unowned_by x o)
                (λ y o held h. ground (arith, h));
        };
      }

  refused_run :
      (x : ℕ) (e : KtError)
      → validate t x kind_runtime ≡ err e
      → remove_runtime t x ≡ done (t, err e)
  unfolding remove_runtime
  refused_run x e h = rw (h, remove_runtime) refl

  pub remove_owner-Simulated : (x : ℕ) → x < 2 ^ 64 → Simulated t m (remove_owner x)
  unfolding execute reply_closed
  remove_owner-Simulated x lt = elim (validate-cases t x kind_runtime) [
    | inl (i, accepted) ↦
        let (s, e, l, ke, _) = validate-IsLive t x kind_runtime i accepted in
        let (r, is_runtime) = runtime-cases e ke in
        let there : view t x ≡ some (record { entry = runtime r; owner = s.owner }) =
          IsLive-view l
          ∙ ap (λ (e : Entry). some (record { entry = e; owner = s.owner })) is_runtime in
        let alone = rel.free_standing x r s.owner lt (sym (rel.agrees x lt) ∙ there) in
        closed-Simulated x r lt
          (there ∙ ap (λ (o : ℕ). some (record { entry = runtime r; owner = o })) alone)
    | inr (e, no_runtime) ↦ record {
      table = t;
      reply = refused e;
      map = m;
      runs = rw (refused_run x e no_runtime) refl;
      allowed =
          not_runtime x e
            (λ r o there. let accepted = runtime_accepted t x r o (rel.agrees x lt ∙ there) in cc);
      related = rel;
    }
  ]
