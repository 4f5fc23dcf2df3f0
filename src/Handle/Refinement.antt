-- ===== src/Handle/Refinement.antt =====
-- The handle table against its specification, a partial map from handles: src/handle.rs of
-- core-bridge/rust/kt-bridge.
use temporal_kt_bridge.Base.{ℕ, ◌≡◌, ◌≢◌, List, Option, none, some, ◌==◌, if◌then◌else◌}
use temporal_kt_bridge.Error.{KtError, shutdown, KtResult, ok, err, Exec, done, ◌>>=◌}
use temporal_kt_bridge.Handle.{
  Entry, runtime, kind, kind_runtime, Table, insert, Inserted, insert_owned, remove_of_kind,
}
use temporal_kt_bridge.Handle.Owned.{remove_runtime}
use temporal_kt_bridge.Handle.Invariant.{Held}
use temporal_kt_bridge.Handle.Reap.{unowned_by}

-- The operations that change the table. Only a runtime's creation inserts a runtime, without an owner.
pub data Op : Type 0 where
  insert_free : Entry → Op
  insert_under : ℕ → (e : Entry) → kind e ≢ kind_runtime → Op
  remove : ℕ → ℕ → Op
  remove_owner : ℕ → Op

pub data Reply : Type 0 where
  bound : ℕ → Reply
  released : Entry → Reply
  closed : ℕ → Reply
  refused : KtError → Reply

-- The replies of the operations, and the tables that they leave.
unfoldable pub reply_inserted : Inserted → Table × Reply
reply_inserted i = elim i.result [ ok h ↦ (i.table, bound h) | err e ↦ (i.table, refused e) ]

unfoldable pub reply_removed : Table × KtResult Entry → Table × Reply
reply_removed (t, ok e) = (t, released e)
reply_removed (t, err e) = (t, refused e)

unfoldable pub reply_closed : Table × KtResult (ℕ × List Entry) → Table × Reply
reply_closed (t, ok (r, _)) = (t, closed r)
reply_closed (t, err e) = (t, refused e)

unfoldable pub execute : Table → Op → Exec (Table × Reply)
execute t (insert_free e) = do (t', h) ← insert t e; done (t', bound h)
execute t (insert_under owner e _) = do i ← insert_owned t owner e; done (reply_inserted i)
execute t (remove x k) = do r ← remove_of_kind t x k; done (reply_removed r)
execute t (remove_owner x) = do r ← remove_runtime t x; done (reply_closed r)

abbrev pub Map : Type 0
Map = ℕ → Option Held

abbrev pub bind : Map → ℕ → Held → Map
bind m h held x = if x == h then some held else m x

abbrev pub unbind : Map → ℕ → Map
unbind m h x = if x == h then none else m x

-- What the specification allows an operation to reply, and the map that it leaves then. An insertion may
-- choose any handle that is not 0 and not bound.
pub data Allowed (m : Map) : Op → Reply → Map → Type 0 where
  binds :
      (e : Entry) (h : ℕ)
      → h ≢ 0
      → m h ≡ none
      → Allowed m (insert_free e) (bound h) (bind m h (record { entry = e; owner = 0 }))
  binds_under :
      (owner r o : ℕ) (e : Entry) (n : kind e ≢ kind_runtime) (h : ℕ)
      → m owner ≡ some (record { entry = runtime r; owner = o })
      → h ≢ 0
      → m h ≡ none
      → Allowed m
          (insert_under owner e n)
          (bound h)
          (bind m h (record { entry = e; owner = owner }))
  orphaned :
      (owner : ℕ) (e : Entry) (n : kind e ≢ kind_runtime)
      → ((r o : ℕ) → m owner ≢ some (record { entry = runtime r; owner = o }))
      → Allowed m (insert_under owner e n) (refused shutdown) m
  releases :
      (x k : ℕ) (held : Held)
      → m x ≡ some held
      → kind held.entry ≡ k
      → Allowed m (remove x k) (released held.entry) (unbind m x)
  not_live :
      (x k : ℕ) (e : KtError)
      → ((held : Held) → m x ≡ some held → kind held.entry ≢ k)
      → Allowed m (remove x k) (refused e) m
  closes :
      (x r : ℕ)
      → m x ≡ some (record { entry = runtime r; owner = 0 })
      → Allowed m (remove_owner x) (closed r) (λ y. if y == x then none else unowned_by x (m y))
  not_runtime :
      (x : ℕ) (e : KtError)
      → ((r o : ℕ) → m x ≢ some (record { entry = runtime r; owner = o }))
      → Allowed m (remove_owner x) (refused e) m
