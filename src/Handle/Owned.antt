-- ===== src/Handle/Owned.antt =====
-- src/handle.rs of core-bridge/rust/kt-bridge: the operations by owner, and the typed getters.
use temporal_kt_bridge.Base.{
  ℕ, zero, suc, ◌+◌, text, List, [], ◌∷◌, ◌++◌, length, ◌==◌, not, if◌then◌else◌, none, some,
}
use temporal_kt_bridge.Error.{
  invalid_argument, wrong_handle_kind, KtResult, ok, err, Exec, done, panics, ◌>>=◌, static_str,
}
use temporal_kt_bridge.Handle.{
  Entry, runtime, client, worker, ephemeral, poller, kind_runtime, Slot, Table, kind_of, slot_at,
  validate, take,
}

-- The scan of `remove_runtime` over the indices from `index` on, `left` of them.
unfoldable pub reap : ℕ → ℕ → ℕ → Table → List Entry → Exec (Table × List Entry)
reap zero index owner t children = done (t, children)
reap (suc left) index owner t children = do
  s ← slot_at t.slots index
  let rest = λ (r : Table × List Entry). reap left (index + 1) owner r.0 r.1
  if s.owner == owner
      then (do (t', e) ← take t index; rest (t', children ++ e ∷ []))
      else rest (t, children)

-- The `let … else` of `remove_runtime`: a validated runtime handle names a runtime.
unfoldable pub expect_runtime : Entry → Exec ℕ
expect_runtime (runtime r) = done r
expect_runtime _ = panics (static_str (text "internal error: entered unreachable code"))

unfoldable pub remove_runtime : Table → ℕ → Exec (Table × KtResult (ℕ × List Entry))
remove_runtime t handle = elim (validate t handle kind_runtime) [
  | err e ↦ done (t, err e)
  | ok index ↦ do
    (t', e) ← take t index
    r ← expect_runtime e
    (t'', children) ← reap (length t'.slots) 0 handle t' []
    done (t'', ok (r, children))
]

unfoldable pub require_owner : Table → ℕ → ℕ → Exec (KtResult (Unit {0}))
require_owner t handle owner = elim (validate t handle (kind_of handle)) [
  | err e ↦ done (err e)
  | ok index ↦ do
    s ← slot_at t.slots index
    done (
        if not (s.owner == owner)
        then err (invalid_argument (text "handle belongs to a different runtime"))
        else ok tt)
]

-- The entry that a handle resolves to, under the read lock.
unfoldable pub live_entry : Slot → Exec Entry
live_entry s = elim s.entry [
  | none ↦ panics (static_str (text "validated live slot"))
  | some e ↦ done e
]

unfoldable pub with_entry {ℓ} : {A : Type ℓ} → Table → ℕ → (Entry → KtResult A) → Exec (KtResult A)
with_entry t handle f = elim (validate t handle (kind_of handle)) [
  | err e ↦ done (err e)
  | ok index ↦ do s ← slot_at t.slots index; e ← live_entry s; done (f e)
]

abbrev pub as_runtime : Entry → KtResult ℕ
as_runtime (runtime r) = ok r
as_runtime _ = err wrong_handle_kind

abbrev pub as_client : Entry → KtResult ℕ
as_client (client c) = ok c
as_client _ = err wrong_handle_kind

abbrev pub as_worker : Entry → KtResult ℕ
as_worker (worker w) = ok w
as_worker _ = err wrong_handle_kind

abbrev pub as_ephemeral : Entry → KtResult ℕ
as_ephemeral (ephemeral s) = ok s
as_ephemeral _ = err wrong_handle_kind

abbrev pub as_poller : Entry → KtResult ℕ
as_poller (poller p) = ok p
as_poller _ = err wrong_handle_kind

-- The five getters that `typed_getter!` generates.
unfoldable pub get_runtime : Table → ℕ → Exec (KtResult ℕ)
get_runtime t handle = with_entry t handle as_runtime

unfoldable pub get_client : Table → ℕ → Exec (KtResult ℕ)
get_client t handle = with_entry t handle as_client

unfoldable pub get_worker : Table → ℕ → Exec (KtResult ℕ)
get_worker t handle = with_entry t handle as_worker

unfoldable pub get_ephemeral : Table → ℕ → Exec (KtResult ℕ)
get_ephemeral t handle = with_entry t handle as_ephemeral

unfoldable pub get_poller : Table → ℕ → Exec (KtResult ℕ)
get_poller t handle = with_entry t handle as_poller
