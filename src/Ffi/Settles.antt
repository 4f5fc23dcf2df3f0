-- ===== src/Ffi/Settles.antt =====
-- Bodies of entry points that come to a value or to an error, and never panic: src/lib.rs,
-- core-bridge/rust/kt-bridge.
use temporal_kt_bridge.Base.{
  ℕ, ◌≡◌, ◌≢◌, refl, arith, Bool, true, false, not, Bytes, Option, none, some, Option-cases, ◌==◌,
  if◌then◌else◌, text, ◌++◌, inl, inr,
}
use temporal_kt_bridge.Error.{KtError, invalid_argument, KtResult, ok, err, done}
use temporal_kt_bridge.Handle.{Entry, Table, kind_of}
use temporal_kt_bridge.Handle.Owned.{
  with_entry, get_runtime, get_client, get_worker, get_ephemeral, get_poller, require_owner,
  as_runtime, as_client, as_worker, as_ephemeral, as_poller,
}
use temporal_kt_bridge.Handle.Invariant.{view}
use temporal_kt_bridge.Handle.Live.{validate-cases, validate-IsLive}
use temporal_kt_bridge.Handle.Lookup.{with_entry-view}
use temporal_kt_bridge.Handle.Owner.{live_owner, stale_owner}
use temporal_kt_bridge.Ffi.Process.{Messages, Try, ◌>>=◌, try, request_id}
use temporal_kt_bridge.Ffi.Requests.{utf8}

pub data Settles {ℓ} {A : Type ℓ} (Q : A → Type 0) : Try A → Type ℓ where
  settled : (a : A) → Q a → Settles Q (done (ok a))
  refused : (e : KtError) → Settles Q (done (err e))

-- Nothing in particular holds of the value.
abbrev pub Anything {ℓ} : {A : Type ℓ} → A → Type 0
Anything a = Unit

pub bind-Settles {ℓ κ} :
    {A : Type ℓ} {B : Type κ} {P : A → Type 0} {Q : B → Type 0} {t : Try A} (f : A → Try B)
    → Settles P t
    → ((a : A) → P a → Settles Q (f a))
    → Settles Q (t >>= f)
bind-Settles f (settled a h) g = g a h
bind-Settles f (refused e) g = refused e

pub try-Settles {ℓ} : {A : Type ℓ} (r : KtResult A) → Settles Anything (try r)
try-Settles (ok a) = settled a tt
try-Settles (err e) = refused e

-- A body is settled with its own result.
itself : (t : Try ℕ) (r : KtResult ℕ) → t ≡ done r → Settles (λ n. t ≡ done (ok n)) t
itself t (ok n) h = rw h (settled n refl)
itself t (err e) h = rw h (refused e)

with_entry-Settles :
    (t : Table) (x : ℕ) (f : Entry → KtResult ℕ)
    → Settles (λ n. with_entry t x f ≡ done (ok n)) (with_entry t x f)
with_entry-Settles t x f = elim (Option-cases (view t x)) [
  | inl unbound ↦
      let (e, h) = (with_entry-view t x f).1 unbound in itself (with_entry t x f) (err e) h
  | inr (held, bound) ↦
      itself (with_entry t x f) (f held.entry) ((with_entry-view t x f).0 held bound)
]

pub get_runtime-Settles :
    (t : Table) (x : ℕ) → Settles (λ n. get_runtime t x ≡ done (ok n)) (get_runtime t x)
unfolding get_runtime
get_runtime-Settles t x = with_entry-Settles t x as_runtime

pub get_client-Settles :
    (t : Table) (x : ℕ) → Settles (λ n. get_client t x ≡ done (ok n)) (get_client t x)
unfolding get_client
get_client-Settles t x = with_entry-Settles t x as_client

pub get_worker-Settles :
    (t : Table) (x : ℕ) → Settles (λ n. get_worker t x ≡ done (ok n)) (get_worker t x)
unfolding get_worker
get_worker-Settles t x = with_entry-Settles t x as_worker

pub get_ephemeral-Settles :
    (t : Table) (x : ℕ) → Settles (λ n. get_ephemeral t x ≡ done (ok n)) (get_ephemeral t x)
unfolding get_ephemeral
get_ephemeral-Settles t x = with_entry-Settles t x as_ephemeral

pub get_poller-Settles :
    (t : Table) (x : ℕ) → Settles (λ n. get_poller t x ≡ done (ok n)) (get_poller t x)
unfolding get_poller
get_poller-Settles t x = with_entry-Settles t x as_poller

pub require_owner-Settles :
    (t : Table) (x owner : ℕ)
    → Settles (λ _. require_owner t x owner ≡ done (ok tt)) (require_owner t x owner)
require_owner-Settles t x owner = elim (validate-cases t x (kind_of x)) [
  | inl (i, accepted) ↦
      let (s, e, l, _, _) = validate-IsLive t x (kind_of x) i accepted in
      own
        (if not (s.owner == owner)
          then err (invalid_argument (text "handle belongs to a different runtime"))
          else ok tt)
        (live_owner t x owner l)
  | inr (e, rejected) ↦ own (err e) (stale_owner t x owner rejected)
]
  where
    own :
        (r : KtResult (Unit {0}))
        → require_owner t x owner ≡ done r
        → Settles (λ _. require_owner t x owner ≡ done (ok tt)) (require_owner t x owner)
    own (ok tt) h = rw h (settled tt refl)
    own (err e) h = rw h (refused e)

pub request_id-Settles : (req_id : ℕ) → Settles (λ _. req_id ≢ 0) (request_id req_id)
unfolding request_id
request_id-Settles req_id = by_test (req_id == 0) refl
  where
    by_test :
        (b : Bool)
        → (req_id == 0) ≡ b
        → Settles {0} {A = Unit {0}}
            (λ _. req_id ≢ 0)
            (if b
              then done (err (invalid_argument (text "req_id 0 is reserved for pushed events")))
              else done (ok tt))
    by_test true h = refused (invalid_argument (text "req_id 0 is reserved for pushed events"))
    by_test false h = settled tt (ground arith)

pub utf8-Settles : (m : Messages) (bytes : Bytes) → Settles Anything (utf8 m bytes)
unfolding utf8
utf8-Settles m bytes = by_error (m.utf8_error bytes)
  where
    by_error :
        (o : Option Bytes)
        → Settles {0} {A = Bytes} Anything (elim o [
          | some e ↦ done (err (invalid_argument (text "rpc name is not UTF-8: " ++ e)))
          | none ↦ done (ok bytes)
        ])
    by_error (some e) = refused (invalid_argument (text "rpc name is not UTF-8: " ++ e))
    by_error none = settled bytes tt
