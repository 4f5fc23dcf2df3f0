-- ===== src/Ffi/Planned.antt =====
-- The plans of the seven entry points that start a request: src/lib.rs, core-bridge/rust/kt-bridge.
use temporal_kt_bridge.Base.{ℕ, ◌≡◌, ◌≢◌, refl, sym, ap, ◌∙◌, Bytes, Option}
use temporal_kt_bridge.Error.{ok, done}
use temporal_kt_bridge.Handle.Owned.{get_runtime, get_worker, require_owner}
use temporal_kt_bridge.Worker.{core_of}
use temporal_kt_bridge.Client.{Environment, connection_options}
use temporal_kt_bridge.Rpc.{from_u32}
use temporal_kt_bridge.Ephemeral.{decode_options}
use temporal_kt_bridge.Ffi.{slice}
use temporal_kt_bridge.Ffi.Process.{Process, Operation, Messages, Try, ◌>>=◌, request_id}
use temporal_kt_bridge.Ffi.Requests.{
  kt_client_connect, kt_client_rpc, kt_worker_validate, kt_worker_complete, kt_worker_shutdown,
  kt_ephemeral_start, kt_ephemeral_shutdown,
}
use temporal_kt_bridge.Ffi.Settles.{
  Settles, settled, refused, bind-Settles, try-Settles, get_runtime-Settles, get_client-Settles,
  get_worker-Settles, get_ephemeral-Settles, require_owner-Settles, request_id-Settles,
  utf8-Settles,
}
use temporal_kt_bridge.Ffi.Accepted.{SettledRequest, Planned, submit_lem}

-- The entry points that start a request, with their arguments.
pub data Request : Type 0 where
  client_connect : ℕ → Option Bytes → ℕ → ℕ → Request
  client_rpc : ℕ → ℕ → ℕ → Option Bytes → ℕ → Option Bytes → ℕ → ℕ → ℕ → Request
  worker_validate : ℕ → ℕ → ℕ → Request
  worker_complete : ℕ → ℕ → ℕ → Option Bytes → ℕ → ℕ → Request
  worker_shutdown : ℕ → ℕ → ℕ → ℕ → Request
  ephemeral_start : ℕ → Option Bytes → ℕ → ℕ → Request
  ephemeral_shutdown : ℕ → ℕ → ℕ → Request

-- The runtime's handle and the request id among them.
abbrev pub runtime_of : Request → ℕ
runtime_of (client_connect r _ _ _) = r
runtime_of (client_rpc r _ _ _ _ _ _ _ _) = r
runtime_of (worker_validate r _ _) = r
runtime_of (worker_complete r _ _ _ _ _) = r
runtime_of (worker_shutdown r _ _ _) = r
runtime_of (ephemeral_start r _ _ _) = r
runtime_of (ephemeral_shutdown r _ _) = r

abbrev pub req_id_of : Request → ℕ
req_id_of (client_connect _ _ _ i) = i
req_id_of (client_rpc _ _ _ _ _ _ _ _ i) = i
req_id_of (worker_validate _ _ i) = i
req_id_of (worker_complete _ _ _ _ _ i) = i
req_id_of (worker_shutdown _ _ _ i) = i
req_id_of (ephemeral_start _ _ _ i) = i
req_id_of (ephemeral_shutdown _ _ i) = i

abbrev pub enter : Messages → Environment Bytes → Process → Request → Process × Try (Unit {0})
enter m env p (client_connect r cfg n i) = kt_client_connect m env p r cfg n i
enter m env p (client_rpc r c s a an b bn t i) = kt_client_rpc m env p r c s a an b bn t i
enter m env p (worker_validate r w i) = kt_worker_validate m env p r w i
enter m env p (worker_complete r w k b n i) = kt_worker_complete m env p r w k b n i
enter m env p (worker_shutdown r w g i) = kt_worker_shutdown m env p r w g i
enter m env p (ephemeral_start r cfg n i) = kt_ephemeral_start m env p r cfg n i
enter m env p (ephemeral_shutdown r s i) = kt_ephemeral_shutdown m env p r s i

module _ (p : Process) where
  -- The two checks that each of them begins with.
  planned :
      (handle req_id : ℕ) (plan : ℕ → Try (ℕ × Operation))
      → ((rt : ℕ) → Settles (λ (x : ℕ × Operation). x.0 ≡ rt) (plan rt))
      → Settles
          (Planned p handle req_id)
          (request_id req_id >>= (λ _. get_runtime p.handles handle >>= plan))
  planned handle req_id plan rest =
      bind-Settles (λ _. get_runtime p.handles handle >>= plan) (request_id-Settles req_id)
        (λ _ nonzero.
          bind-Settles plan (get_runtime-Settles p.handles handle)
            (λ rt found. keeps rt (plan rt) found nonzero (rest rt)))
    where
      keeps :
          (rt : ℕ) (t : Try (ℕ × Operation))
          → get_runtime p.handles handle ≡ done (ok rt)
          → req_id ≢ 0
          → Settles (λ (x : ℕ × Operation). x.0 ≡ rt) t
          → Settles (Planned p handle req_id) t
      keeps rt t found nonzero (settled (n, op) same) =
          settled (n, op) (nonzero, found ∙ ap (λ (k : ℕ). done (ok k)) (sym same))
      keeps rt t found nonzero (refused e) = refused e

  -- A body that goes on with a worker of the runtime.
  with_worker :
      (handle worker rt : ℕ) (f : ℕ → Try (ℕ × Operation))
      → ((w : ℕ) → Settles (λ (x : ℕ × Operation). x.0 ≡ rt) (f w))
      → Settles
          (λ (x : ℕ × Operation). x.0 ≡ rt)
          (require_owner p.handles worker handle >>= (λ _. get_worker p.handles worker >>= f))
  with_worker handle worker rt f rest =
      bind-Settles (λ _. get_worker p.handles worker >>= f)
        (require_owner-Settles p.handles worker handle)
        (λ _ _. bind-Settles f (get_worker-Settles p.handles worker) (λ w _. rest w))

-- Each of the seven entry points that start a request either rejects the call with an error and changes
-- nothing, or accepts it: then the request id is not 0, the handle resolves to a runtime that is not
-- closed and has no such request outstanding, and exactly that runtime has the request from then on, with
-- a token of its own that is not cancelled and one task that will answer it. None of them panics.
pub request_settled :
    (m : Messages) (env : Environment Bytes) (p : Process) (q : Request)
    → SettledRequest p (runtime_of q) (req_id_of q) (enter m env p q)
unfolding kt_client_connect kt_client_rpc kt_worker_validate kt_worker_complete kt_worker_shutdown
    kt_ephemeral_start kt_ephemeral_shutdown
request_settled m env p (client_connect r cfg n i) = submit_lem p r i (
    planned p r i _ (λ rt. bind-Settles _ (try-Settles (slice cfg n)) (λ bytes _.
      bind-Settles _ (try-Settles (m.decode_client bytes)) (λ config _.
        bind-Settles _ (try-Settles (connection_options env config))
          (λ options _. settled _ refl)))))
request_settled m env p (worker_shutdown r w g i) =
    submit_lem p r i (planned p r i _ (λ rt. with_worker p r w rt _ (λ w. settled _ refl)))
request_settled m env p (client_rpc r c s a an b bn t i) = submit_lem p r i (
    planned p r i _ (λ rt. bind-Settles _ (require_owner-Settles p.handles c r) (λ _ _.
      bind-Settles _ (get_client-Settles p.handles c) (λ cl _.
        bind-Settles _ (try-Settles (from_u32 s)) (λ service _.
          bind-Settles _ (try-Settles (slice a an)) (λ name _.
            bind-Settles _ (utf8-Settles m name) (λ rpc _.
              bind-Settles _ (try-Settles (slice b bn)) (λ request _. settled _ refl))))))))
request_settled m env p (worker_validate r w i) = submit_lem p r i (
    planned p r i _ (λ rt. with_worker p r w rt _ (λ w.
      bind-Settles _ (try-Settles (core_of (p.workers w).entry.state)) (λ core _. settled _ refl))))
request_settled m env p (worker_complete r w k b n i) = submit_lem p r i (
    planned p r i _ (λ rt. with_worker p r w rt _ (λ w.
      bind-Settles _ (try-Settles (core_of (p.workers w).entry.state))
        (λ core _. bind-Settles _ (try-Settles (slice b n)) (λ bytes _. settled _ refl)))))
request_settled m env p (ephemeral_start r cfg n i) = submit_lem p r i (
    planned p r i _ (λ rt. bind-Settles _ (try-Settles (slice cfg n)) (λ bytes _.
      bind-Settles _ (try-Settles (decode_options m.decode_server bytes))
        (λ options _. settled _ refl))))
request_settled m env p (ephemeral_shutdown r s i) = submit_lem p r i (
    planned p r i _ (λ rt.
      bind-Settles _ (require_owner-Settles p.handles s r)
        (λ _ _. bind-Settles _ (get_ephemeral-Settles p.handles s) (λ s _. settled _ refl))))
