-- ===== src/Error/Contain.antt =====
-- The containment of errors and panics in src/panic.rs of core-bridge/rust/kt-bridge.
use temporal_kt_bridge.Base.{◌≡◌, ◌↔◌, refl, arith, Bytes}
use temporal_kt_bridge.Error.{KtResult, Exec, done, panics, ok, err, kt_ok, guard}

-- An entry point reports success exactly when its body returned with no error; then it leaves the
-- thread's last error as it was.
pub guard_ok :
    (last : Bytes) (body : Exec (KtResult (Unit {0})))
    → (((guard last body).0 ≡ kt_ok) ↔ (body ≡ done (ok tt)))
      × ((guard last body).0 ≡ kt_ok → (guard last body).1 ≡ last)
unfolding guard
guard_ok last (done (ok tt)) = ((λ _. refl, λ _. refl), λ _. refl)
guard_ok last (done (err e)) = ground arith
guard_ok last (panics p) = ground arith
