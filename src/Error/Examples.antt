-- ===== src/Error/Examples.antt =====
-- Runs of the errors of src/error.rs and the containment of src/panic.rs, core-bridge/rust/kt-bridge.
use temporal_kt_bridge.Base.{◌≡◌, text, [], ◌∷◌, true, false}
use temporal_kt_bridge.Base.Int.{pos}
use temporal_kt_bridge.Error.{Exec, panics, KtResult, static_str, grpc_status_code}
use temporal_kt_bridge.Error.Codes.{grpc_status_code_lem}

-- A transport timeout two errors down the chain.
grpc_status_code_lem_example :
    grpc_status_code (record { status_code = 1; sources = false ∷ true ∷ [] }) ≡ pos 4
grpc_status_code_lem_example =
    grpc_status_code_lem (record { status_code = 1; sources = false ∷ true ∷ [] })

abbrev body : Exec (KtResult (Unit {0}))
body = panics (static_str (text "boom"))
