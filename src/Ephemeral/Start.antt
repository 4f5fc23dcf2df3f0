-- ===== src/Ephemeral/Start.antt =====
-- The start of a server from its options: src/ephemeral.rs, core-bridge/rust/kt-bridge.
use temporal_kt_bridge.Base.{
  is_empty, ℕ, ◌≤◌, ◌≡◌, refl, arith, Bytes, text, ◌++◌, Option, none, some, Bool, true, false, ltb,
  if◌then◌else◌, ◌⊎◌, inl, inr,
}
use temporal_kt_bridge.Error.{KtResult, ok, err}
use temporal_kt_bridge.Ephemeral.{
  EphemeralServerOptions, port, checked, decode_options, Result, success, failure, Stdio, null,
  appends, redirect, Config, config, EphemeralServer, entry_of, launched, start,
}

-- The port that a server is started with: none for 0.
abbrev pub tcp_port : ℕ → Option ℕ
tcp_port n = if ltb 0 n then some n else none

-- The child appends to the log file that is named, or its output is discarded.
abbrev pub output : EphemeralServerOptions → Stdio
output o = if is_empty o.log_file then null else appends o.log_file

-- The log file is named and could not be opened.
abbrev pub Unopened : (Bool → Option Bytes) → EphemeralServerOptions → Type 0
Unopened opens o = (is_empty o.log_file ≡ false) × ((i : Bool) × (e : Bytes) × (opens i ≡ some e))

decoded_port :
    (decode : Bytes → KtResult EphemeralServerOptions) (bytes : Bytes) (o : EphemeralServerOptions)
    → decode_options decode bytes ≡ ok o
    → (o.port ≤ 65_535) × (port o ≡ ok (tcp_port o.port))
unfolding decode_options port checked
decoded_port decode bytes o h = by_decoding (decode bytes) h
  where
    by_decoding :
        (r : KtResult EphemeralServerOptions)
        → (elim r [ ok o ↦ checked o (port o) | err e ↦ err e ]) ≡ ok o
        → (o.port ≤ 65_535) × (port o ≡ ok (tcp_port o.port))
    by_decoding (ok o') e = ground arith
    by_decoding (err x) e = ground arith

redirect_cases :
    (opens : Bool → Option Bytes) (o : EphemeralServerOptions)
    → (redirect opens o ≡ success (output o, output o))
      ⊎ ((e : Bytes) × (redirect opens o ≡ failure e) × Unopened opens o)
unfolding redirect
redirect_cases opens o = by_log (is_empty o.log_file) refl (opens false) refl (opens true) refl
  where
    by_log :
        (b : Bool)
        → is_empty o.log_file ≡ b
        → (x : Option Bytes) → opens false ≡ x
        → (y : Option Bytes) → opens true ≡ y
        → (redirect opens o ≡ success (output o, output o))
          ⊎ ((e : Bytes) × (redirect opens o ≡ failure e) × Unopened opens o)
    by_log true b x hx y hy = inl (rw b refl)
    by_log false b none hx none hy = inl (rw (b, hx, hy) refl)
    by_log false b none hx (some e) hy = inr (
      text "could not open " ++ o.log_file ++ text ": " ++ e,
      rw (b, hx, hy) refl,
      (b, (true, e, hy)),
    )
    by_log false b (some e) hx y hy = inr (
      text "could not open " ++ o.log_file ++ text ": " ++ e,
      rw (b, hx) refl,
      (b, (false, e, hx)),
    )

-- Options that `decode_options` accepts have a port below 65536, and a start with them either gives the
-- entry of the server that Core launched, on that port (0 leaves it to Core) and with its output in the
-- log file or discarded; or fails because Core did, with its text, or since a log file could not be opened.
pub accepted_start :
    (decode : Bytes → KtResult EphemeralServerOptions) (bytes : Bytes) (o : EphemeralServerOptions)
    (opens : Bool → Option Bytes) (launch : Config → Stdio → Stdio → Result EphemeralServer)
    → decode_options decode bytes ≡ ok o
    → (o.port ≤ 65_535)
      × (((s : EphemeralServer) × (launch (config o (tcp_port o.port)) (output o) (output o)
              ≡ success s)
            × (start opens launch o ≡ success (entry_of s)))
          ⊎ ((e : Bytes) × (start opens launch o ≡ failure e)
              × ((launch (config o (tcp_port o.port)) (output o) (output o) ≡ failure e)
                  ⊎ Unopened opens o)))
unfolding start launched
accepted_start decode bytes o opens launch h =
    let (below, at) = decoded_port decode bytes o h in
    let c = config o (tcp_port o.port) in
    (
      below,
      elim (redirect_cases opens o) [
        | inl opened ↦ by_core (launch c (output o) (output o)) refl at opened
        | inr (e, refused, why) ↦ inr (e, rw (at, refused, start, launched) refl, inr why)
      ],
    )
  where
    by_core :
        (r : Result EphemeralServer)
        → launch (config o (tcp_port o.port)) (output o) (output o) ≡ r
        → port o ≡ ok (tcp_port o.port)
        → redirect opens o ≡ success (output o, output o)
        → ((s : EphemeralServer) × (launch (config o (tcp_port o.port)) (output o) (output o)
              ≡ success s)
            × (start opens launch o ≡ success (entry_of s)))
          ⊎ ((e : Bytes) × (start opens launch o ≡ failure e)
              × ((launch (config o (tcp_port o.port)) (output o) (output o) ≡ failure e)
                  ⊎ Unopened opens o))
    by_core (success s) r at opened = inl (s, r, rw (at, opened, r, start, launched) refl)
    by_core (failure e) r at opened = inr (e, rw (at, opened, r, start, launched) refl, inl r)
