-- ===== src/Ephemeral/Examples.antt =====
-- Servers started and reaped: src/ephemeral.rs, core-bridge/rust/kt-bridge.
use temporal_kt_bridge.Base.{◌≡◌, ◌≤◌, refl, Bytes, text, [], some, none, true, false, ◌⊎◌}
use temporal_kt_bridge.Error.{KtResult, ok}
use temporal_kt_bridge.Ephemeral.{
  EphemeralServerOptions, EphemeralServer, success, failure, entry_of, start, decode_options,
  checked, port, ttl,
}
use temporal_kt_bridge.Ephemeral.Lifecycle.{System, started}
use temporal_kt_bridge.Ephemeral.Start.{Unopened, accepted_start}

abbrev server : EphemeralServer
server = record {
  server = 1;
  child_process_id = some 77;
  target = text "127.0.0.1:7233";
  has_test_service = false;
}

-- A shutdown is cancelled, the entry dropped, and its server reaped by the cleanup.
abbrev s0 : System
s0 =
    started (record { server = some 1; pid = 77; target = server.target; has_test_service = false })

abbrev s1 : System
s1 = record s0 { shutting = true }

abbrev s2 : System
s2 = record s1 { shutting = false }

abbrev s3 : System
s3 = record s2 {
  entry = record s2.entry { server = none };
  dropped = true;
  discarded = some 1;
  tasks = 1;
  tokens = 0;
}

abbrev s4 : System
s4 = record s3 { discarded = none; tasks = 0; reaped = 1 }

abbrev options : EphemeralServerOptions
options = record {
  existing_path = [];
  download_version = text "default";
  download_dest_dir = [];
  sdk_name = [];
  sdk_version = [];
  namespace = [];
  ip = [];
  port = 7233;
  ui = false;
  extra_args = [];
  test_server = false;
  log_file = [];
  download_ttl_seconds = some 0;
}

decode : Bytes → KtResult EphemeralServerOptions
decode bytes = ok options

options_decoded : decode_options decode [] ≡ ok options
unfolding decode_options decode checked port
options_decoded = refl

accepted_start_example :
    (options.port ≤ 65_535)
    × (((s : EphemeralServer) × (success server ≡ success s)
          × (start (λ i. none) (λ c out error. success server) options ≡ success (entry_of s)))
        ⊎ ((e : Bytes) × (start (λ i. none) (λ c out error. success server) options ≡ failure e)
            × ((success server ≡ failure e) ⊎ Unopened (λ i. none) options)))
accepted_start_example =
    accepted_start decode [] options (λ i. none) (λ c out error. success server) options_decoded

-- A time to live of 0 keeps a download for ever, and its absence for a day.
kept_for_ever : ttl (some 0) ≡ none
unfolding ttl
kept_for_ever = refl

kept_a_day : ttl none ≡ some 86_400
unfolding ttl
kept_a_day = refl
