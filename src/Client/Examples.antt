-- ===== src/Client/Examples.antt =====
-- A connection with a client certificate: src/client.rs, core-bridge/rust/kt-bridge.
use temporal_kt_bridge.Base.{◌≡◌, ◌≢◌, refl, Bytes, text, decimal, [], ◌∷◌, false}
use temporal_kt_bridge.Base.Int.{pos}
use temporal_kt_bridge.Error.{ok, grpc_status_code}
use temporal_kt_bridge.Abi.{client_connected}
use temporal_kt_bridge.Queue.{error, with_kind, with_payload}
use temporal_kt_bridge.Client.{
  ClientOptions, ConnectionOptions, Environment, parsed, connection_options, default_identity,
  connect_failure, system_info_call_error,
}
use temporal_kt_bridge.Client.Connects.{Connects, connection_options-Connects}

abbrev environment : Environment Bytes
environment = record {
  parse = λ url. parsed url;
  version = text "1";
  pid = 42;
  hostname = text "box";
}

abbrev config : ClientOptions
config = record {
  target_url = text "https://cloud.example:7233";
  namespace = text "ns";
  client_name = [];
  client_version = [];
  identity = [];
  api_key = [];
  tls = false;
  server_root_ca_cert = [];
  client_cert = 4 ∷ [];
  client_private_key = 5 ∷ 6 ∷ [];
  tls_domain = [];
  no_compression = false;
  connect_timeout_millis = 0;
}

has_target : config.target_url ≢ []
unfolding text
has_target = λ e. cc

connection_options-Connects_example :
    (o : ConnectionOptions Bytes) × (connection_options environment config ≡ ok o)
    × Connects config config.target_url o
connection_options-Connects_example =
    connection_options-Connects environment config config.target_url has_target refl

identity_of_process : default_identity 42 (text "box") [] ≡ text "42@box"
unfolding default_identity text decimal
identity_of_process = refl

-- The status of the server goes through, with its details in the payload.
refused_token :
    connect_failure
      (λ f. f.details)
      42
      (system_info_call_error (record {
        status = record { status_code = 16; sources = [] };
        message = text "expired token";
        details = 1 ∷ [];
      }))
    ≡ record {
      req_id = 42;
      kind = client_connected;
      status = pos 16;
      payload = 1 ∷ [];
      aux0 = 0;
      aux1 = 0;
    }
unfolding connect_failure error with_kind with_payload grpc_status_code
refused_token = refl
