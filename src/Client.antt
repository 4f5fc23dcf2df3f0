-- ===== src/Client.antt =====
-- src/client.rs of core-bridge/rust/kt-bridge: what a client connects with, and what a refused
-- connection answers.
pub mod Connects
mod Examples
use temporal_kt_bridge.Base.{
  is_empty, ℕ, Bytes, text, decimal, List, [], ◌∷◌, ◌++◌, Option, none, some, Bool, true, false,
  not, ◌==◌, ◌||◌, ltb, if◌then◌else◌,
}
use temporal_kt_bridge.Error.{
  invalid_argument, KtResult, ok, err, GrpcStatus, grpc_status_code, kt_err_failed,
}
use temporal_kt_bridge.Abi.{client_connected}
use temporal_kt_bridge.Queue.{Pending, error, with_kind, with_payload}

pub record ClientOptions : Type 0 where
  pub target_url : Bytes
  pub namespace : Bytes
  pub client_name : Bytes
  pub client_version : Bytes
  pub identity : Bytes
  pub api_key : Bytes
  pub tls : Bool
  pub server_root_ca_cert : Bytes
  pub client_cert : Bytes
  pub client_private_key : Bytes
  pub tls_domain : Bytes
  pub no_compression : Bool
  pub connect_timeout_millis : ℕ

pub record ClientTlsOptions : Type 0 where
  pub client_cert : Bytes
  pub client_private_key : Bytes

pub record TlsOptions : Type 0 where
  pub server_root_ca_cert : Option Bytes
  pub domain : Option Bytes
  pub client_tls_options : Option ClientTlsOptions

pub data GrpcCompression : Type 0 where
  no_compression gzip : GrpcCompression

-- `connect_timeout` is in milliseconds.
pub record ConnectionOptions (Url : Type 0) : Type 0 where
  pub target : Url
  pub tls_options : Option TlsOptions
  pub client_name : Bytes
  pub client_version : Bytes
  pub identity : Bytes
  pub grpc_compression : GrpcCompression
  pub api_key : Option Bytes
  pub connect_timeout : Option ℕ

unfoldable pub non_empty : Bytes → Option Bytes
non_empty value = if is_empty value then none else some value

-- With the id and the host name of the process.
unfoldable pub default_identity : ℕ → Bytes → Bytes → Bytes
default_identity pid hostname configured =
    let host = if is_empty hostname then text "unknown-host" else hostname in
    if not (is_empty configured) then configured else decimal pid ++ text "@" ++ host

unfoldable pub wants_tls : ClientOptions → Bool
wants_tls c =
    c.tls
    || not (is_empty c.server_root_ca_cert)
    || not (is_empty c.client_cert)
    || not (is_empty c.client_private_key)
    || not (is_empty c.tls_domain)

unfoldable pub client_tls : ClientOptions → Option ClientTlsOptions
client_tls c =
    if not (is_empty c.client_cert) || not (is_empty c.client_private_key)
    then some (record { client_cert = c.client_cert; client_private_key = c.client_private_key })
    else none

unfoldable pub tls_options : ClientOptions → Option TlsOptions
tls_options c =
    if wants_tls c
    then some (record {
      server_root_ca_cert = non_empty c.server_root_ca_cert;
      domain = non_empty c.tls_domain;
      client_tls_options = client_tls c;
    })
    else none

-- What `url::Url::parse` gives: a URL, or the text of its error.
pub data Parsed (Url : Type 0) : Type 0 where
  parsed : Url → Parsed Url
  rejected : Bytes → Parsed Url

-- What the code takes from outside: the URL parser, the version of the package, and the process.
pub record Environment (Url : Type 0) : Type 0 where
  pub parse : Bytes → Parsed Url
  pub version : Bytes
  pub pid : ℕ
  pub hostname : Bytes

module _ {Url : Type 0} (env : Environment Url) where
  unfoldable pub options_for : ClientOptions → Url → ConnectionOptions Url
  options_for c target = record {
    target = target;
    tls_options = tls_options c;
    client_name = if is_empty c.client_name then text "temporal-kotlin" else c.client_name;
    client_version = if is_empty c.client_version then env.version else c.client_version;
    identity = default_identity env.pid env.hostname c.identity;
    grpc_compression = if c.no_compression then no_compression else gzip;
    api_key = non_empty c.api_key;
    connect_timeout =
        if ltb 0 c.connect_timeout_millis then some c.connect_timeout_millis else none;
  }

  unfoldable pub connection_options : ClientOptions → KtResult (ConnectionOptions Url)
  connection_options c =
      if is_empty c.target_url
      then err (invalid_argument (text "target_url is empty"))
      else elim (env.parse c.target_url) [
        | parsed target ↦ ok (options_for c target)
        | rejected e ↦ err (invalid_argument (text "target_url is not a URL: " ++ e))
      ]

-- A tonic status with its message and its details, and `RpcFailure`.
pub record Status : Type 0 where
  pub status : GrpcStatus
  pub message : Bytes
  pub details : Bytes

pub record RpcFailure : Type 0 where
  pub message : Bytes
  pub details : Bytes

-- Another error counts by its text.
pub data ClientConnectError : Type 0 where
  system_info_call_error : Status → ClientConnectError
  other : Bytes → ClientConnectError

-- `encode` is the protobuf encoding of an `RpcFailure`.
unfoldable pub connect_failure : (RpcFailure → Bytes) → ℕ → ClientConnectError → Pending
connect_failure encode req_id (system_info_call_error s) =
    with_payload (with_kind (error req_id (grpc_status_code s.status) s.message) client_connected)
      (encode (record { message = s.message; details = s.details }))
connect_failure encode req_id (other e) = error req_id kt_err_failed e
