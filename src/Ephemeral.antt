-- ===== src/Ephemeral.antt =====
-- src/ephemeral.rs of core-bridge/rust/kt-bridge: the options of a dev or test server, its start, and the
-- operations of its entry. Core's server is a number, which says which one it is.
pub mod Lifecycle
pub mod Reaped
pub mod Start
mod Examples
use temporal_kt_bridge.Base.{
  is_empty, ℕ, ◌-◌, ◌*◌, ◌+◌, Bytes, text, eqb, List, [], ◌∷◌, ◌++◌, Option, none, some, Bool, true,
  false, not, ◌==◌, ◌||◌, ltb, leb, if◌then◌else◌,
}
use temporal_kt_bridge.Error.{invalid_argument, KtResult, ok, err, to_string}

pub record EphemeralServerOptions : Type 0 where
  pub existing_path : Bytes
  pub download_version : Bytes
  pub download_dest_dir : Bytes
  pub sdk_name : Bytes
  pub sdk_version : Bytes
  pub namespace : Bytes
  pub ip : Bytes
  pub port : ℕ
  pub ui : Bool
  pub extra_args : List Bytes
  pub test_server : Bool
  pub log_file : Bytes
  pub download_ttl_seconds : Option ℕ

pub record EphemeralServerInfo : Type 0 where
  pub target : Bytes
  pub pid : ℕ
  pub has_test_service : Bool

pub data ExeVersion : Type 0 where
  sdk_default : Bytes → Bytes → ExeVersion
  fixed : Bytes → ExeVersion

-- The time to live is in seconds.
pub data Exe : Type 0 where
  existing_path : Bytes → Exe
  cached_download : ExeVersion → Option Bytes → Option ℕ → Exe

abbrev pub or_default : Bytes → Bytes → Bytes
or_default value default = if is_empty value then default else value

unfoldable pub exe_version : EphemeralServerOptions → ExeVersion
exe_version o =
    if is_empty o.download_version || eqb o.download_version (text "default")
    then sdk_default (or_default o.sdk_name (text "sdk-kotlin"))
        (or_default o.sdk_version (text "0.1.0"))
    else fixed o.download_version

-- `or` of a day, and `filter` of what is above 0.
unfoldable pub ttl : Option ℕ → Option ℕ
ttl none = some (60 * 60 * 24)
ttl (some seconds) = if ltb 0 seconds then some seconds else none

unfoldable pub exe : EphemeralServerOptions → Exe
exe o =
    if not (is_empty o.existing_path)
    then existing_path o.existing_path
    else cached_download (exe_version o)
        (if is_empty o.download_dest_dir then none else some o.download_dest_dir)
        (ttl o.download_ttl_seconds)

unfoldable pub port : EphemeralServerOptions → KtResult (Option ℕ)
port o =
    if leb o.port 65_535
    then ok (if ltb 0 o.port then some o.port else none)
    else err (invalid_argument (text "port must be between 0 and 65535"))

unfoldable pub checked :
    EphemeralServerOptions → KtResult (Option ℕ) → KtResult EphemeralServerOptions
checked o (ok _) = ok o
checked o (err e) = err e

-- `decode` is the protobuf decoding.
unfoldable pub decode_options :
    (Bytes → KtResult EphemeralServerOptions) → Bytes → KtResult EphemeralServerOptions
decode_options decode bytes = elim (decode bytes) [ ok o ↦ checked o (port o) | err e ↦ err e ]

-- A result with the text of an error.
pub data Result {ℓ} (A : Type ℓ) : Type ℓ where
  success : A → Result A
  failure : Bytes → Result A

-- Where the output of the child goes.
pub data Stdio : Type 0 where
  null : Stdio
  appends : Bytes → Stdio

-- `opens` gives the error of opening the log file for the first and for the second time.
unfoldable pub redirect : (Bool → Option Bytes) → EphemeralServerOptions → Result (Stdio × Stdio)
redirect opens o = if is_empty o.log_file then success (null, null) else elim (opens false) [
  | some e ↦ failure (text "could not open " ++ o.log_file ++ text ": " ++ e)
  | none ↦ elim (opens true) [
    | some e ↦ failure (text "could not open " ++ o.log_file ++ text ": " ++ e)
    | none ↦ success (appends o.log_file, appends o.log_file)
  ]
]

-- `TestServerConfig` and `TemporalDevServerConfig`.
pub data Config : Type 0 where
  test_config : Exe → Option ℕ → List Bytes → Config
  dev_config : Exe → Bytes → Bytes → Option ℕ → Bool → List Bytes → Config

unfoldable pub config : EphemeralServerOptions → Option ℕ → Config
config o p =
    if o.test_server
    then test_config (exe o) p o.extra_args
    else dev_config (exe o) (or_default o.namespace (text "default"))
        (or_default o.ip (text "127.0.0.1")) p o.ui o.extra_args

-- A server that Core has started.
pub record EphemeralServer : Type 0 where
  pub server : ℕ
  pub child_process_id : Option ℕ
  pub target : Bytes
  pub has_test_service : Bool

-- `server` is what the mutex guards; the reservation of the task tracker goes with it.
pub record EphemeralEntry : Type 0 where
  pub server : Option ℕ
  pub pid : ℕ
  pub target : Bytes
  pub has_test_service : Bool

abbrev pub or_zero : Option ℕ → ℕ
or_zero none = 0
or_zero (some n) = n

unfoldable pub entry_of : EphemeralServer → EphemeralEntry
entry_of s = record {
  server = some s.server;
  pid = or_zero s.child_process_id;
  target = s.target;
  has_test_service = s.has_test_service;
}

-- `launch` is the start of Core's server.
unfoldable pub launched :
    (Config → Stdio → Stdio → Result EphemeralServer)
    → Config
    → Result (Stdio × Stdio)
    → Result EphemeralEntry
launched launch c (failure e) = failure e
launched launch c (success (out, error)) = elim (launch c out error) [
  | success s ↦ success (entry_of s)
  | failure e ↦ failure e
]

unfoldable pub start :
    (Bool → Option Bytes)
    → (Config → Stdio → Stdio → Result EphemeralServer)
    → EphemeralServerOptions
    → Result EphemeralEntry
start opens launch o = elim (port o) [
  | err e ↦ failure (to_string e)
  | ok p ↦ launched launch (config o p) (redirect opens o)
]

unfoldable pub info : EphemeralEntry → EphemeralServerInfo
info e = record { target = e.target; pid = e.pid; has_test_service = e.has_test_service }

-- `shutdown`, with what Core's shutdown of a server comes to.
unfoldable pub shutdown : Result (Unit {0}) → EphemeralEntry → EphemeralEntry × Result (Unit {0})
shutdown result e =
    (record e { server = none }, elim e.server [ some _ ↦ result | none ↦ success tt ])
