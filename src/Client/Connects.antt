-- ===== src/Client/Connects.antt =====
-- The options of a connection against those of the client: src/client.rs, core-bridge/rust/kt-bridge.
use temporal_kt_bridge.Base.{
  is_empty, append-nonempty, ℕ, ◌≡◌, ◌≢◌, refl, arith, Bytes, text, decimal, [], ◌∷◌, Option, none,
  some, true, false, ltb, if◌then◌else◌, ◌↔◌,
}
use temporal_kt_bridge.Error.{ok}
use temporal_kt_bridge.Client.{
  ClientOptions, ClientTlsOptions, TlsOptions, ConnectionOptions, non_empty, default_identity,
  wants_tls, client_tls, tls_options, parsed, Environment, options_for, connection_options,
}

-- The text of an optional field, where an absent one is empty.
abbrev pub or_empty : Option Bytes → Bytes
or_empty none = []
or_empty (some b) = b

-- No option of the client asks for TLS.
abbrev pub IsPlain : ClientOptions → Type 0
IsPlain c =
    (c.tls ≡ false)
    × (c.server_root_ca_cert ≡ [])
    × (c.client_cert ≡ [])
    × (c.client_private_key ≡ [])
    × (c.tls_domain ≡ [])

-- The key material that a connection carries.
pub record Carries (c : ClientOptions) (t : TlsOptions) : Type 0 where
  pub root : or_empty t.server_root_ca_cert ≡ c.server_root_ca_cert
  pub domain : or_empty t.domain ≡ c.tls_domain
  pub anonymous : t.client_tls_options ≡ none → (c.client_cert ≡ []) × (c.client_private_key ≡ [])
  pub mtls :
      (m : ClientTlsOptions)
      → t.client_tls_options ≡ some m
      → (m.client_cert ≡ c.client_cert) × (m.client_private_key ≡ c.client_private_key)

pub record Connects {Url : Type 0} (c : ClientOptions) (url : Url) (o : ConnectionOptions Url)
    : Type 0 where
  pub target : o.target ≡ url
  pub plain : (o.tls_options ≡ none) ↔ IsPlain c
  pub tls : (t : TlsOptions) → o.tls_options ≡ some t → Carries c t
  pub identified : (o.identity ≢ []) × (c.identity ≢ [] → o.identity ≡ c.identity)
  pub named : o.client_name ≢ []
  pub key : or_empty o.api_key ≡ c.api_key
  pub unbounded : (o.connect_timeout ≡ none) ↔ (c.connect_timeout_millis ≡ 0)

empty_iff : (b : Bytes) → (is_empty b ≡ true → b ≡ []) × (is_empty b ≡ false → b ≢ [])
empty_iff [] = (λ _. refl, λ h. cc)
empty_iff (x ∷ b) = (λ h. cc, λ h. λ e. cc)

non_empty_lem : (b : Bytes) → or_empty (non_empty b) ≡ b
unfolding non_empty
non_empty_lem [] = refl
non_empty_lem (x ∷ b) = refl

default_identity-nonempty :
    (pid : ℕ) (host configured : Bytes) → default_identity pid host configured ≢ []
unfolding default_identity text
default_identity-nonempty pid host [] = λ e.
    append-nonempty (decimal pid) (text "@") (if is_empty host then text "unknown-host" else host)
      (λ e. cc) e
default_identity-nonempty pid host (x ∷ c) = λ e. cc

default_identity-kept :
    (pid : ℕ) (host configured : Bytes)
    → configured ≢ []
    → default_identity pid host configured ≡ configured
unfolding default_identity
default_identity-kept pid host [] h = absurd (h refl)
default_identity-kept pid host (x ∷ c) h = refl

tls_options-IsPlain : (c : ClientOptions) → (tls_options c ≡ none) ↔ IsPlain c
unfolding tls_options wants_tls
tls_options-IsPlain c = ground (
  arith,
  empty_iff c.server_root_ca_cert,
  empty_iff c.client_cert,
  empty_iff c.client_private_key,
  empty_iff c.tls_domain,
)

tls_options-Carries : (c : ClientOptions) (t : TlsOptions) → tls_options c ≡ some t → Carries c t
unfolding tls_options client_tls
tls_options-Carries c t h = record {
  root = ground (arith, non_empty_lem c.server_root_ca_cert);
  domain = ground (arith, non_empty_lem c.tls_domain);
  anonymous = ground (arith, empty_iff c.client_cert, empty_iff c.client_private_key);
  mtls = λ m g. ground (arith, empty_iff c.client_cert, empty_iff c.client_private_key);
}

client_name-nonempty : (n : Bytes) → (if is_empty n then text "temporal-kotlin" else n) ≢ []
unfolding text
client_name-nonempty [] = λ e. cc
client_name-nonempty (x ∷ n) = λ e. cc

timeout_iff : (n : ℕ) → ((if ltb 0 n then some n else none) ≡ none) ↔ (n ≡ 0)
timeout_iff n = ground arith

options_for-Connects :
    {Url : Type 0} (env : Environment Url) (c : ClientOptions) (url : Url)
    → Connects c url (options_for env c url)
unfolding options_for
options_for-Connects env c url = record {
  target = refl;
  plain = tls_options-IsPlain c;
  tls = tls_options-Carries c;
  identified = (
    default_identity-nonempty env.pid env.hostname c.identity,
    default_identity-kept env.pid env.hostname c.identity,
  );
  named = client_name-nonempty c.client_name;
  key = non_empty_lem c.api_key;
  unbounded = timeout_iff c.connect_timeout_millis;
}

-- For a target that is not empty and parses, the options are accepted. The connection is then to that
-- URL; it has TLS unless no option asks for it, and carries the whole key material if it has; its
-- identity and its client name are never empty, and the identity is the configured one if there is one;
-- it has the API key; and its connect timeout is absent exactly for 0.
pub connection_options-Connects :
    {Url : Type 0} (env : Environment Url) (c : ClientOptions) (url : Url)
    → c.target_url ≢ []
    → env.parse c.target_url ≡ parsed url
    → (o : ConnectionOptions Url) × (connection_options env c ≡ ok o) × Connects c url o
unfolding connection_options
connection_options-Connects env c url n h = (
  options_for env c url,
  rw (not_empty, h, connection_options) refl,
  options_for-Connects env c url,
)
  where
    not_empty : is_empty c.target_url ≡ false
    not_empty = ground (arith, empty_iff c.target_url)
