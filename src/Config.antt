-- ===== src/Config.antt =====
-- src/config.rs: the configuration and its defaults. `std::env::var` is a function argument, and
-- so are the file system and the TOML parser.
use zero_trust_proxy.Common.{
  ℕ, String, ◌==◌, Bool, true, false, not, ◌&&◌, ◌||◌, Option, none, some, List, [], ◌∷◌, unwrap_or,
  if◌then◌else◌,
}
use zero_trust_proxy.Common.Text.{to_lowercase}
use zero_trust_proxy.Common.Int.{ℤ, pos}
use zero_trust_proxy.Error.{Result, ok, err}

pub record ServerConfig : Type 0 where
  pub host : String
  pub port : ℕ
  pub tls_cert : Option String
  pub tls_key : Option String
  pub enable_tls : Bool

pub record DatabaseConfig : Type 0 where
  pub url : String
  pub max_connections : ℕ

pub record RedisConfig : Type 0 where
  pub url : String

pub record AuthConfig : Type 0 where
  pub session_duration_minutes : ℤ
  pub require_mfa : Bool
  pub allowed_mfa_methods : List String
  pub jwt_secret : String
  pub jwt_expiration_hours : ℤ

pub data PasskeyStoreKind : Type 0 where
  postgres memory : PasskeyStoreKind

pub record WebauthnConfig : Type 0 where
  pub rp_id : String
  pub rp_origin : String
  pub rp_name : String
  pub enabled : Bool
  pub passkey_store : PasskeyStoreKind

pub record RiskConfig : Type 0 where
  pub max_risk_score : ℕ
  pub step_up_threshold : ℕ
  pub block_threshold : ℕ
  pub enable_geolocation : Bool
  pub enable_threat_intel : Bool

pub record PolicyConfig : Type 0 where
  pub policy_file : String
  pub enable_opa : Bool
  pub default_deny : Bool

pub record UpstreamConfig : Type 0 where
  pub default_backend : String
  pub timeout_seconds : ℕ
  pub enable_mtls : Bool

pub record Config : Type 0 where
  pub server : ServerConfig
  pub database : DatabaseConfig
  pub redis : RedisConfig
  pub auth : AuthConfig
  pub webauthn : WebauthnConfig
  pub risk : RiskConfig
  pub policy : PolicyConfig
  pub upstream : UpstreamConfig

abbrev pub Env : Type 0
Env = String → Option String

abbrev is_enabled : Option String → Bool
is_enabled none = true
is_enabled (some v) = not (v == "0") && not (to_lowercase v == "false")

abbrev store_kind : Option String → PasskeyStoreKind
store_kind none = postgres
store_kind (some v) =
    let name = to_lowercase v in
    if name == "memory" || name == "in-memory" || name == "inmemory" then memory else postgres

unfoldable pub default_webauthn : Env → WebauthnConfig
default_webauthn env = record {
  rp_id = unwrap_or (env "WEBAUTHN_RP_ID") "localhost";
  rp_origin = unwrap_or (env "WEBAUTHN_RP_ORIGIN") "http://localhost:8443";
  rp_name = unwrap_or (env "WEBAUTHN_RP_NAME") "Zero-Trust Proxy";
  enabled = is_enabled (env "WEBAUTHN_ENABLED");
  passkey_store = store_kind (env "WEBAUTHN_PASSKEY_STORE");
}

-- `Config::default`.
unfoldable pub default : Env → Config
default env = record {
  server = record {
    host = "0.0.0.0";
    port = 8443;
    tls_cert = none;
    tls_key = none;
    enable_tls = false;
  };
  database = record {
    url = unwrap_or (env "DATABASE_URL") "postgresql://localhost/ztp";
    max_connections = 20;
  };
  redis = record { url = unwrap_or (env "REDIS_URL") "redis://localhost:6379" };
  auth = record {
    session_duration_minutes = pos 15;
    require_mfa = true;
    allowed_mfa_methods = "totp" ∷ [];
    jwt_secret = unwrap_or (env "JWT_SECRET") "change-me-in-production";
    jwt_expiration_hours = pos 24;
  };
  webauthn = default_webauthn env;
  risk = record {
    max_risk_score = 100;
    step_up_threshold = 60;
    block_threshold = 85;
    enable_geolocation = false;
    enable_threat_intel = false;
  };
  policy = record { policy_file = "config/policy.rego"; enable_opa = false; default_deny = true };
  upstream = record {
    default_backend = "http://localhost:8080";
    timeout_seconds = 30;
    enable_mtls = false;
  };
}

-- A file: it is not there, it cannot be read, or it has a text.
pub data File : Type 0 where
  missing : File
  unreadable contents : String → File

-- `Config::load`; an `anyhow` error is its text.
unfoldable pub load : Env → (String → File) → (String → Result String Config) → Result String Config
load env file from_str = elim (file (unwrap_or (env "CONFIG_PATH") "config/config.toml")) [
  | missing ↦ ok (default env)
  | unreadable e ↦ err e
  | contents text ↦ from_str text
]
