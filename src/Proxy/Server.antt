-- ===== src/Proxy/Server.antt =====
-- src/proxy/mod.rs: the server's parts, requests and responses, and what the handlers take from
-- other crates and services.
use zero_trust_proxy.Common.{
  String, ◌==◌, Bool, Option, none, some, List, [], ◌∷◌, if◌then◌else◌, unwrap_or,
}
use zero_trust_proxy.Clock.{Chrono}
use zero_trust_proxy.Config.{Config}
use zero_trust_proxy.World.{Redis, Codec}
use zero_trust_proxy.Audit.{Texts}
use zero_trust_proxy.Auth.Device.{Sha256, DeviceMetadata}
use zero_trust_proxy.Auth.Session.{Session}
use zero_trust_proxy.Auth.Mfa.{Totp}
use zero_trust_proxy.Auth.Password.{Argon2}
use zero_trust_proxy.Proxy.Bodies.{BodyCodec}
use zero_trust_proxy.Auth.Jwt.{Jwt, JwtManager}
use zero_trust_proxy.Auth.Jwt
use zero_trust_proxy.Policy
use zero_trust_proxy.Policy.{F64, Policy, PolicyEngine}
use zero_trust_proxy.Risk
use zero_trust_proxy.Risk.{RiskEngine, RiskScore, low}

-- The crates and services that the handlers call.
pub record Platform (Store F : Type 0) : Type 0 where
  pub redis : Redis Store
  pub chrono : Chrono
  pub session_json : Codec Session
  pub jwt : Jwt
  pub f64 : F64 F
  pub texts : Texts
  pub sha256 : Sha256
  pub argon2 : Argon2
  pub totp : Totp
  pub bodies : BodyCodec

-- A header value that `to_str` reads, or one with other bytes.
pub data HeaderValue : Type 0 where
  visible opaque : String → HeaderValue

abbrev pub Headers : Type 0
Headers = List (String × HeaderValue)

-- `headers().get(name)`; the names are in lower case.
unfoldable pub get_header : String → Headers → Option HeaderValue
get_header name [] = none
get_header name ((k, v) ∷ rest) = if k == name then some v else get_header name rest

abbrev readable : Option HeaderValue → Option String
readable none = none
readable (some (visible s)) = some s
readable (some (opaque s)) = none

-- `.get(name).and_then(|v| v.to_str().ok()).unwrap_or(default)`.
unfoldable pub header_or : String → String → Headers → String
header_or name default headers = unwrap_or (readable (get_header name headers)) default

-- A request; `body` is missing where reading it fails.
pub record Request : Type 0 where
  pub method : String
  pub path : String
  pub path_and_query : Option String
  pub headers : Headers
  pub body : Option String

pub record ProxyServer : Type 0 where
  pub config : Config
  pub jwt_manager : JwtManager
  pub policy_engine : PolicyEngine
  pub risk_engine : RiskEngine

unfoldable pub build_default_policy_engine : Bool → PolicyEngine
build_default_policy_engine default_deny = Policy.add_policy (Policy.new default_deny) (record {
  id = "default-allow-authenticated";
  name = "Allow all authenticated requests (MVP default)";
  description = "Passes through anything that already cleared JWT/session/risk checks.";
  rules =
      record {
        resource_pattern = "*";
        actions = "get" ∷ "post" ∷ "put" ∷ "patch" ∷ "delete" ∷ "head" ∷ "options" ∷ [];
        conditions = [];
        effect = Policy.allow;
      }
      ∷ [];
})

unfoldable pub new : Config → ProxyServer
new config = record {
  config = config;
  jwt_manager = Jwt.new config.auth.jwt_secret config.auth.jwt_expiration_hours;
  policy_engine = build_default_policy_engine config.policy.default_deny;
  risk_engine = Risk.new config.risk.step_up_threshold config.risk.block_threshold;
}

-- The metadata that every handler gives to a device.
abbrev pub no_metadata : DeviceMetadata
no_metadata = record {
  screen_resolution = none;
  timezone = none;
  language = none;
  platform_version = none;
  hardware_concurrency = none;
}

-- The score that stands in where `calculate_risk` fails.
abbrev pub no_risk : RiskScore
no_risk = record { total_score = 0; factors = []; level = low; recommendation = Risk.allow }
