-- ===== src/Proxy/Bodies.antt =====
-- src/proxy/mod.rs, src/auth/mod.rs and src/auth/mfa.rs: the bodies of requests and of answers.
use zero_trust_proxy.Common.{ℕ, String, Bool, Option}
use zero_trust_proxy.Common.Int.{ℤ}
use zero_trust_proxy.Error.{Result}

pub record LoginBody : Type 0 where
  pub username : String
  pub password : String
  pub device_id : Option String
  pub mfa_token : Option String

pub record RegisterBody : Type 0 where
  pub username : String
  pub email : String
  pub password : String

pub record MfaVerifyBody : Type 0 where
  pub mfa_token : String

-- src/auth/mod.rs
pub record LoginResponse : Type 0 where
  pub access_token : String
  pub token_type : String
  pub expires_in : ℤ
  pub mfa_required : Bool

-- src/auth/mfa.rs
pub record MfaEnrollmentResponse : Type 0 where
  pub secret : String
  pub qr_code_url : String
  pub manual_entry_key : String

-- The values that the server prints as JSON.
pub data Payload : Type 0 where
  logged_in : LoginResponse → Payload
  registered : (id username email : String) → Payload
  enrolled : MfaEnrollmentResponse → Payload
  mfa_verified logged_out : Payload
  revoked : ℕ → Payload
  failed : String → Payload

-- What serde_json does at these types.
pub record BodyCodec : Type 0 where
  pub parse_login : String → Option LoginBody
  pub parse_register : String → Option RegisterBody
  pub parse_mfa_verify : String → Option MfaVerifyBody
  pub to_vec : Payload → Result String String
