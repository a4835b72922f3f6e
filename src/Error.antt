-- ===== src/Error.antt =====
-- src/error.rs: the proxy's error type, its HTTP status codes and its messages, and `ProxyResult`
-- with the monad that `?` stands for. The wrapped errors of other crates are their printed text.
pub mod Status
use Prim.Native.String.{◌++◌}
use zero_trust_proxy.Common.{ℕ, String, ◌≡◌, refl, ◌⊎◌, inl, inr, Option, none, some, arith}
use zero_trust_proxy.Common.Text.{show_ℕ}

pub data ProxyError : Type 0 where
  authentication_failed authorization_denied invalid_session : String → ProxyError
  risk_threshold_exceeded : (score threshold : ℕ) → ProxyError
  mfa_required invalid_mfa_token rate_limit_exceeded : ProxyError
  database_error redis_error http_error io_error : String → ProxyError
  serialization_error jwt_error : String → ProxyError
  internal_error : ProxyError

unfoldable pub status_code : ProxyError → ℕ
status_code (authentication_failed _) = 401
status_code (authorization_denied _) = 403
status_code (invalid_session _) = 401
status_code (risk_threshold_exceeded _ _) = 403
status_code mfa_required = 401
status_code invalid_mfa_token = 401
status_code rate_limit_exceeded = 429
status_code (database_error _) = 500
status_code (redis_error _) = 500
status_code (http_error _) = 502
status_code (io_error _) = 500
status_code (serialization_error _) = 500
status_code (jwt_error _) = 401
status_code internal_error = 500

-- The texts of the `#[error("…")]` attributes.
unfoldable pub message : ProxyError → String
message (authentication_failed s) = "Authentication failed: " ++ s
message (authorization_denied s) = "Authorization denied: " ++ s
message (invalid_session s) = "Invalid session: " ++ s
message (risk_threshold_exceeded score threshold) =
    "Risk threshold exceeded: score " ++ show_ℕ score ++ ", threshold " ++ show_ℕ threshold
message mfa_required = "MFA required"
message invalid_mfa_token = "Invalid MFA token"
message rate_limit_exceeded = "Rate limit exceeded"
message (database_error s) = "Database error: " ++ s
message (redis_error s) = "Redis error: " ++ s
message (http_error s) = "HTTP error: " ++ s
message (io_error s) = "IO error: " ++ s
message (serialization_error s) = "Serialization error: " ++ s
message (jwt_error s) = "JWT error: " ++ s
message internal_error = "Internal server error"

-- `Result<T, E>`.
pub data Result {ℓ} (E : Type 0) (A : Type ℓ) : Type ℓ where
  ok : A → Result E A
  err : E → Result E A

abbrev pub ProxyResult {ℓ} : Type ℓ → Type ℓ
ProxyResult A = Result ProxyError A

-- To split on a result and keep the equation.
pub Result-cases {ℓ} :
    {E : Type 0} {A : Type ℓ} (r : Result E A) → ((a : A) × (r ≡ ok a)) ⊎ ((e : E) × (r ≡ err e))
Result-cases (ok a) = inl (a, refl)
Result-cases (err e) = inr (e, refl)

infixl 5 ◌>>=◌
abbrev pub ◌>>=◌ {ℓ κ} :
    {E : Type 0} {A : Type ℓ} {B : Type κ} → Result E A → (A → Result E B) → Result E B
ok a >>= f = f a
err e >>= f = err e

abbrev pub ok_or {ℓ} : {E : Type 0} {A : Type ℓ} → Option A → E → Result E A
ok_or none e = err e
ok_or (some a) e = ok a

abbrev pub to_option {ℓ} : {E : Type 0} {A : Type ℓ} → Result E A → Option A
to_option (ok a) = some a
to_option (err e) = none

-- `?` on a result of another crate's error type, which `#[from]` converts.
abbrev pub map_err {ℓ} : {D E : Type 0} {A : Type ℓ} → (D → E) → Result D A → Result E A
map_err f (ok a) = ok a
map_err f (err e) = err (f e)

pub map_err-inv {ℓ} :
    {D E : Type 0} {A : Type ℓ} (g : D → E) (r : Result D A) {a : A} → map_err g r ≡ ok a → r ≡ ok a
map_err-inv g (ok a) h = ground arith
map_err-inv g (err e) h = absurd (ground arith)
