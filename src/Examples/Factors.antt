-- ===== src/Examples/Factors.antt =====
-- Enrolment and verification of a second factor at concrete requests.
use zero_trust_proxy.Common.{ℕ, ◌<◌, ◌≡◌, refl, some, []}
use zero_trust_proxy.Common.Text.{starts_with}
use zero_trust_proxy.Error.{ok}
use zero_trust_proxy.Db.{find_row, find_user_by_id, set_user_mfa_secret}
use zero_trust_proxy.World.{utc_now}
use zero_trust_proxy.World.Laws.{RedisLaws}
use zero_trust_proxy.Common.Int.{◌-ℤ◌, tdiv}
use zero_trust_proxy.Auth.Mfa.{char_at, draw_chars, generate_secret, generate_qr_url, verify_token}
use zero_trust_proxy.Auth.Session.{
  get_session, found_session, is_expired, update_session, update_activity,
}
use zero_trust_proxy.Auth.Jwt.{extract_token_from_header, validate_token}
use zero_trust_proxy.Proxy.Bodies.{MfaEnrollmentResponse}
use zero_trust_proxy.Proxy.Server.{Request, header_or, get_header}
use zero_trust_proxy.Proxy.RateLimit.{check_rate_limit}
use zero_trust_proxy.Proxy.MfaSetup.{
  bearer_claims, subject_id, subject_row, issue_secret, enroll_user, handle_mfa_enroll,
  upgrade_session, accept_code, verify_subject, handle_mfa_verify,
}
use zero_trust_proxy.Proxy.MfaSetup.Enrolment.{
  Enrolled, handle_mfa_enroll_blind, handle_mfa_enroll-Enrolled,
}
use zero_trust_proxy.Proxy.MfaSetup.Upgrade.{Upgraded, handle_mfa_verify-Upgraded}
use zero_trust_proxy.Examples.Store.{redis, lookup, redis-RedisLaws}
use zero_trust_proxy.Examples.Fixtures.{answering, platform, lenient, server, request, remote}
use zero_trust_proxy.Examples.Login.{login_world}

abbrev zeroes : ℕ → ℕ → ℕ
zeroes i n = 0

zeroes-lt : (i n : ℕ) → 0 < n → zeroes i n < n
zeroes-lt i n h = h

-- A revocation has emptied Redis.
handle_mfa_enroll_blind_example :
    ((handle_mfa_enroll lenient server zeroes request (record login_world { redis = [] })).0
      ≡ (handle_mfa_enroll lenient server zeroes request login_world).0)
    × ((handle_mfa_enroll lenient server zeroes request (record login_world { redis = [] })).1.db
        ≡ (handle_mfa_enroll lenient server zeroes request login_world).1.db)
handle_mfa_enroll_blind_example =
    handle_mfa_enroll_blind lenient server zeroes request login_world []

abbrev reply : MfaEnrollmentResponse
reply = record {
  secret = "AAAAAAAAAAAAAAAAAAAAAAAAAAAAAAAA";
  qr_code_url =
      "otpauth://totp/zero-trust-proxy:a@b.c?secret=AAAAAAAAAAAAAAAAAAAAAAAAAAAAAAAA&issuer=zero-trust-proxy";
  manual_entry_key = "AAAAAAAAAAAAAAAAAAAAAAAAAAAAAAAA";
}

enrolled : (handle_mfa_enroll lenient server zeroes request login_world).0 ≡ ok reply
unfolding handle_mfa_enroll bearer_claims subject_id subject_row issue_secret enroll_user lenient
    platform extract_token_from_header header_or get_header starts_with validate_token utc_now
    find_user_by_id find_row set_user_mfa_secret generate_secret draw_chars char_at generate_qr_url
enrolled = refl

handle_mfa_enroll-Enrolled_example :
    Enrolled lenient server zeroes request reply login_world
      (handle_mfa_enroll lenient server zeroes request login_world).1
handle_mfa_enroll-Enrolled_example =
    handle_mfa_enroll-Enrolled lenient server zeroes request reply login_world
      (handle_mfa_enroll lenient server zeroes request login_world).1 zeroes-lt
      (answering (handle_mfa_enroll lenient server zeroes request login_world) (ok reply) enrolled)

abbrev code_request : Request
code_request = record request { method = "POST"; body = some "123456" }

upgraded : (handle_mfa_verify lenient server remote code_request login_world).0 ≡ ok tt
unfolding handle_mfa_verify check_rate_limit bearer_claims subject_id subject_row verify_subject
    accept_code upgrade_session lenient platform redis lookup extract_token_from_header header_or
    get_header starts_with validate_token utc_now find_user_by_id find_row verify_token get_session
    found_session is_expired update_session update_activity ◌-ℤ◌ tdiv
upgraded = refl

lenient-RedisLaws : RedisLaws lenient.redis lookup
unfolding lenient platform
lenient-RedisLaws = redis-RedisLaws

handle_mfa_verify-Upgraded_example :
    Upgraded lenient server lookup lenient-RedisLaws remote code_request login_world
      (handle_mfa_verify lenient server remote code_request login_world).1
handle_mfa_verify-Upgraded_example =
    handle_mfa_verify-Upgraded lenient server lookup lenient-RedisLaws remote code_request
      login_world (handle_mfa_verify lenient server remote code_request login_world).1
      (answering (handle_mfa_verify lenient server remote code_request login_world) (ok tt)
        upgraded)
