-- ===== src/Proxy/Logout/Final.antt =====
-- src/proxy/mod.rs: a token does not outlive the logout of its session.
use zero_trust_proxy.Common.{ℕ, ◌≤◌, ◌≡◌, ◌≢◌, subst, String, Option, arith, inl, inr}
use zero_trust_proxy.Error.{ok}
use zero_trust_proxy.World.{World, RoundTrips, utc_now}
use zero_trust_proxy.World.Laws.{RedisLaws}
use zero_trust_proxy.Auth.Session.{delete_session}
use zero_trust_proxy.Auth.Session.Serial.{WellKeyed, Elapses, Reach, elapsed, here, next}
use zero_trust_proxy.Auth.Session.Serial.Final.{get_session-Reach}
use zero_trust_proxy.Auth.Jwt.{Claims, extract_token_from_header, validate_token}
use zero_trust_proxy.Risk.{IpAddr}
use zero_trust_proxy.Proxy.Server.{Platform, Request, ProxyServer, header_or}
use zero_trust_proxy.Proxy.Gate.{authorize}
use zero_trust_proxy.Proxy.Logout.{handle_logout}

module _ {Store F : Type 0} (p : Platform Store F) (server : ProxyServer)
    (value : Store → String → Option String) (laws : RedisLaws p.redis value)
    (codec : RoundTrips p.session_json) where
  abbrev validated : String → World Store → World Store
  validated token w = (validate_token p.jwt p.chrono server.jwt_manager token w).1

  -- Validating a token reads the clock, and nothing else changes.
  validate_token-Elapses :
      (token : String) (w : World Store)
      → Elapses p.redis value p.chrono p.session_json w (validated token w)
  unfolding validate_token utc_now
  validate_token-Elapses token w = record {
    lapses = λ j. inl (ground arith);
    same_uuids = ground arith;
    drawn_le = ground arith;
  }

  logout-delete_session :
      (req : Request) (token : String) (claims : Claims) (w w1 : World Store)
      → extract_token_from_header (header_or "authorization" "" req.headers) ≡ ok token
      → (validate_token p.jwt p.chrono server.jwt_manager token w).0 ≡ ok claims
      → handle_logout p server req w ≡ (ok tt, w1)
      → delete_session p.redis p.chrono p.session_json claims.session_id (validated token w)
        ≡ (ok tt, w1)
  unfolding handle_logout
  logout-delete_session req token claims w w1 header valid out = ground arith

  -- After a logout that is answered, and after any sequence of logins, lookups, verifications,
  -- logouts, revocations and expiries that follows it, each with the store to itself, the gate
  -- lets no request through whose token validates to claims of the session that was logged out, if
  -- at the logout every session stands under its own id and that id is not drawn again.
  pub authorize-handle_logout :
      (req : Request) (token : String) (claims : Claims) (w w1 w2 : World Store)
      → WellKeyed value p.session_json w.redis
      → ((n : ℕ) → w.drawn ≤ n → w.uuids n ≢ claims.session_id)
      → extract_token_from_header (header_or "authorization" "" req.headers) ≡ ok token
      → (validate_token p.jwt p.chrono server.jwt_manager token w).0 ≡ ok claims
      → handle_logout p server req w ≡ (ok tt, w1)
      → Reach p.redis value p.chrono p.session_json w1 w2
      → (method path : String) (remote : IpAddr) (req' : Request) (token' : String)
        (claims' : Claims)
      → extract_token_from_header (header_or "authorization" "" req'.headers) ≡ ok token'
      → (validate_token p.jwt p.chrono server.jwt_manager token' w2).0 ≡ ok claims'
      → claims'.session_id ≡ claims.session_id
      → (authorize p server method path remote req' w2).0 ≢ ok tt
  unfolding authorize
  authorize-handle_logout req token claims w w1 w2 keyed undrawn header valid out after method path
        remote req' token' claims' header' valid' same h =
      let e = validate_token-Elapses token w in
      let stays = e.drawn_le in
      let never : (n : ℕ)
          → (validated token w).drawn ≤ n
          → (validated token w).uuids n ≢ claims.session_id =
        λ n l q. undrawn n (omega arith) (subst (λ u. u n ≡ claims.session_id) e.same_uuids q) in
      let refused =
        get_session-Reach p.redis value laws p.chrono p.session_json codec claims.session_id w
          (validated token w) w1 (validated token' w2) keyed (next here (elapsed e)) never
          (logout-delete_session req token claims w w1 header valid out)
          (next after (elapsed (validate_token-Elapses token' w2))) in
      elim refused [ inl q ↦ ground arith | inr (t, q) ↦ ground arith ]
