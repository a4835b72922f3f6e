-- ===== src/Examples/Fixtures.antt =====
-- Concrete devices, sessions, tokens, crates and worlds.
use zero_trust_proxy.Common.{
  ℕ, ◌+◌, ◌*◌, ◌&&◌, not, ◌≡◌, String, ◌==◌, eq_iff, Bool, true, false, none, some, [], ◌∷◌, arith,
  if◌then◌else◌, eqb, ltb,
}
use zero_trust_proxy.Common.Int.{ℤ, pos, eqb_ℤ, ltb_ℤ, ◌≤ℤ◌, ◌+ℤ◌, fdiv}
use zero_trust_proxy.Clock.{utc}
use zero_trust_proxy.Config.{default}
use zero_trust_proxy.Error.{ok, err}
use zero_trust_proxy.Db.{Database}
use zero_trust_proxy.World.{Codec, RoundTrips, World}
use zero_trust_proxy.Auth.Device.{Sha256, concat, IsStreaming}
use zero_trust_proxy.Auth.Session.{Session}
use zero_trust_proxy.Auth.Jwt.{Claims, Jwt, JwtLaws}
use zero_trust_proxy.Policy.{F64}
use zero_trust_proxy.Risk.{IpAddr, v4}
use zero_trust_proxy.Proxy.Server.{Platform, Request, visible, ProxyServer, new}
use zero_trust_proxy.Examples.Store.{Pairs, redis}

abbrev pub minute : ℕ
minute = 60000000000

-- The clock shows one minute more at each reading, from noon on the second day of the epoch.
abbrev pub clock : ℕ → ℤ
clock n = pos (129600000000000 + n * 60000000000)

abbrev pub alice_session : ℤ → Session
alice_session last_activity = record {
  id = "s1";
  user_id = "alice";
  device_id = "laptop";
  created_at = pos 129600000000000;
  expires_at = pos 130500000000000;
  last_activity = last_activity;
  ip_address = "10.0.0.1";
  user_agent = "Mozilla/5.0 (X11; Linux x86_64) Firefox/126.0";
  mfa_verified = true;
  risk_score = 45;
}

abbrev pub opened : Session
opened = alice_session (pos 129600000000000)

-- The same session, looked up at the second reading of the clock.
abbrev pub touched : Session
touched = alice_session (pos 129660000000000)

-- The session as the login creates it.
abbrev pub fresh : Session
fresh = record opened { mfa_verified = false; risk_score = 0 }

eq_Bool : Bool → Bool → Bool
eq_Bool a b = if a then b else not b

eq_ℤ : ℤ → ℤ → Bool
eq_ℤ a b = eqb_ℤ a b

same_session : Session → Session → Bool
unfolding eq_Bool eq_ℤ
same_session s t =
    (s.id == t.id && s.user_id == t.user_id && s.device_id == t.device_id)
    && (eq_ℤ s.created_at t.created_at
        && eq_ℤ s.expires_at t.expires_at
        && eq_ℤ s.last_activity t.last_activity)
    && (s.ip_address == t.ip_address && s.user_agent == t.user_agent)
    && (eq_Bool s.mfa_verified t.mfa_verified && eqb s.risk_score t.risk_score)

same_session-eq : (s t : Session) → same_session s t ≡ true → s ≡ t
unfolding same_session
same_session-eq s t h = ground (
  arith,
  eq_iff s.id t.id,
  eq_iff s.user_id t.user_id,
  eq_iff s.device_id t.device_id,
  eq_iff s.ip_address t.ip_address,
  eq_iff s.user_agent t.user_agent,
)

-- Three sessions have a text, and all others fail to print.
unfoldable pub session_json : Codec Session
unfolding same_session
session_json = record {
  to_string = λ s.
      if same_session s opened
      then ok "opened"
      else if same_session s touched
      then ok "touched"
      else if same_session s fresh
      then ok "fresh"
      else err "no text";
  from_str = λ t.
      if t == "opened"
      then ok opened
      else if t == "touched"
      then ok touched
      else if t == "fresh"
      then ok fresh
      else err "no session";
}

pub session_json-RoundTrips : RoundTrips session_json
unfolding session_json
session_json-RoundTrips = record { round_trip = λ s t h. back s t h }
  where
    back :
        (s : Session) (t : String)
        → session_json.to_string s ≡ ok t
        → session_json.from_str t ≡ ok s
    back s t h = ground (
      arith,
      same_session-eq s opened,
      same_session-eq s touched,
      same_session-eq s fresh,
      eq_iff t "opened",
      eq_iff t "touched",
      eq_iff t "fresh",
      eq_iff "opened" "fresh",
      eq_iff "touched" "fresh",
      eq_iff "opened" "touched",
      eq_iff "touched" "opened",
    )

-- The token that the session's login was given at the first reading of the clock.
abbrev pub claims : Claims
claims = record {
  sub = "alice";
  exp = pos 216000;
  iat = pos 129600;
  jti = "u0";
  session_id = "s1";
  device_id = "laptop";
  risk_score = 45;
  mfa_verified = true;
}

same_claims : Claims → Claims → Bool
unfolding eq_Bool eq_ℤ
same_claims s t =
    (s.sub == t.sub && eq_ℤ s.exp t.exp && eq_ℤ s.iat t.iat && s.jti == t.jti)
    && (s.session_id == t.session_id && s.device_id == t.device_id)
    && (eqb s.risk_score t.risk_score && eq_Bool s.mfa_verified t.mfa_verified)

same_claims-eq : (s t : Claims) → same_claims s t ≡ true → s ≡ t
unfolding same_claims
same_claims-eq s t h = ground (
  arith,
  eq_iff s.sub t.sub,
  eq_iff s.jti t.jti,
  eq_iff s.session_id t.session_id,
  eq_iff s.device_id t.device_id,
)

unfoldable pub jwt : Jwt
unfolding same_claims ◌+ℤ◌ fdiv
jwt = record {
  encode = λ secret c. if same_claims c claims then ok "t1" else err "no token";
  decode = λ secret now t.
      if t == "t1" && not (ltb_ℤ (pos 216060) (utc.timestamp now))
      then ok claims
      else err "InvalidToken";
}

pub jwt-JwtLaws : JwtLaws jwt utc
unfolding jwt
jwt-JwtLaws = record {
  decode-encode = λ secret t c now h fresh. accepts secret t c now h fresh;
  decode_fresh = λ secret t c now h. in_time secret t c now h;
}
  where
    accepts :
        (secret t : String) (c : Claims) (now : ℤ)
        → jwt.encode secret c ≡ ok t
        → utc.timestamp now ≤ℤ c.exp +ℤ pos 60
        → jwt.decode secret now t ≡ ok c
    accepts secret t c now h fresh =
        ground (arith, same_claims-eq c claims, eq_iff "t1" t, eq_iff t "t1")

    in_time :
        (secret t : String) (c : Claims) (now : ℤ)
        → jwt.decode secret now t ≡ ok c
        → utc.timestamp now ≤ℤ c.exp +ℤ pos 60
    in_time secret t c now h = ground arith

unfoldable pub sha256 : Sha256
sha256 = concat

pub sha256-IsStreaming : IsStreaming sha256
unfolding sha256
sha256-IsStreaming = record { streams = λ us vs e. e }

-- Floats that are all one number.
abbrev pub f64 : F64 ℕ
f64 = record { parse = λ s. none; zero = 0; gtb = λ a b. ltb b a; ltb = λ a b. ltb a b }

unfoldable pub platform : Platform Pairs ℕ
platform = record {
  redis = redis;
  chrono = utc;
  session_json = session_json;
  jwt = jwt;
  f64 = f64;
  texts = record {
    parse_uuid = λ s. some s;
    parse_ip = λ s. if s == "10.0.0.1" then some (v4 0x0a000001) else none;
    show_ip = λ a. "10.0.0.1";
  };
  sha256 = sha256;
  argon2 = record {
    hash = λ salt password. ok password;
    parse_hash = λ h. ok tt;
    matches = λ password hash. password == hash;
  };
  totp = record {
    new = λ digits step secret. ok tt;
    check_current = λ digits step secret token now. ok (token == secret);
  };
  bodies = record {
    parse_login = λ body. some (record {
      username = "alice";
      password = body;
      device_id = some "laptop";
      mfa_token = some "123456";
    });
    parse_register = λ body. some (record { username = "alice"; email = "a@b.c"; password = body });
    parse_mfa_verify = λ body. some (record { mfa_token = body });
    to_vec = λ payload. ok "{}";
  };
}

-- A platform on which every session has the text of the opened one, and every token validates.
unfoldable pub lenient : Platform Pairs ℕ
lenient = record {
  redis = platform.redis;
  chrono = platform.chrono;
  session_json = record { to_string = λ s. ok "a session"; from_str = λ t. ok opened };
  jwt = record { encode = λ secret c. ok "a token"; decode = λ secret now t. ok claims };
  f64 = platform.f64;
  texts = platform.texts;
  sha256 = platform.sha256;
  argon2 = platform.argon2;
  totp = platform.totp;
  bodies = platform.bodies;
}

abbrev pub database : Database
database = record {
  tables = record { users = []; devices = []; audit_log = [] };
  statements = 0;
  outages = λ n. none;
  generated = λ n. "g";
}

-- Redis holds the session of alice, under its id.
abbrev pub world : World Pairs
world = record {
  redis = ("session:s1", "opened") ∷ [];
  db = database;
  clock = clock;
  readings = 0;
  uuids = λ n. "u0";
  drawn = 0;
}

unfoldable pub server : ProxyServer
server = new (default (λ name. none))

abbrev pub request : Request
request = record {
  method = "GET";
  path = "/api/items";
  path_and_query = some "/api/items?page=2";
  headers = ("authorization", visible "Bearer t1") ∷ [];
  body = some "";
}

abbrev pub remote : IpAddr
remote = v4 0x0a000001

-- A step whose answer is known, with the world that it leaves.
pub answering : {A B : Type 0} (r : A × B) (a : A) → r.0 ≡ a → r ≡ (a, r.1)
answering r a h = λ i. (h i, r.1)
