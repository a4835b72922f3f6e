-- ===== src/Auth/Session.antt =====
-- src/auth/session.rs: sessions in Redis, under the key "session:" followed by their id.
pub mod Lookup
pub mod Tables
pub mod Lifecycle
pub mod Serial
pub mod Race
pub mod Revocation
use Prim.Native.String.{◌++◌ as ◌<>◌}
use zero_trust_proxy.Common.{
  ℕ, suc, ◌+◌, ◌-◌, ◌*◌, ◌%◌, ◌^◌, ◌≡◌, String, ◌==◌, Bool, true, false, not, ◌&&◌, Option, none,
  some, List, [], ◌∷◌, ◌++◌, length, if◌then◌else◌,
}
use zero_trust_proxy.Common.Int.{ℤ, pos, negsuc, ltb_ℤ, ◌+ℤ◌, ◌-ℤ◌, scale, pos_part}
use zero_trust_proxy.Clock.{DateTime, Chrono}
use zero_trust_proxy.Error.{
  ProxyError, invalid_session, serialization_error, Result, ok, err, ProxyResult, map_err,
}
use zero_trust_proxy.World.{
  Redis, Codec, World, M, pure, fail, bind, ◌>>=◌, ◌>>◌, lift, attempt, utc_now, new_uuid, command,
}

pub record Session : Type 0 where
  pub id : String
  pub user_id : String
  pub device_id : String
  pub created_at : DateTime
  pub expires_at : DateTime
  pub last_activity : DateTime
  pub ip_address : String
  pub user_agent : String
  pub mfa_verified : Bool
  pub risk_score : ℕ

-- `as u64` on an `i64`.
unfoldable pub to_u64 : ℤ → ℕ
to_u64 (pos n) = n % 2 ^ 64
to_u64 (negsuc n) = 2 ^ 64 - 1 - n % 2 ^ 64

abbrev pub key_of : String → String
key_of session_id = "session:" <> session_id

-- `is_expired` and `update_activity`, at a reading of the clock.
unfoldable pub is_expired : Session → DateTime → Bool
is_expired session now = ltb_ℤ session.expires_at now

unfoldable pub update_activity : Session → DateTime → Session
update_activity session now = record session { last_activity = now }

module _ {Store : Type 0} (redis : Redis Store) (chrono : Chrono) (json : Codec Session) where
  -- `Session::new`.
  unfoldable pub new : (user_id device_id ip_address user_agent : String) → ℤ → M Store Session
  new user_id device_id ip_address user_agent duration_minutes = do
    now ← utc_now
    id ← new_uuid
    pure (record {
      id = id;
      user_id = user_id;
      device_id = device_id;
      created_at = now;
      expires_at = now +ℤ chrono.minutes duration_minutes;
      last_activity = now;
      ip_address = ip_address;
      user_agent = user_agent;
      mfa_verified = false;
      risk_score = 0;
    })

  abbrev pub serialized : Session → M Store String
  serialized session = lift (map_err serialization_error (json.to_string session))

  unfoldable pub create_session :
      (session_duration_minutes : ℤ) (user_id device_id ip_address user_agent : String)
      → M Store Session
  create_session session_duration_minutes user_id device_id ip_address user_agent = do
    session ← new user_id device_id ip_address user_agent session_duration_minutes
    text ← serialized session
    command (redis.set_ex (key_of session.id) text (to_u64 (scale 60 session_duration_minutes)))
    pure session

  unfoldable pub update_session : Session → M Store (Unit {0})
  update_session session = do
    text ← serialized session
    now ← utc_now
    let ttl = chrono.num_seconds (session.expires_at -ℤ now)
    if ltb_ℤ (pos 0) ttl
        then command (redis.set_ex (key_of session.id) text (to_u64 ttl))
        else pure tt

  unfoldable pub delete_session : String → M Store (Unit {0})
  delete_session session_id = command (redis.del (key_of session_id))

  -- The two ways on from a session that is stored.
  abbrev expire_session : String → M Store Session
  expire_session session_id = do delete_session session_id; fail (invalid_session "Session expired")

  abbrev touch_session : Session → M Store Session
  touch_session session = do
    now ← utc_now
    let active = update_activity session now
    update_session active
    pure active

  unfoldable pub found_session : String → Option String → M Store Session
  found_session session_id none = fail (invalid_session "Session not found")
  found_session session_id (some text) = do
    session ← lift (map_err serialization_error (json.from_str text))
    now ← utc_now
    if is_expired session now then expire_session session_id else touch_session session

  unfoldable pub get_session : String → M Store Session
  get_session session_id = do
    text ← command (redis.get (key_of session_id))
    found_session session_id text

  -- The keys that the SCAN iterator yields.
  unfoldable pub scan_session_keys : M Store (List String)
  scan_session_keys = command (redis.scan_match "session:*")

  -- Whether the answer to one GET is a live session of the user; the clock is read only if the
  -- user matches.
  unfoldable pub live_session : String → ProxyResult (Option String) → M Store (Option Session)
  live_session user_id (err e) = pure none
  live_session user_id (ok none) = pure none
  live_session user_id (ok (some text)) = elim (json.from_str text) [
    | err e ↦ pure none
    | ok session ↦
        if session.user_id == user_id
        then (do now ← utc_now; pure (if is_expired session now then none else some session))
        else pure none
  ]

  abbrev pub pushed : Option Session → List Session → List Session
  pushed none sessions = sessions
  pushed (some session) sessions = sessions ++ session ∷ []

  unfoldable pub collect_sessions : String → List String → List Session → M Store (List Session)
  collect_sessions user_id [] sessions = pure sessions
  collect_sessions user_id (key ∷ keys) sessions = do
    text ← attempt (command (redis.get key))
    found ← live_session user_id text
    collect_sessions user_id keys (pushed found sessions)

  unfoldable pub get_user_sessions : String → M Store (List Session)
  get_user_sessions user_id = do keys ← scan_session_keys; collect_sessions user_id keys []

  unfoldable pub delete_sessions : List Session → M Store (Unit {0})
  delete_sessions [] = pure tt
  delete_sessions (session ∷ rest) = do delete_session session.id; delete_sessions rest

  unfoldable pub revoke_user_sessions : String → M Store ℕ
  revoke_user_sessions user_id = do
    sessions ← get_user_sessions user_id
    delete_sessions sessions
    pure (length sessions)
