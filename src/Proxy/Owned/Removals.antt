-- ===== src/Proxy/Owned/Removals.antt =====
-- src/auth/session.rs: lookups and deletions in Redis survive with every invariant that lasts.
use zero_trust_proxy.Common.{String, Option, none, some, List, [], ◌∷◌, ◌==◌, if◌then◌else◌}
use zero_trust_proxy.Clock.{Chrono}
use zero_trust_proxy.Error.{ok, err, Result, ProxyResult}
use zero_trust_proxy.Db.{Tables}
use zero_trust_proxy.World.{Redis, Codec, RoundTrips, pure, ◌>>=◌, command, utc_now}
use zero_trust_proxy.World.Laws.{RedisLaws}
use zero_trust_proxy.World.Keeps.{Keeps, Keeps-command, Keeps-bind, keeps_rules}
use zero_trust_proxy.Auth.Session.{
  Session, key_of, is_expired, delete_session, scan_session_keys, live_session, collect_sessions,
  get_user_sessions, delete_sessions, revoke_user_sessions,
}
use zero_trust_proxy.Proxy.Owned.{IsLasting}

module _ {Store : Type 0} (redis : Redis Store) (value : Store → String → Option String)
    (laws : RedisLaws redis value) (chrono : Chrono) (json : Codec Session)
    (codec : RoundTrips json) where
  module _ (I : Store → Tables → Type 0) (lasting : IsLasting redis value json I) where
    pub get-Keeps : (key : String) → Keeps I (command (redis.get key))
    get-Keeps key =
        Keeps-command (redis.get key)
          λ s t. lasting.lapses s (redis.get key s).1 t λ j. laws.get_keeps key (key_of j) s

    pub delete_session-Keeps :
        (session_id : String) → Keeps I (delete_session redis chrono json session_id)
    unfolding delete_session
    delete_session-Keeps session_id = Keeps-command (redis.del (key_of session_id)) λ s t.
        lasting.lapses s (redis.del (key_of session_id) s).1 t
          λ j. laws.del_keeps (key_of session_id) (key_of j) s

    scan_session_keys-Keeps : Keeps I (scan_session_keys redis chrono json)
    unfolding scan_session_keys
    scan_session_keys-Keeps = Keeps-command (redis.scan_match "session:*") λ s t.
        lasting.lapses s (redis.scan_match "session:*" s).1 t
          λ j. laws.scan_keeps "session:*" (key_of j) s

    live_session-Keeps :
        (user_id : String) (answer : ProxyResult (Option String))
        → Keeps I (live_session redis chrono json user_id answer)
    unfolding live_session
    live_session-Keeps user_id (err e) = search keeps_rules
    live_session-Keeps user_id (ok none) = search keeps_rules
    live_session-Keeps user_id (ok (some text)) = decoded (json.from_str text)
      where
        decoded :
            (r : Result String Session)
            → Keeps {Store = Store} {A = Option Session} I (elim r [
              | err e ↦ pure none
              | ok session ↦
                  if session.user_id == user_id
                  then (do
                    now ← utc_now
                    pure (if is_expired session now then none else some session))
                  else pure none
            ])
        decoded (err e) = search keeps_rules
        decoded (ok session) = search keeps_rules

    collect_sessions-Keeps :
        (user_id : String) (keys : List String) (sessions : List Session)
        → Keeps I (collect_sessions redis chrono json user_id keys sessions)
    unfolding collect_sessions
    collect_sessions-Keeps user_id [] sessions = search keeps_rules
    collect_sessions-Keeps user_id (key ∷ keys) sessions =
        search (keeps_rules, get-Keeps, live_session-Keeps, collect_sessions-Keeps user_id keys)

    delete_sessions-Keeps :
        (sessions : List Session) → Keeps I (delete_sessions redis chrono json sessions)
    unfolding delete_sessions
    delete_sessions-Keeps [] = search keeps_rules
    delete_sessions-Keeps (session ∷ rest) =
        Keeps-bind (delete_session redis chrono json session.id)
          (λ _. delete_sessions redis chrono json rest) (delete_session-Keeps session.id)
          (λ _. delete_sessions-Keeps rest)

    pub revoke_user_sessions-Keeps :
        (user_id : String) → Keeps I (revoke_user_sessions redis chrono json user_id)
    unfolding revoke_user_sessions get_user_sessions
    revoke_user_sessions-Keeps user_id =
        search (keeps_rules, scan_session_keys-Keeps, collect_sessions-Keeps, delete_sessions-Keeps)
          depth 9
