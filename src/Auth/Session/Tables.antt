-- ===== src/Auth/Session/Tables.antt =====
-- src/auth/session.rs: the operations on sessions leave the tables of the database alone.
use zero_trust_proxy.Common.{String, Option, none, some, List, [], ◌∷◌, ◌==◌, if◌then◌else◌}
use zero_trust_proxy.Common.Int.{ℤ}
use zero_trust_proxy.Clock.{Chrono}
use zero_trust_proxy.Error.{ok, err, ProxyResult, Result}
use zero_trust_proxy.Db.{Tables}
use zero_trust_proxy.World.{Redis, Codec, pure, ◌>>=◌, utc_now}
use zero_trust_proxy.World.Respects.{Respects, Respects-bind, IsPreorder, respects_rules}
use zero_trust_proxy.Auth.Session.{
  Session, scan_session_keys, live_session, collect_sessions, get_user_sessions, delete_sessions,
  revoke_user_sessions, is_expired, create_session, update_session, delete_session, found_session,
  get_session, new,
}

module _ {Store : Type 0} {R : Tables → Tables → Type 0} ⦃order : IsPreorder R⦄
    (redis : Redis Store) (chrono : Chrono) (json : Codec Session) where
  pub update_session-Respects :
      (session : Session) → Respects R (update_session redis chrono json session)
  unfolding update_session
  update_session-Respects session = search respects_rules

  pub delete_session-Respects :
      (session_id : String) → Respects R (delete_session redis chrono json session_id)
  unfolding delete_session
  delete_session-Respects session_id = search respects_rules

  new-Respects : (u d i a : String) (m : ℤ) → Respects R (new redis chrono json u d i a m)
  unfolding new
  new-Respects u d i a m = search respects_rules

  pub create_session-Respects :
      (minutes : ℤ) (user_id device_id ip_address user_agent : String)
      → Respects R
          (create_session redis chrono json minutes user_id device_id ip_address user_agent)
  unfolding create_session
  create_session-Respects minutes user_id device_id ip_address user_agent =
      search (respects_rules, new-Respects)

  found_session-Respects :
      (session_id : String) (found : Option String)
      → Respects R (found_session redis chrono json session_id found)
  unfolding found_session
  found_session-Respects session_id none = search respects_rules
  found_session-Respects session_id (some text) =
      search (respects_rules, update_session-Respects, delete_session-Respects) depth 9

  pub get_session-Respects :
      (session_id : String) → Respects R (get_session redis chrono json session_id)
  unfolding get_session
  get_session-Respects session_id = search (respects_rules, found_session-Respects)

  live_session-Respects :
      (user_id : String) (answer : ProxyResult (Option String))
      → Respects R (live_session redis chrono json user_id answer)
  unfolding live_session
  live_session-Respects user_id (err e) = search respects_rules
  live_session-Respects user_id (ok none) = search respects_rules
  live_session-Respects user_id (ok (some text)) = decoded (json.from_str text)
    where
      decoded :
          (r : Result String Session)
          → Respects {Store = Store} {A = Option Session} R (elim r [
            | err e ↦ pure none
            | ok session ↦
                if session.user_id == user_id
                then (do
                  now ← utc_now
                  pure (if is_expired session now then none else some session))
                else pure none
          ])
      decoded (err e) = search respects_rules
      decoded (ok session) = search respects_rules

  collect_sessions-Respects :
      (user_id : String) (keys : List String) (sessions : List Session)
      → Respects R (collect_sessions redis chrono json user_id keys sessions)
  unfolding collect_sessions
  collect_sessions-Respects user_id [] sessions = search respects_rules
  collect_sessions-Respects user_id (key ∷ keys) sessions =
      search (respects_rules, live_session-Respects, collect_sessions-Respects user_id keys)

  get_user_sessions-Respects :
      (user_id : String) → Respects R (get_user_sessions redis chrono json user_id)
  unfolding get_user_sessions scan_session_keys
  get_user_sessions-Respects user_id = search (respects_rules, collect_sessions-Respects)

  delete_sessions-Respects :
      (sessions : List Session) → Respects R (delete_sessions redis chrono json sessions)
  unfolding delete_sessions
  delete_sessions-Respects [] = search respects_rules
  delete_sessions-Respects (session ∷ rest) =
      Respects-bind (delete_session redis chrono json session.id)
        (λ _. delete_sessions redis chrono json rest) (delete_session-Respects session.id)
        (λ _. delete_sessions-Respects rest)

  pub revoke_user_sessions-Respects :
      (user_id : String) → Respects R (revoke_user_sessions redis chrono json user_id)
  unfolding revoke_user_sessions
  revoke_user_sessions-Respects user_id =
      search (respects_rules, get_user_sessions-Respects, delete_sessions-Respects)
