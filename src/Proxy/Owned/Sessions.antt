-- ===== src/Proxy/Owned/Sessions.antt =====
-- src/auth/session.rs: the operations on sessions, with the store to themselves, leave every session
-- to an active account.
use zero_trust_proxy.Common.{
  ℕ, suc, ◌≡◌, refl, sym, ◌∙◌, String, Option, none, some, arith, inl, inr, Bool-cases,
}
use zero_trust_proxy.Common.Int.{ℤ, scale}
use zero_trust_proxy.Clock.{Chrono}
use zero_trust_proxy.Error.{
  invalid_session, serialization_error, ok, Result-cases, map_err, map_err-inv,
}
use zero_trust_proxy.Db.{Tables}
use zero_trust_proxy.World.{
  Redis, Codec, RoundTrips, World, pure, fail, ◌>>=◌, ◌>>◌, command, utc_now, new_uuid,
}
use zero_trust_proxy.World.Laws.{RedisLaws}
use zero_trust_proxy.World.Keeps.{
  Keeps, Keeps-command, Keeps-pure, Keeps-fail, Keeps-utc_now, Keeps-bind, Keeps-bind-lift,
  keeps_rules,
}
use zero_trust_proxy.Auth.Session.{
  Session, serialized, key_of, to_u64, is_expired, update_activity, new, create_session,
  update_session, delete_session, found_session, get_session,
}
use zero_trust_proxy.Auth.Session.Serial.Keeps.{written}
use zero_trust_proxy.Auth.Session.Lookup.{get_session-Fetched}
use zero_trust_proxy.Proxy.Owned.{IsActive, IsOwned, IsOwnedBeside, IsOwned-IsLasting}
use zero_trust_proxy.Proxy.Owned.Removals.{get-Keeps, delete_session-Keeps}

module _ {Store : Type 0} (redis : Redis Store) (value : Store → String → Option String)
    (laws : RedisLaws redis value) (chrono : Chrono) (json : Codec Session)
    (codec : RoundTrips json) where
  -- A write of a session of an active account.
  write-IsOwned :
      (text : String) (session : Session) (ttl : ℕ) (s : Store) (t : Tables)
      → json.to_string session ≡ ok text
      → IsActive session.user_id t
      → IsOwned redis value json s t
      → IsOwned redis value json (redis.set_ex (key_of session.id) text ttl s).1 t
  write-IsOwned text session ttl s t printed active h = record {
    owned = λ j read stored held decoded.
        elim (written redis value laws chrono json codec j text session ttl s) [
          | inl (q, v) ↦
              let back = codec.round_trip session text printed in
              let same : text ≡ read = ground arith in
              let whole : stored ≡ session = ground (arith, rw same at back) in rw whole active
          | inr l ↦ h.owned j read stored (ground arith) decoded
        ];
  }

  write-IsOwnedBeside :
      (id text : String) (session : Session) (ttl : ℕ) (s : Store) (t : Tables)
      → json.to_string session ≡ ok text
      → session.user_id ≡ id
      → IsOwnedBeside redis value json id s t
      → IsOwnedBeside redis value json id (redis.set_ex (key_of session.id) text ttl s).1 t
  write-IsOwnedBeside id text session ttl s t printed same h = record {
    sessions = write-IsOwned text session ttl s t printed (rw same h.active) h.sessions;
    active = h.active;
  }

  put_session-Keeps :
      (id : String) (session : Session) (ttl : ℕ) (text : String)
      → session.user_id ≡ id
      → map_err serialization_error (json.to_string session) ≡ ok text
      → Keeps
          (IsOwnedBeside redis value json id)
          (command (redis.set_ex (key_of session.id) text ttl))
  put_session-Keeps id session ttl text same printed =
      Keeps-command (redis.set_ex (key_of session.id) text ttl) λ s t h.
        write-IsOwnedBeside id text session ttl s t
          (map_err-inv serialization_error (json.to_string session) printed) same h

  pub update_session-Keeps :
      (id : String) (session : Session)
      → session.user_id ≡ id
      → Keeps (IsOwnedBeside redis value json id) (update_session redis chrono json session)
  unfolding update_session
  update_session-Keeps id session same =
      Keeps-bind-lift (map_err serialization_error (json.to_string session)) _
        λ text printed. search (keeps_rules, put_session-Keeps)

  stored-Keeps :
      (id : String) (session : Session) (ttl : ℕ)
      → session.user_id ≡ id
      → Keeps (IsOwnedBeside redis value json id) (
          serialized redis chrono json session >>= λ text.
          command (redis.set_ex (key_of session.id) text ttl) >> pure session)
  stored-Keeps id session ttl same =
      Keeps-bind-lift _ _
        λ text printed. search (keeps_rules, put_session-Keeps id session ttl text same printed)

  pub create_session-Keeps :
      (minutes : ℤ) (user_id device_id ip_address user_agent : String)
      → Keeps
          (IsOwnedBeside redis value json user_id)
          (create_session redis chrono json minutes user_id device_id ip_address user_agent)
  unfolding create_session new utc_now new_uuid
  create_session-Keeps minutes user_id device_id ip_address user_agent = record {
    at = λ w h. (stored-Keeps user_id _ (to_u64 (scale 60 minutes)) refl).at _ h;
  }

  expired-Keeps :
      (session_id : String)
      → Keeps (IsOwned redis value json) (
          delete_session redis chrono json session_id
          >> fail {A = Session} (invalid_session "Session expired"))
  expired-Keeps session_id =
      Keeps-bind (delete_session redis chrono json session_id) _
        (delete_session-Keeps redis value laws chrono json codec (IsOwned redis value json)
          (IsOwned-IsLasting redis value json) session_id)
        (λ _. Keeps-fail (invalid_session "Session expired"))

  touched-Keeps :
      (session : Session)
      → Keeps (IsOwnedBeside redis value json session.user_id) (
          utc_now >>= λ now.
          update_session redis chrono json (update_activity session now)
          >> pure (update_activity session now))
  unfolding update_activity
  touched-Keeps session = Keeps-bind utc_now _ Keeps-utc_now λ now.
      Keeps-bind (update_session redis chrono json (update_activity session now)) _
        (update_session-Keeps session.user_id (update_activity session now) refl)
        (λ _. Keeps-pure (update_activity session now))

  -- The second half of a lookup, of a text that is a session of an active account.
  found_session-Keeps :
      (session_id : String) (found : Option String) (w : World Store)
      → ((text : String) (session : Session)
          → found ≡ some text
          → json.from_str text ≡ ok session
          → IsActive session.user_id w.db.tables)
      → IsOwned redis value json w.redis w.db.tables
      → let w' = (found_session redis chrono json session_id found w).1 in
        IsOwned redis value json w'.redis w'.db.tables
  unfolding found_session utc_now update_activity
  found_session-Keeps session_id none w known h = h
  found_session-Keeps session_id (some text) w known h = elim (Result-cases (json.from_str text)) [
    | inr (e, q) ↦ rw q h
    | inl (session, q) ↦
        let w1 = record w { readings = suc w.readings } in
        elim (Bool-cases (is_expired session (w.clock w.readings))) [
          | inl late ↦ rw (q, late) ((expired-Keeps session_id).at w1 h)
          | inr live ↦
              let beside : IsOwnedBeside redis value json session.user_id w.redis w.db.tables =
                record { sessions = h; active = known text session refl q } in
              let after = (touched-Keeps session).at w1 beside in rw (q, live) after.sessions
        ]
  ]

  pub get_session-Keeps :
      (session_id : String)
      → Keeps (IsOwned redis value json) (get_session redis chrono json session_id)
  unfolding get_session
  get_session-Keeps session_id = record { at = λ w h. at_world w h }
    where
      at_world :
          (w : World Store)
          → IsOwned redis value json w.redis w.db.tables
          → let w' = (get_session redis chrono json session_id w).1 in
            IsOwned redis value json w'.redis w'.db.tables
      at_world w h =
          let s = (redis.get (key_of session_id) w.redis).1 in
          let later =
            (get-Keeps redis value laws chrono json codec (IsOwned redis value json)
                (IsOwned-IsLasting redis value json) (key_of session_id)).at
              w h in
          elim (Result-cases (redis.get (key_of session_id) w.redis).0) [
            | inr (e, q) ↦ rw q later
            | inl (found, q) ↦ rw q (
                found_session-Keeps session_id found (record w { redis = s })
                  (λ text session p decoded.
                    let held = laws.get_value (key_of session_id) w.redis found q in
                    h.owned session_id text session (sym held ∙ p) decoded)
                  later)
          ]

  -- A session that a lookup returns belongs to an active account.
  pub get_session-IsActive :
      (session_id : String) (w w' : World Store) (session : Session)
      → get_session redis chrono json session_id w ≡ (ok session, w')
      → IsOwned redis value json w.redis w.db.tables
      → IsActive session.user_id w.db.tables
  unfolding update_activity
  get_session-IsActive session_id w w' session got h =
      let f = get_session-Fetched redis chrono json session_id w w' session got in
      let held = laws.get_value (key_of session_id) w.redis (some f.text) f.answered in
      rw f.touched (h.owned session_id f.text f.stored (sym held) f.decoded)
