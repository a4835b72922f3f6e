-- ===== src/Auth/Session/Serial/Keeps.antt =====
-- src/auth/session.rs: what a lookup, an update and a deletion keep of the sessions that are gone.
use text.Mathlib.TextLemmas.{append_cancel_left}
use zero_trust_proxy.Common.{
  ℕ, suc, ◌≡◌, refl, sym, ap, subst, ◌∙◌, String, ◌==◌, eq_iff, false, Option, none, some, arith,
  Bool-cases, Option-cases, inl, inr, ◌⊎◌,
}
use zero_trust_proxy.Common.Int.{ℤ, pos, ltb_ℤ, ◌-ℤ◌, ◌+ℤ◌, scale}
use zero_trust_proxy.Clock.{Chrono}
use zero_trust_proxy.Error.{invalid_session, ProxyResult, ok, err, Result-cases}
use zero_trust_proxy.World.{
  Redis, Codec, RoundTrips, World, M, pure, fail, bind, command, utc_now, new_uuid,
}
use zero_trust_proxy.World.Laws.{RedisLaws, Lapses}
use zero_trust_proxy.Auth.Session.{
  Session, to_u64, key_of, is_expired, update_activity, new, create_session, update_session,
  delete_session, found_session, get_session,
}
use zero_trust_proxy.Auth.Session.Lookup.{get_session-Fetched}
use zero_trust_proxy.Auth.Session.Serial.{IsGone, GoneIn}

module _ {Store : Type 0} (redis : Redis Store) (value : Store → String → Option String)
    (laws : RedisLaws redis value) (chrono : Chrono) (json : Codec Session)
    (codec : RoundTrips json) where
  pub lapse-IsGone :
      (Ended : String → Type 0) (s s' : Store) (uuids : ℕ → String) (drawn : ℕ)
      → ((j : String) → Lapses (value s (key_of j)) (value s' (key_of j)))
      → IsGone value json Ended s uuids drawn
      → IsGone value json Ended s' uuids drawn
  lapse-IsGone Ended s s' uuids drawn lapses g = record {
    absent = λ id m. let nothing = g.absent id m in let l = lapses id in ground arith;
    undrawn = g.undrawn;
    keyed = λ j text session held decoded.
        let l = lapses j in g.keyed j text session (ground arith) decoded;
  }

  -- What a write leaves under a key, done or not.
  pub written :
      (j text : String) (session : Session) (ttl : ℕ) (s : Store)
      → let s' = (redis.set_ex (key_of session.id) text ttl s).1 in
        ((session.id ≡ j) × (value s' (key_of j) ≡ some text))
        ⊎ Lapses (value s (key_of j)) (value s' (key_of j))
  written j text session ttl s = elim (Bool-cases (j == session.id)) [
    | inr e ↦ inr (
        laws.set_ex_keeps (key_of session.id) text (key_of j) ttl s (λ q.
          let same = append_cancel_left "session:" j session.id q in
          absurd (ground (arith, (eq_iff j session.id).1 same))))
    | inl e ↦
        let same = (eq_iff j session.id).0 e in
        rw same (elim (Result-cases (redis.set_ex (key_of session.id) text ttl s).0) [
          | inl (tt, q) ↦ inl (refl, laws.set_ex_value (key_of session.id) text ttl s q)
          | inr (e, q) ↦ elim (laws.set_ex_failed (key_of session.id) text e ttl s q) [
            | inl v ↦ inl (refl, v)
            | inr l ↦ inr l
          ]
        ])
  ]

  -- A write of another session.
  pub write-IsGone :
      (Ended : String → Type 0) (text : String) (session : Session) (ttl : ℕ) (s : Store)
      (uuids : ℕ → String) (drawn : ℕ)
      → json.to_string session ≡ ok text
      → ¬ Ended session.id
      → IsGone value json Ended s uuids drawn
      → IsGone value json Ended (redis.set_ex (key_of session.id) text ttl s).1 uuids drawn
  write-IsGone Ended text session ttl s uuids drawn printed other g = record {
    absent = λ id m. elim (written id text session ttl s) [
      | inl (q, v) ↦ absurd (other (subst Ended (sym q) m))
      | inr l ↦ let nothing = g.absent id m in ground arith
    ];
    undrawn = g.undrawn;
    keyed = λ j read stored held decoded. elim (written j text session ttl s) [
      | inl (q, v) ↦
          let back = codec.round_trip session text printed in
          let same : text ≡ read = ground arith in
          let whole : stored ≡ session = ground (arith, rw same at back) in rw whole q
      | inr l ↦ g.keyed j read stored (ground arith) decoded
    ];
  }

  pub update_session-IsGone :
      (Ended : String → Type 0) (session : Session) (w : World Store)
      → ¬ Ended session.id
      → GoneIn value json Ended w
      → GoneIn value json Ended (update_session redis chrono json session w).1
  unfolding update_session utc_now
  update_session-IsGone Ended session w other g = elim (Result-cases (json.to_string session)) [
    | inr (e, p) ↦ rw p g
    | inl (text, p) ↦
        let ttl = chrono.num_seconds (session.expires_at -ℤ w.clock w.readings) in
        elim (Bool-cases (ltb_ℤ (pos 0) ttl)) [
          | inr b ↦ rw (p, b) g
          | inl b ↦
              rw (p, b)
                (write-IsGone Ended text session (to_u64 ttl) w.redis w.uuids w.drawn p other g)
        ]
  ]

  pub delete_session-IsGone :
      (Ended : String → Type 0) (session_id : String) (w : World Store)
      → GoneIn value json Ended w
      → GoneIn value json Ended (delete_session redis chrono json session_id w).1
  unfolding delete_session
  delete_session-IsGone Ended session_id w g =
      lapse-IsGone Ended w.redis (redis.del (key_of session_id) w.redis).1 w.uuids w.drawn
        (λ j. laws.del_keeps (key_of session_id) (key_of j) w.redis) g

  -- A sequence keeps it if both steps do.
  pub bind-GoneIn :
      {A B : Type 0} (Ended : String → Type 0) (r : ProxyResult A × World Store) (f : A → M Store B)
      → GoneIn value json Ended r.1
      → ((a : A) (v : World Store)
          → r ≡ (ok a, v)
          → GoneIn value json Ended v
          → GoneIn value json Ended (f a v).1)
      → GoneIn value json Ended (bind r f).1
  bind-GoneIn Ended (ok a, w) f g k = k a w refl g
  bind-GoneIn Ended (err e, w) f g k = g

  abbrev pub read_once : World Store → World Store
  read_once w = record w { readings = suc w.readings }

  -- The second half of a lookup under another id.
  pub found_session-IsGone :
      (Ended : String → Type 0) (session_id : String) (found : Option String) (w : World Store)
      → ¬ Ended session_id
      → ((text : String) (session : Session)
          → found ≡ some text
          → json.from_str text ≡ ok session
          → session.id ≡ session_id)
      → GoneIn value json Ended w
      → GoneIn value json Ended (found_session redis chrono json session_id found w).1
  unfolding found_session utc_now update_activity
  found_session-IsGone Ended session_id none w other named g = g
  found_session-IsGone Ended session_id (some text) w other named g =
      elim (Result-cases (json.from_str text)) [
        | inr (e, q) ↦ rw q g
        | inl (session, q) ↦ elim (Bool-cases (is_expired session (w.clock w.readings))) [
          | inl late ↦
              rw (q, late)
                (bind-GoneIn Ended (delete_session redis chrono json session_id (read_once w))
                  (λ done. fail (invalid_session "Session expired"))
                  (delete_session-IsGone Ended session_id (read_once w) g) (λ done v e g'. g'))
          | inr live ↦
              let active = update_activity session (w.clock (suc w.readings)) in
              rw (q, live)
                (bind-GoneIn Ended
                  (update_session redis chrono json active (read_once (read_once w)))
                  (λ done. pure active)
                  (update_session-IsGone Ended active (read_once (read_once w))
                    (λ m. other (subst Ended (named text session refl q) m)) g)
                  (λ done v e g'. g'))
        ]
      ]

  pub get_session-IsGone :
      (Ended : String → Type 0) (session_id : String) (w : World Store)
      → GoneIn value json Ended w
      → GoneIn value json Ended (get_session redis chrono json session_id w).1
  unfolding get_session found_session
  get_session-IsGone Ended session_id w g =
      let s1 = (redis.get (key_of session_id) w.redis).1 in
      let w1 = record w { redis = s1 } in
      let g1 : GoneIn value json Ended w1 =
        lapse-IsGone Ended w.redis s1 w.uuids w.drawn
          (λ j. laws.get_keeps (key_of session_id) (key_of j) w.redis) g in
      elim (Result-cases (redis.get (key_of session_id) w.redis).0) [
        | inr (e, q) ↦ rw q g1
        | inl (found, q) ↦
            let seen = laws.get_value (key_of session_id) w.redis found q in
            elim (Option-cases found) [
              | inl none_found ↦ rw (q, none_found) g1
              | inr (text, some_found) ↦ rw q (
                  found_session-IsGone Ended session_id found w1
                    (λ m. let nothing = g.absent session_id m in absurd (ground arith))
                    (λ text session some_text decoded.
                      g.keyed session_id text session (sym seen ∙ some_text) decoded)
                    g1)
            ]
      ]

  -- No lookup returns a session under the id.
  pub get_session-other :
      (Ended : String → Type 0) (session_id : String) (w w' : World Store) (session : Session)
      → get_session redis chrono json session_id w ≡ (ok session, w')
      → GoneIn value json Ended w
      → ¬ Ended session.id
  unfolding update_activity
  get_session-other Ended session_id w w' session h g m =
      let f = get_session-Fetched redis chrono json session_id w w' session h in
      let seen = laws.get_value (key_of session_id) w.redis (some f.text) f.answered in
      let own = g.keyed session_id f.text f.stored (sym seen) f.decoded in
      let named : session.id ≡ session_id = ap (λ s. s.id) f.touched ∙ own in
      let nothing = g.absent session_id (subst Ended named m) in absurd (ground arith)

  pub create_session-IsGone :
      (Ended : String → Type 0) (duration : ℤ) (user device ip agent : String) (w : World Store)
      → GoneIn value json Ended w
      → GoneIn value json Ended (create_session redis chrono json duration user device ip agent w).1
  unfolding create_session new utc_now new_uuid
  create_session-IsGone Ended duration user device ip agent w g =
      let made : Session = record {
        id = w.uuids w.drawn;
        user_id = user;
        device_id = device;
        created_at = w.clock w.readings;
        expires_at = w.clock w.readings +ℤ chrono.minutes duration;
        last_activity = w.clock w.readings;
        ip_address = ip;
        user_agent = agent;
        mfa_verified = false;
        risk_score = 0;
      } in
      let ttl = to_u64 (scale 60 duration) in
      let w1 = record w { readings = suc w.readings; drawn = suc w.drawn } in
      let g1 : GoneIn value json Ended w1 = record {
        absent = g.absent;
        undrawn = λ n h. g.undrawn n (omega (arith, h));
        keyed = g.keyed;
      } in
      elim (Result-cases (json.to_string made)) [
        | inr (e, p) ↦ rw p g1
        | inl (text, p) ↦ rw p (
            bind-GoneIn Ended (command (redis.set_ex (key_of made.id) text ttl) w1)
              (λ done. pure made)
              (write-IsGone Ended text made ttl w.redis w.uuids (suc w.drawn) p
                (g.undrawn w.drawn (omega arith)) g1)
              (λ done v e g'. g'))
      ]
