-- ===== src/Auth/Session/Revocation.antt =====
-- src/auth/session.rs: that a revocation of all sessions of a user misses none that the scan lists,
-- as long as Redis answers every GET.
use zero_trust_proxy.Common.{
  ℕ, suc, ◌+◌, ◌<◌, ◌≤◌, ◌≡◌, refl, sym, ap, subst, ◌∙◌, String, ◌==◌, eq_iff, eq_refl, Bool, true,
  false, Option, none, some, arith, Bool-cases, inl, inr, ◌⊎◌, List, [], ◌∷◌, ◌++◌, any, any-append,
  length,
}
use zero_trust_proxy.Clock.{Chrono, DateTime}
use zero_trust_proxy.Error.{ok, err, redis_error, ProxyResult, map_err, Result-cases}
use zero_trust_proxy.World.{Redis, Codec, RoundTrips, World, pure, ◌>>◌, utc_now}
use zero_trust_proxy.World.Monad.{bind-inv}
use zero_trust_proxy.World.Laws.{RedisLaws, Lapses}
use zero_trust_proxy.Auth.Session.{
  Session, key_of, is_expired, delete_sessions, get_user_sessions, scan_session_keys, live_session,
  pushed, collect_sessions, revoke_user_sessions,
}
use zero_trust_proxy.Auth.Session.Lifecycle.{
  Holds, Gone, delete_sessions_keep, delete_sessions-Gone,
}

ok-inj : {A : Type 0} (a b : A) → ◌≡◌ {A = ProxyResult A} (ok a) (ok b) → a ≡ b
ok-inj a b h = cc

module _ {Store : Type 0} (redis : Redis Store) (value : Store → String → Option String)
    (laws : RedisLaws redis value) (chrono : Chrono) (json : Codec Session) where
  -- Every GET is answered.
  abbrev pub Answers : Type 0
  Answers = (k : String) (s : Store) → (v : Option String) × ((redis.get k s).0 ≡ ok v)

  abbrev pub named : String → List Session → Bool
  named id ss = any (λ s. s.id == id) ss

  abbrev pub listed : String → List String → Bool
  listed key keys = any (λ k. k == key) keys

  -- No reading of the clock before the given one is past the expiry.
  abbrev pub IsLive : Session → (ℕ → DateTime) → ℕ → Type 0
  IsLive session clock until = (n : ℕ) → n < until → is_expired session (clock n) ≡ false

  live_session-keeps :
      (user_id : String) (answer : ProxyResult (Option String)) (w : World Store)
      → let w' = (live_session redis chrono json user_id answer w).1 in
        (w'.redis ≡ w.redis) × (w'.clock ≡ w.clock) × (w'.readings ≤ suc w.readings)
  unfolding live_session utc_now
  live_session-keeps user_id (err e) w = (refl, refl, omega arith)
  live_session-keeps user_id (ok none) w = (refl, refl, omega arith)
  live_session-keeps user_id (ok (some text)) w = elim (Result-cases (json.from_str text)) [
    | inr (e, q) ↦ (ground arith, ground arith, ground arith)
    | inl (session, q) ↦ elim (Bool-cases (session.user_id == user_id)) [
      | inl mine ↦ (ground arith, ground arith, ground arith)
      | inr other ↦ (ground arith, ground arith, ground arith)
    ]
  ]

  live_session-found :
      (text : String) (session : Session) (until : ℕ) (w : World Store)
      → json.from_str text ≡ ok session
      → IsLive session w.clock until
      → w.readings < until
      → (live_session redis chrono json session.user_id (ok (some text)) w).0 ≡ ok (some session)
  unfolding live_session utc_now
  live_session-found text session until w decoded live soon =
      let now = live w.readings soon in ground (arith, eq_refl session.user_id)

  -- One round of the loop.
  one_round :
      (user_id key : String) (keys : List String) (found : List Session) (w w' : World Store)
      (ss : List Session)
      → collect_sessions redis chrono json user_id (key ∷ keys) found w ≡ (ok ss, w')
      → let w1 = record w { redis = (redis.get key w.redis).1 } in
        (one : Option Session) × (v : World Store) × (live_session redis chrono json user_id
            (map_err redis_error (redis.get key w.redis).0)
            w1
          ≡ (ok one, v))
        × (v.redis ≡ w1.redis)
        × (v.clock ≡ w.clock)
        × (v.readings ≤ suc w.readings)
        × (collect_sessions redis chrono json user_id keys (pushed redis chrono json one found) v
            ≡ (ok ss, w'))
  unfolding collect_sessions
  one_round user_id key keys found w w' ss h =
      let answer = map_err redis_error (redis.get key w.redis).0 in
      let w1 = record w { redis = (redis.get key w.redis).1 } in
      let (one, v, looked, rest) =
        bind-inv (live_session redis chrono json user_id answer w1)
          (λ one.
            collect_sessions redis chrono json user_id keys (pushed redis chrono json one found))
          h in
      let (same_store, same_clock, few) = live_session-keeps user_id answer w1 in
      (
        one,
        v,
        looked,
        ap (λ r. r.1.redis) (sym looked) ∙ same_store,
        ap (λ r. r.1.clock) (sym looked) ∙ same_clock,
        subst (λ r. r.1.readings ≤ suc w.readings) looked few,
        rest,
      )

  pushed-named :
      (id : String) (one : Option Session) (found : List Session)
      → named id found ≡ true
      → named id (pushed redis chrono json one found) ≡ true
  unfolding any
  pushed-named id none found h = h
  pushed-named id (some session) found h =
      let split = any-append (λ s. s.id == id) found (session ∷ []) in ground arith

  append-named :
      (session : Session) (found : List Session) → named session.id (found ++ session ∷ []) ≡ true
  unfolding any
  append-named session found =
      let split = any-append (λ s. s.id == session.id) found (session ∷ []) in
      ground (arith, eq_refl session.id)

  Gone-named :
      (s : Store) (id : String) (ss : List Session)
      → Gone redis value laws chrono json s ss
      → named id ss ≡ true
      → value s (key_of id) ≡ none
  unfolding any
  Gone-named s id [] g h = absurd (ground arith)
  Gone-named s id (session ∷ ss) g h = elim (Bool-cases (session.id == id)) [
    | inl e ↦ let gone = g.0 in rw (← (eq_iff session.id id).0 e) gone
    | inr e ↦ Gone-named s id ss g.1 (ground arith)
  ]

  collect-named :
      (user_id id : String) (keys : List String) (found ss : List Session) (w w' : World Store)
      → collect_sessions redis chrono json user_id keys found w ≡ (ok ss, w')
      → named id found ≡ true
      → named id ss ≡ true
  unfolding collect_sessions
  collect-named user_id id [] found ss w w' h n =
      let same : found ≡ ss = ground arith in rw (← same) n
  collect-named user_id id (key ∷ keys) found ss w w' h n =
      let (one, v, _, _, _, _, rest) = one_round user_id key keys found w w' ss h in
      collect-named user_id id keys (pushed redis chrono json one found) ss v w' rest
        (pushed-named id one found n)

  collect-none :
      (user_id k : String) (keys : List String) (found ss : List Session) (w w' : World Store)
      → collect_sessions redis chrono json user_id keys found w ≡ (ok ss, w')
      → value w.redis k ≡ none
      → value w'.redis k ≡ none
  unfolding collect_sessions
  collect-none user_id k [] found ss w w' h n =
      subst (λ u. value u.redis k ≡ none) (ap (λ r. r.1) h) n
  collect-none user_id k (key ∷ keys) found ss w w' h n =
      let (one, v, _, same, _, _, rest) = one_round user_id key keys found w w' ss h in
      let kept : value (redis.get key w.redis).1 k ≡ none =
        let l = laws.get_keeps key k w.redis in ground arith in
      collect-none user_id k keys (pushed redis chrono json one found) ss v w' rest
        (subst (λ t. value t k ≡ none) (sym same) kept)

  -- A session that the loop passes is found, unless its key has run out by then.
  collect-found :
      (session : Session) (text : String) (keys : List String) (found ss : List Session) (until : ℕ)
      (w w' : World Store)
      → json.from_str text ≡ ok session
      → IsLive session w.clock until
      → w.readings + length keys ≤ until
      → Answers
      → Lapses (some text) (value w.redis (key_of session.id))
      → listed (key_of session.id) keys ≡ true
      → collect_sessions redis chrono json session.user_id keys found w ≡ (ok ss, w')
      → (value w'.redis (key_of session.id) ≡ none) ⊎ (named session.id ss ≡ true)
  unfolding any
  collect-found session text [] found ss until w w' decoded live soon answers held l h =
      absurd (ground arith)
  collect-found session text (key ∷ keys) found ss until w w' decoded live soon answers held l h =
      let user = session.user_id in
      let (one, v, looked, same, clock, few, rest) = one_round user key keys found w w' ss h in
      elim (Bool-cases (key == key_of session.id)) [
        | inr other ↦
            let lapsed = laws.get_keeps key (key_of session.id) w.redis in
            let kept : Lapses (some text) (value (redis.get key w.redis).1 (key_of session.id)) =
              ground arith in
            collect-found session text keys (pushed redis chrono json one found) ss until v w'
              decoded (subst (λ c. IsLive session c until) (sym clock) live)
              (omega (arith, few, soon)) answers
              (subst (λ t. Lapses (some text) (value t (key_of session.id))) (sym same) kept)
              (ground arith) rest
        | inl e ↦ elim held [
          | inr gone ↦ inl (collect-none user (key_of session.id) (key ∷ keys) found ss w w' h gone)
          | inl there ↦
              let (o, answered) = answers key w.redis in
              let here = (eq_iff key (key_of session.id)).0 e in
              let read : o ≡ some text =
                laws.get_value key w.redis o answered ∙ ap (value w.redis) here ∙ there in
              let w1 = record w { redis = (redis.get key w.redis).1 } in
              let answer : map_err redis_error (redis.get key w.redis).0 ≡ ok (some text) =
                ground arith in
              let first =
                sym (live_session-found text session until w1 decoded live (omega (arith, soon)))
                ∙ ap (λ a. (live_session redis chrono json user a w1).0) (sym answer)
                ∙ ap (λ r. r.0) looked in
              let it : one ≡ some session = sym (ok-inj (some session) one first) in
              inr (
                collect-named user session.id keys (pushed redis chrono json one found) ss v w' rest
                  (subst (λ x. named session.id (pushed redis chrono json x found) ≡ true) (sym it)
                    (append-named session found)))
        ]
      ]

  -- A revocation that answers leaves nothing under the key of a session of the user that was stored,
  -- if the scan lists the key, Redis answers every GET, and the session does not expire before the
  -- clock has been read once for each key.
  pub revoke_user_sessions_complete :
      (session : Session) (keys : List String) (w w' : World Store) (n : ℕ)
      → RoundTrips json
      → Answers
      → Holds redis value laws chrono json w.redis session
      → IsLive session w.clock (w.readings + length keys)
      → (redis.scan_match "session:*" w.redis).0 ≡ ok keys
      → listed (key_of session.id) keys ≡ true
      → revoke_user_sessions redis chrono json session.user_id w ≡ (ok n, w')
      → value w'.redis (key_of session.id) ≡ none
  unfolding revoke_user_sessions get_user_sessions scan_session_keys
  revoke_user_sessions_complete session keys w w' n codec answers (text, held, printed) live scanned
        l h =
      let user = session.user_id in
      let key = key_of session.id in
      let (ss, w1, got, h1) =
        bind-inv (get_user_sessions redis chrono json user w)
          (λ ss. delete_sessions redis chrono json ss >> pure (length ss)) h in
      let (ks, w0, scan, collected) =
        bind-inv (scan_session_keys redis chrono json w)
          (λ ks. collect_sessions redis chrono json user ks []) got in
      let (done, w2, deleted, h2) =
        bind-inv (delete_sessions redis chrono json ss w1) (λ done. pure (length ss)) h1 in
      let same : keys ≡ ks =
        ok-inj keys ks (ap (map_err redis_error) (sym scanned) ∙ ap (λ r. r.0) scan) in
      let lapsed = laws.scan_keeps "session:*" key w.redis in
      let kept : Lapses (some text) (value (redis.scan_match "session:*" w.redis).1 key) =
        ground arith in
      let found =
        collect-found session text ks [] ss (w.readings + length keys) w0 w1
          (codec.round_trip session text printed)
          (subst (λ v. IsLive session v.clock (w.readings + length keys)) (ap (λ r. r.1) scan) live)
          (omega (arith, ap (λ r. r.1.readings) scan, ap length same)) answers
          (subst (λ v. Lapses (some text) (value v.redis key)) (ap (λ r. r.1) scan) kept)
          (subst (λ x. listed key x ≡ true) same l) collected in
      let last = ap (λ r. r.1) h2 in
      subst (λ v. value v.redis key ≡ none) last
        (elim found [
          | inl gone ↦
              subst (λ r. value r.1.redis key ≡ none) deleted
                (delete_sessions_keep redis value laws chrono json ss key w1 gone)
          | inr it ↦
              Gone-named w2.redis session.id ss
                (delete_sessions-Gone redis value laws chrono json ss w1 w2 deleted) it
        ])
