-- ===== src/Proxy/MfaSetup/Enrolment.antt =====
-- src/proxy/mod.rs: what an enrolment stores, and what it does not look at.
use zero_trust_proxy.Common.{
  ℕ, ◌≡◌, ◌≢◌, ◌<◌, ap, sym, subst, ◌∙◌, String, ◌==◌, eq_iff, eq_refl, true, Option, some, List,
  [], ◌∷◌, arith, if◌then◌else◌,
}
use zero_trust_proxy.Error.{ok, ok_or, authentication_failed}
use zero_trust_proxy.Db.{
  UserRow, Uuid, Tables, Database, find_row, update_rows, find_user_by_id, set_user_mfa_secret,
}
use zero_trust_proxy.World.{World, lift, utc_now}
use zero_trust_proxy.World.Monad.{bind-inv, ok_or-inv}
use zero_trust_proxy.Auth.Jwt.{Claims, validate_token}
use zero_trust_proxy.Auth.Mfa.{Rng, generate_secret, generate_qr_url}
use zero_trust_proxy.Proxy.Bodies.{MfaEnrollmentResponse}
use mathlib.Core.Option
use zero_trust_proxy.Common.Text.{byte_len}
use zero_trust_proxy.Auth.Mfa.Secrets.{generate_secret_len}
use zero_trust_proxy.Auth.Mfa.Drawn.{base32_code, code_at, generate_secret_drawn}
use zero_trust_proxy.Proxy.Server.{Platform, Request, ProxyServer}
use zero_trust_proxy.Proxy.MfaSetup.{
  bearer_claims, subject_id, subject_row, issue_secret, enroll_user, handle_mfa_enroll,
}

module _ {Store F : Type 0} (p : Platform Store F) (server : ProxyServer) where
  -- An enrolment does not look at Redis: whatever it holds, and so also after the session of the
  -- token has ended or has been revoked, the answer and the database are the same.
  pub handle_mfa_enroll_blind :
      (gen_range : Rng) (req : Request) (w : World Store) (s : Store)
      → ((handle_mfa_enroll p server gen_range req (record w { redis = s })).0
          ≡ (handle_mfa_enroll p server gen_range req w).0)
        × ((handle_mfa_enroll p server gen_range req (record w { redis = s })).1.db
            ≡ (handle_mfa_enroll p server gen_range req w).1.db)
  unfolding handle_mfa_enroll bearer_claims enroll_user issue_secret subject_row validate_token
      utc_now
  handle_mfa_enroll_blind gen_range req w s = ground arith

  abbrev pub with_secret : String → UserRow → UserRow
  with_secret secret user = record user { mfa_enabled = true; mfa_secret = some secret }

  -- The row of the user with an id.
  abbrev pub row_of_id : Uuid → World Store → Option UserRow
  row_of_id id w = find_row (λ u. u.id == id) w.db.tables.users

  find-update_rows :
      (id j : Uuid) (secret : String) (users : List UserRow)
      → find_row (λ u. u.id == j) (update_rows (λ u. u.id == id) (with_secret secret) users) ≡ (
          if id == j
          then Option.map (with_secret secret) (find_row (λ u. u.id == j) users)
          else find_row (λ u. u.id == j) users)
  unfolding find_row update_rows
  find-update_rows id j secret [] = ground arith
  find-update_rows id j secret (u ∷ users) =
      ground (arith, eq_iff id j, eq_iff u.id id, eq_iff u.id j, find-update_rows id j secret users)

  -- The user of the token has got the secret of the reply, which is the 32 letters of base 32 that
  -- were drawn; every other row is as it was.
  pub record Enrolled (gen_range : Rng) (req : Request) (reply : MfaEnrollmentResponse)
      (w w' : World Store) : Type 0 where
    pub claims : Claims
    pub bearer : (bearer_claims p server req w).0 ≡ ok claims
    pub id : Uuid
    pub named : p.texts.parse_uuid claims.sub ≡ some id
    pub user : UserRow
    pub known : row_of_id id w ≡ some user
    pub stored : row_of_id id w' ≡ some (with_secret reply.secret user)
    pub others : (j : Uuid) → j ≢ id → row_of_id j w' ≡ row_of_id j w
    pub long : byte_len reply.secret ≡ 32
    pub letters : (i : ℕ) → i < 32 → code_at i reply.secret ≡ some (base32_code (gen_range i 32))
    pub same_key : reply.manual_entry_key ≡ reply.secret

  bearer-db : (req : Request) (w : World Store) → (bearer_claims p server req w).1.db ≡ w.db
  unfolding bearer_claims validate_token utc_now
  bearer-db req w = ground arith

  find-tables :
      (id : Uuid) (w : World Store) → (subject_row p server id w).1.db.tables ≡ w.db.tables
  unfolding subject_row find_user_by_id
  find-tables id w = ground arith

  find-known :
      (id : Uuid) (user : UserRow) (w : World Store)
      → (subject_row p server id w).0 ≡ ok user
      → row_of_id id w ≡ some user
  unfolding subject_row find_user_by_id
  find-known id user w h = ground arith

  issue_secret-ok :
      (gen_range : Rng) (id : Uuid) (user : UserRow) (w w' : World Store)
      (reply : MfaEnrollmentResponse)
      → issue_secret p server gen_range id user w ≡ (ok reply, w')
      → (generate_secret gen_range ≡ ok reply.secret)
        × (reply.manual_entry_key ≡ reply.secret)
        × (w'.db.tables.users
            ≡ update_rows (λ u. u.id == id) (with_secret reply.secret) w.db.tables.users)
  unfolding issue_secret generate_secret generate_qr_url set_user_mfa_secret
  issue_secret-ok gen_range id user w w' reply h = ground arith

  -- The parts of an enrolment of the subject of some claims.
  enroll_user-ok :
      (gen_range : Rng) (claims : Claims) (w w' : World Store) (reply : MfaEnrollmentResponse)
      → enroll_user p server gen_range claims w ≡ (ok reply, w')
      → (id : Uuid) × (user : UserRow) × (v : World Store) × (p.texts.parse_uuid claims.sub
          ≡ some id)
        × (row_of_id id w ≡ some user)
        × (v.db.tables ≡ w.db.tables)
        × (issue_secret p server gen_range id user v ≡ (ok reply, w'))
  unfolding enroll_user subject_id
  enroll_user-ok gen_range claims w w' reply h =
      let (id, w1, q1, h1) =
        bind-inv
          (lift (ok_or (p.texts.parse_uuid claims.sub) (authentication_failed "invalid subject")) w)
          _ h in
      let (user, w2, q2, h2) = bind-inv (subject_row p server id w1) _ h1 in
      let same : w ≡ w1 = ap (λ s. s.1) q1 in
      (
        id,
        user,
        w2,
        ok_or-inv _ _ q1,
        rw same (find-known id user w1 (ap (λ s. s.0) q2)),
        rw same (sym (ap (λ s. s.1.db.tables) q2) ∙ find-tables id w1),
        h2,
      )

  -- An enrolment that is granted gives the user of the token the secret that the reply shows, of
  -- 32 bytes, each of which is the letter of the RFC 4648 base32 alphabet (A to Z, 2 to 7) whose
  -- value the generator has drawn for its place, and no other user a new row, for any generator
  -- that draws within its range.
  pub handle_mfa_enroll-Enrolled :
      (gen_range : Rng) (req : Request) (reply : MfaEnrollmentResponse) (w w' : World Store)
      → ((i k : ℕ) → 0 < k → gen_range i k < k)
      → handle_mfa_enroll p server gen_range req w ≡ (ok reply, w')
      → Enrolled gen_range req reply w w'
  unfolding handle_mfa_enroll
  handle_mfa_enroll-Enrolled gen_range req reply w w' draws h =
      let (claims, w1, q1, h1) = bind-inv (bearer_claims p server req w) _ h in
      let (id, user, v, named, known, same, issued) =
        enroll_user-ok gen_range claims w1 w' reply h1 in
      let (fresh, key, rows) = issue_secret-ok gen_range id user v w' reply issued in
      let kept : w1.db ≡ w.db = sym (ap (λ s. s.1.db) q1) ∙ bearer-db req w in
      let before : v.db.tables.users ≡ w.db.tables.users =
        ap (λ (t : Tables). t.users) same ∙ ap (λ (d : Database). d.tables.users) kept in
      let known' : row_of_id id w ≡ some user =
        subst (λ d. find_row (λ u. u.id == id) d.tables.users ≡ some user) kept known in
      let after : w'.db.tables.users
          ≡ update_rows (λ u. u.id == id) (with_secret reply.secret) w.db.tables.users =
        rows ∙ ap (update_rows (λ u. u.id == id) (with_secret reply.secret)) before in
      record {
        claims = claims;
        bearer = ap (λ s. s.0) q1;
        id = id;
        named = named;
        user = user;
        known = known';
        stored =
            rw after
              (ground (arith, eq_refl id, find-update_rows id id reply.secret w.db.tables.users));
        others = λ j ne.
            rw after
              (ground (arith, eq_iff id j, find-update_rows id j reply.secret w.db.tables.users));
        long = generate_secret_len gen_range reply.secret draws fresh;
        letters = generate_secret_drawn gen_range reply.secret draws fresh;
        same_key = key;
      }
