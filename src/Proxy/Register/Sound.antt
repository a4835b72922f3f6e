-- ===== src/Proxy/Register/Sound.antt =====
-- src/proxy/mod.rs: what a registration that `handle_register` grants has done.
use zero_trust_proxy.Common.{
  ◌≤◌, ◌≡◌, refl, ap, sym, subst, ◌∙◌, String, ◌==◌, eq_refl, Bool, true, false, not, none, some,
  List, [], ◌∷◌, ◌++◌, any, arith, ltb, inl, inr, Bool-cases, Option-cases,
}
use zero_trust_proxy.Common.Int.{pos}
use zero_trust_proxy.Common.Text.{byte_len}
use zero_trust_proxy.Error.{map_err-inv, authentication_failed, internal_error, ok, ok_or}
use zero_trust_proxy.Db.{UserRow, Tables, find_row, find_user_by_username, create_user}
use zero_trust_proxy.World.{World, lift, statement}
use zero_trust_proxy.World.Monad.{bind-inv, ok_or-inv}
use zero_trust_proxy.Auth.Password.{hash_password}
use zero_trust_proxy.Risk.{IpAddr}
use zero_trust_proxy.Proxy.Bodies.{RegisterBody}
use zero_trust_proxy.Proxy.Server.{Platform, Request}
use zero_trust_proxy.Proxy.RateLimit.{check_rate_limit}
use zero_trust_proxy.Proxy.Register.{create_account, register_user, check_length, handle_register}

-- No row has the name.
unfoldable pub is_free : String → List UserRow → Bool
is_free name users = not (any (λ u. u.username == name) users)

find_row-none :
    (name : String) (users : List UserRow)
    → find_row (λ u. u.username == name) users ≡ none
    → is_free name users ≡ true
unfolding find_row is_free any
find_row-none name [] h = refl
find_row-none name (u ∷ users) h = ground (arith, find_row-none name users)

find_row-append :
    (user : UserRow) (users : List UserRow)
    → is_free user.username users ≡ true
    → find_row (λ u. u.username == user.username) (users ++ user ∷ []) ≡ some user
unfolding find_row is_free any
find_row-append user [] h = ground (arith, eq_refl user.username)
find_row-append user (u ∷ users) h = ground (arith, find_row-append user users)

module _ {Store F : Type 0} (p : Platform Store F) (remote : IpAddr) (salt : String) where
  -- The row that was added at the end of the table, and nothing else in the database.
  pub record Registered (req : Request) (user : UserRow) (w w' : World Store) : Type 0 where
    pub text : String
    pub read : req.body ≡ some text
    pub body : RegisterBody
    pub parsed : p.bodies.parse_register text ≡ some body
    pub long : 12 ≤ byte_len body.password
    pub hashed : p.argon2.hash salt body.password ≡ ok user.password_hash
    pub same_name : user.username ≡ body.username
    pub same_email : user.email ≡ body.email
    pub one_factor : (user.mfa_enabled ≡ false) × (user.mfa_secret ≡ none)
    pub active : user.is_active ≡ true
    pub free : is_free body.username w.db.tables.users ≡ true
    pub added : w'.db.tables ≡ record (w.db.tables) { users = w.db.tables.users ++ user ∷ [] }

  limit-db :
      (w : World Store)
      → (check_rate_limit p.redis p.texts remote "register" (pos 10) (pos 300) w).1.db ≡ w.db
  unfolding check_rate_limit
  limit-db w = ground arith

  find-tables :
      (name : String) (w : World Store)
      → (statement (find_user_by_username name) w).1.db.tables ≡ w.db.tables
  unfolding find_user_by_username
  find-tables name w = ground arith

  find-free :
      (name : String) (w : World Store)
      → (statement (find_user_by_username name) w).0 ≡ ok none
      → is_free name w.db.tables.users ≡ true
  unfolding find_user_by_username
  find-free name w h = ground (arith, find_row-none name w.db.tables.users)

  -- The row that `create_user` answers with stands at the end of the table.
  record Created (name email hash : String) (user : UserRow) (w w' : World Store) : Type 0 where
    same_name : user.username ≡ name
    same_email : user.email ≡ email
    same_hash : user.password_hash ≡ hash
    one_factor : (user.mfa_enabled ≡ false) × (user.mfa_secret ≡ none)
    active : user.is_active ≡ true
    added : w'.db.tables ≡ record (w.db.tables) { users = w.db.tables.users ++ user ∷ [] }

  create-Created :
      (name email hash : String) (user : UserRow) (w w' : World Store)
      → statement (create_user name email hash) w ≡ (ok user, w')
      → Created name email hash user w w'
  unfolding create_user
  create-Created name email hash user w w' h = ground arith

  hash_password-inv :
      (password hash : String)
      → hash_password p.argon2 salt password ≡ ok hash
      → p.argon2.hash salt password ≡ ok hash
  unfolding hash_password
  hash_password-inv password hash h = map_err-inv _ _ h

  register_user-ok :
      (body : RegisterBody) (user : UserRow) (w w' : World Store)
      → register_user p remote salt body w ≡ (ok user, w')
      → (hash : String) × (v : World Store) × (is_free body.username w.db.tables.users ≡ true)
        × (v.db.tables ≡ w.db.tables)
        × (hash_password p.argon2 salt body.password ≡ ok hash)
        × Created body.username body.email hash user v w'
  unfolding register_user create_account
  register_user-ok body user w w' h =
      let (found, v, q, h1) = bind-inv (statement (find_user_by_username body.username) w) _ h in
      elim (Option-cases found) [
        | inr (old, r) ↦ absurd (ground arith)
        | inl r ↦
            let (hash, v', made, h2) =
              bind-inv (lift (hash_password p.argon2 salt body.password) v) _ (rw r at h1) in
            (
              hash,
              v',
              find-free body.username w (ap (λ s. s.0) q ∙ ap (λ o. ok o) r),
              sym (ap (λ s. s.1.db.tables) made)
                  ∙ sym (ap (λ s. s.1.db.tables) q)
                  ∙ find-tables body.username w,
              ap (λ s. s.0) made,
              create-Created body.username body.email hash user v' w' h2,
            )
      ]

  check_length-ok :
      (body : RegisterBody) (user : UserRow) (w w' : World Store)
      → check_length p remote salt body w ≡ (ok user, w')
      → (12 ≤ byte_len body.password) × (register_user p remote salt body w ≡ (ok user, w'))
  unfolding check_length
  check_length-ok body user w w' h = elim (Bool-cases (ltb (byte_len body.password) 12)) [
    | inl t ↦ absurd (ground arith)
    | inr t ↦ (ground arith, rw t at h)
  ]

  -- A registration that is granted has a password of 12 bytes or more and a name that was free, and
  -- has added exactly one row to the database: the user with the name, the address and the hash of
  -- the password, active and without a second factor.
  pub handle_register-Registered :
      (req : Request) (user : UserRow) (w w' : World Store)
      → handle_register p remote salt req w ≡ (ok user, w')
      → Registered req user w w'
  unfolding handle_register
  handle_register-Registered req user w w' h =
      let (_, w1, q1, h1) =
        bind-inv (check_rate_limit p.redis p.texts remote "register" (pos 10) (pos 300) w) _ h in
      let (text, w2, q2, h2) = bind-inv (lift (ok_or req.body internal_error) w1) _ h1 in
      let (body, w3, q3, h3) =
        bind-inv
          (lift
            (ok_or (p.bodies.parse_register text) (authentication_failed "invalid request body"))
            w2)
          _ h2 in
      let (long, made) = check_length-ok body user w3 w' h3 in
      let (hash, v, free, same, hashed, c) = register_user-ok body user w3 w' made in
      let kept : w3.db ≡ w.db =
        sym (ap (λ s. s.1.db) q3)
        ∙ sym (ap (λ s. s.1.db) q2)
        ∙ sym (ap (λ s. s.1.db) q1)
        ∙ limit-db w in
      record {
        text = text;
        read = ok_or-inv _ _ q2;
        body = body;
        parsed = ok_or-inv _ _ q3;
        long = long;
        hashed = hash_password-inv body.password _ hashed ∙ ap (λ x. ok x) (sym c.same_hash);
        same_name = c.same_name;
        same_email = c.same_email;
        one_factor = c.one_factor;
        active = c.active;
        free = subst (λ d. is_free body.username d.tables.users ≡ true) kept free;
        added =
            c.added
            ∙ ap (λ (t : Tables). record t { users = t.users ++ user ∷ [] })
                (same ∙ ap (λ d. d.tables) kept);
      }

  -- Whoever has registered is found by name, if the next statement is not refused.
  pub find_user-handle_register :
      (req : Request) (user : UserRow) (w w' : World Store)
      → handle_register p remote salt req w ≡ (ok user, w')
      → w'.db.outages w'.db.statements ≡ none
      → (statement (find_user_by_username user.username) w').0 ≡ ok (some user)
  unfolding find_user_by_username
  find_user-handle_register req user w w' h up =
      let r = handle_register-Registered req user w w' h in
      let free : is_free user.username w.db.tables.users ≡ true = rw r.same_name r.free in
      let users = ap (λ (t : Tables). t.users) r.added in
      ground (arith, find_row-append user w.db.tables.users free)
