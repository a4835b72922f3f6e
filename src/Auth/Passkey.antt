-- ===== src/Auth/Passkey.antt =====
-- src/auth/webauthn.rs: passkey credentials, the interface of their stores, and what
-- every store promises its callers.
-- The crates webauthn_rs and base64 are parameters.
pub mod Ceremonies
pub mod Handle
pub mod Keyed
pub mod Memory
pub mod Postgres
use zero_trust_proxy.Common.{
  ◌≡◌, ◌≢◌, ◌⊎◌, String, ◌==◌, Bool, ◌&&◌, Option, none, some, List, [], ◌∷◌, All, if◌then◌else◌,
}
use zero_trust_proxy.Error.{ProxyError, ok, err, ProxyResult}

-- The credential identifier in bytes, its base64url text, and the counter update.
pub record Credentials (Passkey AuthenticationResult : Type 0) : Type 0 where
  pub cred_id : Passkey → String
  pub encode : String → String
  pub update_credential : AuthenticationResult → Passkey → Passkey

pub record PasskeyRecord (Passkey : Type 0) : Type 0 where
  pub user_id : String
  pub cred_id : String
  pub passkey : Passkey

-- `PasskeyRecord::new`.
unfoldable pub new :
    {Passkey Result : Type 0}
    → Credentials Passkey Result
    → String
    → Passkey
    → PasskeyRecord Passkey
new credentials user_id passkey = record {
  user_id = user_id;
  cred_id = credentials.encode (credentials.cred_id passkey);
  passkey = passkey;
}

-- The trait `PasskeyStore`, over the state of a store.
pub record PasskeyStore (State Passkey : Type 0) : Type 0 where
  pub save_passkey : PasskeyRecord Passkey → State → ProxyResult (Unit {0}) × State
  pub get_passkeys : String → State → ProxyResult (List (PasskeyRecord Passkey)) × State
  pub update_passkey : PasskeyRecord Passkey → State → ProxyResult (Unit {0}) × State
  pub delete_passkey : (user_id cred_id : String) → State → ProxyResult (Unit {0}) × State

-- What a store holds, as a function of the user and the credential.
abbrev pub View : Type 0 → Type 0
View Passkey = String → String → Option Passkey

abbrev pub changed : {P : Type 0} → View P → (user_id cred_id : String) → Option P → View P
changed v user_id cred_id x u c = if u == user_id && c == cred_id then x else v u c

abbrev pub passkey_of : {P : Type 0} → String → List (PasskeyRecord P) → Option P
passkey_of c [] = none
passkey_of c (r ∷ rs) = if r.cred_id == c then some r.passkey else passkey_of c rs

-- What a failed operation leaves: what there was, or what the operation is for, as when the answer
-- of a database is lost.
abbrev pub KeptOrChanged :
    {P : Type 0} → (before after : View P) → (user_id cred_id : String) → Option P → Type 0
KeptOrChanged before after user_id cred_id x =
    (after ≡ before) ⊎ ((u c : String) → after u c ≡ changed before user_id cred_id x u c)

-- What every store promises its callers: a finished operation changes the view at one key, a failed
-- one changes that or nothing, an update of an unknown credential fails, and a user's credentials
-- are exactly those of the view, under the user's name. The trait's comment calls the pair of user
-- and credential unique; that a second save at one key fails is not asked for here, since the
-- in-memory store replaces.
pub record Implements {S P : Type 0} (store : PasskeyStore S P) (view : S → View P)
    (IsValid : S → Type 0) : Type 0 where
  pub save_ok :
      (r : PasskeyRecord P) (s : S) (u c : String)
      → IsValid s
      → (store.save_passkey r s).0 ≡ ok tt
      → view (store.save_passkey r s).1 u c
        ≡ changed (view s) r.user_id r.cred_id (some r.passkey) u c
  pub save_err :
      (r : PasskeyRecord P) (s : S) (e : ProxyError)
      → (store.save_passkey r s).0 ≡ err e
      → KeptOrChanged
          (view s)
          (view (store.save_passkey r s).1)
          r.user_id
          r.cred_id
          (some r.passkey)
  pub update_ok :
      (r : PasskeyRecord P) (s : S) (u c : String)
      → IsValid s
      → (store.update_passkey r s).0 ≡ ok tt
      → view (store.update_passkey r s).1 u c
        ≡ changed (view s) r.user_id r.cred_id (some r.passkey) u c
  pub update_err :
      (r : PasskeyRecord P) (s : S) (e : ProxyError)
      → (store.update_passkey r s).0 ≡ err e
      → KeptOrChanged
          (view s)
          (view (store.update_passkey r s).1)
          r.user_id
          r.cred_id
          (some r.passkey)
  pub update_unknown :
      (r : PasskeyRecord P) (s : S)
      → IsValid s
      → view s r.user_id r.cred_id ≡ none
      → (store.update_passkey r s).0 ≢ ok tt
  pub delete_ok :
      (user_id cred_id : String) (s : S) (u c : String)
      → IsValid s
      → (store.delete_passkey user_id cred_id s).0 ≡ ok tt
      → view (store.delete_passkey user_id cred_id s).1 u c
        ≡ changed (view s) user_id cred_id none u c
  pub delete_err :
      (user_id cred_id : String) (s : S) (e : ProxyError)
      → (store.delete_passkey user_id cred_id s).0 ≡ err e
      → KeptOrChanged
          (view s)
          (view (store.delete_passkey user_id cred_id s).1)
          user_id
          cred_id
          none
  pub get_ok :
      (u c : String) (s : S) (rs : List (PasskeyRecord P))
      → IsValid s
      → (store.get_passkeys u s).0 ≡ ok rs
      → (passkey_of c rs ≡ view s u c) × All (λ r. r.user_id ≡ u) rs
  pub get_keeps : (u : String) (s : S) → view (store.get_passkeys u s).1 ≡ view s
  pub save_IsValid : (r : PasskeyRecord P) (s : S) → IsValid s → IsValid (store.save_passkey r s).1
  pub update_IsValid :
      (r : PasskeyRecord P) (s : S) → IsValid s → IsValid (store.update_passkey r s).1
  pub delete_IsValid :
      (user_id cred_id : String) (s : S)
      → IsValid s
      → IsValid (store.delete_passkey user_id cred_id s).1
  pub get_IsValid : (u : String) (s : S) → IsValid s → IsValid (store.get_passkeys u s).1
