-- ===== src/Auth/Passkey/Ceremonies.antt =====
-- src/auth/webauthn.rs: `WebauthnManager`, the two ceremonies, and `refresh_passkey`. The crates
-- webauthn_rs and url are a parameter, whose errors are their printed text; the random bytes of a
-- challenge are an argument.
pub mod Refresh
use Prim.Native.String.{◌++◌ as ◌<>◌}
use zero_trust_proxy.Common.{String, Option, some, List, [], ◌∷◌, map}
use zero_trust_proxy.Config.{WebauthnConfig}
use zero_trust_proxy.Error.{
  ProxyError, authentication_failed, Result, ok, err, ProxyResult, map_err, ◌>>=◌,
}
use zero_trust_proxy.Auth.Passkey.{Credentials, PasskeyRecord, PasskeyStore}

-- The types of the crate that the proxy hands on.
pub record Types : Type 1 where
  pub Url : Type 0
  pub Builder : Type 0
  pub Webauthn : Type 0
  pub Passkey : Type 0
  pub AuthenticationResult : Type 0
  pub CreationChallengeResponse : Type 0
  pub PasskeyRegistration : Type 0
  pub RegisterPublicKeyCredential : Type 0
  pub RequestChallengeResponse : Type 0
  pub PasskeyAuthentication : Type 0
  pub PublicKeyCredential : Type 0

-- What the proxy calls of it.
pub record WebauthnRs (t : Types) : Type 0 where
  pub parse : String → Result String t.Url
  pub new : (rp_id : String) → t.Url → Result String t.Builder
  pub rp_name : t.Builder → String → t.Builder
  pub build : t.Builder → Result String t.Webauthn
  pub start_passkey_registration :
      t.Webauthn
      → (user_id username display_name : String) → Option (List String)
      → (random : String) → Result String (t.CreationChallengeResponse × t.PasskeyRegistration)
  pub finish_passkey_registration :
      t.Webauthn → t.RegisterPublicKeyCredential → t.PasskeyRegistration → Result String t.Passkey
  pub start_passkey_authentication :
      t.Webauthn
      → List t.Passkey
      → (random : String) → Result String (t.RequestChallengeResponse × t.PasskeyAuthentication)
  pub finish_passkey_authentication :
      t.Webauthn
      → t.PublicKeyCredential
      → t.PasskeyAuthentication
      → Result String t.AuthenticationResult

unfoldable pub ceremony_err : String → ProxyError
ceremony_err e = authentication_failed ("webauthn ceremony failed: " <> e)

module _ {t : Types} (webauthn_rs : WebauthnRs t) where
  -- `WebauthnManager::new`; the manager is what the builder has built.
  unfoldable pub new : WebauthnConfig → ProxyResult t.Webauthn
  new config = do
    rp_origin ←
        map_err (λ e. authentication_failed ("invalid webauthn rp_origin: " <> e))
          (webauthn_rs.parse config.rp_origin)
    builder ← map_err ceremony_err (webauthn_rs.new config.rp_id rp_origin)
    map_err ceremony_err (webauthn_rs.build (webauthn_rs.rp_name builder config.rp_name))

  unfoldable pub start_passkey_registration :
      Credentials t.Passkey t.AuthenticationResult
      → t.Webauthn
      → (user_id username display_name : String) → List t.Passkey
      → (random : String) → ProxyResult (t.CreationChallengeResponse × t.PasskeyRegistration)
  start_passkey_registration credentials webauthn user_id username display_name exclude random =
      let exclude_ids = map credentials.cred_id exclude in
      map_err ceremony_err (
        webauthn_rs.start_passkey_registration webauthn user_id username display_name
          (some exclude_ids) random)

  unfoldable pub finish_passkey_registration :
      t.Webauthn → t.RegisterPublicKeyCredential → t.PasskeyRegistration → ProxyResult t.Passkey
  finish_passkey_registration webauthn response state =
      map_err ceremony_err (webauthn_rs.finish_passkey_registration webauthn response state)

  unfoldable pub start_passkey_authentication :
      t.Webauthn
      → List t.Passkey
      → (random : String) → ProxyResult (t.RequestChallengeResponse × t.PasskeyAuthentication)
  start_passkey_authentication webauthn [] random =
      err (authentication_failed "no passkeys enrolled for this user")
  start_passkey_authentication webauthn (p ∷ ps) random =
      map_err ceremony_err (webauthn_rs.start_passkey_authentication webauthn (p ∷ ps) random)

  unfoldable pub finish_passkey_authentication :
      t.Webauthn
      → t.PublicKeyCredential
      → t.PasskeyAuthentication
      → ProxyResult t.AuthenticationResult
  finish_passkey_authentication webauthn response state =
      map_err ceremony_err (webauthn_rs.finish_passkey_authentication webauthn response state)

module _ {S P A : Type 0} (credentials : Credentials P A) (store : PasskeyStore S P) where
  -- The record is changed in place, whether the store takes the change or not.
  unfoldable pub refresh_passkey :
      PasskeyRecord P → A → S → ProxyResult (Unit {0}) × PasskeyRecord P × S
  refresh_passkey r result s =
      let refreshed = record r { passkey = credentials.update_credential result r.passkey } in
      let (answer, s') = store.update_passkey refreshed s in (answer, refreshed, s')
