-- ===== src/Auth/Passkey/Ceremonies/Refresh.antt =====
-- src/auth/webauthn.rs: a refreshed credential in any store that keeps the promises of
-- `Implements`,
-- and the start of a login for a user without credentials.
use zero_trust_proxy.Common.{
  ◌≡◌, ◌≢◌, refl, ◌∙◌, String, ◌==◌, eq_refl, none, some, if◌then◌else◌, List, [], ◌∷◌, map, arith,
}
use zero_trust_proxy.Error.{authentication_failed, ok, err}
use zero_trust_proxy.Auth.Passkey.{
  Credentials, PasskeyRecord, PasskeyStore, View, passkey_of, Implements,
}
use zero_trust_proxy.Auth.Passkey.Ceremonies.{
  Types, WebauthnRs, start_passkey_authentication, refresh_passkey,
}

module _ {S P : Type 0} {store : PasskeyStore S P} {view : S → View P} {IsValid : S → Type 0}
    (promises : Implements store view IsValid) where
  -- A refresh that succeeds was one of an enrolled credential, and the next list of the user's
  -- credentials that the store answers shows it as the authentication result has advanced it, and
  -- every other credential of the user as it was, for any store that keeps the promises.
  pub refresh_passkey-get_passkeys :
      {A : Type 0} (credentials : Credentials P A) (r : PasskeyRecord P) (result : A) (s : S)
      (c : String) (rs : List (PasskeyRecord P))
      → IsValid s
      → (refresh_passkey credentials store r result s).0 ≡ ok tt
      → (store.get_passkeys r.user_id (refresh_passkey credentials store r result s).2).0 ≡ ok rs
      → (view s r.user_id r.cred_id ≢ none)
        × (passkey_of c rs ≡ (
            if c == r.cred_id
            then some (credentials.update_credential result r.passkey)
            else view s r.user_id c))
  unfolding refresh_passkey
  refresh_passkey-get_passkeys credentials r result s c rs v h got =
      let refreshed : PasskeyRecord P = record r {
        passkey = credentials.update_credential result r.passkey;
      } in
      let s' = (store.update_passkey refreshed s).1 in
      let v' = promises.update_IsValid refreshed s v in
      (
        λ q. promises.update_unknown refreshed s v q h,
        (promises.get_ok r.user_id c s' rs v' got).0
            ∙ promises.update_ok refreshed s r.user_id c v h
            ∙ ground (arith, eq_refl r.user_id),
      )

  -- A user without credentials in a valid store that answers cannot start a login, for any store
  -- that keeps the promises.
  pub start_passkey_authentication-none :
      {t : Types} (webauthn_rs : WebauthnRs t) (webauthn : t.Webauthn) (random u : String) (s : S)
      (rs : List (PasskeyRecord P)) (passkey : P → t.Passkey)
      → IsValid s
      → ((c : String) → view s u c ≡ none)
      → (store.get_passkeys u s).0 ≡ ok rs
      → start_passkey_authentication webauthn_rs webauthn (map (λ r. passkey r.passkey) rs) random
        ≡ err (authentication_failed "no passkeys enrolled for this user")
  unfolding start_passkey_authentication
  start_passkey_authentication-none webauthn_rs webauthn random u s [] passkey v h got = refl
  start_passkey_authentication-none webauthn_rs webauthn random u s (r ∷ rs) passkey v h got =
      let shown = (promises.get_ok u r.cred_id s (r ∷ rs) v got).0 ∙ h r.cred_id in
      absurd (ground (arith, shown, eq_refl r.cred_id))
