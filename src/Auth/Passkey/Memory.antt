-- ===== src/Auth/Passkey/Memory.antt =====
-- src/auth/webauthn.rs: `InMemoryPasskeyStore`. The hash map is a list of entries; its order, which
-- a hash map does not fix, is used by none of the theorems.
pub mod Refines
use Prim.Native.String.{◌++◌ as ◌<>◌}
use zero_trust_proxy.Common.{String, Bool, Option, List, [], ◌∷◌, ◌++◌, map, is_some, if◌then◌else◌}
use zero_trust_proxy.Error.{authentication_failed, ok, err, ProxyResult}
use zero_trust_proxy.Auth.Passkey.{PasskeyRecord, PasskeyStore}
use zero_trust_proxy.Auth.Passkey.Keyed.{find_at, amend_at, drop_at, of_user}

abbrev pub Entry : Type 0 → Type 0
Entry P = (String × String) × PasskeyRecord P

-- `InMemoryPasskeyStore::key`.
abbrev pub key : (user_id cred_id : String) → String × String
key user_id cred_id = (user_id, cred_id)

module _ {P : Type 0} where
  abbrev pub entry_user : Entry P → String
  entry_user e = e.0.0

  abbrev pub entry_cred : Entry P → String
  entry_cred e = e.0.1

  abbrev pub is_known : PasskeyRecord P → List (Entry P) → Bool
  is_known r s = is_some (find_at entry_user entry_cred r.user_id r.cred_id s)

  -- `HashMap::insert` at an occupied key keeps the key and takes the value.
  abbrev pub occupied : PasskeyRecord P → Entry P → Entry P
  occupied r e = (e.0, r)

  unfoldable pub save_passkey :
      PasskeyRecord P → List (Entry P) → ProxyResult (Unit {0}) × List (Entry P)
  save_passkey r s = (
    ok tt,
    if is_known r s
        then amend_at entry_user entry_cred r.user_id r.cred_id (occupied r) s
        else s ++ (key r.user_id r.cred_id, r) ∷ [],
  )

  unfoldable pub get_passkeys :
      String → List (Entry P) → ProxyResult (List (PasskeyRecord P)) × List (Entry P)
  get_passkeys user_id s = (ok (map (λ e. e.1) (of_user entry_user entry_cred user_id s)), s)

  unfoldable pub update_passkey :
      PasskeyRecord P → List (Entry P) → ProxyResult (Unit {0}) × List (Entry P)
  update_passkey r s =
      if is_known r s
      then (ok tt, amend_at entry_user entry_cred r.user_id r.cred_id (occupied r) s)
      else (
        err (
            authentication_failed
              ("unknown passkey credential " <> r.cred_id <> " for user " <> r.user_id)),
        s,
      )

  unfoldable pub delete_passkey :
      (user_id cred_id : String) → List (Entry P) → ProxyResult (Unit {0}) × List (Entry P)
  delete_passkey user_id cred_id s = (ok tt, drop_at entry_user entry_cred user_id cred_id s)

  abbrev pub in_memory_store : PasskeyStore (List (Entry P)) P
  in_memory_store = record {
    save_passkey = save_passkey;
    get_passkeys = get_passkeys;
    update_passkey = update_passkey;
    delete_passkey = delete_passkey;
  }
