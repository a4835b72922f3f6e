-- ===== src/Auth/Passkey/Handle/Refines.antt =====
-- src/auth/passkey_store_pg.rs: the selected store does what is asked of every store.
use zero_trust_proxy.Common.{◌≡◌, ◌≢◌, String, none, some, List, All}
use zero_trust_proxy.Error.{ProxyError, ok, err}
use zero_trust_proxy.World.{Codec, RoundTrips}
use zero_trust_proxy.Auth.Passkey.{
  PasskeyRecord, View, changed, KeptOrChanged, passkey_of, Implements,
}
use zero_trust_proxy.Auth.Passkey.Memory.Refines as InMemory
use zero_trust_proxy.Auth.Passkey.Postgres.Refines as Table
use zero_trust_proxy.Auth.Passkey.Handle.{
  PasskeyStoreHandle, save_passkey, get_passkeys, update_passkey, delete_passkey, passkey_store,
}

module _ {P : Type 0} (json : Codec P) (codec : RoundTrips json) where
  abbrev pub view : PasskeyStoreHandle P → View P
  view (PasskeyStoreHandle.postgres t) = Table.view json codec t
  view (PasskeyStoreHandle.memory s) = InMemory.view s

  abbrev pub IsValid : PasskeyStoreHandle P → Type 0
  IsValid (PasskeyStoreHandle.postgres t) = Table.IsValid json codec t
  IsValid (PasskeyStoreHandle.memory s) = InMemory.IsValid s

  save-ok :
      (r : PasskeyRecord P) (s : PasskeyStoreHandle P) (u c : String)
      → IsValid s
      → (save_passkey json r s).0 ≡ ok tt
      → view (save_passkey json r s).1 u c
        ≡ changed (view s) r.user_id r.cred_id (some r.passkey) u c
  unfolding save_passkey
  save-ok r (PasskeyStoreHandle.postgres s) u c v h =
      (Table.postgres_store-Implements json codec).save_ok r s u c v h
  save-ok r (PasskeyStoreHandle.memory s) u c v h =
      (InMemory.in_memory_store-Implements).save_ok r s u c v h

  save-err :
      (r : PasskeyRecord P) (s : PasskeyStoreHandle P) (e : ProxyError)
      → (save_passkey json r s).0 ≡ err e
      → KeptOrChanged (view s) (view (save_passkey json r s).1) r.user_id r.cred_id (some r.passkey)
  unfolding save_passkey
  save-err r (PasskeyStoreHandle.postgres s) e h =
      (Table.postgres_store-Implements json codec).save_err r s e h
  save-err r (PasskeyStoreHandle.memory s) e h =
      (InMemory.in_memory_store-Implements).save_err r s e h

  save-IsValid :
      (r : PasskeyRecord P) (s : PasskeyStoreHandle P)
      → IsValid s
      → IsValid (save_passkey json r s).1
  unfolding save_passkey
  save-IsValid r (PasskeyStoreHandle.postgres s) v =
      (Table.postgres_store-Implements json codec).save_IsValid r s v
  save-IsValid r (PasskeyStoreHandle.memory s) v =
      (InMemory.in_memory_store-Implements).save_IsValid r s v

  update-ok :
      (r : PasskeyRecord P) (s : PasskeyStoreHandle P) (u c : String)
      → IsValid s
      → (update_passkey json r s).0 ≡ ok tt
      → view (update_passkey json r s).1 u c
        ≡ changed (view s) r.user_id r.cred_id (some r.passkey) u c
  unfolding update_passkey
  update-ok r (PasskeyStoreHandle.postgres s) u c v h =
      (Table.postgres_store-Implements json codec).update_ok r s u c v h
  update-ok r (PasskeyStoreHandle.memory s) u c v h =
      (InMemory.in_memory_store-Implements).update_ok r s u c v h

  update-err :
      (r : PasskeyRecord P) (s : PasskeyStoreHandle P) (e : ProxyError)
      → (update_passkey json r s).0 ≡ err e
      → KeptOrChanged
          (view s)
          (view (update_passkey json r s).1)
          r.user_id
          r.cred_id
          (some r.passkey)
  unfolding update_passkey
  update-err r (PasskeyStoreHandle.postgres s) e h =
      (Table.postgres_store-Implements json codec).update_err r s e h
  update-err r (PasskeyStoreHandle.memory s) e h =
      (InMemory.in_memory_store-Implements).update_err r s e h

  update-IsValid :
      (r : PasskeyRecord P) (s : PasskeyStoreHandle P)
      → IsValid s
      → IsValid (update_passkey json r s).1
  unfolding update_passkey
  update-IsValid r (PasskeyStoreHandle.postgres s) v =
      (Table.postgres_store-Implements json codec).update_IsValid r s v
  update-IsValid r (PasskeyStoreHandle.memory s) v =
      (InMemory.in_memory_store-Implements).update_IsValid r s v

  update-unknown :
      (r : PasskeyRecord P) (s : PasskeyStoreHandle P)
      → IsValid s
      → view s r.user_id r.cred_id ≡ none
      → (update_passkey json r s).0 ≢ ok tt
  unfolding update_passkey
  update-unknown r (PasskeyStoreHandle.postgres s) v h =
      (Table.postgres_store-Implements json codec).update_unknown r s v h
  update-unknown r (PasskeyStoreHandle.memory s) v h =
      (InMemory.in_memory_store-Implements).update_unknown r s v h

  delete-ok :
      (user_id cred_id : String) (s : PasskeyStoreHandle P) (u c : String)
      → IsValid s
      → (delete_passkey json user_id cred_id s).0 ≡ ok tt
      → view (delete_passkey json user_id cred_id s).1 u c
        ≡ changed (view s) user_id cred_id none u c
  unfolding delete_passkey
  delete-ok user_id cred_id (PasskeyStoreHandle.postgres s) u c v h =
      (Table.postgres_store-Implements json codec).delete_ok user_id cred_id s u c v h
  delete-ok user_id cred_id (PasskeyStoreHandle.memory s) u c v h =
      (InMemory.in_memory_store-Implements).delete_ok user_id cred_id s u c v h

  delete-err :
      (user_id cred_id : String) (s : PasskeyStoreHandle P) (e : ProxyError)
      → (delete_passkey json user_id cred_id s).0 ≡ err e
      → KeptOrChanged (view s) (view (delete_passkey json user_id cred_id s).1) user_id cred_id none
  unfolding delete_passkey
  delete-err user_id cred_id (PasskeyStoreHandle.postgres s) e h =
      (Table.postgres_store-Implements json codec).delete_err user_id cred_id s e h
  delete-err user_id cred_id (PasskeyStoreHandle.memory s) e h =
      (InMemory.in_memory_store-Implements).delete_err user_id cred_id s e h

  delete-IsValid :
      (user_id cred_id : String) (s : PasskeyStoreHandle P)
      → IsValid s
      → IsValid (delete_passkey json user_id cred_id s).1
  unfolding delete_passkey
  delete-IsValid user_id cred_id (PasskeyStoreHandle.postgres s) v =
      (Table.postgres_store-Implements json codec).delete_IsValid user_id cred_id s v
  delete-IsValid user_id cred_id (PasskeyStoreHandle.memory s) v =
      (InMemory.in_memory_store-Implements).delete_IsValid user_id cred_id s v

  get-ok :
      (u c : String) (s : PasskeyStoreHandle P) (rs : List (PasskeyRecord P))
      → IsValid s
      → (get_passkeys json u s).0 ≡ ok rs
      → (passkey_of c rs ≡ view s u c) × All (λ r. r.user_id ≡ u) rs
  unfolding get_passkeys
  get-ok u c (PasskeyStoreHandle.postgres s) rs v h =
      (Table.postgres_store-Implements json codec).get_ok u c s rs v h
  get-ok u c (PasskeyStoreHandle.memory s) rs v h =
      InMemory.in_memory_store-Implements.get_ok u c s rs v h

  get-keeps : (u : String) (s : PasskeyStoreHandle P) → view (get_passkeys json u s).1 ≡ view s
  unfolding get_passkeys
  get-keeps u (PasskeyStoreHandle.postgres s) =
      (Table.postgres_store-Implements json codec).get_keeps u s
  get-keeps u (PasskeyStoreHandle.memory s) = (InMemory.in_memory_store-Implements).get_keeps u s

  get-IsValid :
      (u : String) (s : PasskeyStoreHandle P) → IsValid s → IsValid (get_passkeys json u s).1
  unfolding get_passkeys
  get-IsValid u (PasskeyStoreHandle.postgres s) v =
      (Table.postgres_store-Implements json codec).get_IsValid u s v
  get-IsValid u (PasskeyStoreHandle.memory s) v =
      (InMemory.in_memory_store-Implements).get_IsValid u s v

  -- Whichever store the configuration selects, in memory or in Postgres, and as long as its
  -- credentials read back and stand under their own keys, which every operation preserves: a
  -- finished save, update or deletion sets or removes the credential of its user and id and no
  -- other; a failed one has done that or nothing, since a statement of Postgres may be refused or
  -- its answer lost; an update of an unknown credential fails; and the credentials listed for a
  -- user are those of the store, under the name of the user, over any codec that reads back what
  -- it prints. That a save is refused where there is a credential is not claimed.
  pub passkey_store-Implements : Implements (passkey_store json) view IsValid
  passkey_store-Implements = record {
    save_ok = save-ok;
    save_err = save-err;
    update_ok = update-ok;
    update_err = update-err;
    update_unknown = update-unknown;
    delete_ok = delete-ok;
    delete_err = delete-err;
    get_ok = get-ok;
    get_keeps = get-keeps;
    save_IsValid = save-IsValid;
    update_IsValid = update-IsValid;
    delete_IsValid = delete-IsValid;
    get_IsValid = get-IsValid;
  }
