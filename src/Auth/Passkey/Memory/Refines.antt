-- ===== src/Auth/Passkey/Memory/Refines.antt =====
-- src/auth/webauthn.rs: the in-memory store implements what is asked of every store.
use mathlib.Core.Option
use zero_trust_proxy.Common.{
  ◌≡◌, refl, String, eq_iff, some, List, [], ◌∷◌, map, arith, All, inl, inr, Option-cases,
}
use zero_trust_proxy.Error.{ok}
use zero_trust_proxy.Auth.Passkey.{PasskeyRecord, View, changed, passkey_of, Implements}
use zero_trust_proxy.Auth.Passkey.Keyed.{
  find_at, amend_at, of_user, KeepsKey, find-amend, find-append, find-drop, amend_at-All,
  append-All, drop_at-All,
}
use zero_trust_proxy.Auth.Passkey.Memory.{
  Entry, entry_user, entry_cred, occupied, save_passkey, get_passkeys, update_passkey,
  delete_passkey, in_memory_store,
}

module _ {P : Type 0} where
  abbrev pub view : List (Entry P) → View P
  view s u c = Option.map (λ e. e.1.passkey) (find_at entry_user entry_cred u c s)

  -- Every record stands under its own key.
  abbrev pub IsKeyed : Entry P → Type 0
  IsKeyed e = (e.1.user_id ≡ e.0.0) × (e.1.cred_id ≡ e.0.1)

  abbrev pub IsValid : List (Entry P) → Type 0
  IsValid s = All IsKeyed s

  occupied-KeepsKey : (r : PasskeyRecord P) → KeepsKey entry_user entry_cred (occupied r)
  occupied-KeepsKey r = record { keeps_user = λ e. refl; keeps_cred = λ e. refl }

  view-save :
      (r : PasskeyRecord P) (s : List (Entry P)) (u c : String)
      → view (save_passkey r s).1 u c ≡ changed (view s) r.user_id r.cred_id (some r.passkey) u c
  unfolding save_passkey
  view-save r s u c = elim (Option-cases (find_at entry_user entry_cred r.user_id r.cred_id s)) [
    | inl q ↦ ground (arith, find-append entry_user entry_cred u c ((r.user_id, r.cred_id), r) s q)
    | inr (e, q) ↦ ground (
      arith,
      find-amend entry_user entry_cred r.user_id r.cred_id u c (occupied r) s (occupied-KeepsKey r),
    )
  ]

  view-update :
      (r : PasskeyRecord P) (s : List (Entry P)) (u c : String)
      → (update_passkey r s).0 ≡ ok tt
      → view (update_passkey r s).1 u c ≡ changed (view s) r.user_id r.cred_id (some r.passkey) u c
  unfolding update_passkey
  view-update r s u c h =
      elim (Option-cases (find_at entry_user entry_cred r.user_id r.cred_id s)) [
        | inl q ↦ absurd (ground arith)
        | inr (e, q) ↦ ground (
          arith,
          find-amend entry_user entry_cred r.user_id r.cred_id u c (occupied r) s
              (occupied-KeepsKey r),
        )
      ]

  passkey_of-view :
      (u c : String) (s : List (Entry P))
      → IsValid s
      → passkey_of c (map (λ e. e.1) (of_user entry_user entry_cred u s)) ≡ view s u c
  unfolding of_user find_at
  passkey_of-view u c [] v = refl
  passkey_of-view u c (e ∷ s) v =
      ground (arith, eq_iff e.1.cred_id c, eq_iff e.0.1 c, passkey_of-view u c s v.1)

  records_of :
      (u : String) (s : List (Entry P))
      → IsValid s
      → All (λ r. r.user_id ≡ u) (map (λ e. e.1) (of_user entry_user entry_cred u s))
  unfolding of_user
  records_of u [] v = tt
  records_of u (e ∷ s) v = ground (arith, eq_iff e.0.0 u, records_of u s v.1)

  amend-IsValid :
      (r : PasskeyRecord P) (s : List (Entry P))
      → IsValid s
      → IsValid (amend_at entry_user entry_cred r.user_id r.cred_id (occupied r) s)
  amend-IsValid r s v =
      amend_at-All entry_user entry_cred IsKeyed r.user_id r.cred_id (occupied r) s
        (λ e t h. ground (arith, eq_iff e.0.0 r.user_id, eq_iff e.0.1 r.cred_id)) v

  save-IsValid :
      (r : PasskeyRecord P) (s : List (Entry P)) → IsValid s → IsValid (save_passkey r s).1
  unfolding save_passkey
  save-IsValid r s v = elim (Option-cases (find_at entry_user entry_cred r.user_id r.cred_id s)) [
    | inl q ↦
        rw q (append-All entry_user entry_cred IsKeyed ((r.user_id, r.cred_id), r) s (refl, refl) v)
    | inr (e, q) ↦ rw q (amend-IsValid r s v)
  ]

  update-IsValid :
      (r : PasskeyRecord P) (s : List (Entry P)) → IsValid s → IsValid (update_passkey r s).1
  unfolding update_passkey
  update-IsValid r s v = elim (Option-cases (find_at entry_user entry_cred r.user_id r.cred_id s)) [
    | inl q ↦ rw q v
    | inr (e, q) ↦ rw q (amend-IsValid r s v)
  ]

  -- The in-memory store does what is asked of every store.
  pub in_memory_store-Implements : Implements in_memory_store view IsValid
  unfolding save_passkey get_passkeys update_passkey delete_passkey
  in_memory_store-Implements = record {
    save_ok = λ r s u c v h. view-save r s u c;
    save_err = λ r s e h. absurd (ground arith);
    update_ok = λ r s u c v h. view-update r s u c h;
    update_err = λ r s e h. inl (ground arith);
    update_unknown = λ r s v q h. ground arith;
    delete_ok = λ user_id cred_id s u c v h.
        ground (arith, find-drop entry_user entry_cred user_id cred_id u c s);
    delete_err = λ user_id cred_id s e h. absurd (ground arith);
    get_ok = λ u c s rs v h.
        let same : map (λ e. e.1) (of_user entry_user entry_cred u s) ≡ rs = ground arith in
        rw (← same) (passkey_of-view u c s v, records_of u s v);
    get_keeps = λ u s. refl;
    save_IsValid = λ r s v. save-IsValid r s v;
    update_IsValid = λ r s v. update-IsValid r s v;
    delete_IsValid =
        λ user_id cred_id s v. drop_at-All entry_user entry_cred IsKeyed user_id cred_id s v;
    get_IsValid = λ u s v. v;
  }
