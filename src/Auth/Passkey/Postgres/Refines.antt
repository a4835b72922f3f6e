-- ===== src/Auth/Passkey/Postgres/Refines.antt =====
-- src/auth/passkey_store_pg.rs: the Postgres store implements what is asked of every
-- store.
use zero_trust_proxy.Common.{
  ◌≡◌, ◌≢◌, refl, sym, subst, String, ◌==◌, eq_iff, Option, none, some, List, [], ◌∷◌, arith, All,
  inl, inr, Bool-cases,
}
use zero_trust_proxy.Clock.{DateTime}
use zero_trust_proxy.Error.{ok, to_option, Result-cases}
use zero_trust_proxy.World.{Codec, RoundTrips}
use zero_trust_proxy.Auth.Passkey.{PasskeyRecord, View, changed, passkey_of, Implements}
use zero_trust_proxy.Auth.Passkey.Keyed.{
  find_at, drop_at, of_user, KeepsKey, find-amend, find-append, find-drop, amend_at-All, append-All,
  drop_at-All,
}
use zero_trust_proxy.Auth.Passkey.Postgres.{
  TableRow, PasskeyTable, row_user, row_cred, fresh_row, stamped, update_row, record_of, records_of,
  save_passkey, get_passkeys, update_passkey, delete_passkey, postgres_store,
}
use zero_trust_proxy.Auth.Passkey.Postgres.Rows.{
  Saved, Updated, save-rows, update-rows, delete-rows,
}

module _ {P : Type 0} (json : Codec P) (codec : RoundTrips json) where
  abbrev decoded : Option TableRow → Option P
  decoded none = none
  decoded (some row) = to_option (json.from_str row.passkey)

  abbrev pub view : PasskeyTable → View P
  view t u c = decoded (find_at row_user row_cred u c t.rows)

  -- The column of a row holds a credential.
  abbrev pub Decodes : TableRow → Type 0
  Decodes row = (x : P) × (json.from_str row.passkey ≡ ok x)

  abbrev pub IsValid : PasskeyTable → Type 0
  IsValid t = All Decodes t.rows

  stamped-KeepsKey :
      (text : String) (now : DateTime) → KeepsKey row_user row_cred (stamped json text now)
  stamped-KeepsKey text now = record { keeps_user = λ r. refl; keeps_cred = λ r. refl }

  view-Saved :
      (r : PasskeyRecord P) (t t' : PasskeyTable) (u c : String)
      → Saved json r t.rows t'.rows
      → view t' u c ≡ changed (view t) r.user_id r.cred_id (some r.passkey) u c
  view-Saved r t t' u c (text, q, found, same) = rw same (
      ground (
        arith,
        codec.round_trip r.passkey text q,
        find-append row_user row_cred u c (fresh_row json r text) t.rows found,
      ))

  view-Updated :
      (r : PasskeyRecord P) (t t' : PasskeyTable) (u c : String)
      → Updated json r t.rows t'.rows
      → view t' u c ≡ changed (view t) r.user_id r.cred_id (some r.passkey) u c
  view-Updated r t t' u c (text, now, q, (row, found), same) = rw same (
      ground (
        arith,
        codec.round_trip r.passkey text q,
        find-amend row_user row_cred r.user_id r.cred_id u c (stamped json text now) t.rows
            (stamped-KeepsKey text now),
      ))

  view-drop :
      (user_id cred_id : String) (t t' : PasskeyTable) (u c : String)
      → t'.rows ≡ drop_at row_user row_cred user_id cred_id t.rows
      → view t' u c ≡ changed (view t) user_id cred_id none u c
  view-drop user_id cred_id t t' u c same =
      rw same (ground (arith, find-drop row_user row_cred user_id cred_id u c t.rows))

  -- A valid table that does not show a credential has no row of it.
  find-none :
      (u c : String) (rows : List TableRow)
      → All Decodes rows
      → decoded (find_at row_user row_cred u c rows) ≡ none
      → find_at row_user row_cred u c rows ≡ none
  unfolding find_at
  find-none u c [] v h = refl
  find-none u c (row ∷ rows) ((x, q), v) h = ground (arith, find-none u c rows v)

  update-unknown :
      (r : PasskeyRecord P) (t : PasskeyTable)
      → IsValid t
      → view t r.user_id r.cred_id ≡ none
      → (update_passkey json r t).0 ≢ ok tt
  unfolding update_passkey update_row
  update-unknown r t v h k = let found = find-none r.user_id r.cred_id t.rows v h in ground arith

  -- The records of a user's rows.
  records_of-view :
      (u c : String) (rows : List TableRow) (rs : List (PasskeyRecord P))
      → All Decodes rows
      → records_of json (of_user row_user row_cred u rows) ≡ ok rs
      → (passkey_of c rs ≡ decoded (find_at row_user row_cred u c rows))
        × All (λ r. r.user_id ≡ u) rs
  unfolding of_user find_at records_of record_of
  records_of-view u c [] rs v h = let same : [] ≡ rs = ground arith in rw (← same) (refl, tt)
  records_of-view u c (row ∷ rows) rs ((x, q), v) h = elim (Bool-cases (row.user_id == u)) [
    | inr other ↦
        let (shown, own) = records_of-view u c rows rs v (ground arith) in (ground arith, own)
    | inl mine ↦ elim (Result-cases (records_of json (of_user row_user row_cred u rows))) [
      | inr (e, r) ↦ absurd (ground arith)
      | inl (rest, r) ↦
          let first : PasskeyRecord P = record {
            user_id = row.user_id;
            cred_id = row.cred_id;
            passkey = x;
          } in
          let same : first ∷ rest ≡ rs = ground arith in
          let (shown, own) = records_of-view u c rows rest v r in
          rw (← same) (ground arith, ((eq_iff row.user_id u).0 mine, own))
    ]
  ]

  get-ok :
      (u c : String) (t : PasskeyTable) (rs : List (PasskeyRecord P))
      → IsValid t
      → (get_passkeys json u t).0 ≡ ok rs
      → (passkey_of c rs ≡ view t u c) × All (λ r. r.user_id ≡ u) rs
  unfolding get_passkeys
  get-ok u c t rs v h = records_of-view u c t.rows rs v (ground arith)

  get-rows : (u : String) (t : PasskeyTable) → (get_passkeys json u t).1.rows ≡ t.rows
  unfolding get_passkeys
  get-rows u t = ground arith

  -- Every statement leaves rows that decode.
  save-IsValid :
      (r : PasskeyRecord P) (t : PasskeyTable) → IsValid t → IsValid (save_passkey json r t).1
  save-IsValid r t v = elim (save-rows json r t) [
    | inl (fails, kept) ↦ subst (All Decodes) (sym kept) v
    | inr (text, q, found, rows) ↦ subst (All Decodes) (sym rows) (
        append-All row_user row_cred Decodes (fresh_row json r text) t.rows
          (r.passkey, codec.round_trip r.passkey text q) v)
  ]

  update-IsValid :
      (r : PasskeyRecord P) (t : PasskeyTable) → IsValid t → IsValid (update_passkey json r t).1
  update-IsValid r t v = elim (update-rows json r t) [
    | inl (fails, kept) ↦ subst (All Decodes) (sym kept) v
    | inr (text, now, q, found, rows) ↦ subst (All Decodes) (sym rows) (
        amend_at-All row_user row_cred Decodes r.user_id r.cred_id (stamped json text now) t.rows
          (λ row here old. (r.passkey, codec.round_trip r.passkey text q)) v)
  ]

  delete-IsValid :
      (user_id cred_id : String) (t : PasskeyTable)
      → IsValid t
      → IsValid (delete_passkey json user_id cred_id t).1
  delete-IsValid user_id cred_id t v = elim (delete-rows json user_id cred_id t) [
    | inl (fails, kept) ↦ subst (All Decodes) (sym kept) v
    | inr rows ↦
        subst (All Decodes) (sym rows)
          (drop_at-All row_user row_cred Decodes user_id cred_id t.rows v)
  ]

  -- The same rows show the same credentials.
  view-rows : (t t' : PasskeyTable) → t'.rows ≡ t.rows → view t' ≡ view t
  view-rows t t' same = λ i u c. decoded (find_at row_user row_cred u c (same i))

  -- The Postgres store does what is asked of every store, over any codec that reads back what it
  -- prints.
  pub postgres_store-Implements : Implements (postgres_store json) view IsValid
  postgres_store-Implements = record {
    save_ok = λ r t u c v h. elim (save-rows json r t) [
      | inl (fails, kept) ↦ absurd (fails h)
      | inr rows ↦ view-Saved r t (save_passkey json r t).1 u c rows
    ];
    save_err = λ r t e h. elim (save-rows json r t) [
      | inl (fails, kept) ↦ inl (view-rows t (save_passkey json r t).1 kept)
      | inr rows ↦ inr (λ u c. view-Saved r t (save_passkey json r t).1 u c rows)
    ];
    update_ok = λ r t u c v h. elim (update-rows json r t) [
      | inl (fails, kept) ↦ absurd (fails h)
      | inr rows ↦ view-Updated r t (update_passkey json r t).1 u c rows
    ];
    update_err = λ r t e h. elim (update-rows json r t) [
      | inl (fails, kept) ↦ inl (view-rows t (update_passkey json r t).1 kept)
      | inr rows ↦ inr (λ u c. view-Updated r t (update_passkey json r t).1 u c rows)
    ];
    update_unknown = λ r t v h. update-unknown r t v h;
    delete_ok = λ user_id cred_id t u c v h. elim (delete-rows json user_id cred_id t) [
      | inl (fails, kept) ↦ absurd (fails h)
      | inr rows ↦ view-drop user_id cred_id t (delete_passkey json user_id cred_id t).1 u c rows
    ];
    delete_err = λ user_id cred_id t e h. elim (delete-rows json user_id cred_id t) [
      | inl (fails, kept) ↦ inl (view-rows t (delete_passkey json user_id cred_id t).1 kept)
      | inr rows ↦
          inr
            (λ u c. view-drop user_id cred_id t (delete_passkey json user_id cred_id t).1 u c rows)
    ];
    get_ok = λ u c t rs v h. get-ok u c t rs v h;
    get_keeps = λ u t. view-rows t (get_passkeys json u t).1 (get-rows u t);
    save_IsValid = λ r t v. save-IsValid r t v;
    update_IsValid = λ r t v. update-IsValid r t v;
    delete_IsValid = λ user_id cred_id t v. delete-IsValid user_id cred_id t v;
    get_IsValid = λ u t v. subst (All Decodes) (sym (get-rows u t)) v;
  }
