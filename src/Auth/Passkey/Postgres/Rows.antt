-- ===== src/Auth/Passkey/Postgres/Rows.antt =====
-- src/auth/passkey_store_pg.rs: the rows that a statement leaves, whether it is answered or not.
use zero_trust_proxy.Common.{
  ◌≡◌, ◌≢◌, ◌⊎◌, String, none, some, List, [], ◌∷◌, ◌++◌, arith, inl, inr, Option-cases, Bool-cases,
}
use zero_trust_proxy.Clock.{DateTime}
use zero_trust_proxy.Error.{ok, Result-cases}
use zero_trust_proxy.World.{Codec}
use zero_trust_proxy.Auth.Passkey.{PasskeyRecord}
use zero_trust_proxy.Auth.Passkey.Keyed.{find_at, amend_at, drop_at}
use zero_trust_proxy.Auth.Passkey.Postgres.{
  TableRow, PasskeyTable, row_user, row_cred, fresh_row, stamped, insert_row, update_row,
  save_passkey, update_passkey, delete_passkey,
}

module _ {P : Type 0} (json : Codec P) where
  -- The rows that each statement is for.
  abbrev pub Saved : PasskeyRecord P → List TableRow → List TableRow → Type 0
  Saved r rows rows' =
      (text : String) × (json.to_string r.passkey ≡ ok text)
      × (find_at row_user row_cred r.user_id r.cred_id rows ≡ none)
      × (rows' ≡ rows ++ fresh_row json r text ∷ [])

  abbrev pub Updated : PasskeyRecord P → List TableRow → List TableRow → Type 0
  Updated r rows rows' =
      (text : String) × (now : DateTime) × (json.to_string r.passkey ≡ ok text)
      × ((row : TableRow) × (find_at row_user row_cred r.user_id r.cred_id rows ≡ some row))
      × (rows' ≡ amend_at row_user row_cred r.user_id r.cred_id (stamped json text now) rows)

  -- A statement leaves the rows as they were or as it is meant to, and if it is finished, the
  -- latter.
  pub save-rows :
      (r : PasskeyRecord P) (t : PasskeyTable)
      → (((save_passkey json r t).0 ≢ ok tt) × ((save_passkey json r t).1.rows ≡ t.rows))
        ⊎ Saved r t.rows (save_passkey json r t).1.rows
  unfolding save_passkey insert_row
  save-rows r t = elim (Result-cases (json.to_string r.passkey)) [
    | inr (e, q) ↦ inl (λ h. ground arith, ground arith)
    | inl (text, q) ↦ elim (Option-cases (find_at row_user row_cred r.user_id r.cred_id t.rows)) [
      | inr (row, found) ↦ inl (λ h. ground arith, ground arith)
      | inl found ↦ elim (Option-cases (t.outages t.statements)) [
        | inl runs ↦ inr (text, q, found, ground arith)
        | inr (o, fails) ↦ elim (Bool-cases o.done) [
          | inl done ↦ inr (text, q, found, ground arith)
          | inr lost ↦ inl (λ h. ground arith, ground arith)
        ]
      ]
    ]
  ]

  pub update-rows :
      (r : PasskeyRecord P) (t : PasskeyTable)
      → (((update_passkey json r t).0 ≢ ok tt) × ((update_passkey json r t).1.rows ≡ t.rows))
        ⊎ Updated r t.rows (update_passkey json r t).1.rows
  unfolding update_passkey update_row
  update-rows r t =
      let now = t.clock t.statements in
      elim (Result-cases (json.to_string r.passkey)) [
        | inr (e, q) ↦ inl (λ h. ground arith, ground arith)
        | inl (text, q) ↦
            elim (Option-cases (find_at row_user row_cred r.user_id r.cred_id t.rows)) [
              | inl found ↦ inl (λ h. ground arith, ground arith)
              | inr (row, found) ↦ elim (Option-cases (t.outages t.statements)) [
                | inl runs ↦ inr (text, now, q, (row, found), ground arith)
                | inr (o, fails) ↦ elim (Bool-cases o.done) [
                  | inl done ↦ inr (text, now, q, (row, found), ground arith)
                  | inr lost ↦ inl (λ h. ground arith, ground arith)
                ]
              ]
            ]
      ]

  pub delete-rows :
      (user_id cred_id : String) (t : PasskeyTable)
      → (((delete_passkey json user_id cred_id t).0 ≢ ok tt)
          × ((delete_passkey json user_id cred_id t).1.rows ≡ t.rows))
        ⊎ ((delete_passkey json user_id cred_id t).1.rows
            ≡ drop_at row_user row_cred user_id cred_id t.rows)
  unfolding delete_passkey
  delete-rows user_id cred_id t = elim (Option-cases (t.outages t.statements)) [
    | inl runs ↦ inr (ground arith)
    | inr (o, fails) ↦ elim (Bool-cases o.done) [
      | inl done ↦ inr (ground arith)
      | inr lost ↦ inl (λ h. ground arith, ground arith)
    ]
  ]
