-- ===== src/Audit/Rows.antt =====
-- src/audit/mod.rs: what a logged event leaves in the table.
use zero_trust_proxy.Common.{
  ℕ, suc, ◌^◌, ◌<◌, ◌≡◌, refl, String, Bool, none, some, [], ◌∷◌, ◌++◌, arith, if◌then◌else◌,
  Option-cases, inl, inr,
}
use zero_trust_proxy.Common.Int.{pos}
use zero_trust_proxy.Db.{AuditRow, object, insert_audit}
use zero_trust_proxy.World.{World, utc_now, new_uuid}
use zero_trust_proxy.Audit.{
  Texts, AuditEvent, authorization, success, blocked, row_of, log, log_authorization, new,
  with_risk_score, event_type_str, outcome_str, to_i32,
}

-- Unless the statement is refused, a logged authorization adds one row at the end of the table, and
-- changes no other table: it names the user if the text is a UUID, the resource and the action, has
-- the outcome "success" or "blocked" as the request was allowed or not, and the risk score.
-- Redis is left alone.
pub log_authorization_row :
    {Store : Type 0} (texts : Texts) (user ip resource action : String) (allowed : Bool) (risk : ℕ)
    (w : World Store)
    → risk < 2 ^ 31
    → w.db.outages w.db.statements ≡ none
    → let w' = (log_authorization texts user ip resource action allowed risk w).1 in
      (w'.redis ≡ w.redis)
      × ((row : AuditRow) × (w'.db.tables
            ≡ record (w.db.tables) { audit_log = w.db.tables.audit_log ++ row ∷ [] })
          × (row.event_type ≡ "authorization")
          × (row.user_id ≡ texts.parse_uuid user)
          × (row.resource ≡ resource)
          × (row.action ≡ action)
          × (row.outcome ≡ (if allowed then "success" else "blocked"))
          × (row.risk_score ≡ some (pos risk)))
unfolding log_authorization log row_of new with_risk_score event_type_str outcome_str to_i32 utc_now
    new_uuid insert_audit
log_authorization_row texts user ip resource action allowed risk w small up =
    let event : AuditEvent = record {
      id = w.uuids w.drawn;
      timestamp = w.clock w.readings;
      event_type = authorization;
      user_id = some user;
      device_id = none;
      ip_address = ip;
      resource = resource;
      action = action;
      outcome = if allowed then success else blocked;
      risk_score = some risk;
      metadata = object [];
    } in
    elim (Option-cases (texts.parse_uuid (w.uuids w.drawn))) [
      | inl e ↦ (
        ground arith,
        (
          row_of texts event (w.uuids (suc w.drawn)),
          ground arith,
          refl,
          refl,
          refl,
          refl,
          ground arith,
          ground arith,
        ),
      )
      | inr (id, e) ↦ (
        ground arith,
        (row_of texts event id, ground arith, refl, refl, refl, refl, ground arith, ground arith),
      )
    ]
