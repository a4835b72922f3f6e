-- ===== src/Auth/Session/Serial/Final.antt =====
-- src/auth/session.rs: a logout is final, over any sequence of session operations.
use zero_trust_proxy.Common.{
  ℕ, ◌≤◌, ◌≡◌, ◌≢◌, refl, sym, ap, subst, String, true, Option, none, arith, ◌⊎◌,
}
use zero_trust_proxy.Clock.{Chrono}
use zero_trust_proxy.Error.{invalid_session, redis_error, ok, err}
use zero_trust_proxy.World.{Redis, Codec, RoundTrips, World}
use zero_trust_proxy.World.Laws.{RedisLaws}
use zero_trust_proxy.Auth.Session.{
  Session, key_of, create_session, update_session, delete_session, get_session,
}
use zero_trust_proxy.Auth.Session.Lifecycle.{
  delete_session_gone, get_session_gone, create_session-Holds,
}
use zero_trust_proxy.Auth.Session.Serial.{
  WellKeyed, GoneIn, Step, Reach, logged_in, looked_up, verified, logged_out, revoked, elapsed,
  here, next,
}
use zero_trust_proxy.Auth.Session.Serial.Keeps.{
  update_session-IsGone, delete_session-IsGone, bind-GoneIn, get_session-IsGone, get_session-other,
  create_session-IsGone,
}
use zero_trust_proxy.Auth.Session.Serial.Revoked.{revoke_user_sessions-IsGone}

module _ {Store : Type 0} (redis : Redis Store) (value : Store → String → Option String)
    (laws : RedisLaws redis value) (chrono : Chrono) (json : Codec Session)
    (codec : RoundTrips json) where
  -- A session that is gone stays so at every step.
  Step-IsGone :
      (Ended : String → Type 0) {w w' : World Store}
      → Step redis value chrono json w w'
      → GoneIn value json Ended w
      → GoneIn value json Ended w'
  Step-IsGone Ended (logged_in duration user device ip agent mfa score w) g =
      bind-GoneIn redis value laws chrono json codec Ended
        (create_session redis chrono json duration user device ip agent w)
        (λ s.
          update_session redis chrono json (record s { mfa_verified = mfa; risk_score = score }))
        (create_session-IsGone redis value laws chrono json codec Ended duration user device ip
          agent w g)
        (λ s v made g'.
          let (_, _, _, named, _) =
            create_session-Holds redis value laws chrono json duration user device ip agent w v s
              made in
          update_session-IsGone redis value laws chrono json codec Ended
            (record s { mfa_verified = mfa; risk_score = score }) v
            (λ m. g.undrawn w.drawn (omega arith) (subst Ended named m)) g')
  Step-IsGone Ended (looked_up session_id w) g =
      get_session-IsGone redis value laws chrono json codec Ended session_id w g
  Step-IsGone Ended (verified session_id w) g =
      bind-GoneIn redis value laws chrono json codec Ended
        (get_session redis chrono json session_id w)
        (λ s. update_session redis chrono json (record s { mfa_verified = true }))
        (get_session-IsGone redis value laws chrono json codec Ended session_id w g)
        (λ s v found g'.
          update_session-IsGone redis value laws chrono json codec Ended
            (record s { mfa_verified = true }) v
            (get_session-other redis value laws chrono json codec Ended session_id w v s found g)
            g')
  Step-IsGone Ended (logged_out session_id w) g =
      delete_session-IsGone redis value laws chrono json codec Ended session_id w g
  Step-IsGone Ended (revoked user_id w) g =
      revoke_user_sessions-IsGone redis value laws chrono json codec Ended user_id w g
  Step-IsGone Ended {w} {w'} (elapsed e) g = record {
    absent = λ id m. let nothing = g.absent id m in let l = e.lapses id in ground arith;
    undrawn = λ n h m.
        g.undrawn n (omega (arith, e.drawn_le, h)) (subst (λ u. Ended (u n)) e.same_uuids m);
    keyed = λ j text session held decoded.
        let l = e.lapses j in g.keyed j text session (ground arith) decoded;
  }

  Reach-IsGone :
      (Ended : String → Type 0) {w w' : World Store}
      → Reach redis value chrono json w w'
      → GoneIn value json Ended w
      → GoneIn value json Ended w'
  Reach-IsGone Ended here g = g
  Reach-IsGone Ended (next r st) g = Step-IsGone Ended st (Reach-IsGone Ended r g)

  -- A session that a logout has deleted is found by no later lookup, after any sequence of session
  -- operations before and after it, each with the store to itself, from a store in which every
  -- session stands under its own id: `get_session` ends in "Session not found" or in an error of
  -- Redis, as long as the id is not drawn again.
  pub get_session-Reach :
      (id : String) (w0 w w1 w2 : World Store)
      → WellKeyed value json w0.redis
      → Reach redis value chrono json w0 w
      → ((n : ℕ) → w.drawn ≤ n → w.uuids n ≢ id)
      → delete_session redis chrono json id w ≡ (ok tt, w1)
      → Reach redis value chrono json w1 w2
      → ((get_session redis chrono json id w2).0 ≡ err (invalid_session "Session not found"))
        ⊎ ((e : String) × ((get_session redis chrono json id w2).0 ≡ err (redis_error e)))
  unfolding delete_session
  get_session-Reach id w0 w w1 w2 keyed before undrawn h after =
      let sound : GoneIn value json (λ j. ⊥) w =
        Reach-IsGone (λ j. ⊥) before
          (record { absent = λ j m. absurd m; undrawn = λ n l m. m; keyed = keyed }) in
      let deleted = delete_session-IsGone redis value laws chrono json codec (λ j. ⊥) id w sound in
      let left = (delete_session redis chrono json id w).1 in
      let gone = delete_session_gone redis value laws chrono json id w w1 h in
      let ended : GoneIn value json (λ j. j ≡ id) left = record {
        absent = λ j m.
            rw m (subst (λ v. value v.redis (key_of id) ≡ none) (ap (λ p. p.1) (sym h)) gone);
        undrawn = λ n l m. undrawn n l m;
        keyed = deleted.keyed;
      } in
      let still =
        Reach-IsGone (λ j. j ≡ id) after
          (subst (GoneIn value json (λ j. j ≡ id)) (ap (λ p. p.1) h) ended) in
      get_session_gone redis value laws chrono json id w2 (still.absent id refl)
