-- ===== src/Proxy/Owned/LoginSteps.antt =====
-- src/proxy/mod.rs: the steps of `handle_login` that open no session.
use zero_trust_proxy.Common.{String, Option, none, some}
use zero_trust_proxy.Db.{Tables, UserRow}
use zero_trust_proxy.Auth.Device.{DeviceFingerprint}
use zero_trust_proxy.Risk.{IpAddr}
use zero_trust_proxy.Proxy.Server.{Platform, ProxyServer}
use zero_trust_proxy.Proxy.Bodies.{LoginBody}
use zero_trust_proxy.Proxy.Login.{
  reject_password, second_factor, check_code, score_login, device_id_or_new,
}
use zero_trust_proxy.World.{RoundTrips}
use zero_trust_proxy.World.Laws.{RedisLaws}
use zero_trust_proxy.World.Keeps.{Keeps, keeps_rules}
use zero_trust_proxy.Proxy.Owned.{IsLasting}
use zero_trust_proxy.Proxy.Owned.Gate.{
  statement-Keeps, verify_token-Keeps, log_authentication-Keeps,
}
use zero_trust_proxy.Proxy.Writes.{upsert_device-Respects}
use zero_trust_proxy.Proxy.Writes.Grows.{Grows-IsPreorder, Grows-Admits}

module _ {Store F : Type 0} (p : Platform Store F) (value : Store → String → Option String)
    (laws : RedisLaws p.redis value) (codec : RoundTrips p.session_json) (server : ProxyServer)
    (remote : IpAddr) where
  module _ (I : Store → Tables → Type 0) (lasting : IsLasting p.redis value p.session_json I) where
    pub reject_password-Keeps :
        (body : LoginBody) (user : UserRow) (device : DeviceFingerprint)
        → Keeps I (reject_password p server remote body user device)
    unfolding reject_password
    reject_password-Keeps body user device =
        search
          (
            keeps_rules,
            statement-Keeps p value laws codec I lasting,
            upsert_device-Respects,
            log_authentication-Keeps p value laws codec I lasting,
          )
          depth 8

    check_code-Keeps :
        (secret : String) (token : Option String)
        → Keeps I (check_code p server remote secret token)
    check_code-Keeps secret none = search keeps_rules
    check_code-Keeps secret (some token) =
        search (keeps_rules, verify_token-Keeps p value laws codec I lasting)

    pub second_factor-Keeps :
        (body : LoginBody) (user : UserRow) → Keeps I (second_factor p server remote body user)
    unfolding second_factor
    second_factor-Keeps body user = search (keeps_rules, check_code-Keeps)

    pub score_login-Keeps :
        (user : UserRow) (device : DeviceFingerprint)
        → Keeps I (score_login p server remote user device)
    unfolding score_login
    score_login-Keeps user device = search keeps_rules

    pub device_id_or_new-Keeps :
        (id : Option String) → Keeps I (device_id_or_new p server remote id)
    device_id_or_new-Keeps none = search keeps_rules
    device_id_or_new-Keeps (some id) = search keeps_rules
