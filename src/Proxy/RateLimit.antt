-- ===== src/Proxy/RateLimit.antt =====
-- src/proxy/mod.rs: `check_rate_limit`, a counter in Redis for each bucket and address.
pub mod Overlap
use Prim.Native.String.{◌++◌ as ◌<>◌}
use zero_trust_proxy.Common.{ℕ, ◌≡◌, String, Bool, if◌then◌else◌}
use zero_trust_proxy.Common.Int.{ℤ, pos, ltb_ℤ, eqb_ℤ}
use zero_trust_proxy.Error.{rate_limit_exceeded}
use zero_trust_proxy.World.{Redis, World, M, pure, fail, bind, ◌>>=◌, ◌>>◌, command}
use zero_trust_proxy.Audit.{Texts}
use zero_trust_proxy.Risk.{IpAddr}

abbrev pub rate_key : Texts → IpAddr → String → String
rate_key texts remote bucket = "ratelimit:" <> bucket <> ":" <> texts.show_ip remote

module _ {Store : Type 0} (redis : Redis Store) (texts : Texts) where
  unfoldable pub check_rate_limit : IpAddr → String → (limit window_secs : ℤ) → M Store (Unit {0})
  check_rate_limit remote bucket limit window_secs = do
    let key = rate_key texts remote bucket
    count ← command (redis.incr key 1)
    if eqb_ℤ count (pos 1) then command (redis.expire key window_secs) else pure tt
    if ltb_ℤ limit count then fail rate_limit_exceeded else pure tt
