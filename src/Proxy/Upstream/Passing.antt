-- ===== src/Proxy/Upstream/Passing.antt =====
-- src/proxy/mod.rs: which headers `forward_upstream` passes on.
use zero_trust_proxy.Common.{◌≡◌, String, ◌==◌, List, [], ◌∷◌, eq_iff, if◌then◌else◌, arith}
use zero_trust_proxy.Proxy.Server.{Headers, HeaderValue}
use zero_trust_proxy.Proxy.Upstream.{without_host}

-- All values of a header, in their order.
pub values : String → Headers → List HeaderValue
values name [] = []
values name ((k, v) ∷ rest) = let vs = values name rest in if k == name then v ∷ vs else vs

-- The values of a header are passed on, but for those of `host`, of which there is none.
abbrev pub Carries : String → Headers → Headers → Type 0
Carries name headers sent = values name sent ≡ (if name == "host" then [] else values name headers)

pub without_host-Carries :
    (name : String) (headers : Headers) → Carries name headers (without_host headers)
unfolding values without_host
without_host-Carries name [] = ground arith
without_host-Carries name ((k, v) ∷ rest) =
    ground
      (arith, without_host-Carries name rest, eq_iff k "host", eq_iff k name, eq_iff name "host")
