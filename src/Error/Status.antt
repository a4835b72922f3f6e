-- ===== src/Error/Status.antt =====
-- src/error.rs: which statuses an error can have.
use zero_trust_proxy.Common.{◌≤◌, ◌<◌, ◌≡◌, ◌↔◌, arith}
use zero_trust_proxy.Error.{ProxyError, rate_limit_exceeded, status_code}

-- Every error is reported with a status of the client or server error classes, which `from_u16`
-- accepts, so the fall-back of `error_response` is never taken; and status 429 is that of the rate
-- limit alone.
pub status_code_range :
    (e : ProxyError)
    → (400 ≤ status_code e)
      × (status_code e < 600)
      × ((status_code e ≡ 429) ↔ (e ≡ rate_limit_exceeded))
unfolding status_code
status_code_range e = ground arith
