-- ===== src/Auth/Device/Parsing.antt =====
-- src/auth/device.rs: what the fingerprint hash and the user agent parser tell apart.
use Prim.Native.String
use text.Mathlib.TextLemmas.{append_assoc}
use zero_trust_proxy.Common.{String, ◌≡◌, ◌↔◌, true, false, eq_iff, arith, ◌∷◌, List}
use zero_trust_proxy.Common.Text.{contains}
use zero_trust_proxy.Auth.Device.{
  DeviceMetadata, Sha256, IsStreaming, concat, generate_hash, parse_user_agent,
}

-- Text moved from the end of the user agent to the start of the address does not change the
-- fingerprint: the two are hashed with nothing between them.
pub generate_hash_shift :
    (hex_digest : Sha256)
    → IsStreaming hex_digest
    → (agent moved ip : String) (m : DeviceMetadata)
    → generate_hash hex_digest (String.◌++◌ agent moved) ip m
      ≡ generate_hash hex_digest agent (String.◌++◌ moved ip) m
unfolding generate_hash
generate_hash_shift hex_digest s agent moved ip m = s.streams _ _ (regroup _)
  where
    regroup :
        (rest : List String)
        → concat (String.◌++◌ agent moved ∷ ip ∷ rest)
          ≡ concat (agent ∷ String.◌++◌ moved ip ∷ rest)
    regroup rest = simp append_assoc

-- The platform is "Android" exactly for a user agent that names Android and none of Windows, Mac
-- and Linux, and the browser is "Edge" exactly for one that names Edge and none of Chrome, Firefox
-- and Safari.
pub parse_user_agent_exact :
    (agent : String)
    → (((parse_user_agent agent).0 ≡ "Android") ↔ (
        (contains agent "Windows" ≡ false)
        × (contains agent "Mac" ≡ false)
        × (contains agent "Linux" ≡ false)
        × (contains agent "Android" ≡ true)))
      × (((parse_user_agent agent).1 ≡ "Edge") ↔ (
          (contains agent "Chrome" ≡ false)
          × (contains agent "Firefox" ≡ false)
          × (contains agent "Safari" ≡ false)
          × (contains agent "Edge" ≡ true)))
unfolding parse_user_agent
parse_user_agent_exact agent = (
  ground (
    arith,
    eq_iff "Windows" "Android",
    eq_iff "macOS" "Android",
    eq_iff "Linux" "Android",
    eq_iff "iOS" "Android",
    eq_iff "Unknown" "Android",
  ),
  ground (
    arith,
    eq_iff "Chrome" "Edge",
    eq_iff "Firefox" "Edge",
    eq_iff "Safari" "Edge",
    eq_iff "Unknown" "Edge",
  ),
)
