-- ===== src/Auth/Mfa/Secrets.antt =====
-- src/auth/mfa.rs: the shape of a generated secret.
use Prim.Native.Char.{code}
use Prim.Native.String.{[], ◌∷◌, ◌++◌ as ◌<>◌}
use text.Mathlib.TextLemmas.{nil-append, cons-append}
use zero_trust_proxy.Common.{
  ℕ, zero, suc, ◌+◌, ◌<◌, ◌≡◌, refl, String, Bool, true, ◌&&◌, ltb, arith,
}
use zero_trust_proxy.Common.Text.{byte_len}
use zero_trust_proxy.Error.{ok}
use zero_trust_proxy.Auth.Mfa.{Rng, charset, char_at, draw_chars, generate_secret}

is_ascii : String → Bool
is_ascii [] = true
is_ascii (c ∷ s) = ltb (code c) 0x80 && is_ascii s

byte_len-append : (s t : String) → byte_len (s <> t) ≡ byte_len s + byte_len t
unfolding byte_len
byte_len-append [] t = rw nil-append (omega arith)
byte_len-append (c ∷ s) t = rw cons-append (omega (arith, byte_len-append s t))

byte_len-char_at :
    (i : ℕ) (s : String) → is_ascii s ≡ true → i < byte_len s → byte_len (char_at i s) ≡ 1
unfolding is_ascii byte_len char_at
byte_len-char_at i [] a h = absurd (omega arith)
byte_len-char_at zero (c ∷ s) a h = ground arith
byte_len-char_at (suc i) (c ∷ s) a h = ground (arith, byte_len-char_at i s)

charset_facts : (is_ascii charset ≡ true) × (byte_len charset ≡ 32)
unfolding is_ascii byte_len
charset_facts = (refl, refl)

byte_len_nil : byte_len "" ≡ 0
unfolding byte_len
byte_len_nil = refl

byte_len-draw_chars :
    (gen_range : Rng) (n : ℕ)
    → ((i k : ℕ) → 0 < k → gen_range i k < k)
    → byte_len (draw_chars gen_range n) ≡ n
unfolding draw_chars
byte_len-draw_chars gen_range zero draws = byte_len_nil
byte_len-draw_chars gen_range (suc n) draws =
    let c = char_at (gen_range n 32) charset in
    let drawn = draws n 32 (omega arith) in
    omega (
      arith,
      byte_len-append (draw_chars gen_range n) c,
      byte_len-draw_chars gen_range n draws,
      byte_len-char_at (gen_range n 32) charset charset_facts.0 (omega (arith, charset_facts)),
    )

-- A secret has 32 bytes, for any generator that draws within its range.
pub generate_secret_len :
    (gen_range : Rng) (secret : String)
    → ((i k : ℕ) → 0 < k → gen_range i k < k)
    → generate_secret gen_range ≡ ok secret
    → byte_len secret ≡ 32
unfolding generate_secret
generate_secret_len gen_range secret draws h =
    ground (arith, byte_len-draw_chars gen_range 32 draws)
