-- ===== src/Auth/Mfa/Drawn.antt =====
-- src/auth/mfa.rs: which letters a generated secret has, against the alphabet of RFC 4648 rather
-- than the text of `CHARSET`.
use Prim.Native.Char.{code}
use Prim.Native.String.{[], ◌∷◌, ◌++◌ as ◌<>◌}
use text.Mathlib.TextLemmas.{nil-append, cons-append}
use native.Mathlib.Decide.{dec_lt}
use zero_trust_proxy.Common.{
  ℕ, zero, suc, ◌+◌, ◌-◌, ◌<◌, ◌≡◌, refl, String, Bool, true, false, ◌&&◌, Option, none, some, ltb,
  eqb, arith, if◌then◌else◌,
}
use zero_trust_proxy.Error.{ok}
use zero_trust_proxy.Auth.Mfa.{Rng, charset, char_at, draw_chars, generate_secret}

-- The code point of a value in base 32: `A` to `Z` are 0 to 25, and `2` to `7` are 26 to 31.
abbrev pub base32_code : ℕ → ℕ
base32_code value = if ltb value 26 then 65 + value else 24 + value

-- The code point of the character at an index.
unfoldable pub code_at : ℕ → String → Option ℕ
code_at i [] = none
code_at zero (c ∷ s) = some (code c)
code_at (suc i) (c ∷ s) = code_at i s

size : String → ℕ
size [] = 0
size (c ∷ s) = suc (size s)

size-append : (s t : String) → size (s <> t) ≡ size s + size t
unfolding size
size-append [] t = rw nil-append (omega arith)
size-append (c ∷ s) t = rw cons-append (omega (arith, size-append s t))

code_at-append :
    (i : ℕ) (s t : String)
    → code_at i (s <> t) ≡ (if ltb i (size s) then code_at i s else code_at (i - size s) t)
unfolding code_at size
code_at-append i [] t = rw nil-append (ground arith)
code_at-append zero (c ∷ s) t = rw cons-append (ground arith)
code_at-append (suc i) (c ∷ s) t = rw cons-append (ground (arith, code_at-append i s t))

-- Whether the value picks its letter of base 32 from the character set.
is_letter : ℕ → Option ℕ → ℕ → Bool
is_letter value (some c) length = eqb c (base32_code value) && eqb length 1
is_letter value none length = false

spells : ℕ → Bool
spells value = is_letter value (code_at 0 (char_at value charset)) (size (char_at value charset))

all_below : ℕ → Bool
all_below zero = true
all_below (suc n) = spells n && all_below n

all_below-inv : (n value : ℕ) → all_below n ≡ true → value < n → spells value ≡ true
unfolding all_below
all_below-inv zero value h below = absurd (omega arith)
all_below-inv (suc n) value h below = elim (dec_lt value n) [
  | yes lower ↦ all_below-inv n value (ground arith) lower
  | no upper ↦ let last : value ≡ n = omega arith in rw last (ground arith)
]

all_spelled : all_below 32 ≡ true
unfolding all_below spells is_letter code_at size char_at
all_spelled = refl

is_letter-inv :
    (value : ℕ) (found : Option ℕ) (length : ℕ)
    → is_letter value found length ≡ true
    → (found ≡ some (base32_code value)) × (length ≡ 1)
unfolding is_letter
is_letter-inv value none length h = absurd (ground arith)
is_letter-inv value (some c) length h = (ground arith, ground arith)

char_at-charset :
    (value : ℕ)
    → value < 32
    → (code_at 0 (char_at value charset) ≡ some (base32_code value))
      × (size (char_at value charset) ≡ 1)
unfolding spells
char_at-charset value below = is_letter-inv _ _ _ (all_below-inv 32 value all_spelled below)

size-draw_chars :
    (gen_range : Rng) (n : ℕ)
    → ((i k : ℕ) → 0 < k → gen_range i k < k)
    → size (draw_chars gen_range n) ≡ n
unfolding draw_chars size
size-draw_chars gen_range zero draws = refl
size-draw_chars gen_range (suc n) draws =
    let (_, one) = char_at-charset (gen_range n 32) (draws n 32 (omega arith)) in
    omega (
      arith,
      size-append (draw_chars gen_range n) (char_at (gen_range n 32) charset),
      size-draw_chars gen_range n draws,
    )

code_at-draw_chars :
    (gen_range : Rng) (n i : ℕ)
    → ((i k : ℕ) → 0 < k → gen_range i k < k)
    → i < n
    → code_at i (draw_chars gen_range n) ≡ some (base32_code (gen_range i 32))
unfolding draw_chars
code_at-draw_chars gen_range zero i draws below = absurd (omega arith)
code_at-draw_chars gen_range (suc n) i draws below =
    let before = draw_chars gen_range n in
    let c = char_at (gen_range n 32) charset in
    let (letter, _) = char_at-charset (gen_range n 32) (draws n 32 (omega arith)) in
    let long = size-draw_chars gen_range n draws in
    elim (dec_lt i n) [
      | yes lower ↦
          let first = code_at-draw_chars gen_range n i draws lower in
          ground (arith, code_at-append i before c)
      | no upper ↦
          let last : i ≡ n = omega arith in
          let start : n - size before ≡ 0 = omega arith in
          rw (last, code_at-append n before c) (ground arith)
    ]

-- The character of a secret at each of 32 indices is the letter of base 32 whose value was drawn
-- for that index.
pub generate_secret_drawn :
    (gen_range : Rng) (secret : String)
    → ((i k : ℕ) → 0 < k → gen_range i k < k)
    → generate_secret gen_range ≡ ok secret
    → (i : ℕ) → i < 32
    → code_at i secret ≡ some (base32_code (gen_range i 32))
unfolding generate_secret
generate_secret_drawn gen_range secret draws h i below =
    let drawn = code_at-draw_chars gen_range 32 i draws below in ground arith
