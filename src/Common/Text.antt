-- ===== src/Common/Text.antt =====
-- The standard library's text functions that the source calls, on the native `String`.
pub mod Prefix
use Prim.Native.Nat.{ℕ, zero, suc, ◌+◌, ◌/◌, ◌%◌}
use Prim.Native.Char.{code}
use Prim.Native.String.{String, [], ◌∷◌, ◌++◌}
use mathlib.Core.Bool.{Bool, true, ◌||◌}
use mathlib.Core.Option
use mathlib.Core.Option.{Option, none, some}
use mathlib.Core.List.{List, ◌∷◌ as ◌◂◌}
use mathlib.Core.Path.{◌≡◌, refl}
use zero_trust_proxy.Common.Tests.{ltb, eqb, if◌then◌else◌, is_some}
use zero_trust_proxy.Common.Int.{ℤ, pos, negsuc}

-- `str::strip_prefix`, the pattern first.
unfoldable pub strip_prefix : String → String → Option String
strip_prefix [] s = some s
strip_prefix (c ∷ p) [] = none
strip_prefix (c ∷ p) (d ∷ s) = if eqb (code c) (code d) then strip_prefix p s else none

unfoldable pub starts_with : String → String → Bool
unfolding strip_prefix
starts_with s p = is_some (strip_prefix p s)

-- `str::contains`.
unfoldable pub contains : String → String → Bool
unfolding starts_with
contains [] p = starts_with [] p
contains (c ∷ s) p = starts_with (c ∷ s) p || contains s p

-- `str::strip_suffix` of one character.
unfoldable pub strip_suffix_char : ℕ → String → Option String
strip_suffix_char k [] = none
strip_suffix_char k (c ∷ []) = if eqb (code c) k then some [] else none
strip_suffix_char k (c ∷ d ∷ s) = Option.map (◌∷◌ c) (strip_suffix_char k (d ∷ s))

abbrev utf8_len : ℕ → ℕ
utf8_len c = if ltb c 0x80 then 1 else if ltb c 0x800 then 2 else if ltb c 0x10000 then 3 else 4

-- `str::trim_end_matches` of one character.
unfoldable pub trim_end_matches : ℕ → String → String
trim_end_matches k [] = []
trim_end_matches k (c ∷ s) =
    let rest = trim_end_matches k s in
    elim rest [ [] ↦ if eqb (code c) k then [] else c ∷ [] | d ∷ t ↦ c ∷ d ∷ t ]

-- `str::len`: the bytes of the text in UTF-8.
unfoldable pub byte_len : String → ℕ
byte_len [] = 0
byte_len (c ∷ s) = utf8_len (code c) + byte_len s

digit : ℕ → String
digit n =
    if eqb n 0
    then "0"
    else if eqb n 1
    then "1"
    else if eqb n 2
    then "2"
    else if eqb n 3
    then "3"
    else if eqb n 4
    then "4"
    else if eqb n 5
    then "5"
    else if eqb n 6
    then "6"
    else if eqb n 7
    then "7"
    else if eqb n 8
    then "8"
    else "9"

decimal : ℕ → ℕ → String
unfolding digit
decimal zero n = []
decimal (suc f) n =
    let more = decimal f (n / 10) in if ltb n 10 then digit n else more ++ digit (n % 10)

-- `to_string` of an unsigned number: `n + 1` rounds are enough for the digits of `n`.
unfoldable pub show_ℕ : ℕ → String
unfolding decimal
show_ℕ n = decimal (suc n) n

unfoldable pub show_ℤ : ℤ → String
unfolding show_ℕ
show_ℤ (pos n) = show_ℕ n
show_ℤ (negsuc n) = "-" ++ show_ℕ (suc n)

-- `[String]::join`.
unfoldable pub join : String → List String → String
join sep List.[] = []
join sep (List.◌∷◌ s List.[]) = s
join sep (List.◌∷◌ s (List.◌∷◌ t r)) = s ++ sep ++ join sep (List.◌∷◌ t r)

-- The capital letters of ASCII, with their small ones.
abbrev capitals : List (ℕ × String)
capitals =
    (b'A', "a")
    ◂ (b'B', "b")
    ◂ (b'C', "c")
    ◂ (b'D', "d")
    ◂ (b'E', "e")
    ◂ (b'F', "f")
    ◂ (b'G', "g")
    ◂ (b'H', "h")
    ◂ (b'I', "i")
    ◂ (b'J', "j")
    ◂ (b'K', "k")
    ◂ (b'L', "l")
    ◂ (b'M', "m")
    ◂ (b'N', "n")
    ◂ (b'O', "o")
    ◂ (b'P', "p")
    ◂ (b'Q', "q")
    ◂ (b'R', "r")
    ◂ (b'S', "s")
    ◂ (b'T', "t")
    ◂ (b'U', "u")
    ◂ (b'V', "v")
    ◂ (b'W', "w")
    ◂ (b'X', "x")
    ◂ (b'Y', "y")
    ◂ (b'Z', "z")
    ◂ List.[]

abbrev small : ℕ → List (ℕ × String) → String → String
small k List.[] s = s
small k (List.◌∷◌ (c, t) r) s = if eqb c k then t else small k r s

-- `str::to_lowercase`, of a text in ASCII.
unfoldable pub to_lowercase : String → String
to_lowercase [] = []
to_lowercase (c ∷ s) = small (code c) capitals (c ∷ []) ++ to_lowercase s

texts :
    (show_ℕ 120 ≡ "120")
    × (show_ℤ (negsuc 6) ≡ "-7")
    × (contains "Mozilla" "zil" ≡ true)
    × (to_lowercase "GeT" ≡ "get")
    × (strip_suffix_char b'*' "/api/*" ≡ some "/api/")
    × (trim_end_matches b'/' "http://a//" ≡ "http://a")
    × (byte_len "née" ≡ 4)
unfolding show_ℤ contains strip_suffix_char to_lowercase trim_end_matches byte_len
texts = (refl, refl, refl, refl, refl, refl, refl)
