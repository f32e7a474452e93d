-- ===== src/Base/Strings.antt =====
-- Text as a list of code points, for the code that walks characters: `str.strip`, `str.lower` and
-- the decimal form of a number. Names and keys that are only compared stay native `String`s.
use Prim.Native.Nat.{ℕ, zero, suc, ◌+◌, ◌/◌, ◌%◌}
use Prim.Native.Char.{code}
use Prim.Native.String.{String}
use mathlib.Core.Path.{◌≡◌, refl}
use mathlib.Core.Bool.{Bool, true, false, ◌&&◌, ◌||◌}
use mathlib.Core.List.{List, [], ◌∷◌, ◌++◌, map}
use native.Mathlib.Omega.{arith}
use getoffline.Base.Tests.{ltb, leb, nat_eq, if◌then◌else◌}

abbrev pub Text : Type 0
Text = List ℕ

abbrev pub codes : String → Text
codes String.[] = []
codes (String.◌∷◌ c s) = code c ∷ codes s

unfoldable pub text_eq : Text → Text → Bool
text_eq [] [] = true
text_eq (a ∷ s) (b ∷ t) = nat_eq a b && text_eq s t
text_eq _ _ = false

pub text_eq_refl : (s : Text) → text_eq s s ≡ true
unfolding text_eq
text_eq_refl [] = refl
text_eq_refl (a ∷ s) = ground (arith, text_eq_refl s)

pub text_eq→eq : (s t : Text) → text_eq s t ≡ true → s ≡ t
unfolding text_eq
text_eq→eq [] [] h = refl
text_eq→eq (a ∷ s) (b ∷ t) h = ground (arith, text_eq→eq s t)
text_eq→eq [] (b ∷ t) h = cc
text_eq→eq (a ∷ s) [] h = cc

abbrev pub is_empty : Text → Bool
is_empty [] = true
is_empty (c ∷ s) = false

-- the characters for which Python's `str.isspace` holds
unfoldable pub is_space : ℕ → Bool
is_space c =
    (leb 9 c && leb c 13)
    || (leb 28 c && leb c 32)
    || nat_eq c 0x85
    || nat_eq c 0xA0
    || nat_eq c 0x1680
    || (leb 0x2000 c && leb c 0x200A)
    || nat_eq c 0x2028
    || nat_eq c 0x2029
    || nat_eq c 0x202F
    || nat_eq c 0x205F
    || nat_eq c 0x3000

-- `s.lstrip()` and `s.rstrip()` for a set of characters given by a test
unfoldable pub lstrip : (ℕ → Bool) → Text → Text
lstrip p [] = []
lstrip p (c ∷ s) = let rest = lstrip p s in if p c then rest else c ∷ s

unfoldable pub rstrip : (ℕ → Bool) → Text → Text
rstrip p [] = []
rstrip p (c ∷ s) = elim (rstrip p s) [ [] ↦ if p c then [] else c ∷ [] | d ∷ t ↦ c ∷ d ∷ t ]

unfoldable pub strip : Text → Text
unfolding lstrip rstrip is_space
strip s = rstrip is_space (lstrip is_space s)

-- `str.lower` as far as a comparison with an ASCII word can see it: the ASCII capitals and the
-- Kelvin sign U+212A. The lower case of every other character holds a character that is not ASCII
-- or is the character itself, and is kept here as it stands.
unfoldable pub lower_code : ℕ → ℕ
lower_code c = if leb 65 c && leb c 90 then c + 32 else if nat_eq c 0x212A then 107 else c

unfoldable pub lower : Text → Text
unfolding lower_code
lower s = map lower_code s

-- `str(n)` of a number: the fuel `n + 1` is more than the digits.
decimal_from : ℕ → ℕ → Text
decimal_from zero n = []
decimal_from (suc fuel) n =
    let higher = decimal_from fuel (n / 10) in
    if ltb n 10 then (48 + n) ∷ [] else higher ++ (48 + n % 10) ∷ []

unfoldable pub decimal : ℕ → Text
unfolding decimal_from
decimal n = decimal_from (suc n) n

strip_test : strip (codes "  Ab c\t") ≡ codes "Ab c"
unfolding strip
strip_test = refl

lower_test : lower (codes "YouTube-1") ≡ codes "youtube-1"
unfolding lower
lower_test = refl

decimal_test : decimal 1205 ≡ codes "1205"
unfolding decimal
decimal_test = refl
