-- ===== src/Base/Integers.antt =====
-- Signed integers over the native numbers, and Python's `int(text)`.
use Prim.Native.Nat.{ℕ, zero, suc, ◌+◌, ◌-◌, ◌*◌, max}
use mathlib.Core.Path.{◌≡◌, refl}
use mathlib.Core.Bool.{Bool, true, false, ◌&&◌}
use mathlib.Core.Option.{Option, none, some}
use mathlib.Core.List.{[], ◌∷◌, ◌++◌}
use getoffline.Base.Lists.{all}
use getoffline.Base.Tests.{leb, nat_eq, if◌then◌else◌}
use getoffline.Base.Strings.{Text, codes, strip, decimal}

-- `negsuc n` is -(n + 1).
pub data ℤ : Type 0 where
  pos : ℕ → ℤ
  negsuc : ℕ → ℤ

-- max(0, z) and max(1, z)
abbrev pub pos_part : ℤ → ℕ
pos_part (pos n) = n
pos_part (negsuc n) = 0

abbrev pub at_least_one : ℤ → ℕ
at_least_one (pos n) = max 1 n
at_least_one (negsuc n) = 1

abbrev pub neg : ℕ → ℤ
neg zero = pos 0
neg (suc n) = negsuc n

abbrev pub is_zero : ℤ → Bool
is_zero (pos n) = nat_eq n 0
is_zero (negsuc n) = false

-- str(z)
unfoldable pub decimal_ℤ : ℤ → Text
unfolding decimal
decimal_ℤ (pos n) = decimal n
decimal_ℤ (negsuc n) = codes "-" ++ decimal (suc n)

abbrev pub is_digit : ℕ → Bool
is_digit c = leb 48 c && leb c 57

-- text.isdigit(), for ASCII digits
abbrev pub is_digits : Text → Bool
is_digits [] = false
is_digits (c ∷ t) = is_digit c && all is_digit t

-- The digits of `int(text)`: single underscores may stand between two digits. The flag tells whether
-- the character before was a digit.
digits_value : ℕ → Bool → Text → Option ℕ
digits_value n after_digit [] = if after_digit then some n else none
digits_value n after_digit (c ∷ s) =
    let digit = digits_value (n * 10 + (c - 48)) true s in
    let underscore = digits_value n false s in
    if is_digit c then digit else if nat_eq c 95 && after_digit then underscore else none

signed : (ℕ → ℤ) → Option ℕ → Option ℤ
signed f none = none
signed f (some n) = some (f n)

signed_value : Text → Option ℤ
unfolding signed digits_value
signed_value [] = none
signed_value (c ∷ s) =
    if nat_eq c 45
    then signed neg (digits_value 0 false s)
    else if nat_eq c 43
    then signed pos (digits_value 0 false s)
    else signed pos (digits_value 0 false (c ∷ s))

-- `int(text)` for ASCII digits; `none` is the `ValueError`.
unfoldable pub parse_int : Text → Option ℤ
unfolding signed_value strip
parse_int t = signed_value (strip t)

parse_int_test : parse_int (codes " -1_20 ") ≡ some (negsuc 119)
unfolding parse_int
parse_int_test = refl

parse_int_bad : parse_int (codes "1__2") ≡ none
unfolding parse_int
parse_int_bad = refl

abbrev pub neg_part : ℤ → ℕ
neg_part (pos n) = 0
neg_part (negsuc n) = suc n

-- a - b, as an integer
abbrev pub sub_ℕ : ℕ → ℕ → ℤ
sub_ℕ a b = if leb b a then pos (a - b) else negsuc (b - a - 1)

infixl 65 ◌+ℤ◌ ◌-ℤ◌
abbrev pub ◌+ℤ◌ : ℤ → ℤ → ℤ
a +ℤ b = sub_ℕ (pos_part a + pos_part b) (neg_part a + neg_part b)

abbrev pub ◌-ℤ◌ : ℤ → ℤ → ℤ
a -ℤ b = sub_ℕ (pos_part a + neg_part b) (neg_part a + pos_part b)

abbrev pub leb_ℤ : ℤ → ℤ → Bool
leb_ℤ a b = leb (pos_part a + neg_part b) (pos_part b + neg_part a)

abbrev pub min_ℤ : ℤ → ℤ → ℤ
min_ℤ a b = if leb_ℤ a b then a else b

abbrev pub max_ℤ : ℤ → ℤ → ℤ
max_ℤ a b = if leb_ℤ a b then b else a
