-- ===== src/Base/Text.antt =====
-- Strings of C as the lists of their characters before the NUL; the end of a list reads as the NUL. The
-- tests of ctype.h are those of the C locale.
use Prim.Native.Nat.{ℕ, ◌+◌, ◌-◌, ◌*◌}
use mathlib.Core.Bool.{Bool, ◌&&◌, ◌||◌}
use mathlib.Core.List.{List, [], ◌∷◌}
use hyla_fax.Base.Checks.{leb, ◌==◌, if◌then◌else◌}
use hyla_fax.Base.Lists.{get_or}

-- The tests of ctype.h on a character of the C locale.
abbrev pub is_space : ℕ → Bool
is_space c = c == 32 || (leb 9 c && leb c 13)

abbrev pub is_digit : ℕ → Bool
is_digit c = leb 48 c && leb c 57

abbrev pub is_alpha : ℕ → Bool
is_alpha c = (leb 65 c && leb c 90) || (leb 97 c && leb c 122)

-- `*cp`.
abbrev pub char_at : List ℕ → ℕ → ℕ
char_at cp i = get_or cp i 0

-- `while (*cp && test(*cp)) cp++`.
unfoldable pub skip : (ℕ → Bool) → List ℕ → List ℕ
skip test [] = []
skip test (c ∷ cp) = if test c then skip test cp else c ∷ cp

-- The digits of a number in front of a string, behind the ones read before.
unfoldable pub digits : (value : ℕ) → List ℕ → ℕ × List ℕ
digits value [] = (value, [])
digits value (c ∷ cp) = if is_digit c then digits (value * 10 + (c - 48)) cp else (value, c ∷ cp)
