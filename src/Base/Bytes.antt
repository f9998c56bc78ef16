-- ===== src/Base/Bytes.antt =====
-- The bits of a byte, and what setting and clearing one changes, found by evaluation on all bytes.
use Prim.Native.Nat.{ℕ, zero, suc, ◌-◌, ◌^◌, ◌<◌, bit_and, bit_or}
use mathlib.Core.Path.{◌≡◌, refl, sym}
use mathlib.Core.Bool.{Bool, true, false, not, ◌&&◌, ◌||◌}
use hyla_fax.Base.Checks.{ltb, ◌==◌, all_below, all_below_sound}
use native.Mathlib.Omega.{arith}

abbrev pub bit_of : ℕ → ℕ → Bool
bit_of b s = not (bit_and b (2 ^ s) == 0)

agree : Bool → Bool → Bool
agree true c = c
agree false c = not c

agree_lem : (b c : Bool) → agree b c ≡ true → b ≡ c
unfolding agree
agree_lem true true e = refl
agree_lem true false e = sym e
agree_lem false true e = e
agree_lem false false e = refl

or_bits :
    all_below 8 (λ s. all_below 8 (λ t. all_below 256 (λ b.
      agree (bit_of (bit_or b (2 ^ s)) t) (s == t || bit_of b t) && ltb (bit_or b (2 ^ s)) 256)))
    ≡ true
unfolding all_below agree
or_bits = refl

clear_bits :
    all_below 8 (λ s. all_below 8 (λ t. all_below 256 (λ b.
      agree (bit_of (bit_and b (0xff - 2 ^ s)) t) (not (s == t) && bit_of b t)
      && ltb (bit_and b (0xff - 2 ^ s)) 256)))
    ≡ true
unfolding all_below agree
clear_bits = refl

module _ (b s t : ℕ) (byte : b < 256) (s-lt : s < 8) (t-lt : t < 8) where
  or_at :
      agree (bit_of (bit_or b (2 ^ s)) t) (s == t || bit_of b t) && ltb (bit_or b (2 ^ s)) 256
      ≡ true
  or_at =
      all_below_sound 256 _ b (all_below_sound 8 _ t (all_below_sound 8 _ s or_bits s-lt) t-lt) byte

  clear_at :
      agree (bit_of (bit_and b (0xff - 2 ^ s)) t) (not (s == t) && bit_of b t)
        && ltb (bit_and b (0xff - 2 ^ s)) 256
      ≡ true
  clear_at =
      all_below_sound 256 _ b (all_below_sound 8 _ t (all_below_sound 8 _ s clear_bits s-lt) t-lt)
        byte

  pub bit_of-or : bit_of (bit_or b (2 ^ s)) t ≡ (s == t || bit_of b t)
  bit_of-or = agree_lem _ _ (ground (arith, or_at))

  pub or-byte : bit_or b (2 ^ s) < 256
  or-byte = ground (arith, or_at)

  pub bit_of-clear : bit_of (bit_and b (0xff - 2 ^ s)) t ≡ (not (s == t) && bit_of b t)
  bit_of-clear = agree_lem _ _ (ground (arith, clear_at))

  pub clear-byte : bit_and b (0xff - 2 ^ s) < 256
  clear-byte = ground (arith, clear_at)

zero_bits : all_below 8 (λ s. not (bit_of 0 s)) ≡ true
unfolding all_below
zero_bits = refl

pub zero_clear : all_below 8 (λ s. bit_and 0 (0xff - 2 ^ s) == 0) ≡ true
unfolding all_below
zero_clear = refl

-- A bit is set only in a byte that is not 0.
pub bit_of-positive : (b s : ℕ) → s < 8 → bit_of b s ≡ true → 0 < b
bit_of-positive zero s lt on = absurd (ground (arith, on, all_below_sound 8 _ s zero_bits lt))
bit_of-positive (suc b) s lt on = omega arith

pub bit_of-zero : (s : ℕ) → s < 8 → bit_of 0 s ≡ false
bit_of-zero s lt = ground (arith, all_below_sound 8 _ s zero_bits lt)
