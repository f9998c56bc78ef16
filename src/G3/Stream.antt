-- ===== src/G3/Stream.antt =====
-- The bit stream that an encoder of faxd/G3Encoder.c++ has written, the abstract view of its state.
use mathlib.Core.List.{append_assoc}
use native.Mathlib.Nat.{one-le-pow, mul-div_cancel, suc-mul}
use hyla_fax.Base.{
  ℕ, suc, ◌+◌, ◌-◌, ◌*◌, ◌/◌, ◌^◌, ◌≤◌, ◌<◌, Bool, List, [], ◌∷◌, ◌++◌, ◌≡◌, refl, ap, sym, ◌∙◌,
  arith,
}
use hyla_fax.Base.Binary.{bits, pow-add, bits_fields}
use hyla_fax.G3.Encoder.{Encoder}

-- `1 <= bit <= 8`, and the byte in progress holds `high` in its used bits and zeros below.
pub record IsWf (s : Encoder) : Type 0 where
  pub high : ℕ
  pub bit_pos : 1 ≤ s.bit
  pub bit-le : s.bit ≤ 8
  pub data_eq : s.data_ ≡ high * 2 ^ s.bit
  pub high-lt : high < 2 ^ (8 - s.bit)

-- The digits of the bytes that were put to the buffer, `unmap` undoing the bit reversal.
abbrev pub byte_bits : (ℕ → ℕ) → List ℕ → List Bool
byte_bits unmap [] = []
byte_bits unmap (b ∷ bs) = bits 8 (unmap b) ++ byte_bits unmap bs

pub byte_bits-append :
    (unmap : ℕ → ℕ) (xs ys : List ℕ)
    → byte_bits unmap (xs ++ ys) ≡ byte_bits unmap xs ++ byte_bits unmap ys
byte_bits-append unmap [] ys = refl
byte_bits-append unmap (x ∷ xs) ys = simp (byte_bits-append unmap xs ys, append_assoc)

-- All the bits written: those in the buffer, then those of the byte in progress.
unfoldable pub stream : (ℕ → ℕ) → Encoder → List Bool
stream unmap s = byte_bits unmap s.buf ++ bits (8 - s.bit) (s.data_ / 2 ^ s.bit)

-- `s'` has the stream of `s` and `bs` behind it, and the same settings.
pub record Extends (unmap : ℕ → ℕ) (s : Encoder) (bs : List Bool) (s' : Encoder) : Type 0 where
  pub wf : IsWf s'
  pub extends : stream unmap s' ≡ stream unmap s ++ bs
  pub same_map : s'.bitmap ≡ s.bitmap
  pub same_2d : s'.is2d ≡ s.is2d
  pub same_g4 : s'.isg4 ≡ s.isg4

pub Extends-trans :
    {unmap : ℕ → ℕ} {s t u : Encoder} {cs bs : List Bool}
    → Extends unmap s cs t
    → Extends unmap t bs u
    → Extends unmap s (cs ++ bs) u
Extends-trans {unmap} {s} {t} {u} {cs} {bs} p q = record {
  wf = q.wf;
  extends = q.extends ∙ rw (p.extends, append_assoc);
  same_map = q.same_map ∙ p.same_map;
  same_2d = q.same_2d ∙ p.same_2d;
  same_g4 = q.same_g4 ∙ p.same_g4;
}

pub two_pow_pos : (k : ℕ) → 0 < 2 ^ k
two_pow_pos k = one-le-pow k 2 (omega arith)

pub stream_high :
    (unmap : ℕ → ℕ) (s : Encoder) (w : IsWf s)
    → stream unmap s ≡ byte_bits unmap s.buf ++ bits (8 - s.bit) w.high
unfolding stream
stream_high unmap s w = rw (w.data_eq, mul-div_cancel w.high (two_pow_pos s.bit))

pub mul_le : (a b c : ℕ) → a ≤ b → a * c ≤ b * c
mul_le a b c h = grind arith

-- The whole byte that `high` and `x` make, where `x` fits the free bits.
pub byte_fits : (s : Encoder) (w : IsWf s) (x : ℕ) → x < 2 ^ s.bit → w.high * 2 ^ s.bit + x < 256
byte_fits s w x fits =
    let whole : 8 - s.bit + s.bit ≡ 8 = omega (arith, w.bit-le) in
    omega (
      arith,
      pow-add (8 - s.bit) s.bit,
      ap (λ (t : ℕ). 2 ^ t) whole,
      mul_le (suc w.high) (2 ^ (8 - s.bit)) (2 ^ s.bit) w.high-lt,
      suc-mul w.high (2 ^ s.bit),
    )

-- Its digits: those of `high`, then those of `x`.
pub byte_digits :
    (s : Encoder) (w : IsWf s) (x : ℕ)
    → x < 2 ^ s.bit
    → bits 8 (w.high * 2 ^ s.bit + x) ≡ bits (8 - s.bit) w.high ++ bits s.bit x
byte_digits s w x fits =
    let whole : 8 - s.bit + s.bit ≡ 8 = omega (arith, w.bit-le) in
    ap (λ (t : ℕ). bits t (w.high * 2 ^ s.bit + x)) (sym whole)
    ∙ bits_fields s.bit w.high x fits (8 - s.bit)
