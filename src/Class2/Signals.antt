-- ===== src/Class2/Signals.antt =====
-- What the words that setFromDIS and setFromDCS (libhylafax/Class2Params.c++) make of the bytes say of the
-- bits of T.30.
use hyla_fax.Base.{
  ℕ, zero, suc, ◌+◌, ◌-◌, ◌*◌, ◌/◌, ◌%◌, ◌^◌, ◌<◌, bit_and, Bool, true, false, ◌==◌, List, ◌≡◌,
  refl, sym, ap, ◌∙◌, arith, inl, inr, Bool-cases,
}
use native.Mathlib.Nat.{pow-suc, one-le-pow, mul-div_cancel}
use hyla_fax.Base.Binary.{and_halves, bit_and-low_mask, bit_or-shifted, bit_or-above, div_two_pow}
use hyla_fax.Base.Bytes.{bit_of}
use hyla_fax.FaxParams.Bits.{get_byte, is_bit_enabled}
use hyla_fax.FaxParams.View.{IsFaxBits}
use hyla_fax.Class2.Session.{has, first_word, xinfo_word}

-- A mask that is shifted keeps what the mask keeps of the number above the shift.
shifted_mask : (s c w : ℕ) → bit_and w (c * 2 ^ s) ≡ bit_and (w / 2 ^ s) c * 2 ^ s
shifted_mask zero c w =
    let e : c * 1 ≡ c = omega arith in let e' : w / 1 ≡ w = omega arith in rw (e, e') (omega arith)
shifted_mask (suc s) c w =
    let (half, parity) = and_halves w (c * 2 ^ suc s) in
    let e : c * 2 ^ suc s ≡ 2 * (c * 2 ^ s) = omega (arith, ap (λ (t : ℕ). c * t) (pow-suc 2 s)) in
    let h : c * 2 ^ suc s / 2 ≡ c * 2 ^ s = omega (arith, e) in
    let k : bit_and (w / 2) (c * 2 ^ suc s / 2) ≡ bit_and (w / 2 ^ suc s) c * 2 ^ s =
      rw h (shifted_mask s c (w / 2) ∙ rw (div_two_pow w s) refl) in
    let x = bit_and (w / 2 ^ suc s) c in
    let d : x * 2 ^ suc s ≡ 2 * (x * 2 ^ s) = omega (arith, ap (λ (t : ℕ). x * t) (pow-suc 2 s)) in
    omega (arith, half, parity, e, k, d)

-- A bit of a number as a number.
unfoldable pub num : Bool → ℕ
num true = 1
num false = 0

num_test : (v : ℕ) → v < 2 → num (v == 1) ≡ v
unfolding num
num_test v lt = ground arith

has-two_pow : (w s : ℕ) → has w (2 ^ s) ≡ (w / 2 ^ s % 2 == 1)
has-two_pow w s =
    let e : 2 ^ s ≡ 1 * 2 ^ s = omega arith in
    let m : bit_and (w / 2 ^ s) 1 ≡ w / 2 ^ s % 2 = bit_and-low_mask 1 (w / 2 ^ s) in
    elim (Bool-cases (w / 2 ^ s % 2 == 1)) [
      | inl on ↦
          let one : w / 2 ^ s % 2 ≡ 1 = ground (arith, on) in
          let v : bit_and w (1 * 2 ^ s) ≡ 2 ^ s = rw (shifted_mask s 1 w, m, one) (omega arith) in
          rw (on, e, v) (ground (arith, one-le-pow s 2))
      | inr off ↦
          let none_set : w / 2 ^ s % 2 ≡ 0 = ground (arith, off) in
          let v : bit_and w (1 * 2 ^ s) ≡ 0 = rw (shifted_mask s 1 w, m, none_set) (omega arith) in
          rw (off, e, v) refl
    ]

-- A bit of a word that is a bit of a byte of it.
has-bit_of : (w s b t : ℕ) → w / 2 ^ s % 2 ≡ b / 2 ^ t % 2 → has w (2 ^ s) ≡ bit_of b t
has-bit_of w s b t e = has-two_pow w s ∙ rw e (sym (has-two_pow b t))

digit-num : (b t : ℕ) → b / 2 ^ t % 2 ≡ num (bit_of b t)
digit-num b t = sym (rw (has-two_pow b t) (num_test (b / 2 ^ t % 2) (omega arith)))

-- A field of `k` bits of a word.
field : (s k w : ℕ) → bit_and w ((2 ^ k - 1) * 2 ^ s) / 2 ^ s ≡ w / 2 ^ s % 2 ^ k
field s k w =
    rw (shifted_mask s (2 ^ k - 1) w, bit_and-low_mask k (w / 2 ^ s))
      (mul-div_cancel (w / 2 ^ s % 2 ^ k) (ground (arith, one-le-pow s 2)))

-- What two words tell of the bits of a DIS or DCS.
pub record Reads (dis xinfo : ℕ) (on : ℕ → Bool) : Type 0 where
  pub v8 : has dis 0x040000 ≡ on 6
  pub framesize : has dis 0x020000 ≡ on 7
  pub fine : has dis 0x000200 ≡ on 15
  pub two_dim : has dis 0x000100 ≡ on 16
  pub uncompressed : has xinfo (0x40 * 2 ^ 24) ≡ on 26
  pub ecm : has xinfo (0x20 * 2 ^ 24) ≡ on 27
  pub short_frames : has xinfo (2 ^ 28) ≡ on 28
  pub mmr : has xinfo (0x02 * 2 ^ 24) ≡ on 31
  pub r8 : has xinfo (0x80 * 2 ^ 8) ≡ on 41
  pub dpi300 : has xinfo (0x40 * 2 ^ 8) ≡ on 42
  pub r16 : has xinfo (0x20 * 2 ^ 8) ≡ on 43
  pub inches : has xinfo (0x10 * 2 ^ 8) ≡ on 44
  pub metres : has xinfo (0x08 * 2 ^ 8) ≡ on 45
  pub resolution : bit_and dis 0x000200 / 2 ^ 9 ≡ num (on 15)
  pub rate :
      bit_and dis 0x003c00 / 2 ^ 10
      ≡ 8 * num (on 11) + 4 * num (on 12) + 2 * num (on 13) + num (on 14)
  pub width : bit_and dis 0x0000c0 / 2 ^ 6 ≡ 2 * num (on 17) + num (on 18)
  pub lines : bit_and dis 0x000030 / 2 ^ 4 ≡ 2 * num (on 19) + num (on 20)
  pub scan : bit_and dis 0x00000e / 2 ^ 1 ≡ 4 * num (on 21) + 2 * num (on 22) + num (on 23)

module _ (m : List ℕ) (is : IsFaxBits m) where
  first_word-sum : first_word m ≡ get_byte m 0 * 2 ^ 16 + get_byte m 1 * 2 ^ 8 + get_byte m 2
  first_word-sum =
      let b0 = get_byte m 0 in
      let b1 = get_byte m 1 in
      let b2 = get_byte m 2 in
      let e1 : b0 * 2 ^ 16 + b1 * 2 ^ 8 ≡ (b0 * 2 ^ 8 + b1) * 2 ^ 8 = omega arith in
      let e2 : b2 * 2 ^ 0 ≡ b2 = omega arith in
      let e3 : b0 * 2 ^ 16 + 0 ≡ b0 * 2 ^ 16 = omega arith in
      rw
        (
          bit_or-above 16 b0 0 (omega arith),
          e3,
          bit_or-shifted 16 b0 (b1 * 2 ^ 8) (omega (arith, is.bytes 1)),
          e1,
          e2,
          bit_or-shifted 8 (b0 * 2 ^ 8 + b1) b2 (omega (arith, is.bytes 2)),
        )
        refl

  xinfo_word-sum :
      xinfo_word m
      ≡ get_byte m 3 * 2 ^ 24 + get_byte m 4 * 2 ^ 16 + get_byte m 5 * 2 ^ 8 + get_byte m 6
  xinfo_word-sum =
      let b3 = get_byte m 3 in
      let b4 = get_byte m 4 in
      let b5 = get_byte m 5 in
      let b6 = get_byte m 6 in
      let e0 : b3 * 2 ^ 24 + 0 ≡ b3 * 2 ^ 24 = omega arith in
      let e1 : b3 * 2 ^ 24 + b4 * 2 ^ 16 ≡ (b3 * 2 ^ 8 + b4) * 2 ^ 16 = omega arith in
      let e2 : (b3 * 2 ^ 8 + b4) * 2 ^ 16 + b5 * 2 ^ 8 ≡ ((b3 * 2 ^ 8 + b4) * 2 ^ 8 + b5) * 2 ^ 8 =
        omega arith in
      let e3 : b6 * 2 ^ 0 ≡ b6 = omega arith in
      rw
        (
          bit_or-above 24 b3 0 (omega arith),
          e0,
          bit_or-shifted 24 b3 (b4 * 2 ^ 16) (omega (arith, is.bytes 4)),
          e1,
          bit_or-shifted 16 (b3 * 2 ^ 8 + b4) (b5 * 2 ^ 8) (omega (arith, is.bytes 5)),
          e2,
          e3,
          bit_or-shifted 8 ((b3 * 2 ^ 8 + b4) * 2 ^ 8 + b5) b6 (omega (arith, is.bytes 6)),
        )
        refl

  -- The words of the bytes tell their bits.
  pub words-Reads : Reads (first_word m) (xinfo_word m) (is_bit_enabled m)
  unfolding is_bit_enabled
  words-Reads =
      let b1 = is.bytes 1 in
      let b2 = is.bytes 2 in
      let b4 = is.bytes 4 in
      let b5 = is.bytes 5 in
      let b6 = is.bytes 6 in
      let bit = λ (i t : ℕ). digit-num (get_byte m i) t in
      let dis = first_word-sum in
      let xinfo = xinfo_word-sum in
      let on = has-bit_of in
      record {
        v8 = on _ 18 (get_byte m 0) 2 (omega (arith, dis, b1, b2));
        framesize = on _ 17 (get_byte m 0) 1 (omega (arith, dis, b1, b2));
        fine = on _ 9 (get_byte m 1) 1 (omega (arith, dis, b2));
        two_dim = on _ 8 (get_byte m 1) 0 (omega (arith, dis, b2));
        uncompressed = on _ 30 (get_byte m 3) 6 (omega (arith, xinfo, b4, b5, b6));
        ecm = on _ 29 (get_byte m 3) 5 (omega (arith, xinfo, b4, b5, b6));
        short_frames = on _ 28 (get_byte m 3) 4 (omega (arith, xinfo, b4, b5, b6));
        mmr = on _ 25 (get_byte m 3) 1 (omega (arith, xinfo, b4, b5, b6));
        r8 = on _ 15 (get_byte m 5) 7 (omega (arith, xinfo, b6));
        dpi300 = on _ 14 (get_byte m 5) 6 (omega (arith, xinfo, b6));
        r16 = on _ 13 (get_byte m 5) 5 (omega (arith, xinfo, b6));
        inches = on _ 12 (get_byte m 5) 4 (omega (arith, xinfo, b6));
        metres = on _ 11 (get_byte m 5) 3 (omega (arith, xinfo, b6));
        resolution = field 9 1 (first_word m) ∙ omega (arith, dis, b2, bit 1 1);
        rate =
            field 10 4 (first_word m)
            ∙ omega (arith, dis, b2, b1, bit 1 5, bit 1 4, bit 1 3, bit 1 2);
        width = field 6 2 (first_word m) ∙ omega (arith, dis, b2, bit 2 7, bit 2 6);
        lines = field 4 2 (first_word m) ∙ omega (arith, dis, b2, bit 2 5, bit 2 4);
        scan = field 1 3 (first_word m) ∙ omega (arith, dis, b2, bit 2 3, bit 2 2, bit 2 1);
      }
