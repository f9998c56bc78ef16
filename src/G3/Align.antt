-- ===== src/G3/Align.antt =====
-- The EOLs that encode puts end on byte boundaries.
use hyla_fax.Base.{
  ℕ, zero, suc, ◌+◌, ◌-◌, ◌%◌, ◌≤◌, Bool, false, ltb, ◌==◌, if◌then◌else◌, ◌≡◌, refl, arith, inl,
  inr, Bool-cases,
}
use hyla_fax.Base.Checks.{ltb→lt}
use hyla_fax.G3.Codes.{eol}
use hyla_fax.G3.Encoder.{Encoder, fill_byte, put_last, put_rounds, put_bits, align_eol, put_eol}

abbrev InRange : Encoder → Type 0
InRange s = (1 ≤ s.bit) × (s.bit ≤ 8)

-- `t` is `s` with the bit position moved by `n` bits, modulo a byte.
abbrev Moves : Encoder → ℕ → Encoder → Type 0
Moves s n t = InRange t × ((t.bit + n) % 8 ≡ s.bit % 8)

fill_byte-bit : (s : Encoder) (v n : ℕ) → (fill_byte s v n).bit ≡ 8
unfolding fill_byte
fill_byte-bit s v n = refl

put_last-Moves : (s : Encoder) (v n : ℕ) → InRange s → n ≤ s.bit → Moves s n (put_last s v n)
unfolding put_last
put_last-Moves s v n r le = elim (Bool-cases (s.bit - n == 0)) [
  | inl full ↦ rw full (ground arith)
  | inr part ↦ rw part (ground arith)
]

-- putBits moves the bit position by the length, modulo a byte.
put_rounds-Moves :
    (fuel : ℕ) (s : Encoder) (v n : ℕ) → InRange s → n ≤ fuel → Moves s n (put_rounds fuel s v n)
unfolding put_rounds
put_rounds-Moves zero s v n r enough = put_last-Moves s v n r (omega arith)
put_rounds-Moves (suc fuel) s v n r enough = elim (Bool-cases (ltb s.bit n)) [
  | inl more ↦
      let e = fill_byte-bit s v n in
      let rest =
        put_rounds-Moves fuel (fill_byte s v n) v (n - s.bit) (rw e (omega arith)) (omega arith) in
      rw more (rest.0, omega (arith, rest.1, e, ltb→lt s.bit n more))
  | inr done ↦ rw done (put_last-Moves s v n r (ground arith))
]

put_bits-Moves : (s : Encoder) (v n : ℕ) → InRange s → Moves s n (put_bits s v n)
unfolding put_bits
put_bits-Moves s v n r = put_rounds-Moves n s v n r (omega arith)

align_eol-bit : (s : Encoder) → InRange s → s.first_eol ≡ false → (align_eol s).bit ≡ 4
unfolding align_eol
align_eol-bit s r later = simp later (elim (Bool-cases (s.bit == 4)) [
  | inl at_four ↦ simp at_four (ground arith)
  | inr fill ↦ simp fill (filled (if ltb s.bit 4 then s.bit + 4 else s.bit - 4) (ground arith))
])
  where
    filled : (k : ℕ) → s.bit % 8 ≡ (4 + k) % 8 → (put_bits s 0 k).bit ≡ 4
    filled k e = omega (arith, put_bits-Moves s 0 k r)

-- Where the data is not MR, so that the EOL has no tag bit, every EOL that encode puts behind the
-- first ends at a byte boundary, for every bit position from 1 to 8 before it.
pub put_eol_aligned :
    (two_dim : Bool) (s : Encoder)
    → 1 ≤ s.bit
    → s.bit ≤ 8
    → s.is2d ≡ false
    → s.first_eol ≡ false
    → (put_eol two_dim s).bit ≡ 8
unfolding put_eol
put_eol_aligned two_dim s lo hi one_dim later = simp one_dim (
    let four = align_eol-bit s (lo, hi) later in
    omega (arith, four, put_bits-Moves (align_eol s) eol 12 (rw four (omega arith))))
