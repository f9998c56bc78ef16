-- ===== src/FaxParams/TwoDim.antt =====
-- unsetExtendBits (libhylafax/FaxParams.c++) also clears the bit 16, which is no extend bit: the loop
-- goes on to the byte 2, and so to the lowest bit of the byte 1, which is BITNUM_2DMR.
use hyla_fax.Base.{
  ℕ, zero, suc, ◌+◌, ◌≤◌, ◌<◌, true, false, ◌==◌, List, ◌≡◌, refl, ◌∙◌, arith, inl, inr, Bool-cases,
}
use hyla_fax.FaxParams.Bits.{get_byte, valid_bit_number, is_bit_enabled, unset_extend_down, set_bit}
use hyla_fax.FaxParams.View.{
  view, IsFaxBits, without_bit, without_bit-IsFaxBits, view-without_bit, without_bit-positive,
}
use hyla_fax.FaxParams.SetBit.{
  bit_number, is_bit_enabled-view, byte_inside, bit_inside, lowered, lowered-IsFaxBits,
  set_bit-false,
}
use hyla_fax.FaxParams.Bits.{calculate_byte_number}

zero_bytes :
    (rounds : ℕ) (m : List ℕ)
    → IsFaxBits m
    → rounds + 2 < 16
    → ((j : ℕ) → 2 ≤ j → get_byte m j ≡ 0)
    → view (unset_extend_down (suc rounds) m) 1 0 ≡ false
unfolding unset_extend_down
zero_bytes zero m is lt empty =
    let here = view-without_bit m is 1 0 (omega arith) (omega arith) 1 0 (omega arith) in
    rw (empty 2 (omega arith)) (here ∙ refl)
zero_bytes (suc rounds) m is lt empty =
    let m' = without_bit m is (suc rounds + 1) 0 (omega arith) (omega arith) in
    let is' = without_bit-IsFaxBits m is (suc rounds + 1) 0 (omega arith) (omega arith) in
    let empty' : (j : ℕ) → 2 ≤ j → get_byte m' j ≡ 0 = λ j ge.
      elim (Bool-cases (get_byte m' j == 0)) [
        | inl e ↦ ground (arith, e)
        | inr used ↦ absurd (
            omega (
              arith,
              empty j ge,
              without_bit-positive m is (suc rounds + 1) 0 (omega arith) (omega arith) j
                  (ground (arith, used)),
            ))
      ] in
    rw (empty (suc rounds + 2) (omega arith)) (zero_bytes rounds m' is' (omega arith) empty')

-- Clearing any bit of a bit string whose bytes from 2 on are 0 clears the bit 16 too.
pub set_bit-two_dim :
    (m : List ℕ) (n : ℕ)
    → IsFaxBits m
    → valid_bit_number n ≡ true
    → ((j : ℕ) → 2 ≤ j → get_byte m j ≡ 0)
    → is_bit_enabled (set_bit m n false) 16 ≡ false
set_bit-two_dim m n is valid empty =
    let low = lowered m n is valid in
    let empty' : (j : ℕ) → 2 ≤ j → get_byte low j ≡ 0 = λ j ge.
      elim (Bool-cases (get_byte low j == 0)) [
        | inl e ↦ ground (arith, e)
        | inr used ↦ absurd (
            omega (
              arith,
              empty j ge,
              without_bit-positive m is (calculate_byte_number n) (bit_number n)
                  (byte_inside m n is valid) (bit_inside m n is valid) j (ground (arith, used)),
            ))
      ] in
    is_bit_enabled-view (set_bit m n false) 16 refl
    ∙ rw (set_bit-false m n is valid)
        (zero_bytes 13 low (lowered-IsFaxBits m n is valid) (omega arith) empty')
