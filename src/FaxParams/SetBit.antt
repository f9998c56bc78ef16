-- ===== src/FaxParams/SetBit.antt =====
-- setBit and isBitEnabled (libhylafax/FaxParams.c++): the bit that is set, and the bits that stay.
use hyla_fax.Base.{
  ℕ, ◌-◌, ◌%◌, ◌<◌, Bool, true, false, not, ◌&&◌, ◌||◌, ltb, leb, ◌==◌, List, ◌≡◌, refl, ap, sym,
  ◌∙◌, arith, inl, inr, Bool-cases,
}
use hyla_fax.FaxParams.Bits.{
  calculate_byte_number, valid_bit_number, is_bit_enabled, set_extend_bits, unset_extend_down,
  unset_extend_bits, set_bit,
}
use hyla_fax.FaxParams.View.{
  view, IsFaxBits, with_bit, without_bit, with_bit-IsFaxBits, without_bit-IsFaxBits, view-with_bit,
  view-without_bit,
}
use hyla_fax.FaxParams.ExtendLoops.{
  set_extend_bits-IsFaxBits, view-set_extend_bits, unset_extend_down-IsFaxBits,
  view-unset_extend_down, view-unset_extend_down_off,
}

-- The bit of a bit number, within its byte.
abbrev pub bit_number : ℕ → ℕ
bit_number n = 7 - (n - 1) % 8

pub is_bit_enabled-view :
    (m : List ℕ) (n : ℕ)
    → valid_bit_number n ≡ true
    → is_bit_enabled m n ≡ view m (calculate_byte_number n) (bit_number n)
unfolding is_bit_enabled
is_bit_enabled-view m n valid = rw valid refl

module _ (m : List ℕ) (n : ℕ) (is : IsFaxBits m) (valid : valid_bit_number n ≡ true) where
  pub byte_inside : calculate_byte_number n < 16
  byte_inside = ground (arith, valid)

  pub bit_inside : bit_number n < 8
  bit_inside = omega arith

  abbrev pub raised : List ℕ
  raised = with_bit m is (calculate_byte_number n) (bit_number n) byte_inside bit_inside

  abbrev pub lowered : List ℕ
  lowered = without_bit m is (calculate_byte_number n) (bit_number n) byte_inside bit_inside

  pub raised-IsFaxBits : IsFaxBits raised
  raised-IsFaxBits =
      with_bit-IsFaxBits m is (calculate_byte_number n) (bit_number n) byte_inside bit_inside

  pub lowered-IsFaxBits : IsFaxBits lowered
  lowered-IsFaxBits =
      without_bit-IsFaxBits m is (calculate_byte_number n) (bit_number n) byte_inside bit_inside

  pub set_bit-true : set_bit m n true ≡ set_extend_bits raised (calculate_byte_number n)
  unfolding set_bit
  set_bit-true = rw valid refl

  pub set_bit-false : set_bit m n false ≡ unset_extend_down 14 lowered
  unfolding set_bit unset_extend_bits
  set_bit-false = rw valid refl

  -- setBit writes byte_inside the array, and bytes.
  set_bit-IsFaxBits_valid : (val : Bool) → IsFaxBits (set_bit m n val)
  set_bit-IsFaxBits_valid true =
      rw set_bit-true (set_extend_bits-IsFaxBits raised _ raised-IsFaxBits byte_inside)
  set_bit-IsFaxBits_valid false =
      rw set_bit-false (unset_extend_down-IsFaxBits 14 lowered lowered-IsFaxBits (omega arith))

  -- What setBit does to a bit, seen by byte and place; the lowest bits apart where it clears.
  pub view-set_bit-true :
      (j t : ℕ)
      → t < 8
      → view (set_bit m n true) j t ≡ (
          (t == 0 && (leb 2 j && ltb j (calculate_byte_number n)))
          || ((calculate_byte_number n == j && bit_number n == t) || view m j t))
  view-set_bit-true j t lt = rw set_bit-true (
      view-set_extend_bits raised (calculate_byte_number n) j t raised-IsFaxBits byte_inside lt
      ∙ ap (λ (v : Bool). (t == 0 && (leb 2 j && ltb j (calculate_byte_number n))) || v)
          (view-with_bit m is (calculate_byte_number n) (bit_number n) byte_inside bit_inside j t
            lt))

  view-set_bit-false :
      (j t : ℕ)
      → t < 8
      → (t == 0) ≡ false
      → view (set_bit m n false) j t
        ≡ (not (calculate_byte_number n == j && bit_number n == t) && view m j t)
  view-set_bit-false j t lt high = rw set_bit-false (
      view-unset_extend_down 14 lowered j t lowered-IsFaxBits (omega arith) lt high
      ∙ view-without_bit m is (calculate_byte_number n) (bit_number n) byte_inside bit_inside j t
          lt)

  -- Clearing never sets a bit.
  view-set_bit-false_off :
      (j t : ℕ)
      → t < 8
      → (not (calculate_byte_number n == j && bit_number n == t) && view m j t) ≡ false
      → view (set_bit m n false) j t ≡ false
  view-set_bit-false_off j t lt clear = rw set_bit-false (
      view-unset_extend_down_off 14 lowered j t lowered-IsFaxBits (omega arith) lt (
        view-without_bit m is (calculate_byte_number n) (bit_number n) byte_inside bit_inside j t lt
        ∙ clear))

-- setBit keeps the array of sixteen bytes, whatever the number and the value.
pub set_bit-IsFaxBits :
    (m : List ℕ) (n : ℕ) (val : Bool) → IsFaxBits m → IsFaxBits (set_bit m n val)
unfolding set_bit
set_bit-IsFaxBits m n val is = elim (Bool-cases (valid_bit_number n)) [
  | inl valid ↦ set_bit-IsFaxBits_valid m n is valid val
  | inr invalid ↦ rw invalid is
]

-- isBitEnabled returns the value that setBit has given the bit, for every number from 1 to 127.
pub is_bit_enabled-set_bit :
    (m : List ℕ) (n : ℕ) (val : Bool)
    → IsFaxBits m
    → valid_bit_number n ≡ true
    → is_bit_enabled (set_bit m n val) n ≡ val
is_bit_enabled-set_bit m n true is valid =
    is_bit_enabled-view (set_bit m n true) n valid
    ∙ view-set_bit-true m n is valid (calculate_byte_number n) (bit_number n) (omega arith)
    ∙ ground arith
is_bit_enabled-set_bit m n false is valid =
    is_bit_enabled-view (set_bit m n false) n valid
    ∙ view-set_bit-false_off m n is valid (calculate_byte_number n) (bit_number n) (omega arith)
        (ground arith)

-- Two bit numbers with the same byte and place are the same.
pub same_number :
    (n k : ℕ)
    → valid_bit_number n ≡ true
    → valid_bit_number k ≡ true
    → (n == k) ≡ false
    → (calculate_byte_number n == calculate_byte_number k && bit_number n == bit_number k) ≡ false
same_number n k valid valid' other = ground arith

-- setBit leaves the other bits as they are, those apart that end a byte, where T.30 keeps its extend
-- bits: for every two numbers from 1 to 127.
pub is_bit_enabled-set_bit_other :
    (m : List ℕ) (n k : ℕ) (val : Bool)
    → IsFaxBits m
    → valid_bit_number n ≡ true
    → valid_bit_number k ≡ true
    → (n == k) ≡ false
    → (k % 8 == 0) ≡ false
    → is_bit_enabled (set_bit m n val) k ≡ is_bit_enabled m k
is_bit_enabled-set_bit_other m n k true is valid valid' other high =
    let apart = same_number n k valid valid' other in
    let high' : (bit_number k == 0) ≡ false = ground (arith, valid') in
    is_bit_enabled-view (set_bit m n true) k valid'
    ∙ view-set_bit-true m n is valid (calculate_byte_number k) (bit_number k) (omega arith)
    ∙ rw (apart, high') refl
    ∙ sym (is_bit_enabled-view m k valid')
is_bit_enabled-set_bit_other m n k false is valid valid' other high =
    let apart = same_number n k valid valid' other in
    let high' : (bit_number k == 0) ≡ false = ground (arith, valid') in
    is_bit_enabled-view (set_bit m n false) k valid'
    ∙ view-set_bit-false m n is valid (calculate_byte_number k) (bit_number k) (omega arith) high'
    ∙ rw apart refl
    ∙ sym (is_bit_enabled-view m k valid')
