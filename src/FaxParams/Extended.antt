-- ===== src/FaxParams/Extended.antt =====
-- The extend bits that setBit (libhylafax/FaxParams.c++) keeps: the lowest bit of a byte from 2 on tells
-- that another byte follows.
use hyla_fax.Base.{
  ℕ, ◌+◌, ◌%◌, ◌≤◌, ◌<◌, Bool, true, false, not, ◌&&◌, ◌||◌, ltb, leb, ◌==◌, get_or, List, ◌≡◌,
  refl, ap, ◌∙◌, arith, inl, inr, Bool-cases,
}
use hyla_fax.Base.Checks.{all_below, all_below_sound}
use hyla_fax.FaxParams.Bits.{
  bit_numbers, get_byte, calculate_byte_number, valid_bit_number, set_bit,
}
use hyla_fax.FaxParams.View.{
  view, IsFaxBits, view-without_bit, bit_of-positive, byte_after, get_byte-with_bit,
  without_bit-positive,
}
use hyla_fax.FaxParams.ExtendLoops.{get_byte-set_extend_bits}
use hyla_fax.FaxParams.SetBit.{
  bit_number, byte_inside, bit_inside, lowered, lowered-IsFaxBits, raised, set_bit-true,
  set_bit-false, view-set_bit-true,
}
use hyla_fax.FaxParams.Unsetting.{IsExtended, IsUnsetting, unset-IsExtended}

module _ (m : List ℕ) (n : ℕ) (is : IsFaxBits m) (ext : IsExtended m)
    (valid : valid_bit_number n ≡ true) (plain : ((n % 8 == 0) && leb 24 n) ≡ false) where
  abbrev byte_num : ℕ
  byte_num = calculate_byte_number n

  apart : (i : ℕ) → 2 ≤ i → (byte_num == i && bit_number n == 0) ≡ false
  apart i ge = ground (arith, plain, valid)

  -- The extend bits after the bit itself has been cleared.
  view-lowered : (i : ℕ) → 2 ≤ i → view (lowered m n is valid) i 0 ≡ view m i 0
  view-lowered i ge =
      view-without_bit m is byte_num (bit_number n) (byte_inside m n is valid)
        (bit_inside m n is valid) i 0 (omega arith)
      ∙ rw (apart i ge) refl

  -- T.30 has no bit 128.
  view-last : view m 15 0 ≡ false
  view-last = elim (Bool-cases (view m 15 0)) [
    | inl set ↦
        absurd (omega (arith, ext.needed 15 (omega arith) set, byte_after m is 16 (omega arith)))
    | inr unset ↦ unset
  ]

  lowered-IsUnsetting : IsUnsetting 15 (lowered m n is valid)
  lowered-IsUnsetting = record {
    cleared =
        λ j lt. byte_after (lowered m n is valid) (lowered-IsFaxBits m n is valid) j (omega arith);
    unset = view-lowered 15 (omega arith) ∙ view-last;
    before = λ i j ge lt le positive.
        view-lowered i ge
        ∙ ext.extended i j ge lt (
            without_bit-positive m is byte_num (bit_number n) (byte_inside m n is valid)
              (bit_inside m n is valid) j positive);
  }

  -- The extend bits where setBit sets a bit.
  raised-at : (i : ℕ) → 2 ≤ i → view (set_bit m n true) i 0 ≡ (ltb i byte_num || view m i 0)
  raised-at i ge = view-set_bit-true m n is valid i 0 (omega arith) ∙ rw (apart i ge) (ground arith)

  own-positive : 0 < get_byte (set_bit m n true) byte_num
  own-positive =
      bit_of-positive (get_byte (set_bit m n true) byte_num) (bit_number n) (omega arith)
        (view-set_bit-true m n is valid byte_num (bit_number n) (omega arith) ∙ ground arith)

  beyond-same : (j : ℕ) → byte_num < j → get_byte (set_bit m n true) j ≡ get_byte m j
  beyond-same j lt =
      ap (λ (v : List ℕ). get_byte v j) (set_bit-true m n is valid)
      ∙ get_byte-set_extend_bits (raised m n is valid) byte_num j (omega arith)
      ∙ get_byte-with_bit m is byte_num (bit_number n) (byte_inside m n is valid)
          (bit_inside m n is valid) j (ground arith)

  set_bit-true-IsExtended : IsExtended (set_bit m n true)
  set_bit-true-IsExtended = record {
    extended = λ i j ge lt positive. elim (Bool-cases (ltb i byte_num)) [
      | inl under ↦ raised-at i ge ∙ rw under refl
      | inr over ↦
          let positive' : 0 < get_byte m j = (rw (beyond-same j (ground arith)) at positive) in
          raised-at i ge ∙ rw (over, ext.extended i j ge lt positive') refl
    ];
    needed = λ i ge set. elim (Bool-cases (ltb i byte_num)) [
      | inl under ↦ elim (Bool-cases (i + 1 == byte_num)) [
        | inl next ↦ let e : i + 1 ≡ byte_num = ground (arith, next) in rw e own-positive
        | inr later ↦
            bit_of-positive (get_byte (set_bit m n true) (i + 1)) 0 (omega arith)
              (raised-at (i + 1) (omega arith) ∙ ground arith)
      ]
      | inr over ↦
          let set' : view m i 0 ≡ true = ground (arith, raised-at i ge, set, over) in
          rw (beyond-same (i + 1) (ground arith)) (ext.needed i ge set')
    ];
  }

  set_bit-IsExtended_plain : (val : Bool) → IsExtended (set_bit m n val)
  set_bit-IsExtended_plain true = set_bit-true-IsExtended
  set_bit-IsExtended_plain false = rw (set_bit-false m n is valid) (
      unset-IsExtended 14 (lowered m n is valid) (lowered-IsFaxBits m n is valid) (omega arith)
        lowered-IsUnsetting)

-- setBit keeps the extend bits right, for every bit number but those of the extend bits themselves: those
-- from 24 on that are multiples of 8.
pub set_bit-IsExtended :
    (m : List ℕ) (n : ℕ) (val : Bool)
    → IsFaxBits m
    → IsExtended m
    → ((n % 8 == 0) && leb 24 n) ≡ false
    → IsExtended (set_bit m n val)
unfolding set_bit
set_bit-IsExtended m n val is ext plain = elim (Bool-cases (valid_bit_number n)) [
  | inl valid ↦ set_bit-IsExtended_plain m n is ext valid plain val
  | inr invalid ↦ rw invalid ext
]

named_plain :
    all_below 35 (λ i. not ((get_or bit_numbers i 0 % 8 == 0) && leb 24 (get_or bit_numbers i 0)))
    ≡ true
unfolding all_below
named_plain = refl

-- setBit keeps the extend bits right for each of the 35 bits that FaxParams has a name for.
pub set_bit-IsExtended_named :
    (m : List ℕ) (i : ℕ) (val : Bool)
    → i < 35
    → IsFaxBits m
    → IsExtended m
    → IsExtended (set_bit m (get_or bit_numbers i 0) val)
set_bit-IsExtended_named m i val lt is ext =
    set_bit-IsExtended m (get_or bit_numbers i 0) val is ext
      (ground (arith, all_below_sound 35 _ i named_plain lt))
