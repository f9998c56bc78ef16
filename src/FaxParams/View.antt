-- ===== src/FaxParams/View.antt =====
-- m_bits (libhylafax/FaxParams.h) seen as one test for each bit of each byte.
use hyla_fax.Base.{
  ℕ, ◌-◌, ◌^◌, ◌≤◌, ◌<◌, bit_and, bit_or, Bool, true, false, not, ◌&&◌, ◌||◌, ltb, ◌==◌, List,
  length, ◌≡◌, refl, sym, ◌∙◌, arith, inl, inr, Bool-cases,
}
use hyla_fax.Base.Checks.{all_below_sound}
use hyla_fax.Base.Lists.{put, length-put, get_or-put_same, get_or-put_other, get_or-after}
pub use hyla_fax.Base.Bytes.{bit_of, bit_of-positive}
use hyla_fax.Base.Bytes.{bit_of-or, or-byte, bit_of-clear, clear-byte, zero_clear}
use hyla_fax.FaxParams.Bits.{get_byte}

-- The bit 2^s of the byte i.
abbrev pub view : List ℕ → ℕ → ℕ → Bool
view m i s = bit_of (get_byte m i) s

-- The array has its sixteen bytes.
pub record IsFaxBits (m : List ℕ) : Type 0 where
  pub sixteen : length m ≡ 16
  pub bytes : (i : ℕ) → get_byte m i < 256

module _ (m : List ℕ) (is : IsFaxBits m) where
  pub put-IsFaxBits : (i v : ℕ) → v < 256 → IsFaxBits (put m i v)
  put-IsFaxBits i v lt = record {
    sixteen = length-put m i v ∙ is.sixteen;
    bytes = λ j. elim (Bool-cases (i == j)) [
      | inl same ↦ elim (Bool-cases (ltb i 16)) [
        | inl inside ↦
            let e : i ≡ j = ground (arith, same) in
            let within : i < length m = ground (arith, is.sixteen) in
            rw (sym e, get_or-put_same m i v 0 within) lt
        | inr outside ↦
            let beyond : length (put m i v) ≤ j = ground (arith, is.sixteen, length-put m i v) in
            rw (get_or-after (put m i v) j 0 beyond) (omega arith)
      ]
      | inr other ↦ rw (get_or-put_other m i j v 0 other) (is.bytes j)
    ];
  }

  -- A byte beyond the array reads as 0.
  pub byte_after : (i : ℕ) → 16 ≤ i → get_byte m i ≡ 0
  byte_after i le = get_or-after m i 0 (omega (arith, is.sixteen))

  module _ (i s : ℕ) (inside : i < 16) (s-lt : s < 8) where
    abbrev pub with_bit : List ℕ
    with_bit = put m i (bit_or (get_byte m i) (2 ^ s))

    abbrev pub without_bit : List ℕ
    without_bit = put m i (bit_and (get_byte m i) (0xff - 2 ^ s))

    pub with_bit-IsFaxBits : IsFaxBits with_bit
    with_bit-IsFaxBits = put-IsFaxBits i _ (or-byte (get_byte m i) s s (is.bytes i) s-lt s-lt)

    pub without_bit-IsFaxBits : IsFaxBits without_bit
    without_bit-IsFaxBits = put-IsFaxBits i _ (clear-byte (get_byte m i) s s (is.bytes i) s-lt s-lt)

    -- Setting a bit, seen bit by bit.
    pub view-with_bit : (j t : ℕ) → t < 8 → view with_bit j t ≡ ((i == j && s == t) || view m j t)
    view-with_bit j t t-lt = elim (Bool-cases (i == j)) [
      | inl same ↦
          let e : i ≡ j = ground (arith, same) in
          let within : i < length m = omega (arith, is.sixteen, inside) in
          let ii : (i == i) ≡ true = ground arith in
          rw (sym e, get_or-put_same m i (bit_or (get_byte m i) (2 ^ s)) 0 within, ii)
            (bit_of-or (get_byte m i) s t (is.bytes i) s-lt t-lt)
      | inr other ↦ rw (get_or-put_other m i j (bit_or (get_byte m i) (2 ^ s)) 0 other, other) refl
    ]

    -- Clearing a bit, seen bit by bit.
    pub view-without_bit :
        (j t : ℕ) → t < 8 → view without_bit j t ≡ (not (i == j && s == t) && view m j t)
    view-without_bit j t t-lt = elim (Bool-cases (i == j)) [
      | inl same ↦
          let e : i ≡ j = ground (arith, same) in
          let within : i < length m = omega (arith, is.sixteen, inside) in
          let ii : (i == i) ≡ true = ground arith in
          rw (sym e, get_or-put_same m i (bit_and (get_byte m i) (0xff - 2 ^ s)) 0 within, ii)
            (bit_of-clear (get_byte m i) s t (is.bytes i) s-lt t-lt)
      | inr other ↦
          rw (get_or-put_other m i j (bit_and (get_byte m i) (0xff - 2 ^ s)) 0 other, other) refl
    ]

    -- The other bytes stay.
    pub get_byte-with_bit : (j : ℕ) → (i == j) ≡ false → get_byte with_bit j ≡ get_byte m j
    get_byte-with_bit j other = get_or-put_other m i j _ 0 other

    pub get_byte-without_bit : (j : ℕ) → (i == j) ≡ false → get_byte without_bit j ≡ get_byte m j
    get_byte-without_bit j other = get_or-put_other m i j _ 0 other

    -- Clearing a bit leaves a byte that is 0 as it is.
    pub without_bit-positive : (j : ℕ) → 0 < get_byte without_bit j → 0 < get_byte m j
    without_bit-positive j positive = elim (Bool-cases (i == j)) [
      | inl same ↦
          let e : j ≡ i = ground (arith, same) in
          let within : i < length m = omega (arith, is.sixteen, inside) in
          let kept : 0 < bit_and (get_byte m i) (0xff - 2 ^ s) =
            rw (e, get_or-put_same m i (bit_and (get_byte m i) (0xff - 2 ^ s)) 0 within) at
              positive in
          elim (Bool-cases (get_byte m i == 0)) [
            | inl empty ↦
                let z : get_byte m i ≡ 0 = ground (arith, empty) in
                absurd (ground (arith, all_below_sound 8 _ s zero_clear s-lt, (rw z at kept)))
            | inr used ↦ rw e (ground (arith, used))
          ]
      | inr other ↦ rw (get_byte-without_bit j other) at positive
    ]
