-- ===== src/FaxParams/Unsetting.antt =====
-- unsetExtendBits (libhylafax/FaxParams.c++) leaves the extend bits right: the lowest bit of a byte from 2 on tells
-- that another byte follows.
use hyla_fax.Base.{
  ℕ, zero, suc, ◌+◌, ◌≤◌, ◌<◌, bit_and, true, false, ◌&&◌, ltb, leb, ◌==◌, List, ◌≡◌, refl, ◌∙◌,
  arith, inl, inr, Bool-cases,
}
use hyla_fax.Base.Checks.{all_below, all_below_sound}
use hyla_fax.FaxParams.Bits.{get_byte, unset_extend_down}
use hyla_fax.FaxParams.View.{
  view, IsFaxBits, without_bit, without_bit-IsFaxBits, view-without_bit, bit_of-positive,
  get_byte-without_bit, without_bit-positive,
}

-- The extend bits of a bit string: a byte that is not 0 has them set in every byte from 2 up to its own,
-- and one is set only where the next byte is not 0.
pub record IsExtended (m : List ℕ) : Type 0 where
  pub extended : (i j : ℕ) → 2 ≤ i → i < j → 0 < get_byte m j → view m i 0 ≡ true
  pub needed : (i : ℕ) → 2 ≤ i → view m i 0 ≡ true → 0 < get_byte m (i + 1)

-- Where the loop of unsetExtendBits stands before it looks at the byte b: the bytes beyond it are 0, its
-- extend bit is not set, and the extend bits before it are right.
pub record IsUnsetting (b : ℕ) (m : List ℕ) : Type 0 where
  pub cleared : (j : ℕ) → b < j → get_byte m j ≡ 0
  pub unset : view m b 0 ≡ false
  pub before : (i j : ℕ) → 2 ≤ i → i < j → j ≤ b → 0 < get_byte m j → view m i 0 ≡ true

stop-IsExtended : (b : ℕ) (m : List ℕ) → IsUnsetting b m → 0 < get_byte m b → IsExtended m
stop-IsExtended b m u used = record {
  extended = λ i j ge lt positive. elim (Bool-cases (leb j b)) [
    | inl reached ↦ u.before i j ge lt (ground arith) positive
    | inr beyond ↦ absurd (omega (arith, positive, u.cleared j (ground arith)))
  ];
  needed = λ i ge set. elim (Bool-cases (ltb i b)) [
    | inl under ↦ elim (Bool-cases (i + 1 == b)) [
      | inl next ↦ let e : b ≡ i + 1 = ground (arith, next) in rw e at used
      | inr later ↦
          bit_of-positive (get_byte m (i + 1)) 0 (omega arith)
            (u.before (i + 1) b (omega arith) (ground arith) (omega arith) used)
    ]
    | inr over ↦ elim (Bool-cases (i == b)) [
      | inl same ↦
          let e : i ≡ b = ground (arith, same) in absurd (ground (arith, u.unset, (rw e at set)))
      | inr beyond ↦ absurd (
          omega
            (arith, u.cleared i (ground arith), bit_of-positive (get_byte m i) 0 (omega arith) set))
    ]
  ];
}

-- A byte that `& 0xFF` finds to be 0 is 0.
low_byte : all_below 256 (λ v. bit_and v 0xff == v) ≡ true
unfolding all_below
low_byte = refl

pub low_byte_lem : (v : ℕ) → v < 256 → (bit_and v 0xff == 0) ≡ (v == 0)
low_byte_lem v lt =
    let e : bit_and v 0xff ≡ v = ground (arith, all_below_sound 256 _ v low_byte lt) in rw e refl

module _ (b : ℕ) (m : List ℕ) (is : IsFaxBits m) (inside : b + 1 < 16)
    (u : IsUnsetting (b + 1) m) where
  abbrev m' : List ℕ
  m' = without_bit m is b 0 (omega arith) (omega arith)

  same_byte : (j : ℕ) → b < j → get_byte m' j ≡ get_byte m j
  same_byte j lt = get_byte-without_bit m is b 0 (omega arith) (omega arith) j (ground arith)

  less : (j : ℕ) → j < b → view m' j 0 ≡ view m j 0
  less j lt =
      let apart : (b == j && 0 == 0) ≡ false = ground arith in
      view-without_bit m is b 0 (omega arith) (omega arith) j 0 (omega arith) ∙ rw apart refl

  -- A round of the loop.
  next-IsUnsetting : get_byte m (b + 1) ≡ 0 → IsUnsetting b m'
  next-IsUnsetting empty = record {
    cleared = λ j lt. elim (Bool-cases (j == b + 1)) [
      | inl next ↦ let e : j ≡ b + 1 = ground (arith, next) in same_byte j lt ∙ rw e empty
      | inr later ↦ same_byte j lt ∙ u.cleared j (ground arith)
    ];
    unset = view-without_bit m is b 0 (omega arith) (omega arith) b 0 (omega arith) ∙ ground arith;
    before = λ i j ge lt le positive.
        less i (omega arith)
        ∙ u.before i j ge lt (omega arith)
            (without_bit-positive m is b 0 (omega arith) (omega arith) j positive);
  }

IsUnsetting-at : (b c : ℕ) (m : List ℕ) → b ≡ c → IsUnsetting b m → IsUnsetting c m
IsUnsetting-at b c m e u = rw e at u

-- unsetExtendBits leaves the extend bits right.
pub unset-IsExtended :
    (rounds : ℕ) (m : List ℕ)
    → IsFaxBits m
    → rounds + 1 < 16
    → IsUnsetting (rounds + 1) m
    → IsExtended (unset_extend_down rounds m)
unfolding unset_extend_down
unset-IsExtended zero m is lt u = record {
  extended = λ i j ge less positive. absurd (omega (arith, positive, u.cleared j (omega arith)));
  needed = λ i ge set. absurd (
      omega (arith, u.cleared i (omega arith), bit_of-positive (get_byte m i) 0 (omega arith) set));
}
unset-IsExtended (suc rounds) m is lt u =
    let byte = low_byte_lem (get_byte m (rounds + 2)) (is.bytes (rounds + 2)) in
    elim (Bool-cases (get_byte m (rounds + 2) == 0)) [
      | inl empty ↦
          let up : IsUnsetting (rounds + 1 + 1) m =
            IsUnsetting-at (suc rounds + 1) (rounds + 1 + 1) m (omega arith) u in
          rw (byte, empty)
            (unset-IsExtended rounds (m' (rounds + 1) m is (omega arith) up)
              (without_bit-IsFaxBits m is (rounds + 1) 0 (omega arith) (omega arith)) (omega arith)
              (next-IsUnsetting (rounds + 1) m is (omega arith) up (ground (arith, empty))))
      | inr used ↦
          rw (byte, used)
            (stop-IsExtended (rounds + 2) m
              (IsUnsetting-at (suc rounds + 1) (rounds + 2) m (omega arith) u)
              (ground (arith, used)))
    ]
