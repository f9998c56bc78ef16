-- ===== src/FaxParams/Compare.antt =====
-- operator== (libhylafax/FaxParams.c++): the bytes that it compares.
use hyla_fax.Base.{
  ℕ, zero, suc, ◌+◌, ◌≤◌, ◌<◌, bit_and, true, false, not, ◌||◌, ltb, ◌==◌, if◌then◌else◌, List, ◌≡◌,
  ◌↔◌, refl, sym, arith, inl, inr, Bool-cases,
}
use hyla_fax.Base.Lists.{put, get_or-put_other}
use hyla_fax.FaxParams.Bits.{get_byte, has_next_byte, equals_from, equals}
use hyla_fax.FaxParams.Ascii.{last_from, last_byte}

-- The number of bytes compared: those before the first from 3 on that tells of no other.
unfoldable pub compared_from : (left byte : ℕ) → List ℕ → ℕ
compared_from zero byte m = byte
compared_from (suc left) byte m =
    let rest = compared_from left (byte + 1) m in
    if ltb byte 3 || not (bit_and (get_byte m byte) 0x01 == 0) then rest else byte

abbrev pub compared : List ℕ → ℕ
compared m = compared_from 16 0 m

equals_from-same :
    (left b i : ℕ) (m o : List ℕ)
    → equals_from left b m o ≡ true
    → b ≤ i
    → i < compared_from left b m
    → get_byte m i ≡ get_byte o i
unfolding equals_from compared_from
equals_from-same zero b i m o e ge lt = absurd (omega arith)
equals_from-same (suc left) b i m o e ge lt =
    elim (Bool-cases (ltb b 3 || not (bit_and (get_byte m b) 0x01 == 0))) [
      | inr stop ↦ let lt' : i < b = rw stop at lt in absurd (omega arith)
      | inl more ↦ elim (Bool-cases (get_byte m b == get_byte o b)) [
        | inr differ ↦ absurd (ground (arith, (rw (more, differ) at e)))
        | inl agree ↦
            let e' : equals_from left (b + 1) m o ≡ true = rw (more, agree) at e in
            let lt' : i < compared_from left (b + 1) m = rw more at lt in
            elim (Bool-cases (i == b)) [
              | inl here ↦ let s : i ≡ b = ground (arith, here) in rw s (ground (arith, agree))
              | inr later ↦ equals_from-same left (b + 1) i m o e' (ground arith) lt'
            ]
      ]
    ]

same-equals_from :
    (left b : ℕ) (m o : List ℕ)
    → ((i : ℕ) → b ≤ i → i < compared_from left b m → get_byte m i ≡ get_byte o i)
    → equals_from left b m o ≡ true
unfolding equals_from compared_from
same-equals_from zero b m o same = refl
same-equals_from (suc left) b m o same =
    elim (Bool-cases (ltb b 3 || not (bit_and (get_byte m b) 0x01 == 0))) [
      | inr stop ↦ rw stop refl
      | inl more ↦
          let grow : b < compared_from left (b + 1) m =
            omega (arith, compared_from-above left (b + 1) m) in
          let here : (get_byte m b == get_byte o b) ≡ true =
            rw (same b (omega arith) (rw more grow)) (ground arith) in
          rw (more, here)
            (same-equals_from left (b + 1) m o (λ i ge lt. same i (omega arith) (rw more lt)))
    ]
  where
    compared_from-above : (left b : ℕ) (m : List ℕ) → b ≤ compared_from left b m
    compared_from-above zero b m = omega arith
    compared_from-above (suc left) b m =
        elim (Bool-cases (ltb b 3 || not (bit_and (get_byte m b) 0x01 == 0))) [
          | inr stop ↦ rw stop (omega arith)
          | inl more ↦ rw more (omega (arith, compared_from-above left (b + 1) m))
        ]

-- operator== holds exactly where the bytes before the first from 3 on that tells of no other are the
-- same; the first operand alone tells how many there are.
pub equals_iff :
    (m operand : List ℕ)
    → (equals m operand ≡ true) ↔ ((i : ℕ) → i < compared m → get_byte m i ≡ get_byte operand i)
unfolding equals
equals_iff m operand = (
  λ e i lt. equals_from-same 16 0 i m operand e (omega arith) lt,
  λ same. same-equals_from 16 0 m operand (λ i ge lt. same i lt),
)

compared_from-last :
    (left b : ℕ) (m : List ℕ) → 3 ≤ last_from left b m → compared_from left b m ≡ last_from left b m
unfolding compared_from last_from
compared_from-last zero b m ge = refl
compared_from-last (suc left) b m ge = elim (Bool-cases (has_next_byte m b)) [
  | inl more ↦
      let ge' : 3 ≤ last_from left (b + 1) m = rw more at ge in
      let more' : (ltb b 3 || not (bit_and (get_byte m b) 0x01 == 0)) ≡ true =
        ground (arith, more) in
      rw (more, more') (compared_from-last left (b + 1) m ge')
  | inr last ↦
      let ge' : 3 ≤ b = rw last at ge in
      let last' : (ltb b 3 || not (bit_and (get_byte m b) 0x01 == 0)) ≡ false =
        ground (arith, last) in
      rw (last, last') refl
]

-- operator== does not compare the last byte that has a meaning, where that is one from 3 on: it holds
-- whatever that byte of the other is.
pub equals-put_last :
    (m : List ℕ) (v : ℕ) → 3 ≤ last_byte m → equals m (put m (last_byte m) v) ≡ true
unfolding equals
equals-put_last m v ge = same-equals_from 16 0 m (put m (last_byte m) v) (λ i ge' lt.
    let before : i < last_byte m = rw (compared_from-last 16 0 m ge) at lt in
    sym (get_or-put_other m (last_byte m) i v 0 (ground (arith, before))))
