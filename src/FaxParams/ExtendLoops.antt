-- ===== src/FaxParams/ExtendLoops.antt =====
-- setExtendBits and unsetExtendBits (libhylafax/FaxParams.c++), bit by bit.
use hyla_fax.Base.{
  ℕ, zero, suc, ◌+◌, ◌-◌, ◌≤◌, ◌<◌, bit_and, bit_or, Bool, false, not, ◌&&◌, ◌||◌, ltb, leb, ◌==◌,
  List, ◌≡◌, refl, ap, ◌∙◌, arith, inl, inr, Bool-cases,
}
use hyla_fax.Base.Lists.{put, get_or-put_other}
use hyla_fax.FaxParams.Bits.{get_byte, set_extend_down, set_extend_bits, unset_extend_down}
use hyla_fax.FaxParams.View.{
  view, IsFaxBits, with_bit, without_bit, with_bit-IsFaxBits, without_bit-IsFaxBits, view-with_bit,
  view-without_bit,
}

pub set_extend_down-IsFaxBits :
    (rounds : ℕ) (m : List ℕ) → IsFaxBits m → rounds + 1 < 16 → IsFaxBits (set_extend_down rounds m)
unfolding set_extend_down
set_extend_down-IsFaxBits zero m is lt = is
set_extend_down-IsFaxBits (suc rounds) m is lt =
    set_extend_down-IsFaxBits rounds (with_bit m is (rounds + 2) 0 (omega arith) (omega arith))
      (with_bit-IsFaxBits m is (rounds + 2) 0 (omega arith) (omega arith)) (omega arith)

one_more :
    (rounds j t : ℕ) (v : Bool)
    → ((t == 0 && (leb 2 j && ltb j (rounds + 2))) || ((rounds + 2 == j && 0 == t) || v))
      ≡ ((t == 0 && (leb 2 j && ltb j (suc rounds + 2))) || v)
one_more rounds j t v = ground arith

-- setExtendBits sets the lowest bits of the bytes from 2 up to its own, and no other.
view-set_extend_down :
    (rounds : ℕ) (m : List ℕ) (j t : ℕ)
    → IsFaxBits m
    → rounds + 1 < 16
    → t < 8
    → view (set_extend_down rounds m) j t
      ≡ ((t == 0 && (leb 2 j && ltb j (rounds + 2))) || view m j t)
unfolding set_extend_down
view-set_extend_down zero m j t is lt t-lt = ground arith
view-set_extend_down (suc rounds) m j t is lt t-lt =
    let m' = with_bit m is (rounds + 2) 0 (omega arith) (omega arith) in
    let is' : IsFaxBits m' = with_bit-IsFaxBits m is (rounds + 2) 0 (omega arith) (omega arith) in
    let here = view-with_bit m is (rounds + 2) 0 (omega arith) (omega arith) j t t-lt in
    let rest = view-set_extend_down rounds m' j t is' (omega arith) t-lt in
    rest
    ∙ ap (λ (v : Bool). (t == 0 && (leb 2 j && ltb j (rounds + 2))) || v) here
    ∙ one_more rounds j t (view m j t)

pub view-set_extend_bits :
    (m : List ℕ) (n j t : ℕ)
    → IsFaxBits m
    → n < 16
    → t < 8
    → view (set_extend_bits m n) j t ≡ ((t == 0 && (leb 2 j && ltb j n)) || view m j t)
unfolding set_extend_bits
view-set_extend_bits m n j t is lt t-lt = elim (Bool-cases (leb 3 n)) [
  | inl long ↦
      let e : n - 2 + 2 ≡ n = ground (arith, long) in
      rw long (rw e at (view-set_extend_down (n - 2) m j t is (omega arith) t-lt))
  | inr short ↦ rw short (ground arith)
]

pub set_extend_bits-IsFaxBits :
    (m : List ℕ) (n : ℕ) → IsFaxBits m → n < 16 → IsFaxBits (set_extend_bits m n)
unfolding set_extend_bits
set_extend_bits-IsFaxBits m n is lt = elim (Bool-cases (leb 3 n)) [
  | inl long ↦ rw long (set_extend_down-IsFaxBits (n - 2) m is (omega arith))
  | inr short ↦ rw short is
]

pub unset_extend_down-IsFaxBits :
    (rounds : ℕ) (m : List ℕ)
    → IsFaxBits m
    → rounds + 1 < 16
    → IsFaxBits (unset_extend_down rounds m)
unfolding unset_extend_down
unset_extend_down-IsFaxBits zero m is lt = is
unset_extend_down-IsFaxBits (suc rounds) m is lt =
    elim (Bool-cases (bit_and (get_byte m (rounds + 2)) 0xff == 0)) [
      | inl empty ↦ rw empty (
          unset_extend_down-IsFaxBits rounds
            (without_bit m is (rounds + 1) 0 (omega arith) (omega arith))
            (without_bit-IsFaxBits m is (rounds + 1) 0 (omega arith) (omega arith)) (omega arith))
      | inr used ↦ rw used is
    ]

-- unsetExtendBits clears lowest bits of bytes only.
pub view-unset_extend_down :
    (rounds : ℕ) (m : List ℕ) (j t : ℕ)
    → IsFaxBits m
    → rounds + 1 < 16
    → t < 8
    → (t == 0) ≡ false
    → view (unset_extend_down rounds m) j t ≡ view m j t
unfolding unset_extend_down
view-unset_extend_down zero m j t is lt t-lt high = refl
view-unset_extend_down (suc rounds) m j t is lt t-lt high =
    elim (Bool-cases (bit_and (get_byte m (rounds + 2)) 0xff == 0)) [
      | inl empty ↦
          let m' = without_bit m is (rounds + 1) 0 (omega arith) (omega arith) in
          let is' = without_bit-IsFaxBits m is (rounds + 1) 0 (omega arith) (omega arith) in
          let here = view-without_bit m is (rounds + 1) 0 (omega arith) (omega arith) j t t-lt in
          let stays : (not (rounds + 1 == j && 0 == t) && view m j t) ≡ view m j t = ground arith in
          rw empty (view-unset_extend_down rounds m' j t is' (omega arith) t-lt high ∙ here ∙ stays)
      | inr used ↦ rw used refl
    ]

pub view-unset_extend_down_off :
    (rounds : ℕ) (m : List ℕ) (j t : ℕ)
    → IsFaxBits m
    → rounds + 1 < 16
    → t < 8
    → view m j t ≡ false
    → view (unset_extend_down rounds m) j t ≡ false
unfolding unset_extend_down
view-unset_extend_down_off zero m j t is lt t-lt clear = clear
view-unset_extend_down_off (suc rounds) m j t is lt t-lt clear =
    elim (Bool-cases (bit_and (get_byte m (rounds + 2)) 0xff == 0)) [
      | inl empty ↦
          let m' = without_bit m is (rounds + 1) 0 (omega arith) (omega arith) in
          let is' = without_bit-IsFaxBits m is (rounds + 1) 0 (omega arith) (omega arith) in
          let here = view-without_bit m is (rounds + 1) 0 (omega arith) (omega arith) j t t-lt in
          let stays : (not (rounds + 1 == j && 0 == t) && view m j t) ≡ false =
            ground (arith, clear) in
          rw empty (view-unset_extend_down_off rounds m' j t is' (omega arith) t-lt (here ∙ stays))
      | inr used ↦ rw used clear
    ]

get_byte-set_extend_down :
    (rounds : ℕ) (m : List ℕ) (j : ℕ)
    → rounds + 1 < j
    → get_byte (set_extend_down rounds m) j ≡ get_byte m j
unfolding set_extend_down
get_byte-set_extend_down zero m j lt = refl
get_byte-set_extend_down (suc rounds) m j lt =
    get_byte-set_extend_down rounds (put m (rounds + 2) (bit_or (get_byte m (rounds + 2)) 0x01)) j
      (omega arith)
    ∙ get_or-put_other m (rounds + 2) j (bit_or (get_byte m (rounds + 2)) 0x01) 0 (ground arith)

-- setExtendBits leaves its own byte and those beyond it.
pub get_byte-set_extend_bits :
    (m : List ℕ) (n j : ℕ) → n ≤ j → get_byte (set_extend_bits m n) j ≡ get_byte m j
unfolding set_extend_bits
get_byte-set_extend_bits m n j le = elim (Bool-cases (leb 3 n)) [
  | inl long ↦ rw long (get_byte-set_extend_down (n - 2) m j (ground (arith, long)))
  | inr short ↦ rw short refl
]
