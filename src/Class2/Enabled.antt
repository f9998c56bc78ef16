-- ===== src/Class2/Enabled.antt =====
-- Which bits update (libhylafax/Class2Params.c++) sets in a DCS.
use hyla_fax.Base.{
  ℕ, zero, suc, ◌+◌, ◌%◌, ◌≤◌, ◌<◌, Bool, true, false, not, ◌&&◌, ◌||◌, ltb, leb, ◌==◌,
  if◌then◌else◌, List, [], ◌∷◌, ◌≡◌, refl, sym, ap, ◌∙◌, arith, inl, inr, Bool-cases,
}
use hyla_fax.FaxParams.Bits.{
  get_byte, calculate_byte_number, valid_bit_number, is_bit_enabled, unset_extend_down, set_bit,
}
use hyla_fax.FaxParams.View.{
  view, IsFaxBits, without_bit, without_bit-IsFaxBits, view-without_bit, bit_of-positive,
}
use hyla_fax.FaxParams.SetBit.{
  bit_number, is_bit_enabled-view, byte_inside, bit_inside, lowered, lowered-IsFaxBits,
  set_bit-false, view-set_bit-true, set_bit-IsFaxBits, is_bit_enabled-set_bit,
  is_bit_enabled-set_bit_other, same_number,
}
use hyla_fax.FaxParams.Unsetting.{low_byte_lem}
use hyla_fax.Class2.Session.{Session}
use hyla_fax.Class2.Update.{check_param, set_all, set_ecm}

-- The bits that are no extend bits; the bit 16 ends a byte, too.
abbrev pub is_plain : ℕ → Bool
is_plain k = valid_bit_number k && (not (k % 8 == 0) || k == 16)

pub is_bit_enabled-raised :
    (m : List ℕ) (n k : ℕ)
    → IsFaxBits m
    → valid_bit_number n ≡ true
    → is_plain k ≡ true
    → is_bit_enabled (set_bit m n true) k ≡ (n == k || is_bit_enabled m k)
is_bit_enabled-raised m n k is valid plain =
    let valid' : valid_bit_number k ≡ true = ground (arith, plain) in
    let low : (bit_number k == 0
          && (leb 2 (calculate_byte_number k)
              && ltb (calculate_byte_number k) (calculate_byte_number n)))
        ≡ false =
      ground (arith, plain) in
    let here : (calculate_byte_number n == calculate_byte_number k && bit_number n == bit_number k)
        ≡ (n == k) =
      elim (Bool-cases (n == k)) [
        | inl same ↦ let e : n ≡ k = ground (arith, same) in rw e (ground arith)
        | inr other ↦ rw other (same_number n k valid valid' other)
      ] in
    is_bit_enabled-view (set_bit m n true) k valid'
    ∙ view-set_bit-true m n is valid (calculate_byte_number k) (bit_number k) (omega arith)
    ∙ rw (low, here) (ap (λ (v : Bool). n == k || v) (sym (is_bit_enabled-view m k valid')))

-- Whether a list of calls sets a bit.
unfoldable pub asked : List (Bool × ℕ) → ℕ → Bool
asked [] k = false
asked ((c, n) ∷ more) k = let rest = asked more k in if n == k then c || rest else rest

unfoldable pub are_valid : List (Bool × ℕ) → Bool
are_valid [] = true
are_valid ((c, n) ∷ more) = valid_bit_number n && are_valid more

pub set_all-IsFaxBits : (fs : List (Bool × ℕ)) (m : List ℕ) → IsFaxBits m → IsFaxBits (set_all fs m)
unfolding set_all
set_all-IsFaxBits [] m is = is
set_all-IsFaxBits ((true, n) ∷ more) m is = set_all-IsFaxBits more _ (set_bit-IsFaxBits m n true is)
set_all-IsFaxBits ((false, n) ∷ more) m is = set_all-IsFaxBits more m is

pub set_all-asked :
    (fs : List (Bool × ℕ)) (m : List ℕ) (k : ℕ)
    → IsFaxBits m
    → are_valid fs ≡ true
    → is_plain k ≡ true
    → is_bit_enabled (set_all fs m) k ≡ (asked fs k || is_bit_enabled m k)
unfolding set_all asked are_valid
set_all-asked [] m k is valid plain = refl
set_all-asked ((true, n) ∷ more) m k is valid plain =
    let valid' : valid_bit_number n ≡ true = ground (arith, valid) in
    let rest =
      set_all-asked more (set_bit m n true) k (set_bit-IsFaxBits m n true is)
        (ground (arith, valid)) plain in
    ground (arith, rest, is_bit_enabled-raised m n k is valid' plain)
set_all-asked ((false, n) ∷ more) m k is valid plain =
    let rest = set_all-asked more m k is (ground (arith, valid)) plain in ground (arith, rest)

-- The loop of unsetExtendBits stops before the byte 1 if a byte behind it has a bit of its own set.
unset-kept :
    (rounds b t : ℕ) (m : List ℕ)
    → IsFaxBits m
    → rounds + 1 < 16
    → 2 ≤ b
    → b ≤ rounds + 1
    → t < 8
    → (t == 0) ≡ false
    → view m b t ≡ true
    → view (unset_extend_down rounds m) 1 0 ≡ view m 1 0
unfolding unset_extend_down
unset-kept zero b t m is inside low high lt own on = refl
unset-kept (suc rounds) b t m is inside low high lt own on =
    let byte = low_byte_lem (get_byte m (rounds + 2)) (is.bytes (rounds + 2)) in
    elim (Bool-cases (get_byte m (rounds + 2) == 0)) [
      | inr used ↦ rw (byte, used) refl
      | inl empty ↦
          let m' = without_bit m is (rounds + 1) 0 (omega arith) (omega arith) in
          let is' = without_bit-IsFaxBits m is (rounds + 1) 0 (omega arith) (omega arith) in
          let seen = view-without_bit m is (rounds + 1) 0 (omega arith) (omega arith) in
          elim (Bool-cases (b == rounds + 2)) [
            | inl last ↦
                let e : b ≡ rounds + 2 = ground (arith, last) in
                absurd
                  (ground (arith, bit_of-positive (get_byte m b) t lt on, ap (get_byte m) e, empty))
            | inr before ↦
                let on' : view m' b t ≡ true = seen b t lt ∙ ground (arith, on, own) in
                rw (byte, empty)
                  (unset-kept rounds b t m' is' (omega arith) low (ground (arith, before)) lt own
                      on'
                    ∙ seen 1 0 (omega arith)
                    ∙ ground (arith, low, high, before))
          ]
    ]

-- Clearing another bit where the bit 27 is set leaves the bit 16.
lowered_16 :
    (m : List ℕ) (n : ℕ)
    → IsFaxBits m
    → valid_bit_number n ≡ true
    → (n == 27) ≡ false
    → (n == 16) ≡ false
    → is_bit_enabled m 27 ≡ true
    → is_bit_enabled (set_bit m n false) 16 ≡ is_bit_enabled m 16
lowered_16 m n is valid not27 not16 on =
    let low = lowered m n is valid in
    let is' = lowered-IsFaxBits m n is valid in
    let seen =
      view-without_bit m is (calculate_byte_number n) (bit_number n) (byte_inside m n is valid)
        (bit_inside m n is valid) in
    let on' : view m 3 5 ≡ true = sym (is_bit_enabled-view m 27 refl) ∙ on in
    let apart : (calculate_byte_number n == 3 && bit_number n == 5) ≡ false =
      ground (arith, valid, not27) in
    let apart' : (calculate_byte_number n == 1 && bit_number n == 0) ≡ false =
      ground (arith, valid, not16) in
    is_bit_enabled-view (set_bit m n false) 16 refl
    ∙ rw (set_bit-false m n is valid) (
        unset-kept 14 3 5 low is' (omega arith) (omega arith) (omega arith) (omega arith) refl
          (seen 3 5 (omega arith) ∙ rw apart on'))
    ∙ seen 1 0 (omega arith)
    ∙ rw apart' (sym (is_bit_enabled-view m 16 refl))

-- The calls of the error correction: `f` is the bit of the frame size, and `frames` its value.
module _ (f : ℕ) (frame : (f == 7 || f == 28) ≡ true) where
  abbrev framed : List ℕ → (frames : Bool) → List ℕ
  framed m frames = set_bit (set_bit m 27 true) f frames

  f-valid : valid_bit_number f ≡ true
  f-valid = ground (arith, frame)

  module _ (m : List ℕ) (is : IsFaxBits m) (frames : Bool) where
    framed-IsFaxBits : IsFaxBits (framed m frames)
    framed-IsFaxBits = set_bit-IsFaxBits _ f frames (set_bit-IsFaxBits m 27 true is)

    framed_size : is_bit_enabled (framed m frames) f ≡ frames
    framed_size = is_bit_enabled-set_bit _ f frames (set_bit-IsFaxBits m 27 true is) f-valid

    framed-27 : is_bit_enabled (framed m frames) 27 ≡ true
    framed-27 =
        is_bit_enabled-set_bit_other _ f 27 frames (set_bit-IsFaxBits m 27 true is) f-valid refl
          (ground (arith, frame)) refl
        ∙ is_bit_enabled-set_bit m 27 true is refl

  framed-plain :
      (m : List ℕ) (k : ℕ) (frames : Bool)
      → IsFaxBits m
      → is_plain k ≡ true
      → (27 == k) ≡ false
      → (f == k) ≡ false
      → is_bit_enabled (framed m frames) k ≡ is_bit_enabled m k
  framed-plain m k true is plain not27 other =
      is_bit_enabled-raised _ f k (set_bit-IsFaxBits m 27 true is) f-valid plain
      ∙ rw other (is_bit_enabled-raised m 27 k is refl plain ∙ rw not27 refl)
  framed-plain m k false is plain not27 other =
      let is' = set_bit-IsFaxBits m 27 true is in
      let before : is_bit_enabled (set_bit m 27 true) k ≡ is_bit_enabled m k =
        is_bit_enabled-raised m 27 k is refl plain ∙ rw not27 refl in
      elim (Bool-cases (k == 16)) [
        | inl last ↦
            let e : k ≡ 16 = ground (arith, last) in
            let before' : is_bit_enabled (set_bit m 27 true) 16 ≡ is_bit_enabled m 16 =
              rw e at before in
            rw e (
              lowered_16 _ f is' f-valid (ground (arith, frame)) (ground (arith, frame))
                (is_bit_enabled-set_bit m 27 true is refl)
              ∙ before')
        | inr inner ↦
            is_bit_enabled-set_bit_other _ f k false is' f-valid (ground (arith, plain)) other
              (ground (arith, plain, inner))
            ∙ before
      ]

  -- What the bits of the error correction leave of the others, and set.
  ecm_step :
      (m : List ℕ) (frames c : Bool) (k : ℕ)
      → IsFaxBits m
      → is_plain k ≡ true
      → (27 == k) ≡ false
      → (f == k) ≡ false
      → is_bit_enabled (if c then framed m frames else m) k ≡ is_bit_enabled m k
  ecm_step m frames true k is plain not27 other = framed-plain m k frames is plain not27 other
  ecm_step m frames false k is plain not27 other = refl

  ecm_step-IsFaxBits :
      (m : List ℕ) (frames c : Bool) → IsFaxBits m → IsFaxBits (if c then framed m frames else m)
  ecm_step-IsFaxBits m frames true is = framed-IsFaxBits m is frames
  ecm_step-IsFaxBits m frames false is = is

  ecm_step-27 :
      (m : List ℕ) (frames c : Bool)
      → IsFaxBits m
      → is_bit_enabled (if c then framed m frames else m) 27 ≡ (c || is_bit_enabled m 27)
  ecm_step-27 m frames true is = framed-27 m is frames
  ecm_step-27 m frames false is = refl

  ecm_step_size :
      (m : List ℕ) (frames c : Bool)
      → IsFaxBits m
      → is_bit_enabled (if c then framed m frames else m) f
        ≡ (if c then frames else is_bit_enabled m f)
  ecm_step_size m frames true is = framed_size m is frames
  ecm_step_size m frames false is = refl

-- The bit of the frame size.
abbrev pub frame_bit : (is_dis : Bool) → ℕ
frame_bit is_dis = if is_dis then 7 else 28

pub frame_bit_lem : (is_dis : Bool) → (frame_bit is_dis == 7 || frame_bit is_dis == 28) ≡ true
frame_bit_lem true = refl
frame_bit_lem false = refl

module _ (p : Session) (is_dis : Bool) (m : List ℕ) (is : IsFaxBits m) where
  abbrev long : Bool
  long = check_param p.ec 2 is_dis

  abbrev short : Bool
  short = check_param p.ec 1 is_dis

  abbrev f : ℕ
  f = frame_bit is_dis

  f-frame : (f == 7 || f == 28) ≡ true
  f-frame = frame_bit_lem is_dis

  abbrev first_step : List ℕ
  first_step = if short then framed f f-frame m true else m

  first_step-IsFaxBits : IsFaxBits first_step
  first_step-IsFaxBits = ecm_step-IsFaxBits f f-frame m true short is

  pub set_ecm-IsFaxBits : IsFaxBits (set_ecm p is_dis m)
  unfolding set_ecm
  set_ecm-IsFaxBits = ecm_step-IsFaxBits f f-frame first_step false long first_step-IsFaxBits

  pub set_ecm-plain :
      (k : ℕ)
      → is_plain k ≡ true
      → (27 == k) ≡ false
      → (f == k) ≡ false
      → is_bit_enabled (set_ecm p is_dis m) k ≡ is_bit_enabled m k
  unfolding set_ecm
  set_ecm-plain k plain not27 other =
      ecm_step f f-frame first_step false long k first_step-IsFaxBits plain not27 other
      ∙ ecm_step f f-frame m true short k is plain not27 other

  pub set_ecm-27 : is_bit_enabled (set_ecm p is_dis m) 27 ≡ (long || (short || is_bit_enabled m 27))
  unfolding set_ecm
  set_ecm-27 =
      ecm_step-27 f f-frame first_step false long first_step-IsFaxBits
      ∙ ap (λ (v : Bool). long || v) (ecm_step-27 f f-frame m true short is)

  pub set_ecm_size :
      is_bit_enabled (set_ecm p is_dis m) f
      ≡ (if long then false else if short then true else is_bit_enabled m f)
  unfolding set_ecm
  set_ecm_size =
      ecm_step_size f f-frame first_step false long first_step-IsFaxBits
      ∙ ap (λ (v : Bool). if long then false else v) (ecm_step_size f f-frame m true short is)
