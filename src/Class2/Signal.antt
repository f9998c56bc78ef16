-- ===== src/Class2/Signal.antt =====
-- What setFromDCS (libhylafax/Class2Params.c++) decodes from the bits that update sets for a DCS.
use hyla_fax.Base.{
  inl, inr, Bool-cases, ℕ, ◌-◌, ◌/◌, ◌%◌, Bool, true, false, ◌||◌, ◌==◌, if◌then◌else◌, List, ◌≡◌,
  refl, ◌∙◌, arith,
}
use hyla_fax.Base.Bytes.{bit_of-zero}
use hyla_fax.FaxParams.Bits.{setup_t30_words, set_bit, is_bit_enabled}
use hyla_fax.FaxParams.View.{IsFaxBits}
use hyla_fax.FaxParams.SetBit.{set_bit-IsFaxBits}
use hyla_fax.FaxParams.Setup.{get_or-zeros, initialize-IsFaxBits}
use hyla_fax.Class2.Session.{Session}
use hyla_fax.Class2.Update.{
  check_param, resolution_bits, rate_bits, page_bits, format_bits, scan_bits, set_all, update,
}
use hyla_fax.Class2.Enabled.{
  is_plain, is_bit_enabled-raised, asked, are_valid, set_all-IsFaxBits, set_all-asked,
  set_ecm-plain, set_ecm-27, set_ecm_size, frame_bit, frame_bit_lem, set_ecm-IsFaxBits,
}

-- The bits that the lists of calls of update set.
unfoldable pub listed : Session → (is_dis : Bool) → ℕ → Bool
listed p is_dis k =
    asked (scan_bits p is_dis) k
    || (asked (format_bits p is_dis) k
        || (asked (page_bits p is_dis) k
            || (asked (rate_bits p is_dis) k || (asked (resolution_bits p is_dis) k || 10 == k))))

-- The bits that stand in a DIS or a DCS for the parameters.
unfoldable pub signal : Session → (is_dis : Bool) → ℕ → Bool
signal p is_dis k =
    let long = check_param p.ec 2 is_dis in
    let short = check_param p.ec 1 is_dis in
    let others = listed p is_dis k in
    if k == 27
    then long || (short || others)
    else if k == frame_bit is_dis
    then (if long then false else if short then true else others)
    else others

rate_bits-are_valid : (p : Session) (is_dis : Bool) → are_valid (rate_bits p is_dis) ≡ true
unfolding are_valid
rate_bits-are_valid p true = refl
rate_bits-are_valid p false = refl

module _ (p : Session) (is_dis : Bool) where
  abbrev m0 : List ℕ
  m0 = set_bit (setup_t30_words 0 0) 10 true

  m0-IsFaxBits : IsFaxBits m0
  unfolding setup_t30_words
  m0-IsFaxBits = set_bit-IsFaxBits _ 10 true initialize-IsFaxBits

  abbrev m1 : List ℕ
  m1 = set_all (resolution_bits p is_dis) m0

  abbrev m2 : List ℕ
  m2 = set_all (rate_bits p is_dis) m1

  abbrev m3 : List ℕ
  m3 = set_all (page_bits p is_dis) m2

  abbrev m4 : List ℕ
  m4 = set_all (format_bits p is_dis) m3

  abbrev m5 : List ℕ
  m5 = set_all (scan_bits p is_dis) m4

  m1-IsFaxBits : IsFaxBits m1
  m1-IsFaxBits = set_all-IsFaxBits _ m0 m0-IsFaxBits

  m2-IsFaxBits : IsFaxBits m2
  m2-IsFaxBits = set_all-IsFaxBits _ m1 m1-IsFaxBits

  m3-IsFaxBits : IsFaxBits m3
  m3-IsFaxBits = set_all-IsFaxBits _ m2 m2-IsFaxBits

  m4-IsFaxBits : IsFaxBits m4
  m4-IsFaxBits = set_all-IsFaxBits _ m3 m3-IsFaxBits

  m5-IsFaxBits : IsFaxBits m5
  m5-IsFaxBits = set_all-IsFaxBits _ m4 m4-IsFaxBits

  pub update-IsFaxBits : IsFaxBits (update p is_dis)
  unfolding update
  update-IsFaxBits = set_ecm-IsFaxBits p is_dis m5 m5-IsFaxBits

  m0-enabled : (k : ℕ) → is_plain k ≡ true → is_bit_enabled m0 k ≡ (10 == k)
  unfolding setup_t30_words is_bit_enabled
  m0-enabled k plain =
      is_bit_enabled-raised (setup_t30_words 0 0) 10 k initialize-IsFaxBits refl plain
      ∙ rw (get_or-zeros 16 ((k - 1) / 8), bit_of-zero (7 - (k - 1) % 8) (omega arith))
          (ground (arith, plain))

  -- The array after the lists of calls.
  m5-listed : (k : ℕ) → is_plain k ≡ true → is_bit_enabled m5 k ≡ listed p is_dis k
  unfolding are_valid listed
  m5-listed k plain =
      rw
        (
          set_all-asked (scan_bits p is_dis) m4 k m4-IsFaxBits refl plain,
          set_all-asked (format_bits p is_dis) m3 k m3-IsFaxBits refl plain,
          set_all-asked (page_bits p is_dis) m2 k m2-IsFaxBits refl plain,
          set_all-asked (rate_bits p is_dis) m1 k m1-IsFaxBits (rate_bits-are_valid p is_dis) plain,
          set_all-asked (resolution_bits p is_dis) m0 k m0-IsFaxBits refl plain,
          m0-enabled k plain,
        )
        refl

  update-plain :
      (k : ℕ)
      → is_plain k ≡ true
      → (27 == k) ≡ false
      → (frame_bit is_dis == k) ≡ false
      → is_bit_enabled (update p is_dis) k ≡ signal p is_dis k
  unfolding update signal
  update-plain k plain not27 other =
      let not27' : (k == 27) ≡ false = ground (arith, not27) in
      let other' : (k == frame_bit is_dis) ≡ false = ground (arith, other) in
      set_ecm-plain p is_dis m5 m5-IsFaxBits k plain not27 other
      ∙ m5-listed k plain
      ∙ rw (not27', other') refl

  update-27 : is_bit_enabled (update p is_dis) 27 ≡ signal p is_dis 27
  unfolding update signal
  update-27 = set_ecm-27 p is_dis m5 m5-IsFaxBits ∙ rw (m5-listed 27 refl) refl

  update_size :
      is_bit_enabled (update p is_dis) (frame_bit is_dis) ≡ signal p is_dis (frame_bit is_dis)
  unfolding update signal
  update_size =
      let frame = frame_bit_lem is_dis in
      let plain : is_plain (frame_bit is_dis) ≡ true = ground (arith, frame) in
      let not27 : (frame_bit is_dis == 27) ≡ false = ground (arith, frame) in
      let same : (frame_bit is_dis == frame_bit is_dis) ≡ true = ground arith in
      set_ecm_size p is_dis m5 m5-IsFaxBits
      ∙ rw (m5-listed (frame_bit is_dis) plain, not27, same) refl

  -- The bits that update leaves are the ones of the parameters.
  pub update-signal :
      (k : ℕ) → is_plain k ≡ true → is_bit_enabled (update p is_dis) k ≡ signal p is_dis k
  update-signal k plain = elim (Bool-cases (k == 27)) [
    | inl ecm ↦ let e : k ≡ 27 = ground (arith, ecm) in rw e update-27
    | inr other ↦ elim (Bool-cases (k == frame_bit is_dis)) [
      | inl size ↦ let e : k ≡ frame_bit is_dis = ground (arith, size) in rw e update_size
      | inr rest ↦ update-plain k plain (ground (arith, other)) (ground (arith, rest))
    ]
  ]
