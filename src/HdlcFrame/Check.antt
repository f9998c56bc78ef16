-- ===== src/HdlcFrame/Check.antt =====
-- checkCRC (faxd/HDLCFrame.h) holds for a frame that ends with what getCRC gave before.
use Prim.Native.Nat.{bit_xor}
use hyla_fax.Base.{
  ℕ, zero, suc, ◌-◌, ◌*◌, ◌/◌, ◌%◌, ◌^◌, ◌<◌, bit_and, true, ◌&&◌, ◌||◌, ltb, ◌==◌, if◌then◌else◌,
  List, [], ◌∷◌, length, ◌≡◌, refl, arith, inl, inr, Bool-cases,
}
use hyla_fax.Base.Checks.{all_below, all_below_sound}
use hyla_fax.HdlcFrame.Crc.{crc_round, crc_rounds, build_crc}
use hyla_fax.HdlcFrame.Residue.{build_fcs-good}
use hyla_fax.HdlcFrame.Buffer.{HdlcFrame, reset, addc, grow, put_byte, get_crc, check_crc}

-- A round with the bit already in its place.
abbrev shift_in : (crc top : ℕ) → ℕ
shift_in crc top =
    let shifted = bit_xor crc top * 2 in
    if shifted / 2 ^ 16 == 0 then shifted else bit_xor shifted 0x11021

sixteen_bits :
    all_below 65536 (λ crc. ltb (shift_in crc 0) 65536 && ltb (shift_in crc 32768) 65536) ≡ true
unfolding all_below
sixteen_bits = refl

one_bit :
    all_below 8 (λ i.
      all_below 256
        (λ c. bit_and c (2 ^ i) * 2 ^ (15 - i) == 0 || bit_and c (2 ^ i) * 2 ^ (15 - i) == 32768))
    ≡ true
unfolding all_below
one_bit = refl

crc_round_lt : (c i crc : ℕ) → c < 256 → i < 8 → crc < 65536 → crc_round c i crc < 65536
unfolding crc_round
crc_round_lt c i crc byte lt fits =
    let bit = all_below_sound 256 _ c (all_below_sound 8 _ i one_bit lt) byte in
    let every = all_below_sound 65536 _ crc sixteen_bits fits in
    elim (Bool-cases (bit_and c (2 ^ i) * 2 ^ (15 - i) == 0)) [
      | inl zero_bit ↦
          let e : bit_and c (2 ^ i) * 2 ^ (15 - i) ≡ 0 = ground (arith, zero_bit) in
          rw e (ground (arith, every))
      | inr set_bit ↦
          let e : bit_and c (2 ^ i) * 2 ^ (15 - i) ≡ 32768 = ground (arith, bit, set_bit) in
          rw e (ground (arith, every))
    ]

crc_rounds_lt : (bits c crc : ℕ) → c < 256 → bits < 9 → crc < 65536 → crc_rounds bits c crc < 65536
unfolding crc_rounds
crc_rounds_lt zero c crc byte lt fits = fits
crc_rounds_lt (suc bits) c crc byte lt fits =
    crc_rounds_lt bits c (crc_round c bits crc) byte (omega arith)
      (crc_round_lt c bits crc byte (omega arith) fits)

module _ (malloc : ℕ → List ℕ) where
  put_byte-crc : (s : HdlcFrame) (c : ℕ) → (put_byte malloc s c).crc ≡ build_crc c s.crc
  unfolding put_byte addc grow
  put_byte-crc s c = elim (Bool-cases (ltb s.next (length s.mem))) [
    | inl room ↦ rw room refl
    | inr full ↦
        rw full (elim (Bool-cases s.in_buf) [ inl own ↦ rw own refl | inr heap ↦ rw heap refl ])
  ]

  -- A frame, byte by byte.
  unfoldable pub put_each : HdlcFrame → List ℕ → HdlcFrame
  put_each s [] = s
  put_each s (c ∷ cs) = put_each (put_byte malloc s c) cs

  abbrev pub AreBytes : List ℕ → Type 0
  AreBytes [] = Unit {0}
  AreBytes (c ∷ cs) = (c < 256) × AreBytes cs

  put_each-crc_lt :
      (s : HdlcFrame) (cs : List ℕ) → AreBytes cs → s.crc < 65536 → (put_each s cs).crc < 65536
  unfolding put_each build_crc
  put_each-crc_lt s [] bytes fits = fits
  put_each-crc_lt s (c ∷ cs) (byte, bytes) fits =
      put_each-crc_lt (put_byte malloc s c) cs bytes
        (rw (put_byte-crc s c) (crc_rounds_lt 8 c s.crc byte (omega arith) fits))

  -- The two bytes of getCRC, high byte first.
  abbrev pub put_fcs : HdlcFrame → HdlcFrame
  put_fcs s = put_byte malloc (put_byte malloc s (get_crc s / 256 % 256)) (get_crc s % 256)

  -- checkCRC holds for every frame that is put byte by byte after a reset and ends with the two low bytes
  -- of what getCRC returned before them, high byte first.
  pub put_fcs-check_crc :
      (s : HdlcFrame) (bytes : List ℕ)
      → AreBytes bytes
      → check_crc (put_fcs (put_each (reset s) bytes)) ≡ true
  put_fcs-check_crc s bytes are =
      let t = put_each (reset s) bytes in
      let fits : t.crc < 65536 = put_each-crc_lt (reset s) bytes are (omega arith) in
      let hi : get_crc t / 256 % 256 ≡ (65535 - t.crc) / 256 = omega (arith, fits) in
      let lo : get_crc t % 256 ≡ (65535 - t.crc) % 256 = omega (arith, fits) in
      rw
        (
          put_byte-crc (put_byte malloc t (get_crc t / 256 % 256)) (get_crc t % 256),
          put_byte-crc t (get_crc t / 256 % 256),
          hi,
          lo,
        )
        (build_fcs-good t.crc fits)
