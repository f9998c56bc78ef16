-- ===== src/Row/Packed.antt =====
-- sgi2fax/row.c: rows of bits, eight samples a byte, and the reversal of the bits of bytes. A short is
-- its 16-bit word.
use hyla_fax.Base.{
  ℕ, zero, suc, ◌+◌, ◌-◌, ◌*◌, ◌/◌, ◌^◌, ◌≤◌, ◌<◌, bit_and, bit_or, true, ltb, leb, ◌==◌, ◌||◌,
  if◌then◌else◌, List, [], ◌∷◌, ◌++◌, map, take, length, get_or, ◌≡◌, refl, ap, ◌∙◌, arith,
}
use hyla_fax.Base.Checks.{all_below, all_below_sound, ==_iff}
use hyla_fax.Row.Loops.{by_eight, by_eight-map, take-map}

abbrev pub sample_of : ℕ → ℕ → ℕ
sample_of val bit = if bit_and val bit == 0 then 255 else 0

-- A round of bitstorow: the eight samples of a byte.
unfoldable pub byte_to_row : ℕ → List ℕ
byte_to_row val =
    sample_of val 0x80
    ∷ sample_of val 0x40
    ∷ sample_of val 0x20
    ∷ sample_of val 0x10
    ∷ sample_of val 0x08
    ∷ sample_of val 0x04
    ∷ sample_of val 0x02
    ∷ sample_of val 0x01
    ∷ []

unfoldable pub bytes_to_row : ℕ → List ℕ → List ℕ
bytes_to_row zero bits = []
bytes_to_row (suc nbytes) [] = []
bytes_to_row (suc nbytes) (val ∷ bits) = byte_to_row val ++ bytes_to_row nbytes bits

-- bitstorow. It writes whole bytes of samples, one byte for `n` of 0 too.
unfoldable pub bitstorow : List ℕ → ℕ → List ℕ
unfolding bytes_to_row
bitstorow bits n = bytes_to_row ((n - 1) / 8 + 1) bits

-- sbuf[i] < thresh on shorts, for a threshold of 128.
abbrev pub bit_if_dark : ℕ → ℕ → ℕ
bit_if_dark s bit = if leb 32768 s || ltb s 128 then bit else 0

-- rowtobits, for `nbytes` bytes.
unfoldable pub row_to_bytes : ℕ → List ℕ → List ℕ
row_to_bytes zero sbuf = []
row_to_bytes (suc nbytes) (s0 ∷ s1 ∷ s2 ∷ s3 ∷ s4 ∷ s5 ∷ s6 ∷ s7 ∷ sbuf) =
    bit_or
      (bit_or
        (bit_or
          (bit_or
            (bit_or
              (bit_or (bit_or (bit_or 0 (bit_if_dark s0 0x80)) (bit_if_dark s1 0x40))
                (bit_if_dark s2 0x20))
              (bit_if_dark s3 0x10))
            (bit_if_dark s4 0x08))
          (bit_if_dark s5 0x04))
        (bit_if_dark s6 0x02))
      (bit_if_dark s7 0x01)
    ∷ row_to_bytes nbytes sbuf
row_to_bytes (suc nbytes) _ = []

unfoldable pub rowtobits : List ℕ → ℕ → List ℕ
unfolding row_to_bytes
rowtobits sbuf n = row_to_bytes ((n - 1) / 8 + 1) sbuf

-- The table of bitrevbytes: `br` is shifted up as the bits of `i` are read from the lowest on.
unfoldable pub bitrev_rounds : ℕ → (i x br : ℕ) → ℕ
bitrev_rounds zero i x br = br
bitrev_rounds (suc rounds) i x br =
    bitrev_rounds rounds i (suc x) (if bit_and i (2 ^ x) == 0 then br * 2 else bit_or (br * 2) 1)

abbrev pub bitrev : ℕ → ℕ
bitrev i = bitrev_rounds 8 i 0 0

unfoldable pub bitrevbytes : List ℕ → ℕ → List ℕ
bitrevbytes = by_eight bitrev

abbrev pub AreBytes : List ℕ → Type 0
AreBytes [] = Unit {0}
AreBytes (b ∷ bs) = (b < 256) × AreBytes bs

bitrev_checked : all_below 256 (λ b. bitrev (bitrev b) == b) ≡ true
unfolding all_below bitrev_rounds
bitrev_checked = refl

bitrev_twice : (b : ℕ) → b < 256 → bitrev (bitrev b) ≡ b
bitrev_twice b lt =
    (==_iff _ _).0 (all_below_sound 256 (λ b. bitrev (bitrev b) == b) b bitrev_checked lt)

take-AreBytes : (n : ℕ) (bs : List ℕ) → AreBytes bs → AreBytes (take n bs)
take-AreBytes zero bs h = tt
take-AreBytes (suc n) [] h = h
take-AreBytes (suc n) (b ∷ bs) h = (h.0, take-AreBytes n bs h.1)

map_twice : (bs : List ℕ) → AreBytes bs → map bitrev (map bitrev bs) ≡ bs
map_twice [] h = refl
map_twice (b ∷ bs) h =
    ap (λ (t : ℕ). t ∷ map bitrev (map bitrev bs)) (bitrev_twice b h.0)
    ∙ ap (◌∷◌ b) (map_twice bs h.1)

-- Reversing the bits of the first `n` bytes twice gives them back.
pub bitrevbytes-bitrevbytes :
    (bs : List ℕ) (n : ℕ) → AreBytes bs → bitrevbytes (bitrevbytes bs n) n ≡ take n bs
unfolding bitrevbytes
bitrevbytes-bitrevbytes bs n h =
    by_eight-map bitrev (by_eight bitrev bs n) n
    ∙ ap (λ (ws : List ℕ). map bitrev (take n ws)) (by_eight-map bitrev bs n)
    ∙ ap (map bitrev) (take-map bitrev n bs)
    ∙ map_twice (take n bs) (take-AreBytes n bs h)

abbrev byte_back : ℕ → List ℕ
byte_back val = row_to_bytes 1 (byte_to_row val)

byte_back_checked : all_below 256 (λ b. get_or (byte_back b) 0 256 == b) ≡ true
unfolding all_below row_to_bytes byte_to_row
byte_back_checked = refl

row_to_bytes-byte :
    (n b : ℕ) (sbuf : List ℕ)
    → row_to_bytes (suc n) (byte_to_row b ++ sbuf)
      ≡ get_or (byte_back b) 0 256 ∷ row_to_bytes n sbuf
unfolding row_to_bytes byte_to_row
row_to_bytes-byte n b sbuf = refl

row_to_bytes-bytes_to_row :
    (n : ℕ) (bits : List ℕ)
    → AreBytes bits
    → n ≤ length bits
    → row_to_bytes n (bytes_to_row n bits) ≡ take n bits
unfolding bytes_to_row
row_to_bytes-bytes_to_row zero bits h le = unfold row_to_bytes in refl
row_to_bytes-bytes_to_row (suc n) [] h le = absurd (omega arith)
row_to_bytes-bytes_to_row (suc n) (b ∷ bits) h le =
    row_to_bytes-byte n b (bytes_to_row n bits)
    ∙ ap (λ (t : ℕ). t ∷ row_to_bytes n (bytes_to_row n bits))
        ((==_iff _ _).0
          (all_below_sound 256 (λ b. get_or (byte_back b) 0 256 == b) b byte_back_checked h.0))
    ∙ ap (◌∷◌ b) (row_to_bytes-bytes_to_row n bits h.1 (omega arith))

-- Packing the samples that bitstorow makes of bytes gives the bytes back, if there are enough of them
-- for `n` samples.
pub rowtobits-bitstorow :
    (bits : List ℕ) (n : ℕ)
    → AreBytes bits
    → (n - 1) / 8 + 1 ≤ length bits
    → rowtobits (bitstorow bits n) n ≡ take ((n - 1) / 8 + 1) bits
unfolding rowtobits bitstorow
rowtobits-bitstorow bits n h le = row_to_bytes-bytes_to_row ((n - 1) / 8 + 1) bits h le
