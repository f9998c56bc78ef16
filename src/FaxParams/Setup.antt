-- ===== src/FaxParams/Setup.antt =====
-- setupT30 (libhylafax/FaxParams.c++): the array that it leaves can be read to its end.
use hyla_fax.Base.{
  ℕ, zero, suc, ◌+◌, ◌<◌, Bool, true, false, ltb, if◌then◌else◌, List, some, replicate, length, ◌≡◌,
  refl, ◌∙◌, arith,
}
use hyla_fax.Base.Lists.{put}
use hyla_fax.FaxParams.Bits.{get_byte, setup_bytes, setup_t30, initialize_bit_string}
use hyla_fax.FaxParams.View.{
  view, IsFaxBits, put-IsFaxBits, without_bit-IsFaxBits, view-without_bit,
}
use hyla_fax.FaxParams.Ascii.{encode_decode, upto, last_byte, ascii_decode-ascii_encode}

pub get_or-zeros : (n i : ℕ) → get_byte (replicate n 0) i ≡ 0
get_or-zeros zero i = refl
get_or-zeros (suc n) zero = refl
get_or-zeros (suc n) (suc i) = get_or-zeros n i

pub initialize-IsFaxBits : IsFaxBits initialize_bit_string
initialize-IsFaxBits = record { sixteen = refl; bytes = λ i. omega (arith, get_or-zeros 16 i) }

module _ (p_bits : List ℕ) (bytes : (i : ℕ) → get_byte p_bits i < 256) where
  setup_bytes-IsFaxBits :
      (rounds byte : ℕ) (lastbyte : Bool) (m : List ℕ)
      → IsFaxBits m
      → IsFaxBits (setup_bytes rounds byte lastbyte p_bits m)
  unfolding setup_bytes
  setup_bytes-IsFaxBits zero byte lastbyte m is = is
  setup_bytes-IsFaxBits (suc rounds) byte true m is =
      setup_bytes-IsFaxBits rounds (byte + 1) true (put m byte 0)
        (put-IsFaxBits m is byte 0 (omega arith))
  setup_bytes-IsFaxBits (suc rounds) byte false m is =
      setup_bytes-IsFaxBits rounds (byte + 1) _ (put m byte (get_byte p_bits byte))
        (put-IsFaxBits m is byte (get_byte p_bits byte) (bytes byte))

  abbrev filled : List ℕ
  filled =
      setup_bytes (if ltb (length p_bits) 16 then length p_bits else 16) 0 false p_bits
        initialize_bit_string

  filled-IsFaxBits : IsFaxBits filled
  filled-IsFaxBits = setup_bytes-IsFaxBits _ 0 false initialize_bit_string initialize-IsFaxBits

  -- setupT30 fills an array of sixteen bytes from any number of bytes.
  pub setup_t30-IsFaxBits : IsFaxBits (setup_t30 p_bits)
  unfolding setup_t30
  setup_t30-IsFaxBits =
      without_bit-IsFaxBits filled filled-IsFaxBits 15 0 (omega arith) (omega arith)

  setup_t30-ends : view (setup_t30 p_bits) 15 0 ≡ false
  unfolding setup_t30
  setup_t30-ends =
      view-without_bit filled filled-IsFaxBits 15 0 (omega arith) (omega arith) 15 0 (omega arith)
      ∙ refl

  -- Whatever bytes setupT30 is given, asciiEncode of what it leaves stays within the array, and
  -- asciiDecode gives back all of it that has a meaning.
  pub setup_t30-encode_decode :
      encode_decode (setup_t30 p_bits)
      ≡ some (upto (setup_t30 p_bits) (suc (last_byte (setup_t30 p_bits))))
  setup_t30-encode_decode =
      ascii_decode-ascii_encode (setup_t30 p_bits) setup_t30-IsFaxBits setup_t30-ends
