-- ===== src/FaxParams/Tests.antt =====
-- Runs of the model of libhylafax/FaxParams.c++ on concrete bit strings.
use hyla_fax.Base.{
  ℕ, zero, suc, ◌≤◌, ◌<◌, true, false, List, [], ◌∷◌, replicate, some, ◌≡◌, refl, arith,
}
use hyla_fax.Base.Lists.{put}
use hyla_fax.FaxParams.Bits.{
  get_byte, initialize_bit_string, setup_t30, setup_bytes, setup_t30_words, set_bit,
  set_extend_bits, set_extend_down, unset_extend_bits, unset_extend_down, is_bit_enabled,
  ascii_encode, encode_from, equals,
}
use hyla_fax.FaxParams.Unsetting.{IsExtended}
use hyla_fax.FaxParams.Extended.{set_bit-IsExtended}
use hyla_fax.FaxParams.TwoDim.{set_bit-two_dim}
use hyla_fax.FaxParams.Ascii.{encode_decode, upto, last_byte, last_from, ascii_decode-ascii_encode}
use hyla_fax.FaxParams.Compare.{equals-put_last}
use hyla_fax.FaxParams.Setup.{initialize-IsFaxBits, get_or-zeros}

abbrev params : List ℕ
params = initialize_bit_string

ecm_run : set_bit (set_bit params 43 true) 27 true ≡ 0 ∷ 0 ∷ 1 ∷ 33 ∷ 1 ∷ 32 ∷ replicate 10 0
unfolding set_bit set_extend_bits set_extend_down
ecm_run = refl

-- What a machine with error correction may send.
abbrev dis : List ℕ
dis = 0 ∷ 0xee ∷ 0xf9 ∷ 0xc4 ∷ []

encode_run :
    ascii_encode (setup_t30 dis) ≡ some (48 ∷ 48 ∷ 32 ∷ 69 ∷ 69 ∷ 32 ∷ 70 ∷ 57 ∷ 32 ∷ 67 ∷ 52 ∷ [])
unfolding ascii_encode encode_from setup_t30 setup_bytes
encode_run = refl

words_run : setup_t30_words 0x00eef9 0xc4000000 ≡ 0 ∷ 0xee ∷ 0xf9 ∷ 0xc4 ∷ replicate 12 0
unfolding setup_t30_words
words_run = refl

dis_bytes : (i : ℕ) → get_byte dis i < 256
dis_bytes zero = omega arith
dis_bytes (suc zero) = omega arith
dis_bytes (suc (suc zero)) = omega arith
dis_bytes (suc (suc (suc zero))) = omega arith
dis_bytes (suc (suc (suc (suc i)))) = omega arith

params-IsExtended : IsExtended params
params-IsExtended = record {
  extended = λ i j ge lt positive. absurd (omega (arith, positive, get_or-zeros 16 j));
  needed = λ i ge set. absurd (ground (arith, get_or-zeros 16 i, (rw (get_or-zeros 16 i) at set)));
}

set_bit-IsExtended_example : IsExtended (set_bit params 43 true)
set_bit-IsExtended_example =
    set_bit-IsExtended params 43 true initialize-IsFaxBits params-IsExtended refl

set_bit-two_dim_example : is_bit_enabled (set_bit params 17 false) 16 ≡ false
set_bit-two_dim_example =
    set_bit-two_dim params 17 initialize-IsFaxBits refl (λ j ge. get_or-zeros 16 j)

-- Two-dimensional coding is enabled, then the width is cleared: two-dimensional coding is lost.
two_dim_run : is_bit_enabled (set_bit (set_bit params 16 true) 17 false) 16 ≡ false
unfolding set_bit set_extend_bits set_extend_down unset_extend_bits unset_extend_down is_bit_enabled
two_dim_run = refl

ascii_decode-ascii_encode_example :
    encode_decode params ≡ some (upto params (suc (last_byte params)))
ascii_decode-ascii_encode_example = ascii_decode-ascii_encode params initialize-IsFaxBits refl

last_run : 3 ≤ last_byte dis
unfolding last_from
last_run = omega arith

equals-put_last_example : equals dis (put dis (last_byte dis) 0xc0) ≡ true
equals-put_last_example = equals-put_last dis 0xc0 last_run
