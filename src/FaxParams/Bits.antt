-- ===== src/FaxParams/Bits.antt =====
-- libhylafax/FaxParams.h and libhylafax/FaxParams.c++. The state is m_bits, an array of sixteen bytes.
-- Bits are numbered from 1 as in Table 2 of T.30, bytes from 0. A bit number below 0 is as invalid as 0.
use hyla_fax.Base.{
  ℕ, zero, suc, ◌+◌, ◌-◌, ◌*◌, ◌/◌, ◌%◌, ◌^◌, bit_and, bit_or, Bool, true, false, not, ◌&&◌, ◌||◌,
  ltb, leb, ◌==◌, if◌then◌else◌, List, [], ◌∷◌, ◌++◌, Option, none, some, get_or, replicate, length,
}
use hyla_fax.Base.Lists.{put}

-- MAX_BITSTRING_BYTES.
abbrev pub max_bitstring_bytes : ℕ
max_bitstring_bytes = 16

-- The constants BITNUM_V8_CAPABLE to BITNUM_JBIG_L0, in the order of the source.
abbrev pub bit_numbers : List ℕ
bit_numbers =
    6 ∷ 7 ∷ 9 ∷ 10 ∷ 11 ∷ 12 ∷ 13 ∷ 14 ∷ 15 ∷ 16 ∷ 17 ∷ 18 ∷ 19 ∷ 20 ∷ 21 ∷ 22 ∷ 23 ∷ 27 ∷ 28 ∷ 31
    ∷ 36 ∷ 41 ∷ 42 ∷ 43 ∷ 44 ∷ 45 ∷ 47 ∷ 49 ∷ 50 ∷ 68 ∷ 69 ∷ 76 ∷ 77 ∷ 78 ∷ 79 ∷ []

-- getByte, `m_bits[i]`.
abbrev pub get_byte : List ℕ → ℕ → ℕ
get_byte m i = get_or m i 0

-- initializeBitString, and the constructor without arguments.
abbrev pub initialize_bit_string : List ℕ
initialize_bit_string = replicate max_bitstring_bytes 0

-- The loop of setupT30 from the byte `byte` on.
unfoldable pub setup_bytes : (rounds byte : ℕ) → (lastbyte : Bool) → (p_bits m : List ℕ) → List ℕ
setup_bytes zero byte lastbyte p_bits m = m
setup_bytes (suc rounds) byte lastbyte p_bits m =
    let v = if lastbyte then 0 else get_byte p_bits byte in
    let lastbyte' = lastbyte || (ltb 2 byte && bit_and v 0x01 == 0) in
    setup_bytes rounds (byte + 1) lastbyte' p_bits (put m byte v)

-- setupT30 on bytes; pBits[byte] with byte < length is a byte of the caller's.
unfoldable pub setup_t30 : List ℕ → List ℕ
setup_t30 p_bits =
    let rounds =
      if ltb (length p_bits) max_bitstring_bytes then length p_bits else max_bitstring_bytes in
    let m = setup_bytes rounds 0 false p_bits initialize_bit_string in
    put m (max_bitstring_bytes - 1) (bit_and (get_byte m (max_bitstring_bytes - 1)) 0xfe)

-- setupT30 on the words of the older representation.
unfoldable pub setup_t30_words : (dis_dcs xinfo : ℕ) → List ℕ
setup_t30_words dis_dcs xinfo =
    let m0 = put initialize_bit_string 0 (bit_and dis_dcs 0xff0000 / 2 ^ 16) in
    let m1 = put m0 1 (bit_and dis_dcs 0x00ff00 / 2 ^ 8) in
    let m2 = put m1 2 (bit_and dis_dcs 0x0000ff) in
    let m3 = put m2 3 (bit_and xinfo 0xff000000 / 2 ^ 24) in
    let m4 = put m3 4 (bit_and xinfo 0x00ff0000 / 2 ^ 16) in
    let m5 = put m4 5 (bit_and xinfo 0x0000ff00 / 2 ^ 8) in put m5 6 (bit_and xinfo 0x000000ff)

abbrev pub valid_bit_number : ℕ → Bool
valid_bit_number n = leb 1 n && leb n 127

abbrev pub calculate_byte_number : ℕ → ℕ
calculate_byte_number n = (n - 1) / 8

abbrev pub calculate_mask : ℕ → ℕ
calculate_mask n = 2 ^ (7 - (n - 1) % 8)

unfoldable pub is_bit_enabled : List ℕ → ℕ → Bool
is_bit_enabled m n =
    if valid_bit_number n
    then not (bit_and (get_byte m (calculate_byte_number n)) (calculate_mask n) == 0)
    else false

-- The loop of setExtendBits, from the byte `rounds + 1` down to 2.
unfoldable pub set_extend_down : (rounds : ℕ) → List ℕ → List ℕ
set_extend_down zero m = m
set_extend_down (suc rounds) m =
    set_extend_down rounds (put m (rounds + 2) (bit_or (get_byte m (rounds + 2)) 0x01))

unfoldable pub set_extend_bits : List ℕ → (byte_num : ℕ) → List ℕ
set_extend_bits m byte_num = if leb 3 byte_num then set_extend_down (byte_num - 2) m else m

-- The loop of unsetExtendBits, from the byte `rounds + 1` down to 2.
unfoldable pub unset_extend_down : (rounds : ℕ) → List ℕ → List ℕ
unset_extend_down zero m = m
unset_extend_down (suc rounds) m =
    let rest =
      unset_extend_down rounds (put m (rounds + 1) (bit_and (get_byte m (rounds + 1)) 0xfe)) in
    if bit_and (get_byte m (rounds + 2)) 0xff == 0 then rest else m

unfoldable pub unset_extend_bits : List ℕ → List ℕ
unset_extend_bits m = unset_extend_down (max_bitstring_bytes - 2) m

unfoldable pub set_bit : List ℕ → (n : ℕ) → (val : Bool) → List ℕ
set_bit m n val =
    let byte_num = calculate_byte_number n in
    let mask = calculate_mask n in
    if valid_bit_number n
    then (if val
        then set_extend_bits (put m byte_num (bit_or (get_byte m byte_num) mask)) byte_num
        else unset_extend_bits (put m byte_num (bit_and (get_byte m byte_num) (0xff - mask))))
    else m

abbrev pub has_next_byte : List ℕ → ℕ → Bool
has_next_byte m byte_num = leb byte_num 1 || not (bit_and (get_byte m byte_num) 0x01 == 0)

-- "%.2X" of a byte.
abbrev pub hex_digit : ℕ → ℕ
hex_digit v = if ltb v 10 then 48 + v else 55 + v

abbrev pub hex_byte : ℕ → List ℕ
hex_byte v = hex_digit (v / 16 % 16) ∷ hex_digit (v % 16) ∷ []

-- asciiEncode from the byte `byte` on; the array ends after `left` bytes more, and none stands for a
-- read outside of it.
unfoldable pub encode_from : (left byte : ℕ) → List ℕ → Option (List ℕ)
encode_from zero byte m = none
encode_from (suc left) byte m =
    let here = (if byte == 0 then [] else 32 ∷ []) ++ hex_byte (get_byte m byte) in
    let more : Option (List ℕ) = elim (encode_from left (byte + 1) m) [
      | none ↦ none
      | some rest ↦ some (here ++ rest)
    ] in
    if has_next_byte m byte then more else some here

unfoldable pub ascii_encode : List ℕ → Option (List ℕ)
ascii_encode m = encode_from max_bitstring_bytes 0 m

-- A hexadecimal digit of asciiDecode, as the eight bits that are stored.
abbrev pub hex_value : ℕ → ℕ
hex_value c = (c + 256) - (if ltb 64 c then 55 else 48)

-- asciiDecode from the byte `byte` on; none stands for a write outside of the array.
unfoldable pub decode_from : List ℕ → (byte : ℕ) → (m : List ℕ) → Option (List ℕ)
decode_from [] byte m = some m
decode_from (c ∷ []) byte m = some m
decode_from (c ∷ d ∷ []) byte m =
    let v = (hex_value c * 16 + hex_value d) % 256 in
    if ltb byte max_bitstring_bytes then some (set_extend_bits (put m byte v) byte) else none
decode_from (c ∷ d ∷ e ∷ dcs) byte m =
    let v = (hex_value c * 16 + hex_value d) % 256 in
    let m' = set_extend_bits (put m byte v) byte in
    let skipped = decode_from dcs (byte + 1) m' in
    let kept = decode_from (e ∷ dcs) (byte + 1) m' in
    if ltb byte max_bitstring_bytes then (if e == 32 then skipped else kept) else none

unfoldable pub ascii_decode : List ℕ → (m : List ℕ) → Option (List ℕ)
ascii_decode dcs m = decode_from dcs 0 m

-- operator== from the byte `byte` on, in the `left` bytes of the array that are left.
unfoldable pub equals_from : (left byte : ℕ) → (m operand : List ℕ) → Bool
equals_from zero byte m operand = true
equals_from (suc left) byte m operand =
    let rest = equals_from left (byte + 1) m operand in
    if ltb byte 3 || not (bit_and (get_byte m byte) 0x01 == 0)
    then (if get_byte m byte == get_byte operand byte then rest else false)
    else true

unfoldable pub equals : (m operand : List ℕ) → Bool
equals m operand = equals_from max_bitstring_bytes 0 m operand

-- operator!=.
abbrev pub differs : (m operand : List ℕ) → Bool
differs m operand = not (equals m operand)
