-- ===== src/G3/Encoder.antt =====
-- faxd/G3Encoder.c++ and faxd/G3Encoder.h: the encoder's state, the bit output and the code output.
use hyla_fax.Base.{
  ℕ, zero, suc, ◌+◌, ◌-◌, ◌*◌, ◌/◌, ◌^◌, bit_and, bit_or, Bool, true, not, ltb, ◌==◌, if◌then◌else◌,
  List, [], ◌∷◌, ◌++◌, get_or, false,
}
use hyla_fax.Base.Int.{pos, negsuc}
use hyla_fax.G3.Codes.{Tableentry, tableentry, eol}

-- The members of G3Encoder. `buf` is the fxStackBuffer that the bytes are put to, and `bitmap` the
-- table that libtiff's TIFFGetBitRevTable returned.
pub record Encoder : Type 0 where
  pub is2d : Bool
  pub isg4 : Bool
  pub bitmap : ℕ → ℕ
  pub data_ : ℕ
  pub bit : ℕ
  pub first_eol : Bool
  pub buf : List ℕ

-- setupEncoder: bytes are built most significant bit first, and are reversed on output if the
-- fill order asks for it. `rev_table` is libtiff's TIFFGetBitRevTable.
unfoldable pub setup_encoder : (Bool → ℕ → ℕ) → Bool → Bool → Bool → List ℕ → Encoder
setup_encoder rev_table msb2lsb is2d isg4 buf = record {
  is2d = is2d;
  isg4 = isg4;
  bitmap = rev_table (not msb2lsb);
  data_ = 0;
  bit = 8;
  first_eol = true;
  buf = buf;
}

unfoldable pub flush_bits : Encoder → Encoder
flush_bits s = record s { buf = s.buf ++ s.bitmap s.data_ ∷ []; data_ = 0; bit = 8 }

-- `mask[9]` of putBits.
abbrev pub mask : List ℕ
mask = 0x00 ∷ 0x01 ∷ 0x03 ∷ 0x07 ∷ 0x0f ∷ 0x1f ∷ 0x3f ∷ 0x7f ∷ 0xff ∷ []

-- One round of the loop of putBits: fill the byte with the top bits, and flush it.
unfoldable pub fill_byte : Encoder → ℕ → ℕ → Encoder
unfolding flush_bits
fill_byte s v length = flush_bits (record s { data_ = bit_or s.data_ (v / 2 ^ (length - s.bit)) })

-- What putBits does behind its loop, where `length <= bit`.
unfoldable pub put_last : Encoder → ℕ → ℕ → Encoder
unfolding flush_bits
put_last s v length =
    let data' = bit_or s.data_ (bit_and v (get_or mask length 0) * 2 ^ (s.bit - length)) in
    let s' = record s { data_ = data'; bit = s.bit - length } in
    if s'.bit == 0 then flush_bits s' else s'

-- The loop of putBits; it flushes a byte each round, so that `length` rounds are enough.
unfoldable pub put_rounds : ℕ → Encoder → ℕ → ℕ → Encoder
put_rounds zero s v length = put_last s v length
put_rounds (suc fuel) s v length =
    let more = put_rounds fuel (fill_byte s v length) v (length - s.bit) in
    if ltb s.bit length then more else put_last s v length

unfoldable pub put_bits : Encoder → ℕ → ℕ → Encoder
unfolding put_rounds
put_bits s v length = put_rounds length s v length

unfoldable pub putcode : Encoder → Tableentry → Encoder
putcode s (tableentry length code runlen) = put_bits s code length

-- `span -= te.runlen` on an int that stays at least 0 for the entries of the codes.
abbrev pub sub_run : ℕ → Tableentry → ℕ
sub_run span (tableentry _ _ (pos r)) = span - r
sub_run span (tableentry _ _ (negsuc r)) = span + suc r

abbrev pub entry_at : List Tableentry → ℕ → Tableentry
entry_at tab i = get_or tab i (tableentry 0 0 (pos 0))

-- `if (span >= 64)` and the terminating code.
unfoldable pub put_short : Encoder → ℕ → List Tableentry → Encoder
unfolding putcode
put_short s span tab =
    let te = entry_at tab (63 + span / 64) in
    if ltb span 64
    then putcode s (entry_at tab span)
    else putcode (putcode s te) (entry_at tab (sub_run span te))

-- The loop over spans of 2624 pixels and more; a round takes off 2560.
unfoldable pub put_long : ℕ → Encoder → ℕ → List Tableentry → Encoder
unfolding put_short
put_long zero s span tab = put_short s span tab
put_long (suc fuel) s span tab =
    let te = entry_at tab (63 + 2560 / 64) in
    let more = put_long fuel (putcode s te) (sub_run span te) tab in
    if ltb span 2624 then put_short s span tab else more

unfoldable pub putspan : Encoder → ℕ → List Tableentry → Encoder
unfolding put_long
putspan s span tab = put_long span s span tab

-- encoderCleanup.
unfoldable pub encoder_cleanup : Encoder → Encoder
unfolding flush_bits
encoder_cleanup s =
    let s' = if s.isg4 then put_bits (put_bits s eol 12) eol 12 else s in
    if s'.bit == 8 then s' else flush_bits s'

-- What `encode` puts before the EOL of a row that is not the first, so that EOLs end on a byte
-- boundary.
unfoldable pub align_eol : Encoder → Encoder
align_eol s =
    if s.first_eol
    then record s { first_eol = false }
    else if s.bit == 4
    then s
    else put_bits s 0 (if ltb s.bit 4 then s.bit + 4 else s.bit - 4)

-- The EOL that `encode` puts before a row, with a tag bit if the data is MR. `two_dim` says that a
-- reference line is given.
unfoldable pub put_eol : Bool → Encoder → Encoder
put_eol two_dim s =
    if s.is2d
    then put_bits (align_eol s) (if two_dim then eol * 2 else bit_or (eol * 2) 1) (12 + 1)
    else put_bits (align_eol s) eol 12
