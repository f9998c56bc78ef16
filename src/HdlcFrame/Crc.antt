-- ===== src/HdlcFrame/Crc.antt =====
-- HDLCFrame::buildCRC and checkCRC (faxd/HDLCFrame.h, faxd/HDLCFrame.c++).
use Prim.Native.Nat.{bit_xor}
use hyla_fax.Base.{ℕ, zero, suc, ◌-◌, ◌*◌, ◌/◌, ◌%◌, ◌^◌, bit_and, Bool, ◌==◌, if◌then◌else◌}

-- A round of buildCRC, for the bit i.
unfoldable pub crc_round : (c i crc : ℕ) → ℕ
crc_round c i crc =
    let crc' = bit_xor crc (bit_and c (2 ^ i) * 2 ^ (15 - i)) in
    let shifted = crc' * 2 in if shifted / 2 ^ 16 == 0 then shifted else bit_xor shifted 0x11021

-- The rounds from the bit `bits - 1` down to 0.
unfoldable pub crc_rounds : (bits c crc : ℕ) → ℕ
crc_rounds zero c crc = crc
crc_rounds (suc bits) c crc = crc_rounds bits c (crc_round c bits crc)

unfoldable pub build_crc : (c crc : ℕ) → ℕ
build_crc c crc = crc_rounds 8 c crc

-- checkCRC on the checksum.
abbrev pub crc_is_good : ℕ → Bool
crc_is_good crc = crc == 0x1d0f

-- The two bytes of the complement of a checksum, high byte first, as a frame ends with them.
abbrev pub build_fcs : ℕ → ℕ
build_fcs crc = build_crc ((65535 - crc) % 256) (build_crc ((65535 - crc) / 256) crc)
