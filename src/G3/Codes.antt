-- ===== src/G3/Codes.antt =====
-- faxd/t4.h: the run length codes of CCITT T.4. The tables are ordered so that an index below 64
-- is the run length, and 63 + n is the code for 64 * n white or black pixels.
use hyla_fax.Base.{ℕ, List, [], ◌∷◌}
use hyla_fax.Base.Int.{ℤ, pos, negsuc}

-- struct tableentry. `runlen` is a short: the entries behind the codes have negative ones,
-- G3CODE_EOL (-1) and G3CODE_INVALID (-2).
pub data Tableentry : Type 0 where
  tableentry : (length code : ℕ) (runlen : ℤ) → Tableentry

-- The value of the EOL code, which is 12 bits long.
abbrev pub eol : ℕ
eol = 0x001

unfoldable pub white_codes : List Tableentry
white_codes =
    tableentry 8 0x35 (pos 0)
    ∷ tableentry 6 0x7 (pos 1)
    ∷ tableentry 4 0x7 (pos 2)
    ∷ tableentry 4 0x8 (pos 3)
    ∷ tableentry 4 0xb (pos 4)
    ∷ tableentry 4 0xc (pos 5)
    ∷ tableentry 4 0xe (pos 6)
    ∷ tableentry 4 0xf (pos 7)
    ∷ tableentry 5 0x13 (pos 8)
    ∷ tableentry 5 0x14 (pos 9)
    ∷ tableentry 5 0x7 (pos 10)
    ∷ tableentry 5 0x8 (pos 11)
    ∷ tableentry 6 0x8 (pos 12)
    ∷ tableentry 6 0x3 (pos 13)
    ∷ tableentry 6 0x34 (pos 14)
    ∷ tableentry 6 0x35 (pos 15)
    ∷ tableentry 6 0x2a (pos 16)
    ∷ tableentry 6 0x2b (pos 17)
    ∷ tableentry 7 0x27 (pos 18)
    ∷ tableentry 7 0xc (pos 19)
    ∷ tableentry 7 0x8 (pos 20)
    ∷ tableentry 7 0x17 (pos 21)
    ∷ tableentry 7 0x3 (pos 22)
    ∷ tableentry 7 0x4 (pos 23)
    ∷ tableentry 7 0x28 (pos 24)
    ∷ tableentry 7 0x2b (pos 25)
    ∷ tableentry 7 0x13 (pos 26)
    ∷ tableentry 7 0x24 (pos 27)
    ∷ tableentry 7 0x18 (pos 28)
    ∷ tableentry 8 0x2 (pos 29)
    ∷ tableentry 8 0x3 (pos 30)
    ∷ tableentry 8 0x1a (pos 31)
    ∷ tableentry 8 0x1b (pos 32)
    ∷ tableentry 8 0x12 (pos 33)
    ∷ tableentry 8 0x13 (pos 34)
    ∷ tableentry 8 0x14 (pos 35)
    ∷ tableentry 8 0x15 (pos 36)
    ∷ tableentry 8 0x16 (pos 37)
    ∷ tableentry 8 0x17 (pos 38)
    ∷ tableentry 8 0x28 (pos 39)
    ∷ tableentry 8 0x29 (pos 40)
    ∷ tableentry 8 0x2a (pos 41)
    ∷ tableentry 8 0x2b (pos 42)
    ∷ tableentry 8 0x2c (pos 43)
    ∷ tableentry 8 0x2d (pos 44)
    ∷ tableentry 8 0x4 (pos 45)
    ∷ tableentry 8 0x5 (pos 46)
    ∷ tableentry 8 0xa (pos 47)
    ∷ tableentry 8 0xb (pos 48)
    ∷ tableentry 8 0x52 (pos 49)
    ∷ tableentry 8 0x53 (pos 50)
    ∷ tableentry 8 0x54 (pos 51)
    ∷ tableentry 8 0x55 (pos 52)
    ∷ tableentry 8 0x24 (pos 53)
    ∷ tableentry 8 0x25 (pos 54)
    ∷ tableentry 8 0x58 (pos 55)
    ∷ tableentry 8 0x59 (pos 56)
    ∷ tableentry 8 0x5a (pos 57)
    ∷ tableentry 8 0x5b (pos 58)
    ∷ tableentry 8 0x4a (pos 59)
    ∷ tableentry 8 0x4b (pos 60)
    ∷ tableentry 8 0x32 (pos 61)
    ∷ tableentry 8 0x33 (pos 62)
    ∷ tableentry 8 0x34 (pos 63)
    ∷ tableentry 5 0x1b (pos 64)
    ∷ tableentry 5 0x12 (pos 128)
    ∷ tableentry 6 0x17 (pos 192)
    ∷ tableentry 7 0x37 (pos 256)
    ∷ tableentry 8 0x36 (pos 320)
    ∷ tableentry 8 0x37 (pos 384)
    ∷ tableentry 8 0x64 (pos 448)
    ∷ tableentry 8 0x65 (pos 512)
    ∷ tableentry 8 0x68 (pos 576)
    ∷ tableentry 8 0x67 (pos 640)
    ∷ tableentry 9 0xcc (pos 704)
    ∷ tableentry 9 0xcd (pos 768)
    ∷ tableentry 9 0xd2 (pos 832)
    ∷ tableentry 9 0xd3 (pos 896)
    ∷ tableentry 9 0xd4 (pos 960)
    ∷ tableentry 9 0xd5 (pos 1024)
    ∷ tableentry 9 0xd6 (pos 1088)
    ∷ tableentry 9 0xd7 (pos 1152)
    ∷ tableentry 9 0xd8 (pos 1216)
    ∷ tableentry 9 0xd9 (pos 1280)
    ∷ tableentry 9 0xda (pos 1344)
    ∷ tableentry 9 0xdb (pos 1408)
    ∷ tableentry 9 0x98 (pos 1472)
    ∷ tableentry 9 0x99 (pos 1536)
    ∷ tableentry 9 0x9a (pos 1600)
    ∷ tableentry 6 0x18 (pos 1664)
    ∷ tableentry 9 0x9b (pos 1728)
    ∷ tableentry 11 0x8 (pos 1792)
    ∷ tableentry 11 0xc (pos 1856)
    ∷ tableentry 11 0xd (pos 1920)
    ∷ tableentry 12 0x12 (pos 1984)
    ∷ tableentry 12 0x13 (pos 2048)
    ∷ tableentry 12 0x14 (pos 2112)
    ∷ tableentry 12 0x15 (pos 2176)
    ∷ tableentry 12 0x16 (pos 2240)
    ∷ tableentry 12 0x17 (pos 2304)
    ∷ tableentry 12 0x1c (pos 2368)
    ∷ tableentry 12 0x1d (pos 2432)
    ∷ tableentry 12 0x1e (pos 2496)
    ∷ tableentry 12 0x1f (pos 2560)
    ∷ tableentry 12 0x1 (negsuc 0)
    ∷ tableentry 9 0x1 (negsuc 1)
    ∷ tableentry 10 0x1 (negsuc 1)
    ∷ tableentry 11 0x1 (negsuc 1)
    ∷ tableentry 12 0x0 (negsuc 1)
    ∷ []

unfoldable pub black_codes : List Tableentry
black_codes =
    tableentry 10 0x37 (pos 0)
    ∷ tableentry 3 0x2 (pos 1)
    ∷ tableentry 2 0x3 (pos 2)
    ∷ tableentry 2 0x2 (pos 3)
    ∷ tableentry 3 0x3 (pos 4)
    ∷ tableentry 4 0x3 (pos 5)
    ∷ tableentry 4 0x2 (pos 6)
    ∷ tableentry 5 0x3 (pos 7)
    ∷ tableentry 6 0x5 (pos 8)
    ∷ tableentry 6 0x4 (pos 9)
    ∷ tableentry 7 0x4 (pos 10)
    ∷ tableentry 7 0x5 (pos 11)
    ∷ tableentry 7 0x7 (pos 12)
    ∷ tableentry 8 0x4 (pos 13)
    ∷ tableentry 8 0x7 (pos 14)
    ∷ tableentry 9 0x18 (pos 15)
    ∷ tableentry 10 0x17 (pos 16)
    ∷ tableentry 10 0x18 (pos 17)
    ∷ tableentry 10 0x8 (pos 18)
    ∷ tableentry 11 0x67 (pos 19)
    ∷ tableentry 11 0x68 (pos 20)
    ∷ tableentry 11 0x6c (pos 21)
    ∷ tableentry 11 0x37 (pos 22)
    ∷ tableentry 11 0x28 (pos 23)
    ∷ tableentry 11 0x17 (pos 24)
    ∷ tableentry 11 0x18 (pos 25)
    ∷ tableentry 12 0xca (pos 26)
    ∷ tableentry 12 0xcb (pos 27)
    ∷ tableentry 12 0xcc (pos 28)
    ∷ tableentry 12 0xcd (pos 29)
    ∷ tableentry 12 0x68 (pos 30)
    ∷ tableentry 12 0x69 (pos 31)
    ∷ tableentry 12 0x6a (pos 32)
    ∷ tableentry 12 0x6b (pos 33)
    ∷ tableentry 12 0xd2 (pos 34)
    ∷ tableentry 12 0xd3 (pos 35)
    ∷ tableentry 12 0xd4 (pos 36)
    ∷ tableentry 12 0xd5 (pos 37)
    ∷ tableentry 12 0xd6 (pos 38)
    ∷ tableentry 12 0xd7 (pos 39)
    ∷ tableentry 12 0x6c (pos 40)
    ∷ tableentry 12 0x6d (pos 41)
    ∷ tableentry 12 0xda (pos 42)
    ∷ tableentry 12 0xdb (pos 43)
    ∷ tableentry 12 0x54 (pos 44)
    ∷ tableentry 12 0x55 (pos 45)
    ∷ tableentry 12 0x56 (pos 46)
    ∷ tableentry 12 0x57 (pos 47)
    ∷ tableentry 12 0x64 (pos 48)
    ∷ tableentry 12 0x65 (pos 49)
    ∷ tableentry 12 0x52 (pos 50)
    ∷ tableentry 12 0x53 (pos 51)
    ∷ tableentry 12 0x24 (pos 52)
    ∷ tableentry 12 0x37 (pos 53)
    ∷ tableentry 12 0x38 (pos 54)
    ∷ tableentry 12 0x27 (pos 55)
    ∷ tableentry 12 0x28 (pos 56)
    ∷ tableentry 12 0x58 (pos 57)
    ∷ tableentry 12 0x59 (pos 58)
    ∷ tableentry 12 0x2b (pos 59)
    ∷ tableentry 12 0x2c (pos 60)
    ∷ tableentry 12 0x5a (pos 61)
    ∷ tableentry 12 0x66 (pos 62)
    ∷ tableentry 12 0x67 (pos 63)
    ∷ tableentry 10 0xf (pos 64)
    ∷ tableentry 12 0xc8 (pos 128)
    ∷ tableentry 12 0xc9 (pos 192)
    ∷ tableentry 12 0x5b (pos 256)
    ∷ tableentry 12 0x33 (pos 320)
    ∷ tableentry 12 0x34 (pos 384)
    ∷ tableentry 12 0x35 (pos 448)
    ∷ tableentry 13 0x6c (pos 512)
    ∷ tableentry 13 0x6d (pos 576)
    ∷ tableentry 13 0x4a (pos 640)
    ∷ tableentry 13 0x4b (pos 704)
    ∷ tableentry 13 0x4c (pos 768)
    ∷ tableentry 13 0x4d (pos 832)
    ∷ tableentry 13 0x72 (pos 896)
    ∷ tableentry 13 0x73 (pos 960)
    ∷ tableentry 13 0x74 (pos 1024)
    ∷ tableentry 13 0x75 (pos 1088)
    ∷ tableentry 13 0x76 (pos 1152)
    ∷ tableentry 13 0x77 (pos 1216)
    ∷ tableentry 13 0x52 (pos 1280)
    ∷ tableentry 13 0x53 (pos 1344)
    ∷ tableentry 13 0x54 (pos 1408)
    ∷ tableentry 13 0x55 (pos 1472)
    ∷ tableentry 13 0x5a (pos 1536)
    ∷ tableentry 13 0x5b (pos 1600)
    ∷ tableentry 13 0x64 (pos 1664)
    ∷ tableentry 13 0x65 (pos 1728)
    ∷ tableentry 11 0x8 (pos 1792)
    ∷ tableentry 11 0xc (pos 1856)
    ∷ tableentry 11 0xd (pos 1920)
    ∷ tableentry 12 0x12 (pos 1984)
    ∷ tableentry 12 0x13 (pos 2048)
    ∷ tableentry 12 0x14 (pos 2112)
    ∷ tableentry 12 0x15 (pos 2176)
    ∷ tableentry 12 0x16 (pos 2240)
    ∷ tableentry 12 0x17 (pos 2304)
    ∷ tableentry 12 0x1c (pos 2368)
    ∷ tableentry 12 0x1d (pos 2432)
    ∷ tableentry 12 0x1e (pos 2496)
    ∷ tableentry 12 0x1f (pos 2560)
    ∷ tableentry 12 0x1 (negsuc 0)
    ∷ tableentry 9 0x1 (negsuc 1)
    ∷ tableentry 10 0x1 (negsuc 1)
    ∷ tableentry 11 0x1 (negsuc 1)
    ∷ tableentry 12 0x0 (negsuc 1)
    ∷ []
