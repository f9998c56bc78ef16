-- ===== src/Row/Tests.antt =====
-- Runs of the model of sgi2fax/row.c on concrete rows.
use hyla_fax.Base.{ℕ, ◌+◌, ◌-◌, ◌/◌, List, [], ◌∷◌, map, take, ◌≡◌, refl, arith}
use hyla_fax.Base.Int.{negsuc}
use hyla_fax.Row.Loops.{by_eight, by_one}
use hyla_fax.Row.Samples.{clamprow, accrow, acc_short, both, accrow-map}
use hyla_fax.Row.Cpack.{Colour}
use hyla_fax.Base.{◌-◌}
use hyla_fax.Row.Packed.{bitstorow, rowtobits, AreBytes, rowtobits-bitstorow}

-- Ten samples: -1, 300 and eight levels.
abbrev samples : List ℕ
samples = 65535 ∷ 300 ∷ 255 ∷ 0 ∷ 17 ∷ 18 ∷ 19 ∷ 20 ∷ 21 ∷ 22 ∷ []

clamp_run : clamprow samples 9 ≡ 0 ∷ 255 ∷ 255 ∷ 0 ∷ 17 ∷ 18 ∷ 19 ∷ 20 ∷ 21 ∷ []
unfolding clamprow by_eight by_one
clamp_run = refl

abbrev levels : List ℕ
levels = 1 ∷ 2 ∷ 255 ∷ []

accrow-map_example :
    accrow samples levels (negsuc 0) 2 ≡ map (acc_short (negsuc 0)) (take 2 (both samples levels))
accrow-map_example =
    accrow-map samples levels (negsuc 0) 2 (omega arith, (omega arith, (omega arith, tt)))

abbrev colours : List Colour
colours = record { r = 1; g = 2; b = 3; a = 255 } ∷ record { r = 0; g = 200; b = 100; a = 7 } ∷ []

abbrev bytes : List ℕ
bytes = 0x81 ∷ 0x3c ∷ 0xff ∷ []

bytes-AreBytes : AreBytes bytes
bytes-AreBytes = (omega arith, (omega arith, (omega arith, tt)))

rowtobits-bitstorow_example : rowtobits (bitstorow bytes 17) 17 ≡ take ((17 - 1) / 8 + 1) bytes
rowtobits-bitstorow_example = rowtobits-bitstorow bytes 17 bytes-AreBytes (omega arith)
