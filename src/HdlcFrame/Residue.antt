-- ===== src/HdlcFrame/Residue.antt =====
-- The residue of the checksum (faxd/HDLCFrame.c++), found by evaluation for each of its 65536 values, in
-- parts.
use hyla_fax.Base.{
  ℕ, zero, suc, ◌+◌, ◌*◌, ◌/◌, ◌%◌, ◌<◌, Bool, true, ◌≡◌, refl, ap, sym, ◌∙◌, arith,
}
use hyla_fax.Base.Checks.{all_below, all_below_sound}
use hyla_fax.HdlcFrame.Crc.{build_crc, crc_rounds, crc_round, build_fcs, crc_is_good}

-- The values from 8192 k on.
abbrev part : ℕ → Bool
part k = all_below 8192 (λ s. crc_is_good (build_fcs (8192 * k + s)))

part0 : part 0 ≡ true
unfolding build_crc crc_rounds crc_round all_below
part0 = refl

part1 : part 1 ≡ true
unfolding build_crc crc_rounds crc_round all_below
part1 = refl

part2 : part 2 ≡ true
unfolding build_crc crc_rounds crc_round all_below
part2 = refl

part3 : part 3 ≡ true
unfolding build_crc crc_rounds crc_round all_below
part3 = refl

part4 : part 4 ≡ true
unfolding build_crc crc_rounds crc_round all_below
part4 = refl

part5 : part 5 ≡ true
unfolding build_crc crc_rounds crc_round all_below
part5 = refl

part6 : part 6 ≡ true
unfolding build_crc crc_rounds crc_round all_below
part6 = refl

part7 : part 7 ≡ true
unfolding build_crc crc_rounds crc_round all_below
part7 = refl

parts : (k : ℕ) → k < 8 → part k ≡ true
parts zero lt = part0
parts (suc zero) lt = part1
parts (suc (suc zero)) lt = part2
parts (suc (suc (suc zero))) lt = part3
parts (suc (suc (suc (suc zero)))) lt = part4
parts (suc (suc (suc (suc (suc zero))))) lt = part5
parts (suc (suc (suc (suc (suc (suc zero)))))) lt = part6
parts (suc (suc (suc (suc (suc (suc (suc zero))))))) lt = part7
parts (suc (suc (suc (suc (suc (suc (suc (suc k)))))))) lt = absurd (omega arith)

-- The complement of a checksum, fed high byte first, makes the checksum good, for every checksum.
pub build_fcs-good : (crc : ℕ) → crc < 65536 → crc_is_good (build_fcs crc) ≡ true
build_fcs-good crc lt =
    let k = crc / 8192 in
    let s = crc % 8192 in
    let e : 8192 * k + s ≡ crc = omega arith in
    let at_s =
      all_below_sound 8192 (λ v. crc_is_good (build_fcs (8192 * k + v))) s (parts k (omega arith))
        (omega arith) in
    ap (λ (v : ℕ). crc_is_good (build_fcs v)) (sym e) ∙ at_s
