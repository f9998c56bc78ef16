-- ===== src/G3/Decode2d.antt =====
-- A reader of 2-D lines (CCITT T.4, 4.2), independent of faxd/G3Encoder.c++, and the codes of the
-- modes that the encoder writes.
use hyla_fax.Base.{
  ℕ, zero, suc, ◌+◌, ◌-◌, ◌^◌, ◌<◌, Bool, true, false, not, ltb, leb, if◌then◌else◌, Option, none,
  some, List, ◌∷◌, ◌++◌, get_or, drop, replicate, ◌≡◌, refl, arith,
}
use hyla_fax.Base.Binary.{bits}
use hyla_fax.Base.Int.{pos}
use hyla_fax.G3.Codes.{tableentry}
use hyla_fax.G3.Decode.{decode_run, ◌>>=◌}
use hyla_fax.G3.Encoder.{Encoder, putcode}
use hyla_fax.G3.Stream.{IsWf, Extends}
use hyla_fax.G3.PutBits.{put_bits-Extends}
use hyla_fax.G3.Lead.{lead}
use hyla_fax.G3.Rows.{codes_of}
use hyla_fax.G3.TwoD.{horizcode, passcode, vcodes}

-- The modes; `vertical v` is the mode where `b1 - a1` is `v - 3`.
pub data Mode : Type 0 where
  pass_mode : Mode
  horizontal : Mode
  vertical : ℕ → Mode

unfoldable pub read_mode : List Bool → Option (Mode × List Bool)
read_mode (true ∷ bs) = some (vertical 3, bs)
read_mode (false ∷ true ∷ true ∷ bs) = some (vertical 2, bs)
read_mode (false ∷ true ∷ false ∷ bs) = some (vertical 4, bs)
read_mode (false ∷ false ∷ true ∷ bs) = some (horizontal, bs)
read_mode (false ∷ false ∷ false ∷ true ∷ bs) = some (pass_mode, bs)
read_mode (false ∷ false ∷ false ∷ false ∷ true ∷ true ∷ bs) = some (vertical 1, bs)
read_mode (false ∷ false ∷ false ∷ false ∷ true ∷ false ∷ bs) = some (vertical 5, bs)
read_mode (false ∷ false ∷ false ∷ false ∷ false ∷ true ∷ true ∷ bs) = some (vertical 0, bs)
read_mode (false ∷ false ∷ false ∷ false ∷ false ∷ true ∷ false ∷ bs) = some (vertical 6, bs)
read_mode _ = none

-- The end of the run of colour `c` from pixel `i` on.
abbrev pub run_end : List Bool → ℕ → Bool → ℕ → ℕ
run_end row w c i = i + lead c (w - i) (drop i row)

-- The changing element behind `i`, whatever its colour.
abbrev pub change_behind : List Bool → ℕ → ℕ → ℕ
change_behind row w i = if ltb i w then run_end row w (get_or row i false) i else w

-- b1: the first changing element of the reference line behind `a0` and of the opposite colour.
abbrev pub next_b1 : List Bool → ℕ → Bool → ℕ → ℕ
next_b1 ref w c a0 = run_end ref w c (run_end ref w (not c) a0)

-- What a line is once a piece of it is read: `more` is the rest, if the line is not full.
abbrev pub piece_then :
    ℕ → ℕ → List Bool → List Bool → Option (List Bool × List Bool) → Option (List Bool × List Bool)
piece_then w a0 piece rest more =
    if leb w a0 then some (piece, rest) else (more >>= (λ r. some (piece ++ r.0, r.1)))

-- The rest of a line behind a mode: the colour, `a0` and the bits that follow.
abbrev pub Rest : Type 0
Rest = Bool → ℕ → List Bool → Option (List Bool × List Bool)

unfoldable pub decode_mode :
    ℕ → List Bool → Bool → (a0 b1 : ℕ) → Rest → Mode → List Bool → Option (List Bool × List Bool)
decode_mode w ref c a0 b1 more pass_mode bs =
    let b2 = change_behind ref w b1 in piece_then w b2 (replicate (b2 - a0) c) bs (more c b2 bs)
decode_mode w ref c a0 b1 more (vertical v) bs =
    let a1 = b1 + 3 - v in piece_then w a1 (replicate (a1 - a0) c) bs (more (not c) a1 bs)
decode_mode w ref c a0 b1 more horizontal bs = do
  (r1, bs1) ← decode_run (w + 2) (codes_of c) bs
  (r2, bs2) ← decode_run (w + 2) (codes_of (not c)) bs1
  let a2 = a0 + r1 + r2
  piece_then w a2 (replicate r1 c ++ replicate r2 (not c)) bs2 (more c a2 bs2)

-- The pixels of a line from `a0` on, which begin with colour `c`.
unfoldable pub decode_2d :
    ℕ → ℕ → List Bool → Bool → (a0 b1 : ℕ) → List Bool → Option (List Bool × List Bool)
decode_2d zero w ref c a0 b1 bs = none
decode_2d (suc fuel) w ref c a0 b1 bs = read_mode bs >>= (λ r.
    decode_mode w ref c a0 b1 (λ c' a0' bs'. decode_2d fuel w ref c' a0' (next_b1 ref w c' a0') bs')
      r.0 r.1)

-- A line: before it there is an imaginary white pixel.
abbrev pub decode_line_2d : ℕ → List Bool → List Bool → Option (List Bool × List Bool)
decode_line_2d w ref bs = decode_2d (w + 1) w ref false 0 (run_end ref w false 0) bs

module _ (unmap : ℕ → ℕ) where
  -- `s'` is `s` with the code of a mode behind it.
  pub record ModeWrites (s : Encoder) (m : Mode) (s' : Encoder) : Type 0 where
    pub codes : List Bool
    pub extends : Extends unmap s codes s'
    pub reads : (rest : List Bool) → read_mode (codes ++ rest) ≡ some (m, rest)

  module _ (s : Encoder) (wf : IsWf s) (inverse : (b : ℕ) → b < 256 → unmap (s.bitmap b) ≡ b) where
    pub pass-ModeWrites : ModeWrites s pass_mode (putcode s passcode)
    unfolding putcode read_mode
    pass-ModeWrites = record {
      codes = bits 4 1;
      extends = put_bits-Extends unmap s 1 4 wf inverse (omega arith) (omega arith);
      reads = λ rest. refl;
    }

    pub horizontal-ModeWrites : ModeWrites s horizontal (putcode s horizcode)
    unfolding putcode read_mode
    horizontal-ModeWrites = record {
      codes = bits 3 1;
      extends = put_bits-Extends unmap s 1 3 wf inverse (omega arith) (omega arith);
      reads = λ rest. refl;
    }

    vertical_code :
        (v n code : ℕ)
        → code < 256
        → code < 2 ^ n
        → ((rest : List Bool) → read_mode (bits n code ++ rest) ≡ some (vertical v, rest))
        → ModeWrites s (vertical v) (putcode s (tableentry n code (pos 0)))
    unfolding putcode
    vertical_code v n code small fits reads = record {
      codes = bits n code;
      extends = put_bits-Extends unmap s code n wf inverse small fits;
      reads = reads;
    }

    pub vertical-ModeWrites :
        (v : ℕ)
        → v < 7
        → ModeWrites s (vertical v) (putcode s (get_or vcodes v (tableentry 0 0 (pos 0))))
    unfolding read_mode
    vertical-ModeWrites zero lt = vertical_code 0 7 0x03 (omega arith) (omega arith) (λ rest. refl)
    vertical-ModeWrites (suc zero) lt =
        vertical_code 1 6 0x03 (omega arith) (omega arith) (λ rest. refl)
    vertical-ModeWrites (suc (suc zero)) lt =
        vertical_code 2 3 0x03 (omega arith) (omega arith) (λ rest. refl)
    vertical-ModeWrites (suc (suc (suc zero))) lt =
        vertical_code 3 1 0x1 (omega arith) (omega arith) (λ rest. refl)
    vertical-ModeWrites (suc (suc (suc (suc zero)))) lt =
        vertical_code 4 3 0x2 (omega arith) (omega arith) (λ rest. refl)
    vertical-ModeWrites (suc (suc (suc (suc (suc zero))))) lt =
        vertical_code 5 6 0x02 (omega arith) (omega arith) (λ rest. refl)
    vertical-ModeWrites (suc (suc (suc (suc (suc (suc zero)))))) lt =
        vertical_code 6 7 0x02 (omega arith) (omega arith) (λ rest. refl)
    vertical-ModeWrites (suc (suc (suc (suc (suc (suc (suc v))))))) lt = absurd (omega arith)
