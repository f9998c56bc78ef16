-- ===== src/G3/Rows.antt =====
-- G3Encoder::encode (faxd/G3Encoder.c++) for rows that have no reference line: every row is an EOL,
-- unless the data is MMR, and then spans of white and black in turn.
use hyla_fax.Base.{
  ℕ, zero, suc, ◌+◌, ◌-◌, ◌<◌, ◌≡◌, arith, Bool, true, false, not, leb, ltb, ◌==◌, if◌then◌else◌,
  Option, none, some, List, ◌++◌, replicate,
}
use hyla_fax.G3.Codes.{Tableentry, white_codes, black_codes}
use hyla_fax.G3.Encoder.{Encoder, putspan, put_eol}
use hyla_fax.G3.Spans.{zeroruns, oneruns, findspan}
use hyla_fax.G3.Decode.{decode_run, ◌>>=◌}

-- The loop of the 1-D line: a white span, then a black one, until the row is full. Two spans take
-- up at least one pixel, so that `w + 1` rounds are enough.
unfoldable pub put_spans : ℕ → Encoder → List ℕ → ℕ → ℕ → Encoder × List ℕ
put_spans zero s bp bs w = (s, bp)
put_spans (suc fuel) s bp bs w =
    let white = findspan zeroruns bp bs w in
    let s1 = putspan s white.1 white_codes in
    let bs1 = bs + white.1 in
    let black = findspan oneruns white.0 bs1 w in
    let s2 = putspan s1 black.1 black_codes in
    let bs2 = bs1 + black.1 in
    let more = put_spans fuel s2 black.0 bs2 w in
    if leb w bs1 then (s1, white.0) else if leb w bs2 then (s2, black.0) else more

-- The loop of encode over the rows where `rp` is null: `h` rows of `w` pixels from the pointer `bp`
-- on.
unfoldable pub encode_lines : Encoder → List ℕ → ℕ → ℕ → Encoder
encode_lines s bp w zero = s
encode_lines s bp w (suc h) =
    let s0 = if s.isg4 then s else put_eol false s in
    let (s1, bp1) = put_spans (w + 1) s0 bp 0 w in encode_lines s1 bp1 w h

-- The reference reader of a 1-D line: runs of white and black in turn that fill `left` pixels.
abbrev pub codes_of : Bool → List Tableentry
codes_of false = white_codes
codes_of true = black_codes

unfoldable pub decode_line : ℕ → Bool → ℕ → List Bool → Option (List Bool × List Bool)
decode_line zero c left bs = none
decode_line (suc fuel) c left bs = do
  (r, rest) ← decode_run (left + 2) (codes_of c) bs
  let more = (do
    (row, rest') ← decode_line fuel (not c) (left - r) rest
    some (replicate r c ++ row, rest'))
  if left == r then some (replicate r c, rest) else if ltb r left then more else none

-- The last run of a line, and a run with more behind it.
pub decode_last :
    (fuel : ℕ) (c : Bool) (left : ℕ) (bs rest : List Bool)
    → decode_run (left + 2) (codes_of c) bs ≡ some (left, rest)
    → decode_line (suc fuel) c left bs ≡ some (replicate left c, rest)
unfolding decode_line
decode_last fuel c left bs rest h = rw h (ground arith)

pub decode_more :
    (fuel : ℕ) (c : Bool) (left r : ℕ) (bs rest row rest' : List Bool)
    → decode_run (left + 2) (codes_of c) bs ≡ some (r, rest)
    → r < left
    → decode_line fuel (not c) (left - r) rest ≡ some (row, rest')
    → decode_line (suc fuel) c left bs ≡ some (replicate r c ++ row, rest')
unfolding decode_line
decode_more fuel c left r bs rest row rest' h lt more = rw h (rw more (ground arith))
