-- ===== src/G3/TwoD.antt =====
-- G3Encoder::encode (faxd/G3Encoder.c++): the lines that are coded with a reference line, and the
-- whole function.
use hyla_fax.Base.{
  ℕ, zero, suc, ◌+◌, ◌-◌, ◌/◌, ◌%◌, ◌^◌, true, ◌&&◌, ◌||◌, leb, ltb, ◌==◌, if◌then◌else◌, Option,
  none, some, List, [], ◌∷◌, ◌++◌, get_or, take, drop,
}
use hyla_fax.Base.Int.{pos}
use hyla_fax.G3.Codes.{Tableentry, tableentry, white_codes, black_codes}
use hyla_fax.G3.Encoder.{Encoder, putcode, putspan, put_eol}
use hyla_fax.G3.WordSpans.{find0span, find1span}
use hyla_fax.G3.Rows.{encode_lines}

-- A pointer to bytes: its address, and the bytes from there on.
pub record Raster : Type 0 where
  pub addr : ℕ
  pub bytes : List ℕ

abbrev pub horizcode : Tableentry
horizcode = tableentry 3 0x1 (pos 0)

abbrev pub passcode : Tableentry
passcode = tableentry 4 0x1 (pos 0)

abbrev pub vcodes : List Tableentry
vcodes =
    tableentry 7 0x03 (pos 0)
    ∷ tableentry 6 0x03 (pos 0)
    ∷ tableentry 3 0x03 (pos 0)
    ∷ tableentry 1 0x1 (pos 0)
    ∷ tableentry 3 0x2 (pos 0)
    ∷ tableentry 6 0x02 (pos 0)
    ∷ tableentry 7 0x02 (pos 0)
    ∷ []

-- The macro PIXEL.
unfoldable pub pixel : Raster → ℕ → ℕ
pixel buf ix = get_or buf.bytes (ix / 8) 0 / 2 ^ (7 - ix % 8) % 2

-- The macros finddiff and finddiff2.
unfoldable pub finddiff : Raster → ℕ → ℕ → ℕ → ℕ
finddiff cp bs be color =
    bs + (if color == 0 then find0span cp.addr cp.bytes bs be else find1span cp.addr cp.bytes bs be)

unfoldable pub finddiff2 : Raster → ℕ → ℕ → ℕ → ℕ
unfolding finddiff
finddiff2 cp bs be color = if ltb bs be then finddiff cp bs be color else be

-- The two spans of horizontal mode.
unfoldable pub put_horizontal : Encoder → Raster → (a0 a1 a2 : ℕ) → Encoder
put_horizontal s bp a0 a1 a2 =
    let s' = putcode s horizcode in
    if a0 + a1 == 0 || pixel bp a0 == 0
    then putspan (putspan s' (a1 - a0) white_codes) (a2 - a1) black_codes
    else putspan (putspan s' (a1 - a0) black_codes) (a2 - a1) white_codes

-- The codes of one round of the loop, and the next `a0`. `d` is within -3 and 3 in vertical mode,
-- so that the index `d + 3` is `b1 + 3 - a1`.
unfoldable pub put_mode : Encoder → Raster → ℕ → (a0 a1 b1 b2 : ℕ) → Encoder × ℕ
unfolding put_horizontal
put_mode s bp w a0 a1 b1 b2 =
    let a2 = finddiff2 bp a1 w (pixel bp a1) in
    if leb a1 b2
    then if leb a1 (b1 + 3) && leb b1 (a1 + 3)
      then (putcode s (get_or vcodes (b1 + 3 - a1) (tableentry 0 0 (pos 0))), a1)
      else (put_horizontal s bp a0 a1 a2, a2)
    else (putcode s passcode, b2)

-- The loop of a 2-D line. Every round but the first moves `a0` by a pixel at least, so that `w + 1`
-- rounds are enough.
unfoldable pub put_line_2d : ℕ → Encoder → (bp rp : Raster) → ℕ → (a0 a1 b1 : ℕ) → Encoder
unfolding put_mode
put_line_2d zero s bp rp w a0 a1 b1 = s
put_line_2d (suc fuel) s bp rp w a0 a1 b1 =
    let (s', a0') = put_mode s bp w a0 a1 b1 (finddiff2 rp b1 w (pixel rp b1)) in
    let c = pixel bp a0' in
    let a1' = finddiff bp a0' w c in
    let b1' = finddiff rp (finddiff rp a0' w (1 - c)) w c in
    let more = put_line_2d fuel s' bp rp w a0' a1' b1' in if leb w a0' then s' else more

-- The first `a1` of a row, and the first `b1` of its reference line.
unfoldable pub first_diff : Raster → ℕ → ℕ
first_diff cp w = if pixel cp 0 == 0 then finddiff cp 0 w 0 else 0

-- memcpy.
abbrev pub copy_row : List ℕ → List ℕ → ℕ → List ℕ
copy_row rp bp n = take n bp ++ drop n rp

-- The loop over the rows where `rp` is given; the reference line becomes the row.
unfoldable pub encode_lines_2d : Encoder → (bp : Raster) → ℕ → ℕ → (rp : Raster) → Encoder × Raster
encode_lines_2d s bp w zero rp = (s, rp)
encode_lines_2d s bp w (suc h) rp =
    let rowbytes = (w + 7) / 8 in
    let s0 = if s.isg4 then s else put_eol true s in
    let s1 = put_line_2d (w + 1) s0 bp rp w 0 (first_diff bp w) (first_diff rp w) in
    let rp' : Raster = record { addr = rp.addr; bytes = copy_row rp.bytes bp.bytes rowbytes } in
    let bp' : Raster = record { addr = bp.addr + rowbytes; bytes = drop rowbytes bp.bytes } in
    encode_lines_2d s1 bp' w h rp'

-- encode: the encoder, and the reference line that it leaves behind. `rp` stays null or not null.
unfoldable pub encode :
    Encoder → (bp : Raster) → ℕ → ℕ → (rp : Option Raster) → Encoder × Option Raster
encode s bp w h none = (encode_lines s bp.bytes w h, none)
encode s bp w h (some rp) = let (s', rp') = encode_lines_2d s bp w h rp in (s', some rp')
