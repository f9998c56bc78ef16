-- ===== src/G3/Tests.antt =====
-- Runs of the model of faxd/G3Encoder.c++ on concrete pages.
use hyla_fax.Base.{
  ℕ, none, some, ◌+◌, ◌*◌, ◌/◌, ◌%◌, ◌<◌, Bool, true, false, ◌==◌, List, [], ◌∷◌, ◌≡◌, refl, arith,
  take, drop, ◌-◌,
}
use hyla_fax.Base.Checks.{all_below, all_below_sound, ==_iff}
use hyla_fax.Base.Binary.{bits}
use hyla_fax.G3.Codes.{white_codes, black_codes, eol}
use hyla_fax.G3.Encoder.{
  Encoder, setup_encoder, flush_bits, fill_byte, put_last, put_rounds, put_bits, putcode, put_short,
  put_long, putspan, encoder_cleanup, align_eol, put_eol,
}
use hyla_fax.G3.Stream.{IsWf, Extends}
use hyla_fax.G3.PutBits.{put_bits-Extends}
use hyla_fax.G3.Tables.{black-IsTable}
use hyla_fax.G3.PutSpan.{Writes, putspan-Writes}
use hyla_fax.G3.Spans.{zeroruns, oneruns, findspan, find_bytes, find_left, left_span}
use hyla_fax.G3.RunTables.{IsBytes, pixels, oneruns-IsRunTable}
use hyla_fax.G3.FindSpan.{At, Spans, findspan-Spans}
use hyla_fax.G3.WordSpans.{find0span}
use hyla_fax.G3.WordScan.{find0span-lead}
use hyla_fax.G3.Lead.{lead}
use hyla_fax.G3.Rows.{put_spans, encode_lines}
use hyla_fax.G3.TwoD.{Raster, encode, put_line_2d, first_diff}
use hyla_fax.G3.Decode2d.{run_end}
use hyla_fax.G3.RoundTrip2d.{Line2dWrites, put_line_2d-row}
use hyla_fax.G3.Document.{encode_document, ReadsBack, decode_page-encode_document}
use hyla_fax.G3.Document2d.{ReadsBack2d, decode_page_2d-encode_document}
use hyla_fax.G3.Align.{put_eol_aligned}

-- A bit reversal as the one of libtiff's table.
abbrev rev_byte : ℕ → ℕ
rev_byte b =
    b % 2 * 128
    + b / 2 % 2 * 64
    + b / 4 % 2 * 32
    + b / 8 % 2 * 16
    + b / 16 % 2 * 8
    + b / 32 % 2 * 4
    + b / 64 % 2 * 2
    + b / 128 % 2

abbrev rev_table : Bool → ℕ → ℕ
rev_table true = rev_byte
rev_table false = λ b. b

rev_checked : all_below 256 (λ b. rev_byte (rev_byte b) == b) ≡ true
unfolding all_below
rev_checked = refl

rev_inverse : (b : ℕ) → b < 256 → rev_byte (rev_byte b) ≡ b
rev_inverse b lt =
    (==_iff _ _).0 (all_below_sound 256 (λ b. rev_byte (rev_byte b) == b) b rev_checked lt)

-- An encoder that reverses its bytes and has five bits pending.
abbrev pending : Encoder
pending = record {
  is2d = false;
  isg4 = true;
  bitmap = rev_byte;
  data_ = 0xa8;
  bit = 3;
  first_eol = false;
  buf = 0x80 ∷ [];
}

pending-IsWf : IsWf pending
pending-IsWf = record {
  high = 21;
  bit_pos = omega arith;
  bit-le = omega arith;
  data_eq = refl;
  high-lt = omega arith;
}

abbrev page : List ℕ
page = 0x00 ∷ 0xff ∷ 0x0f ∷ 0xf0 ∷ []

abbrev page_raster : Raster
page_raster = record { addr = 0x1003; bytes = page }

page-IsBytes : IsBytes page
page-IsBytes = (omega arith, (omega arith, (omega arith, (omega arith, tt))))

page_run :
    (encode_document rev_table true false false page_raster 16 2 none).buf
    ≡ 0x00 ∷ 0x19 ∷ 0x8a ∷ 0x00 ∷ 0x01 ∷ 0xb1 ∷ 0x6c ∷ []
unfolding encode_document setup_encoder encoder_cleanup encode encode_lines put_eol align_eol
    put_spans findspan find_bytes find_left left_span zeroruns oneruns putspan put_long put_short
    putcode put_bits put_rounds fill_byte put_last flush_bits white_codes black_codes
page_run = refl

put_bits-Extends_example : Extends rev_byte pending (bits 12 eol) (put_bits pending eol 12)
put_bits-Extends_example =
    put_bits-Extends rev_byte pending eol 12 pending-IsWf rev_inverse (omega arith) (omega arith)

putspan-Writes_example : Writes rev_byte black_codes pending 5300 (putspan pending 5300 black_codes)
putspan-Writes_example =
    putspan-Writes rev_byte black_codes black-IsTable pending 5300 pending-IsWf rev_inverse

At-twelve : At (pixels page) (0xff ∷ 0x0f ∷ 0xf0 ∷ []) 12
At-twelve = record { bytes = page-IsBytes.1; at = refl }

findspan-Spans_example :
    Spans true oneruns oneruns-IsRunTable
      (pixels page)
      12
      20
      (findspan oneruns (0xff ∷ 0x0f ∷ 0xf0 ∷ []) 12 20)
findspan-Spans_example =
    findspan-Spans true oneruns oneruns-IsRunTable (pixels page) (0xff ∷ 0x0f ∷ 0xf0 ∷ []) 12 20
      At-twelve (omega arith) (omega arith)

-- A reference line of one black pixel in the middle.
abbrev ref_raster : Raster
ref_raster = record { addr = 0x2000; bytes = 0x00 ∷ 0x80 ∷ 0x00 ∷ 0x00 ∷ [] }

ref-IsBytes : IsBytes ref_raster.bytes
ref-IsBytes = (omega arith, (omega arith, (omega arith, (omega arith, tt))))

put_line_2d-row_example :
    Line2dWrites rev_byte page_raster ref_raster 30 page-IsBytes ref-IsBytes
      (omega arith)
      (omega arith)
      (30 + 1)
      false
      pending
      0
      (run_end (take 30 (pixels ref_raster.bytes)) 30 false 0)
      (put_line_2d
        (30 + 1)
        pending
        page_raster
        ref_raster
        30
        0
        (first_diff page_raster 30)
        (first_diff ref_raster 30))
put_line_2d-row_example =
    put_line_2d-row rev_byte page_raster ref_raster 30 page-IsBytes ref-IsBytes (omega arith)
      (omega arith) pending pending-IsWf rev_inverse

decode_page_2d-encode_document_example :
    ReadsBack2d rev_byte true false 16 2
      (take 16 (pixels ref_raster.bytes))
      (take (2 * 16) (pixels page_raster.bytes))
      (encode_document rev_table false false true page_raster 16 2 (some ref_raster))
decode_page_2d-encode_document_example =
    decode_page_2d-encode_document rev_byte rev_table false false true page_raster ref_raster 16 2
      rev_inverse page-IsBytes ref-IsBytes refl (omega arith) (omega arith)

decode_page-encode_document_example :
    ReadsBack rev_byte false true 16 2
      (take (2 * 16) (pixels page))
      (encode_document rev_table false true false page_raster 16 2 none)
decode_page-encode_document_example =
    decode_page-encode_document rev_byte rev_table false true false page_raster 16 2 rev_inverse
      page-IsBytes refl (omega arith)

find0span-lead_example : find0span 0x1003 page 0 32 ≡ lead false (32 - 0) (drop 0 (pixels page))
find0span-lead_example = find0span-lead 0x1003 page 0 32 page-IsBytes (omega arith)

put_eol_aligned_example : (put_eol true pending).bit ≡ 8
put_eol_aligned_example = put_eol_aligned true pending (omega arith) (omega arith) refl refl
