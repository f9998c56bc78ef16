-- ===== src/G3/Document2d.antt =====
-- A whole use of the encoder with a reference line: setupEncoder, encode, encoderCleanup
-- (faxd/G3Encoder.c++). MMR data, whose lines are all 2-D, is written so.
use mathlib.Core.Path.{ap₂}
use mathlib.Core.List.{append_assoc}
use hyla_fax.Base.{
  ℕ, ◌*◌, ◌%◌, ◌≤◌, ◌<◌, Bool, false, not, some, List, [], ◌++◌, length, take, replicate, ◌≡◌, refl,
  ap, ◌∙◌, arith,
}
use hyla_fax.G3.Encoder.{setup_encoder, Encoder}
use hyla_fax.G3.Stream.{IsWf, stream, byte_bits}
use hyla_fax.G3.RunTables.{IsBytes, pixels}
use hyla_fax.G3.TwoD.{Raster, encode, encode_lines_2d}
use hyla_fax.G3.Page2d.{decode_page_2d, encode_lines_2d-Writes}
use hyla_fax.G3.Document.{encode_document, eofb, encoder_cleanup-CleansUp}

-- The buffer of `s` reads back, against the reference line `ref`, as a page with the pixels `ps`, and
-- then holds the EOFB of MMR data and less than a byte of zeros.
abbrev pub ReadsBack2d : (ℕ → ℕ) → Bool → Bool → ℕ → ℕ → List Bool → List Bool → Encoder → Type 0
ReadsBack2d unmap isg4 is2d w h ref ps s =
    (fill : ℕ) × (fill < 8)
    × (decode_page_2d isg4 is2d w h ref (byte_bits unmap s.buf)
        ≡ some (ps, eofb isg4 ++ replicate fill false))

-- A page of whole bytes that is set up, encoded with a reference line and cleaned up reads back from
-- the buffer as its pixels, each row being the reference line of the next, with the EOFB of MMR data
-- and less than a byte of zeros behind it: for every fill order whose bit table `unmap` undoes, if the
-- raster holds `h` rows of `w` pixels, the reference line holds `w`, and `w` is a multiple of 8.
pub decode_page_2d-encode_document :
    (unmap : ℕ → ℕ) (rev_table : Bool → ℕ → ℕ) (msb2lsb is2d isg4 : Bool) (bp rp : Raster) (w h : ℕ)
    → ((b : ℕ) → b < 256 → unmap (rev_table (not msb2lsb) b) ≡ b)
    → IsBytes bp.bytes
    → IsBytes rp.bytes
    → w % 8 ≡ 0
    → h * w ≤ 8 * length bp.bytes
    → w ≤ 8 * length rp.bytes
    → ReadsBack2d unmap isg4 is2d w h
        (take w (pixels rp.bytes))
        (take (h * w) (pixels bp.bytes))
        (encode_document rev_table msb2lsb is2d isg4 bp w h (some rp))
unfolding encode_document encode setup_encoder
decode_page_2d-encode_document unmap rev_table msb2lsb is2d isg4 bp rp w h inverse bytes ref_bytes
      whole room ref_room =
    let s = setup_encoder rev_table msb2lsb is2d isg4 [] in
    let wf : IsWf s = record {
      high = 0;
      bit_pos = omega arith;
      bit-le = omega arith;
      data_eq = refl;
      high-lt = omega arith;
    } in
    let page =
      encode_lines_2d-Writes unmap h s bp rp w wf inverse bytes ref_bytes whole room ref_room in
    let s' = (encode_lines_2d s bp w h rp).0 in
    let c = encoder_cleanup-CleansUp unmap s' page.extends.wf (rw page.extends.same_map inverse) in
    let tail = replicate c.fill false in
    let empty : stream unmap s ≡ [] = unfold stream in refl in
    let written : stream unmap s' ≡ page.codes =
      page.extends.extends ∙ ap (λ (t : List Bool). t ++ page.codes) empty in
    (
      c.fill,
      c.fill-lt,
      ap (decode_page_2d isg4 is2d w h (take w (pixels rp.bytes))) (
            c.whole
            ∙ ap₂ (λ (t : List Bool) (g : Bool). t ++ eofb g ++ tail) written page.extends.same_g4
            ∙ append_assoc page.codes (eofb isg4) tail)
          ∙ page.reads (eofb isg4 ++ tail),
    )
