-- ===== src/G3/Document.antt =====
-- A whole use of the encoder: setupEncoder, encode, encoderCleanup.
use mathlib.Core.Path.{ap₂}
use mathlib.Core.List.{append_assoc, append-nil}
use hyla_fax.Base.{
  ℕ, ◌+◌, ◌-◌, ◌*◌, ◌/◌, ◌%◌, ◌^◌, ◌≤◌, ◌<◌, Bool, true, false, not, ◌==◌, if◌then◌else◌, Option,
  none, some, List, [], ◌∷◌, ◌++◌, length, take, replicate, ◌≡◌, refl, ap, sym, ◌∙◌, arith, inl,
  inr, Bool-cases,
}
use hyla_fax.Base.Binary.{bits}
use hyla_fax.G3.Codes.{eol}
use hyla_fax.G3.Encoder.{Encoder, setup_encoder, flush_bits, put_bits, encoder_cleanup}
use hyla_fax.G3.Stream.{
  IsWf, stream, byte_bits, byte_bits-append, Extends, Extends-trans, stream_high, byte_fits,
  byte_digits, two_pow_pos,
}
use hyla_fax.G3.PutBits.{put_bits-Extends}
use hyla_fax.G3.RunTables.{IsBytes, pixels}
use hyla_fax.G3.Rows.{encode_lines}
use hyla_fax.G3.TwoD.{Raster, encode}
use hyla_fax.G3.Page.{decode_page, bits-zero, encode_lines-PageWrites}

-- A page written whole, as faxd/MemoryDecoder.c++ writes a raster: `h` rows of `w` pixels into an empty buffer.
unfoldable pub encode_document :
    (Bool → ℕ → ℕ) → Bool → Bool → Bool → Raster → ℕ → ℕ → Option Raster → Encoder
encode_document rev_table msb2lsb is2d isg4 bp w h rp =
    encoder_cleanup (encode (setup_encoder rev_table msb2lsb is2d isg4 []) bp w h rp).0

-- The EOFB of MMR data.
abbrev pub eofb : Bool → List Bool
eofb true = bits 12 eol ++ bits 12 eol
eofb false = []

module _ (unmap : ℕ → ℕ) where
  -- The flush of a partial byte fills it up with zeros.
  flush_bits-Extends :
      (s : Encoder)
      → IsWf s
      → ((b : ℕ) → b < 256 → unmap (s.bitmap b) ≡ b)
      → Extends unmap s (bits s.bit 0) (flush_bits s)
  unfolding flush_bits stream
  flush_bits-Extends s w inverse =
      let e : s.data_ ≡ w.high * 2 ^ s.bit + 0 = omega (arith, w.data_eq) in
      let byte = byte_fits s w 0 (two_pow_pos s.bit) in
      record {
        wf = record {
          high = 0;
          bit_pos = omega arith;
          bit-le = omega arith;
          data_eq = refl;
          high-lt = omega arith;
        };
        extends =
            append-nil _
            ∙ byte_bits-append unmap s.buf (s.bitmap s.data_ ∷ [])
            ∙ ap (λ (t : List Bool). byte_bits unmap s.buf ++ t)
                (append-nil _
                  ∙ ap (bits 8) (inverse s.data_ (rw e byte) ∙ e)
                  ∙ byte_digits s w 0 (two_pow_pos s.bit))
            ∙ sym (append_assoc (byte_bits unmap s.buf) (bits (8 - s.bit) w.high) (bits s.bit 0))
            ∙ ap (λ (t : List Bool). t ++ bits s.bit 0) (sym (stream_high unmap s w));
        same_map = refl;
        same_2d = refl;
        same_g4 = refl;
      }

  put_eofb-Extends :
      (isg4 : Bool) (s : Encoder)
      → IsWf s
      → ((b : ℕ) → b < 256 → unmap (s.bitmap b) ≡ b)
      → Extends unmap s (eofb isg4) (if isg4 then put_bits (put_bits s eol 12) eol 12 else s)
  put_eofb-Extends false s wf inverse = record {
    wf = wf;
    extends = sym (append-nil _);
    same_map = refl;
    same_2d = refl;
    same_g4 = refl;
  }
  put_eofb-Extends true s wf inverse =
      let first = put_bits-Extends unmap s eol 12 wf inverse (omega arith) (omega arith) in
      Extends-trans first (
        put_bits-Extends unmap (put_bits s eol 12) eol 12 first.wf (rw first.same_map inverse)
          (omega arith) (omega arith))

  -- An encoder at a byte boundary has its whole stream in the buffer.
  stream_whole : (s : Encoder) → s.bit ≡ 8 → byte_bits unmap s.buf ≡ stream unmap s
  unfolding stream
  stream_whole s e =
      sym (append-nil _)
      ∙ ap (λ (k : ℕ). byte_bits unmap s.buf ++ bits (8 - k) (s.data_ / 2 ^ k)) (sym e)

  -- encoderCleanup puts the whole stream into the buffer: the EOFB of MMR data, and less than a byte
  -- of zeros, are behind it.
  pub record CleansUp (isg4 : Bool) (s s' : Encoder) : Type 0 where
    pub fill : ℕ
    pub fill-lt : fill < 8
    pub whole : byte_bits unmap s'.buf ≡ stream unmap s ++ eofb isg4 ++ replicate fill false
    pub at_boundary : s'.bit ≡ 8

  flush_partial :
      (isg4 : Bool) (s s' : Encoder)
      → Extends unmap s (eofb isg4) s'
      → ((b : ℕ) → b < 256 → unmap (s'.bitmap b) ≡ b)
      → CleansUp isg4 s (if s'.bit == 8 then s' else flush_bits s')
  flush_partial isg4 s s' x inverse = elim (Bool-cases (s'.bit == 8)) [
    | inl at_end ↦ simp at_end (record {
      fill = 0;
      fill-lt = omega arith;
      whole = stream_whole s' (ground arith) ∙ x.extends ∙ sym (append-nil _);
      at_boundary = ground arith;
    })
    | inr partial ↦
        let f = flush_bits-Extends s' x.wf inverse in
        let b8 : (flush_bits s').bit ≡ 8 = unfold flush_bits in refl in
        simp partial (record {
          fill = s'.bit;
          fill-lt = ground (arith, x.wf.bit-le);
          whole =
              stream_whole (flush_bits s') b8
              ∙ f.extends
              ∙ ap (λ (t : List Bool). t ++ bits s'.bit 0) x.extends
              ∙ ap (λ (t : List Bool). stream unmap s ++ eofb isg4 ++ t) (bits-zero s'.bit);
          at_boundary = b8;
        })
  ]

  -- On a well-formed encoder whose byte table `unmap` undoes, encoderCleanup leaves in the buffer the
  -- whole bit stream, the EOFB if the data is MMR, and less than a byte of zeros; no bits are pending.
  pub encoder_cleanup-CleansUp :
      (s : Encoder)
      → IsWf s
      → ((b : ℕ) → b < 256 → unmap (s.bitmap b) ≡ b)
      → CleansUp s.isg4 s (encoder_cleanup s)
  unfolding encoder_cleanup
  encoder_cleanup-CleansUp s wf inverse =
      let x = put_eofb-Extends s.isg4 s wf inverse in
      flush_partial s.isg4 s _ x (rw x.same_map inverse)

-- The buffer of `s` reads back as a page with the pixels `ps`, and then holds the EOFB of MMR data
-- and less than a byte of zeros.
abbrev pub ReadsBack : (ℕ → ℕ) → Bool → Bool → ℕ → ℕ → List Bool → Encoder → Type 0
ReadsBack unmap isg4 is2d w h ps s =
    (fill : ℕ) × (fill < 8)
    × (decode_page isg4 is2d w h (byte_bits unmap s.buf)
        ≡ some (ps, eofb isg4 ++ replicate fill false))

-- A page of whole bytes that is set up, encoded without a reference line and cleaned up reads back
-- from the buffer as its pixels, with the EOFB of MMR data and less than a byte of zeros behind it:
-- for every fill order whose bit table `unmap` undoes, if the raster holds `h` rows of `w` pixels
-- and `w` is a multiple of 8.
pub decode_page-encode_document :
    (unmap : ℕ → ℕ) (rev_table : Bool → ℕ → ℕ) (msb2lsb is2d isg4 : Bool) (bp : Raster) (w h : ℕ)
    → ((b : ℕ) → b < 256 → unmap (rev_table (not msb2lsb) b) ≡ b)
    → IsBytes bp.bytes
    → w % 8 ≡ 0
    → h * w ≤ 8 * length bp.bytes
    → ReadsBack unmap isg4 is2d w h
        (take (h * w) (pixels bp.bytes))
        (encode_document rev_table msb2lsb is2d isg4 bp w h none)
unfolding encode_document encode setup_encoder
decode_page-encode_document unmap rev_table msb2lsb is2d isg4 bp w h inverse bytes whole room =
    let s = setup_encoder rev_table msb2lsb is2d isg4 [] in
    let wf : IsWf s = record {
      high = 0;
      bit_pos = omega arith;
      bit-le = omega arith;
      data_eq = refl;
      high-lt = omega arith;
    } in
    let page = encode_lines-PageWrites unmap h s bp.bytes w wf inverse bytes whole room in
    let c =
      encoder_cleanup-CleansUp unmap (encode_lines s bp.bytes w h) page.extends.wf
        (rw page.extends.same_map inverse) in
    let tail = replicate c.fill false in
    let empty : stream unmap s ≡ [] = unfold stream in refl in
    let written : stream unmap (encode_lines s bp.bytes w h) ≡ page.codes =
      page.extends.extends ∙ ap (λ (t : List Bool). t ++ page.codes) empty in
    (
      c.fill,
      c.fill-lt,
      ap (decode_page isg4 is2d w h) (
            c.whole
            ∙ ap₂ (λ (t : List Bool) (g : Bool). t ++ eofb g ++ tail) written page.extends.same_g4
            ∙ append_assoc page.codes (eofb isg4) tail)
          ∙ page.reads (eofb isg4 ++ tail),
    )
