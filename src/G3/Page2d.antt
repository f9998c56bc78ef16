-- ===== src/G3/Page2d.antt =====
-- What encode (faxd/G3Encoder.c++) writes for a page of 2-D lines reads back as the pixels of the page.
use mathlib.Core.Path.{ap₂}
use native.Mathlib.Nat.{suc-mul}
use mathlib.Core.List.{append_assoc, append-nil}
use hyla_fax.Base.{
  ℕ, zero, suc, ◌+◌, ◌-◌, ◌*◌, ◌/◌, ◌%◌, ◌≤◌, ◌<◌, Bool, true, false, if◌then◌else◌, Option, none,
  some, List, [], ◌∷◌, ◌++◌, length, take, drop, replicate, ◌≡◌, refl, ap, sym, ◌∙◌, arith,
}
use hyla_fax.Base.Lists.{length-drop, take_add}
use hyla_fax.Base.Binary.{bits}
use hyla_fax.G3.Codes.{eol}
use hyla_fax.G3.Encoder.{Encoder, put_bits, align_eol, put_eol}
use hyla_fax.G3.Stream.{IsWf, Extends, Extends-trans}
use hyla_fax.G3.PutBits.{put_bits-Extends}
use hyla_fax.G3.Decode.{◌>>=◌}
use hyla_fax.G3.RunTables.{IsBytes, pixels}
use hyla_fax.G3.WordLoops.{pixels-drop, IsBytes-drop}
use hyla_fax.G3.Page.{skip_eol, skip_eol_fill, skip_eol-eol, align_eol-Extends}
use hyla_fax.G3.TwoD.{Raster, put_line_2d, first_diff, copy_row, encode_lines_2d}
use hyla_fax.G3.Decode2d.{decode_line_2d}
use hyla_fax.G3.RoundTrip2d.{put_line_2d-row}

-- The tag bit behind the EOL of MR data; it is 0 for a 2-D line.
pub skip_tag_2d : Bool → List Bool → Option (List Bool)
skip_tag_2d true (false ∷ bs) = some bs
skip_tag_2d true _ = none
skip_tag_2d false bs = some bs

-- The reader of a page of 2-D lines: each row is the reference line of the next.
unfoldable pub decode_page_2d :
    Bool → Bool → ℕ → ℕ → List Bool → List Bool → Option (List Bool × List Bool)
decode_page_2d isg4 is2d w zero ref bs = some ([], bs)
decode_page_2d isg4 is2d w (suc h) ref bs = do
  b1 ← if isg4 then some bs else (skip_eol 0 bs >>= skip_tag_2d is2d)
  (row, b2) ← decode_line_2d w ref b1
  (rows, b3) ← decode_page_2d isg4 is2d w h row b2
  some (row ++ rows, b3)

-- Whole bytes in front of others.
front-IsBytes : (k : ℕ) (bp ys : List ℕ) → IsBytes bp → IsBytes ys → IsBytes (take k bp ++ ys)
front-IsBytes zero bp ys b r = r
front-IsBytes (suc k) [] ys b r = r
front-IsBytes (suc k) (x ∷ bp) ys b r = (b.0, front-IsBytes k bp ys b.1 r)

take_front : (xs ps : List Bool) (j : ℕ) → take (length xs + j) (xs ++ ps) ≡ xs ++ take j ps
take_front [] ps j = ap (λ (t : ℕ). take t ps) {x = 0 + j} {y = j} (omega arith)
take_front (x ∷ xs) ps j =
    ap (λ (t : ℕ). take t (x ∷ xs ++ ps)) {x = suc (length xs) + j} {y = suc (length xs + j)}
      (omega arith)
    ∙ ap (◌∷◌ x) (take_front xs ps j)

front-pixels :
    (k : ℕ) (bp ys : List ℕ)
    → k ≤ length bp
    → take (8 * k) (pixels (take k bp ++ ys)) ≡ take (8 * k) (pixels bp)
front-pixels zero bp ys le = refl
front-pixels (suc k) [] ys le = absurd (omega arith)
front-pixels (suc k) (x ∷ bp) ys le =
    ap (λ (t : ℕ). take t (pixels (x ∷ (take k bp ++ ys)))) {x = 8 * suc k} {y = 8 + 8 * k}
      (omega arith)
    ∙ take_front (bits 8 x) (pixels (take k bp ++ ys)) (8 * k)
    ∙ ap (λ (t : List Bool). bits 8 x ++ t) (front-pixels k bp ys (omega arith))
    ∙ sym (take_front (bits 8 x) (pixels bp) (8 * k))
    ∙ ap (λ (t : ℕ). take t (pixels (x ∷ bp))) {x = 8 + 8 * k} {y = 8 * suc k} (omega arith)

front-length : (k : ℕ) (bp ys : List ℕ) → k ≤ length bp → k ≤ length (take k bp ++ ys)
front-length zero bp ys le = omega arith
front-length (suc k) [] ys le = absurd (omega arith)
front-length (suc k) (x ∷ bp) ys le = omega (arith, front-length k bp ys (omega arith))

module _ (unmap : ℕ → ℕ) where
  -- What encode writes in front of a row with a reference line.
  record StartWrites2d (isg4 is2d : Bool) (s s' : Encoder) : Type 0 where
    codes : List Bool
    extends : Extends unmap s codes s'
    reads :
        (rest : List Bool)
        → (if isg4 then some (codes ++ rest) else (skip_eol 0 (codes ++ rest) >>= skip_tag_2d is2d))
          ≡ some rest

  eol_behind_fill_2d :
      (tag : Bool) (s s0 : Encoder) (k : ℕ)
      → Extends unmap s (replicate k false) s0
      → ((b : ℕ) → b < 256 → unmap (s0.bitmap b) ≡ b)
      → StartWrites2d false tag s
          (if tag then put_bits s0 (eol * 2) (12 + 1) else put_bits s0 eol 12)
  unfolding skip_tag_2d
  eol_behind_fill_2d true s s0 k fill inverse = record {
    codes = replicate k false ++ bits 13 2;
    extends =
        Extends-trans fill
          (put_bits-Extends unmap s0 2 13 fill.wf inverse (omega arith) (omega arith));
    reads = λ rest.
        rw
          (
            append_assoc (replicate k false) (bits 13 2) rest,
            skip_eol_fill k 0 (bits 13 2 ++ rest),
            skip_eol-eol (0 + k) (false ∷ rest),
          )
          refl;
  }
  eol_behind_fill_2d false s s0 k fill inverse = record {
    codes = replicate k false ++ bits 12 1;
    extends =
        Extends-trans fill
          (put_bits-Extends unmap s0 1 12 fill.wf inverse (omega arith) (omega arith));
    reads = λ rest.
        rw
          (
            append_assoc (replicate k false) (bits 12 1) rest,
            skip_eol_fill k 0 (bits 12 1 ++ rest),
            skip_eol-eol (0 + k) rest,
          )
          refl;
  }

  row_start_2d :
      (isg4 : Bool) (s : Encoder)
      → IsWf s
      → ((b : ℕ) → b < 256 → unmap (s.bitmap b) ≡ b)
      → StartWrites2d isg4 s.is2d s (if isg4 then s else put_eol true s)
  unfolding put_eol
  row_start_2d true s wf inverse = record {
    codes = [];
    extends = record {
      wf = wf;
      extends = sym (append-nil _);
      same_map = refl;
      same_2d = refl;
      same_g4 = refl;
    };
    reads = λ rest. refl;
  }
  row_start_2d false s wf inverse =
      let (k, fill) = align_eol-Extends unmap s wf inverse in
      eol_behind_fill_2d s.is2d s (align_eol s) k fill (rw fill.same_map inverse)

  decode_row_then_2d :
      (isg4 is2d : Bool) (w h : ℕ) (ref bs b1 b2 b3 row rows : List Bool)
      → (if isg4 then some bs else (skip_eol 0 bs >>= skip_tag_2d is2d)) ≡ some b1
      → decode_line_2d w ref b1 ≡ some (row, b2)
      → decode_page_2d isg4 is2d w h row b2 ≡ some (rows, b3)
      → decode_page_2d isg4 is2d w (suc h) ref bs ≡ some (row ++ rows, b3)
  unfolding decode_page_2d
  decode_row_then_2d isg4 is2d w h ref bs b1 b2 b3 row rows p q r = rw (p, q, r) refl

  -- The codes of a page that reads back as the pixels `ps`, against the reference line `ref`.
  pub record Page2dWrites (isg4 is2d : Bool) (w h : ℕ) (ref ps : List Bool) (s s' : Encoder)
      : Type 0 where
    pub codes : List Bool
    pub extends : Extends unmap s codes s'
    pub reads :
        (rest : List Bool) → decode_page_2d isg4 is2d w h ref (codes ++ rest) ≡ some (ps, rest)

  -- The rows that encode writes with a reference line read back as the pixels of the page, each row
  -- being the reference line of the next, whatever follows them: on a well-formed encoder whose byte
  -- table `unmap` undoes, for rasters of bytes that hold the page and a row, and for a width that is a
  -- multiple of 8.
  pub encode_lines_2d-Writes :
      (h : ℕ) (s : Encoder) (bp rp : Raster) (w : ℕ)
      → IsWf s
      → ((b : ℕ) → b < 256 → unmap (s.bitmap b) ≡ b)
      → IsBytes bp.bytes
      → IsBytes rp.bytes
      → w % 8 ≡ 0
      → h * w ≤ 8 * length bp.bytes
      → w ≤ 8 * length rp.bytes
      → Page2dWrites s.isg4 s.is2d w h
          (take w (pixels rp.bytes))
          (take (h * w) (pixels bp.bytes))
          s
          (encode_lines_2d s bp w h rp).0
  unfolding encode_lines_2d
  encode_lines_2d-Writes zero s bp rp w wf inverse bytes ref_bytes whole room ref_room = record {
    codes = [];
    extends = record {
      wf = wf;
      extends = sym (append-nil _);
      same_map = refl;
      same_2d = refl;
      same_g4 = refl;
    };
    reads = λ rest.
        unfold decode_page_2d in
        ap (λ (t : ℕ). some (take t (pixels bp.bytes), rest)) {x = 0} {y = 0 * w} (omega arith);
  }
  encode_lines_2d-Writes (suc h) s bp rp w wf inverse bytes ref_bytes whole room ref_room =
      let k = (w + 7) / 8 in
      let k8 : 8 * k ≡ w = omega arith in
      let start = row_start_2d s.isg4 s wf inverse in
      let s0 = if s.isg4 then s else put_eol true s in
      let row =
        put_line_2d-row unmap bp rp w bytes ref_bytes (omega (arith, suc-mul h w)) ref_room s0
          start.extends.wf (rw start.extends.same_map inverse) in
      let s1 = put_line_2d (w + 1) s0 bp rp w 0 (first_diff bp w) (first_diff rp w) in
      let fits : k ≤ length bp.bytes = omega (arith, suc-mul h w) in
      let rp' : Raster = record { addr = rp.addr; bytes = copy_row rp.bytes bp.bytes k } in
      let bp' : Raster = record { addr = bp.addr + k; bytes = drop k bp.bytes } in
      let rec =
        encode_lines_2d-Writes h s1 bp' rp' w row.extends.wf
          (rw row.extends.same_map (rw start.extends.same_map inverse))
          (IsBytes-drop k bp.bytes bytes)
          (front-IsBytes k bp.bytes (drop k rp.bytes) bytes (IsBytes-drop k rp.bytes ref_bytes))
          whole (omega (arith, length-drop {0} k bp.bytes, suc-mul h w))
          (omega (arith, front-length k bp.bytes (drop k rp.bytes) fits)) in
      let line : take w (pixels rp'.bytes) ≡ take w (pixels bp.bytes) =
        rw k8 at (front-pixels k bp.bytes (drop k rp.bytes) fits) in
      let behind : pixels bp'.bytes ≡ drop w (pixels bp.bytes) =
        pixels-drop k bp.bytes ∙ ap (λ (t : ℕ). drop t (pixels bp.bytes)) k8 in
      record {
        codes = start.codes ++ (row.codes ++ rec.codes);
        extends = Extends-trans start.extends (Extends-trans row.extends rec.extends);
        reads = λ rest.
            ap (decode_page_2d s.isg4 s.is2d w (suc h) (take w (pixels rp.bytes)))
              (append_assoc start.codes (row.codes ++ rec.codes) rest)
            ∙ decode_row_then_2d s.isg4 s.is2d w h (take w (pixels rp.bytes)) _
                ((row.codes ++ rec.codes) ++ rest) (rec.codes ++ rest) rest
                (take w (pixels bp.bytes)) (take (h * w) (pixels bp'.bytes))
                (start.reads ((row.codes ++ rec.codes) ++ rest))
                (ap (decode_line_2d w (take w (pixels rp.bytes)))
                    (append_assoc row.codes rec.codes rest)
                  ∙ row.reads (rec.codes ++ rest)
                  ∙ ap (λ (t : ℕ). some (take t (pixels bp.bytes), rec.codes ++ rest)) {x = w - 0}
                      {y = w} (omega arith))
                (ap₂
                    (λ (g d : Bool).
                      decode_page_2d g d w h (take w (pixels bp.bytes)) (rec.codes ++ rest))
                    (sym (row.extends.same_g4 ∙ start.extends.same_g4))
                    (sym (row.extends.same_2d ∙ start.extends.same_2d))
                  ∙ ap (λ (r : List Bool). decode_page_2d s1.isg4 s1.is2d w h r (rec.codes ++ rest))
                      (sym line)
                  ∙ rec.reads rest)
            ∙ ap (λ (ps : List Bool). some (ps, rest))
                (ap (λ (q : List Bool). take w (pixels bp.bytes) ++ take (h * w) q) behind
                  ∙ sym (take_add w (h * w) (pixels bp.bytes))
                  ∙ ap (λ (t : ℕ). take t (pixels bp.bytes)) {x = w + h * w} {y = suc h * w}
                      (omega (arith, suc-mul h w)));
      }
