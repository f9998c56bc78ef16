-- ===== src/G3/Page.antt =====
-- What encode writes for a page of rows reads back as the pixels of the page.
use mathlib.Core.Path.{ap₂}
use native.Mathlib.Nat.{suc-mul}
use mathlib.Core.List.{append_assoc, append-nil}
use hyla_fax.Base.{
  ℕ, zero, suc, ◌+◌, ◌-◌, ◌*◌, ◌%◌, ◌≤◌, ◌<◌, bit_or, Bool, true, false, leb, ltb, ◌==◌,
  if◌then◌else◌, Option, none, some, List, [], ◌∷◌, ◌++◌, length, take, drop, replicate, ◌≡◌, refl,
  ap, sym, ◌∙◌, arith, inl, inr, Bool-cases,
}
use hyla_fax.Base.Lists.{length-drop, replicate_snoc, take_add}
use hyla_fax.Base.Binary.{bits}
use hyla_fax.G3.Codes.{eol}
use hyla_fax.G3.Encoder.{Encoder, put_bits, align_eol, put_eol}
use hyla_fax.G3.Stream.{IsWf, stream, two_pow_pos, Extends, Extends-trans}
use hyla_fax.G3.PutBits.{put_bits-Extends}
use hyla_fax.G3.Decode.{◌>>=◌}
use hyla_fax.G3.RunTables.{IsBytes, pixels}
use hyla_fax.G3.FindSpan.{length-pixels}
use hyla_fax.G3.Rows.{put_spans, encode_lines, decode_line}
use hyla_fax.G3.RoundTrip.{put_spans-row}

-- The reference reader of an EOL: fill bits, eleven zeros at least, and a one. `n` zeros were read.
pub skip_eol : ℕ → List Bool → Option (List Bool)
skip_eol n [] = none
skip_eol n (true ∷ bs) = if leb 11 n then some bs else none
skip_eol n (false ∷ bs) = skip_eol (suc n) bs

-- The tag bit behind the EOL of MR data; it is 1 for a 1-D line.
pub skip_tag : Bool → List Bool → Option (List Bool)
skip_tag true (true ∷ bs) = some bs
skip_tag true _ = none
skip_tag false bs = some bs

-- The reference reader of a page of 1-D lines: the pixels of its rows, one after another.
unfoldable pub decode_page : Bool → Bool → ℕ → ℕ → List Bool → Option (List Bool × List Bool)
decode_page isg4 is2d w zero bs = some ([], bs)
decode_page isg4 is2d w (suc h) bs = do
  b1 ← if isg4 then some bs else (skip_eol 0 bs >>= skip_tag is2d)
  (row, b2) ← decode_line (2 * w + 2) false w b1
  (rows, b3) ← decode_page isg4 is2d w h b2
  some (row ++ rows, b3)

pub skip_eol_fill :
    (k n : ℕ) (bs : List Bool) → skip_eol n (replicate k false ++ bs) ≡ skip_eol (n + k) bs
unfolding skip_eol
skip_eol_fill zero n bs = ap (λ (t : ℕ). skip_eol t bs) (omega arith)
skip_eol_fill (suc k) n bs =
    skip_eol_fill k (suc n) bs ∙ ap (λ (t : ℕ). skip_eol t bs) (omega arith)

pub skip_eol-eol : (n : ℕ) (bs : List Bool) → skip_eol n (replicate 11 false ++ true ∷ bs) ≡ some bs
skip_eol-eol n bs = skip_eol_fill 11 n (true ∷ bs) ∙ unfold skip_eol in ground arith

pub bits-zero : (k : ℕ) → bits k 0 ≡ replicate k false
bits-zero zero = refl
bits-zero (suc k) = ap (λ (t : List Bool). t ++ false ∷ []) (bits-zero k) ∙ replicate_snoc k false

module _ (unmap : ℕ → ℕ) where
  pub align_eol-Extends :
      (s : Encoder)
      → IsWf s
      → ((b : ℕ) → b < 256 → unmap (s.bitmap b) ≡ b)
      → (k : ℕ) × Extends unmap s (replicate k false) (align_eol s)
  unfolding align_eol stream
  align_eol-Extends s wf inverse = elim (Bool-cases s.first_eol) [
    | inl first ↦ (
      0,
      simp first (record {
        wf = record {
          high = wf.high;
          bit_pos = wf.bit_pos;
          bit-le = wf.bit-le;
          data_eq = wf.data_eq;
          high-lt = wf.high-lt;
        };
        extends = sym (append-nil _);
        same_map = refl;
        same_2d = refl;
        same_g4 = refl;
      }),
    )
    | inr later ↦ simp later (elim (Bool-cases (s.bit == 4)) [
      | inl aligned ↦ (
        0,
        simp aligned (record {
          wf = wf;
          extends = sym (append-nil _);
          same_map = refl;
          same_2d = refl;
          same_g4 = refl;
        }),
      )
      | inr fill ↦
          let k = if ltb s.bit 4 then s.bit + 4 else s.bit - 4 in
          (
            k,
            simp fill (
                rw (← bits-zero k)
                  (put_bits-Extends unmap s 0 k wf inverse (omega arith) (two_pow_pos k))),
          )
    ])
  ]

  -- `s'` is `s` with an EOL, and its tag if there is one, behind it.
  record EolWrites (tag : Bool) (s s' : Encoder) : Type 0 where
    codes : List Bool
    extends : Extends unmap s codes s'
    reads : (rest : List Bool) → (skip_eol 0 (codes ++ rest) >>= skip_tag tag) ≡ some rest

  eol_behind_fill :
      (tag : Bool) (s s0 : Encoder) (k : ℕ)
      → Extends unmap s (replicate k false) s0
      → ((b : ℕ) → b < 256 → unmap (s0.bitmap b) ≡ b)
      → EolWrites tag s
          (if tag then put_bits s0 (bit_or (eol * 2) 1) (12 + 1) else put_bits s0 eol 12)
  unfolding skip_tag
  eol_behind_fill true s s0 k fill inverse = record {
    codes = replicate k false ++ bits 13 3;
    extends =
        Extends-trans fill
          (put_bits-Extends unmap s0 3 13 fill.wf inverse (omega arith) (omega arith));
    reads = λ rest. rw (
      append_assoc (replicate k false) (bits 13 3) rest,
      skip_eol_fill k 0 (bits 13 3 ++ rest),
      skip_eol-eol (0 + k) (true ∷ rest),
    );
  }
  eol_behind_fill false s s0 k fill inverse = record {
    codes = replicate k false ++ bits 12 1;
    extends =
        Extends-trans fill
          (put_bits-Extends unmap s0 1 12 fill.wf inverse (omega arith) (omega arith));
    reads = λ rest. rw (
      append_assoc (replicate k false) (bits 12 1) rest,
      skip_eol_fill k 0 (bits 12 1 ++ rest),
      skip_eol-eol (0 + k) rest,
    );
  }

  put_eol-EolWrites :
      (s : Encoder)
      → IsWf s
      → ((b : ℕ) → b < 256 → unmap (s.bitmap b) ≡ b)
      → EolWrites s.is2d s (put_eol false s)
  unfolding put_eol
  put_eol-EolWrites s wf inverse =
      let (k, fill) = align_eol-Extends s wf inverse in
      eol_behind_fill s.is2d s (align_eol s) k fill (rw fill.same_map inverse)

  -- What encode writes in front of a row.
  record StartWrites (isg4 is2d : Bool) (s s' : Encoder) : Type 0 where
    codes : List Bool
    extends : Extends unmap s codes s'
    reads :
        (rest : List Bool)
        → (if isg4 then some (codes ++ rest) else (skip_eol 0 (codes ++ rest) >>= skip_tag is2d))
          ≡ some rest

  row_start :
      (isg4 : Bool) (s : Encoder)
      → IsWf s
      → ((b : ℕ) → b < 256 → unmap (s.bitmap b) ≡ b)
      → StartWrites isg4 s.is2d s (if isg4 then s else put_eol false s)
  row_start true s wf inverse = record {
    codes = [];
    extends = record {
      wf = wf;
      extends = sym (append-nil _);
      same_map = refl;
      same_2d = refl;
      same_g4 = refl;
    };
    reads = λ rest. refl;
  }
  row_start false s wf inverse =
      let e = put_eol-EolWrites s wf inverse in
      record { codes = e.codes; extends = e.extends; reads = e.reads }

  -- The reader of a page, after its first row.
  decode_row_then :
      (isg4 is2d : Bool) (w h : ℕ) (bs b1 b2 b3 row rows : List Bool)
      → (if isg4 then some bs else (skip_eol 0 bs >>= skip_tag is2d)) ≡ some b1
      → decode_line (2 * w + 2) false w b1 ≡ some (row, b2)
      → decode_page isg4 is2d w h b2 ≡ some (rows, b3)
      → decode_page isg4 is2d w (suc h) bs ≡ some (row ++ rows, b3)
  unfolding decode_page
  decode_row_then isg4 is2d w h bs b1 b2 b3 row rows p q r = rw (p, q, r)

  -- The codes of a page that reads back as `pixels_`.
  pub record PageWrites (isg4 is2d : Bool) (w h : ℕ) (s : Encoder) (ps : List Bool) (s' : Encoder)
      : Type 0 where
    pub codes : List Bool
    pub extends : Extends unmap s codes s'
    pub reads : (rest : List Bool) → decode_page isg4 is2d w h (codes ++ rest) ≡ some (ps, rest)

  pub encode_lines-PageWrites :
      (h : ℕ) (s : Encoder) (bp : List ℕ) (w : ℕ)
      → IsWf s
      → ((b : ℕ) → b < 256 → unmap (s.bitmap b) ≡ b)
      → IsBytes bp
      → w % 8 ≡ 0
      → h * w ≤ 8 * length bp
      → PageWrites s.isg4 s.is2d w h s (take (h * w) (pixels bp)) (encode_lines s bp w h)
  unfolding encode_lines
  encode_lines-PageWrites zero s bp w wf inverse bytes whole room = record {
    codes = [];
    extends = record {
      wf = wf;
      extends = sym (append-nil _);
      same_map = refl;
      same_2d = refl;
      same_g4 = refl;
    };
    reads = λ rest.
        unfold decode_page in
        ap (λ (t : ℕ). some (take t (pixels bp), rest)) {x = 0} {y = 0 * w} (omega arith);
  }
  encode_lines-PageWrites (suc h) s bp w wf inverse bytes whole room =
      let start = row_start s.isg4 s wf inverse in
      let s0 = if s.isg4 then s else put_eol false s in
      let (codes, row, behind, reads) =
        put_spans-row unmap s0 bp w start.extends.wf (rw start.extends.same_map inverse) bytes
          (omega (arith, suc-mul h w)) in
      let s1 = (put_spans (w + 1) s0 bp 0 w).0 in
      let bp1 = (put_spans (w + 1) s0 bp 0 w).1 in
      let next : pixels bp1 ≡ drop w (pixels bp) = rw whole at behind.at in
      let left : h * w ≤ 8 * length bp1 = omega (
        arith,
        ap (length {A = Bool}) next,
        length-drop {0} w (pixels bp),
        length-pixels bp,
        length-pixels bp1,
        suc-mul h w,
      ) in
      let rec =
        encode_lines-PageWrites h s1 bp1 w row.wf
          (rw row.same_map (rw start.extends.same_map inverse)) behind.bytes whole left in
      record {
        codes = start.codes ++ (codes ++ rec.codes);
        extends = Extends-trans start.extends (Extends-trans row rec.extends);
        reads = λ rest.
            ap (decode_page s.isg4 s.is2d w (suc h))
              (append_assoc start.codes (codes ++ rec.codes) rest)
            ∙ decode_row_then s.isg4 s.is2d w h _ ((codes ++ rec.codes) ++ rest) (rec.codes ++ rest)
                rest (take w (pixels bp)) (take (h * w) (pixels bp1))
                (start.reads ((codes ++ rec.codes) ++ rest))
                (ap (decode_line (2 * w + 2) false w) (append_assoc codes rec.codes rest)
                  ∙ reads (rec.codes ++ rest))
                (ap₂ (λ (g d : Bool). decode_page g d w h (rec.codes ++ rest))
                    (sym (row.same_g4 ∙ start.extends.same_g4))
                    (sym (row.same_2d ∙ start.extends.same_2d))
                  ∙ rec.reads rest)
            ∙ ap (λ (ps : List Bool). some (ps, rest))
                (ap (λ (q : List Bool). take w (pixels bp) ++ take (h * w) q) next
                  ∙ sym (take_add w (h * w) (pixels bp))
                  ∙ ap (λ (t : ℕ). take t (pixels bp)) {x = w + h * w} {y = suc h * w}
                      (omega (arith, suc-mul h w)));
      }
