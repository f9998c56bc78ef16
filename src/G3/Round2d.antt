-- ===== src/G3/Round2d.antt =====
-- One round of the loop of a 2-D line in encode (faxd/G3Encoder.c++): the mode that it writes, and what a
-- reader takes it for.
use mathlib.Core.List.{append_assoc}
use hyla_fax.Base.{take}
use hyla_fax.Base.Lists.{length-take}
use hyla_fax.Base.{
  ℕ, ◌+◌, ◌-◌, ◌*◌, ◌≤◌, ◌<◌, Bool, true, false, not, ◌&&◌, ◌||◌, leb, ltb, ◌==◌, List, ◌++◌,
  length, get_or, drop, replicate, ◌≡◌, refl, ap, sym, ◌∙◌, arith, inl, inr, Bool-cases,
}
use hyla_fax.Base.Int.{pos}
use hyla_fax.G3.Codes.{tableentry}
use hyla_fax.G3.Encoder.{Encoder, putcode, putspan}
use hyla_fax.G3.Stream.{IsWf, Extends, Extends-trans}
use hyla_fax.G3.Decode.{◌>>=◌}
use hyla_fax.G3.Tables.{IsTable, white-IsTable, black-IsTable}
use hyla_fax.G3.PutSpan.{putspan-Writes}
use hyla_fax.G3.Lead.{lead, lead-le}
use hyla_fax.G3.RunTables.{IsBytes, pixels}
use hyla_fax.G3.FindSpan.{length-pixels}
use hyla_fax.G3.Rows.{codes_of}
use hyla_fax.G3.TwoD.{
  Raster, pixel, finddiff, finddiff2, horizcode, passcode, vcodes, put_horizontal, put_mode,
}
use hyla_fax.G3.Decode2d.{
  read_mode, run_end, change_behind, piece_then, Rest, decode_mode, pass-ModeWrites,
  horizontal-ModeWrites, vertical-ModeWrites,
}
use hyla_fax.G3.RowRuns.{
  rest_of, part_of_run, colour_inside, colour_behind, change_behind-gt, change_behind-le,
  change_behind-run,
}
use hyla_fax.G3.Changes.{run_end-take, change_behind-take}
use hyla_fax.G3.Changes.{bit_num, finddiff-run, finddiff2-change}

codes_of-IsTable : (c : Bool) → IsTable (codes_of c)
codes_of-IsTable false = white-IsTable
codes_of-IsTable true = black-IsTable

not-not : (c : Bool) → not (not c) ≡ c
not-not true = refl
not-not false = refl

horizontal_spans :
    (bp : Raster) (c : Bool) (s : Encoder) (a0 a1 a2 : ℕ)
    → (a0 + a1 == 0 || pixel bp a0 == 0) ≡ not c
    → put_horizontal s bp a0 a1 a2
      ≡ putspan (putspan (putcode s horizcode) (a1 - a0) (codes_of c)) (a2 - a1) (codes_of (not c))
unfolding put_horizontal
horizontal_spans bp false s a0 a1 a2 e = rw e refl
horizontal_spans bp true s a0 a1 a2 e = rw e refl

module _ (unmap : ℕ → ℕ) (bp rp : Raster) (w : ℕ) (bytes : IsBytes bp.bytes)
    (ref_bytes : IsBytes rp.bytes) (room : w ≤ 8 * length bp.bytes)
    (ref_room : w ≤ 8 * length rp.bytes) where
  abbrev pub row : List Bool
  row = pixels bp.bytes

  abbrev pub ref : List Bool
  ref = take w (pixels rp.bytes)

  pub long : w ≤ length row
  long = omega (arith, length-pixels bp.bytes)

  pub ref_long : w ≤ length ref
  ref_long = omega (arith, length-pixels rp.bytes, length-take {0} w (pixels rp.bytes))

  -- What the searches find on the reference line.
  pub ref-run : (i : ℕ) (c : Bool) → finddiff rp i w (bit_num c) ≡ run_end ref w c i
  ref-run i c = finddiff-run rp w ref_bytes ref_room i c ∙ run_end-take (pixels rp.bytes) w c i

  pub ref-change : (i : ℕ) → finddiff2 rp i w (pixel rp i) ≡ change_behind ref w i
  ref-change i =
      finddiff2-change rp w ref_bytes ref_room i ∙ change_behind-take (pixels rp.bytes) w i

  -- The state of the loop: `c` is the colour that a reader expects, and `start` is 1 in the first
  -- round, where `a1` can be `a0`.
  pub record Round (c : Bool) (start a0 a1 b1 : ℕ) : Type 0 where
    pub a1_eq : a1 ≡ run_end row w c a0
    pub a0-le : a0 ≤ w
    pub b1-ge : a0 ≤ b1
    pub moves : a0 + 1 ≤ a1 + start
    pub test : (a0 + a1 == 0 || pixel bp a0 == 0) ≡ not c

  -- What one round writes, and where it ends: `c'` is the colour from there on.
  pub record RoundWrites (c c' : Bool) (s : Encoder) (start a0 b1 : ℕ) (r : Encoder × ℕ)
      : Type 0 where
    pub codes : List Bool
    pub extends : Extends unmap s codes r.0
    pub piece : List Bool
    pub reads :
        (more : Rest) (rest : List Bool)
        → (read_mode (codes ++ rest) >>= (λ m. decode_mode w ref c a0 b1 more m.0 m.1))
          ≡ piece_then w r.1 piece rest (more c' r.1 rest)
    pub splits : rest_of row w a0 ≡ piece ++ rest_of row w r.1
    pub colour : r.1 < w → get_or row r.1 false ≡ c'
    pub forward : r.1 < w → a0 + 1 ≤ r.1 + start
    pub end-le : r.1 ≤ w

  module _ (s : Encoder) (wf : IsWf s) (inverse : (b : ℕ) → b < 256 → unmap (s.bitmap b) ≡ b)
      (c : Bool) (start a0 a1 b1 : ℕ) (st : Round c start a0 a1 b1) where
    abbrev b2 : ℕ
    b2 = change_behind ref w b1

    abbrev run : ℕ
    run = lead c (w - a0) (drop a0 row)

    run-le : run ≤ w - a0
    run-le = lead-le c (w - a0) (drop a0 row)

    b2-ge : b2 < a1 → b1 < b2
    b2-ge lt = elim (Bool-cases (ltb b1 w)) [
      | inl before ↦ change_behind-gt ref w ref_long b1 (ground arith)
      | inr at_end ↦
          let e : b2 ≡ w = rw at_end refl in absurd (omega (arith, e, st.a1_eq, st.a0-le, run-le))
    ]

    pass-RoundWrites : b2 < a1 → RoundWrites c c s start a0 b1 (putcode s passcode, b2)
    unfolding decode_mode
    pass-RoundWrites lt =
        let m = pass-ModeWrites unmap s wf inverse in
        let gt = b2-ge lt in
        let k : a0 + (b2 - a0) ≡ b2 = omega (arith, st.b1-ge) in
        record {
          codes = m.codes;
          extends = m.extends;
          piece = replicate (b2 - a0) c;
          reads = λ more rest. rw (m.reads rest) refl;
          splits =
              part_of_run row w long c a0 (b2 - a0) (omega (arith, st.a1_eq))
              ∙ ap (λ (t : ℕ). replicate (b2 - a0) c ++ rest_of row w t) k;
          colour = λ _.
              ap (λ (t : ℕ). get_or row t false) (sym k)
              ∙ colour_inside row w long c a0 (b2 - a0) (omega (arith, st.a1_eq, st.b1-ge));
          forward = λ _. omega (arith, st.b1-ge);
          end-le = change_behind-le ref w ref_long b1;
        }

    vertical-RoundWrites :
        (v : ℕ)
        → v < 7
        → b1 + 3 - v ≡ a1
        → RoundWrites c
            (not c)
            s
            start
            a0
            b1
            (putcode s (get_or vcodes v (tableentry 0 0 (pos 0))), a1)
    unfolding decode_mode
    vertical-RoundWrites v lt e =
        let m = vertical-ModeWrites unmap s wf inverse v lt in
        let k : a1 - a0 ≡ run = omega (arith, st.a1_eq) in
        record {
          codes = m.codes;
          extends = m.extends;
          piece = replicate (a1 - a0) c;
          reads = λ more rest. rw (m.reads rest, e) refl;
          splits =
              part_of_run row w long c a0 (a1 - a0) (omega (arith, k))
              ∙ ap (λ (t : ℕ). replicate (a1 - a0) c ++ rest_of row w t) {x = a0 + (a1 - a0)}
                  {y = a1} (omega (arith, st.a1_eq));
          colour = λ lt'.
              ap (λ (t : ℕ). get_or row t false) st.a1_eq
              ∙ colour_behind row w long c a0 (omega (arith, st.a1_eq));
          forward = λ _. st.moves;
          end-le = omega (arith, st.a1_eq, run-le, st.a0-le);
        }

    abbrev a2 : ℕ
    a2 = change_behind row w a1

    a1-le : a1 ≤ w
    a1-le = omega (arith, st.a1_eq, run-le, st.a0-le)

    colour_a1 : a1 < w → get_or row a1 false ≡ not c
    colour_a1 lt =
        ap (λ (t : ℕ). get_or row t false) st.a1_eq
        ∙ colour_behind row w long c a0 (omega (arith, st.a1_eq))

    second_run :
        (a1 ≤ a2)
        × (a2 - a1 ≤ lead (not c) (w - a1) (drop a1 row))
        × (a2 < w → get_or row a2 false ≡ c)
    second_run = elim (Bool-cases (ltb a1 w)) [
      | inl before ↦
          let e =
            change_behind-run row w long (not c) a1 (ground arith) (colour_a1 (ground arith)) in
          (
            omega (arith, e),
            omega (arith, e),
            λ lt.
                ap (λ (t : ℕ). get_or row t false) e
                ∙ colour_behind row w long (not c) a1 (omega (arith, e))
                ∙ not-not c,
          )
      | inr at_end ↦
          let e : a2 ≡ w = rw at_end refl in
          (omega (arith, e, a1-le), ground (arith, e), λ lt. absurd (omega (arith, e)))
    ]

    horizontal-RoundWrites : RoundWrites c c s start a0 b1 (put_horizontal s bp a0 a1 a2, a2)
    unfolding decode_mode
    horizontal-RoundWrites =
        let m = horizontal-ModeWrites unmap s wf inverse in
        let s1 = putcode s horizcode in
        let w1 =
          putspan-Writes unmap (codes_of c) (codes_of-IsTable c) s1 (a1 - a0) m.extends.wf
            (rw m.extends.same_map inverse) in
        let s2 = putspan s1 (a1 - a0) (codes_of c) in
        let w2 =
          putspan-Writes unmap (codes_of (not c)) (codes_of-IsTable (not c)) s2 (a2 - a1)
            w1.extends.wf (rw w1.extends.same_map (rw m.extends.same_map inverse)) in
        let (ge, le, col) = second_run in
        let a2-le : a2 ≤ w = change_behind-le row w long a1 in
        let first : a0 + (a1 - a0) ≡ a1 = omega (arith, st.a1_eq) in
        let both : a0 + (a1 - a0) + (a2 - a1) ≡ a2 = omega (arith, first, ge) in
        rw (horizontal_spans bp c s a0 a1 a2 st.test) (record {
          codes = m.codes ++ (w1.codes ++ w2.codes);
          extends = Extends-trans m.extends (Extends-trans w1.extends w2.extends);
          piece = replicate (a1 - a0) c ++ replicate (a2 - a1) (not c);
          reads = λ more rest.
              rw
                (
                  append_assoc m.codes (w1.codes ++ w2.codes) rest,
                  m.reads ((w1.codes ++ w2.codes) ++ rest),
                  append_assoc w1.codes w2.codes rest,
                  w1.reads (w + 2) (w2.codes ++ rest) (omega (arith, a1-le)),
                  w2.reads (w + 2) rest (omega (arith, a2-le)),
                  both,
                )
                refl;
          splits =
              part_of_run row w long c a0 (a1 - a0) (omega (arith, st.a1_eq))
              ∙ ap (λ (t : ℕ). replicate (a1 - a0) c ++ rest_of row w t) first
              ∙ ap (λ (ps : List Bool). replicate (a1 - a0) c ++ ps)
                  (part_of_run row w long (not c) a1 (a2 - a1) le)
              ∙ ap
                  (λ (t : ℕ).
                    replicate (a1 - a0) c ++ (replicate (a2 - a1) (not c) ++ rest_of row w t))
                  {x = a1 + (a2 - a1)} {y = a2} (omega (arith, ge))
              ∙ sym (
                  append_assoc (replicate (a1 - a0) c) (replicate (a2 - a1) (not c))
                    (rest_of row w a2));
          colour = col;
          forward = λ _. omega (arith, ge, st.moves);
          end-le = a2-le;
        })

    pub put_mode-RoundWrites :
        (c' : Bool) × RoundWrites c c' s start a0 b1 (put_mode s bp w a0 a1 b1 b2)
    unfolding put_mode
    put_mode-RoundWrites = elim (Bool-cases (leb a1 b2)) [
      | inr pass ↦ (c, rw pass (pass-RoundWrites (ground arith)))
      | inl behind ↦ elim (Bool-cases (leb a1 (b1 + 3) && leb b1 (a1 + 3))) [
        | inl near ↦ (
          not c,
          rw (behind, near) (vertical-RoundWrites (b1 + 3 - a1) (ground arith) (ground arith)),
        )
        | inr far ↦
            (c, rw (behind, far, finddiff2-change bp w bytes room a1) horizontal-RoundWrites)
      ]
    ]
