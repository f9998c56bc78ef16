-- ===== src/G3/RoundTrip2d.antt =====
-- What encode (faxd/G3Encoder.c++) writes for a row with a reference line reads back as the pixels of
-- the row.
use mathlib.Core.Path.{subst}
use mathlib.Core.List.{append_assoc, append-nil}
use hyla_fax.Base.{take}
use hyla_fax.Base.{
  ℕ, zero, suc, ◌+◌, ◌-◌, ◌*◌, ◌≤◌, ◌<◌, Bool, true, false, not, ◌||◌, leb, ◌==◌, some, List, ◌++◌,
  length, get_or, ◌≡◌, refl, ap, sym, ◌∙◌, arith, inl, inr, Bool-cases,
}
use hyla_fax.Base.Checks.{leb-false}
use hyla_fax.G3.Encoder.{Encoder}
use hyla_fax.G3.Stream.{IsWf, Extends, Extends-trans}
use hyla_fax.G3.Lead.{lead}
use hyla_fax.G3.RunTables.{IsBytes, pixels}
use hyla_fax.G3.TwoD.{Raster, pixel, finddiff, finddiff2, put_mode, put_line_2d, first_diff}
use hyla_fax.G3.Decode2d.{run_end, next_b1, decode_2d}
use hyla_fax.G3.RowRuns.{rest_of, run_end-gt}
use hyla_fax.G3.Changes.{run_end-take}
use hyla_fax.G3.Changes.{bit_num, run_inside, pixel-get, finddiff-run}
use hyla_fax.G3.Round2d.{long, ref-run, ref-change, Round, RoundWrites, put_mode-RoundWrites}

module _ (unmap : ℕ → ℕ) (bp rp : Raster) (w : ℕ) (bytes : IsBytes bp.bytes)
    (ref_bytes : IsBytes rp.bytes) (room : w ≤ 8 * length bp.bytes)
    (ref_room : w ≤ 8 * length rp.bytes) where
  abbrev row : List Bool
  row = pixels bp.bytes

  abbrev ref : List Bool
  ref = take w (pixels rp.bytes)

  -- `s'` is `s` with codes behind it that a reader takes for the pixels from `a0` on.
  pub record Line2dWrites (fuel : ℕ) (c : Bool) (s : Encoder) (a0 b1 : ℕ) (s' : Encoder)
      : Type 0 where
    pub codes : List Bool
    pub extends : Extends unmap s codes s'
    pub reads :
        (rest : List Bool)
        → decode_2d fuel w ref c a0 b1 (codes ++ rest) ≡ some (rest_of row w a0, rest)

  -- A round that fills the line, and one that does not.
  last_mode :
      (fuel : ℕ) (c c' : Bool) (s : Encoder) (start a0 b1 : ℕ) (r : Encoder × ℕ)
      → RoundWrites unmap bp rp w bytes ref_bytes room ref_room c c' s start a0 b1 r
      → leb w r.1 ≡ true
      → Line2dWrites (suc fuel) c s a0 b1 r.0
  unfolding decode_2d
  last_mode fuel c c' s start a0 b1 r m full =
      let none_left : w - r.1 ≡ 0 = ground arith in
      let whole : rest_of row w a0 ≡ m.piece = m.splits ∙ rw none_left (append-nil m.piece) in
      record {
        codes = m.codes;
        extends = m.extends;
        reads = λ rest. m.reads _ rest ∙ rw (full, whole) refl;
      }

  then_mode :
      (fuel : ℕ) (c c' : Bool) (s s' : Encoder) (start a0 b1 : ℕ) (r : Encoder × ℕ)
      → RoundWrites unmap bp rp w bytes ref_bytes room ref_room c c' s start a0 b1 r
      → leb w r.1 ≡ false
      → Line2dWrites fuel c' r.0 r.1 (next_b1 ref w c' r.1) s'
      → Line2dWrites (suc fuel) c s a0 b1 s'
  unfolding decode_2d
  then_mode fuel c c' s s' start a0 b1 r m short later = record {
    codes = m.codes ++ later.codes;
    extends = Extends-trans m.extends later.extends;
    reads = λ rest.
        ap (decode_2d (suc fuel) w ref c a0 b1) (append_assoc m.codes later.codes rest)
        ∙ m.reads _ (later.codes ++ rest)
        ∙ rw (short, later.reads rest, m.splits) refl;
  }

  -- What the loop computes behind a round.
  next-Round :
      (c : Bool) (a0 : ℕ)
      → a0 < w
      → get_or row a0 false ≡ c
      → Round unmap bp rp w bytes ref_bytes room ref_room c 0 a0
          (finddiff bp a0 w (pixel bp a0))
          (finddiff rp (finddiff rp a0 w (1 - pixel bp a0)) w (pixel bp a0))
        × (finddiff rp (finddiff rp a0 w (1 - pixel bp a0)) w (pixel bp a0) ≡ next_b1 ref w c a0)
  next-Round c a0 lt e =
      let p : pixel bp a0 ≡ bit_num c = pixel-get bp w bytes room a0 lt ∙ ap bit_num e in
      let q : 1 - bit_num c ≡ bit_num (not c) = flipped c in
      let a1_eq : finddiff bp a0 w (pixel bp a0) ≡ run_end row w c a0 =
        ap (finddiff bp a0 w) p ∙ finddiff-run bp w bytes room a0 c in
      let b1_eq : finddiff rp (finddiff rp a0 w (1 - pixel bp a0)) w (pixel bp a0)
          ≡ next_b1 ref w c a0 =
        rw (p, q, ref-run unmap bp rp w bytes ref_bytes room ref_room a0 (not c))
          (ref-run unmap bp rp w bytes ref_bytes room ref_room (run_end ref w (not c) a0) c) in
      let gt = run_end-gt row w (long unmap bp rp w bytes ref_bytes room ref_room) c a0 lt e in
      (
        record {
          a1_eq = a1_eq;
          a0-le = omega arith;
          b1-ge = omega (arith, b1_eq);
          moves = omega (arith, a1_eq, gt);
          test = rw p (
              tested c a0 (finddiff bp a0 w (bit_num c))
                (omega (arith, finddiff-run bp w bytes room a0 c, gt)));
        },
        b1_eq,
      )
    where
      flipped : (c : Bool) → 1 - bit_num c ≡ bit_num (not c)
      flipped true = refl
      flipped false = refl

      tested : (c : Bool) (a0 a1 : ℕ) → a0 < a1 → (a0 + a1 == 0 || bit_num c == 0) ≡ not c
      tested true a0 a1 lt = ground arith
      tested false a0 a1 lt = ground arith

  put_line_2d-Writes :
      (fuel : ℕ) (c : Bool) (s : Encoder) (start a0 a1 b1 : ℕ)
      → IsWf s
      → ((b : ℕ) → b < 256 → unmap (s.bitmap b) ≡ b)
      → Round unmap bp rp w bytes ref_bytes room ref_room c start a0 a1 b1
      → 0 < w - a0 + start
      → w - a0 + start ≤ fuel
      → Line2dWrites fuel c s a0 b1 (put_line_2d fuel s bp rp w a0 a1 b1)
  unfolding put_line_2d
  put_line_2d-Writes zero c s start a0 a1 b1 wf inverse st some_left enough = absurd (omega arith)
  put_line_2d-Writes (suc fuel) c s start a0 a1 b1 wf inverse st some_left enough =
      let r = put_mode s bp w a0 a1 b1 (finddiff2 rp b1 w (pixel rp b1)) in
      let (c', m) =
        subst
          (λ b2.
            (c' : Bool) × RoundWrites unmap bp rp w bytes ref_bytes room ref_room c c' s start a0 b1
              (put_mode s bp w a0 a1 b1 b2))
          (sym (ref-change unmap bp rp w bytes ref_bytes room ref_room b1))
          (put_mode-RoundWrites unmap bp rp w bytes ref_bytes room ref_room s wf inverse c start a0
            a1 b1 st) in
      elim (Bool-cases (leb w r.1)) [
        | inl full ↦ rw full (last_mode fuel c c' s start a0 b1 r m full)
        | inr short ↦
            let lt : r.1 < w = leb-false w r.1 short in
            let (next, b1_eq) = next-Round c' r.1 lt (m.colour lt) in
            rw short (
              then_mode fuel c c' s _ start a0 b1 r m short (
                subst
                  (λ b. Line2dWrites fuel c' r.0 r.1 b (
                    put_line_2d fuel r.0 bp rp w r.1 (finddiff bp r.1 w (pixel bp r.1))
                      (finddiff rp (finddiff rp r.1 w (1 - pixel bp r.1)) w (pixel bp r.1))))
                  b1_eq
                  (put_line_2d-Writes fuel c' r.0 0 r.1 _ _ m.extends.wf
                    (rw m.extends.same_map inverse) next (omega arith)
                    (omega (arith, m.forward lt)))))
      ]

  -- `a1` and `b1` of the first round, and its test for white.
  first_diff-run :
      (cp : Raster)
      → IsBytes cp.bytes
      → w ≤ 8 * length cp.bytes
      → (first_diff cp w ≡ run_end (pixels cp.bytes) w false 0)
        × ((0 + first_diff cp w == 0 || pixel cp 0 == 0) ≡ true)
  unfolding first_diff
  first_diff-run cp all has = elim (Bool-cases (pixel cp 0 == 0)) [
    | inl white ↦ rw white (finddiff-run cp w all has 0 false, ground arith)
    | inr black ↦ rw black (sym (no_white w has black), refl)
  ]
    where
      no_white :
          (n : ℕ)
          → n ≤ 8 * length cp.bytes
          → (pixel cp 0 == 0) ≡ false
          → run_end (pixels cp.bytes) n false 0 ≡ 0
      no_white zero le b = unfold lead in omega arith
      no_white (suc n) le b = elim (Bool-cases (get_or (pixels cp.bytes) 0 false)) [
        | inr white ↦
            let e = pixel-get cp (suc n) all le 0 (omega arith) ∙ ap bit_num white in
            absurd (ground (arith, e))
        | inl is_black ↦ elim (Bool-cases (lead false (suc n) (pixels cp.bytes) == 0)) [
          | inl none_there ↦ ground arith
          | inr some_there ↦
              let e = run_inside false (suc n) 0 (pixels cp.bytes) (ground arith) in
              absurd (ground (arith, e, is_black))
        ]
      ]

  -- The 2-D line that encode writes for a row of `w` pixels reads back, against the first `w` pixels
  -- of the reference line, as the pixels of the row, whatever follows it: on a well-formed encoder whose byte
  -- table `unmap` undoes, for rasters of bytes that hold `w` pixels each; `w + 1` rounds are enough.
  pub put_line_2d-row :
      (s : Encoder)
      → IsWf s
      → ((b : ℕ) → b < 256 → unmap (s.bitmap b) ≡ b)
      → Line2dWrites
          (w + 1)
          false
          s
          0
          (run_end ref w false 0)
          (put_line_2d (w + 1) s bp rp w 0 (first_diff bp w) (first_diff rp w))
  put_line_2d-row s wf inverse =
      let (a1_eq, test) = first_diff-run bp bytes room in
      let (b1_full, test') = first_diff-run rp ref_bytes ref_room in
      let b1_eq : first_diff rp w ≡ run_end ref w false 0 =
        b1_full ∙ run_end-take (pixels rp.bytes) w false 0 in
      rw b1_eq (
        put_line_2d-Writes (w + 1) false s 1 0 (first_diff bp w) (run_end ref w false 0) wf inverse
          (record {
            a1_eq = a1_eq;
            a0-le = omega arith;
            b1-ge = omega arith;
            moves = omega arith;
            test = test;
          })
          (omega arith) (omega arith))
