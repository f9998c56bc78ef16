-- ===== src/G3/RoundTrip.antt =====
-- What encode writes for a row reads back as the pixels of the row.
use mathlib.Core.Path.{subst, ap₂}
use mathlib.Core.List.{append_assoc}
use native.Mathlib.Nat.{sub-zero}
use hyla_fax.Base.{
  ℕ, zero, suc, ◌+◌, ◌-◌, ◌*◌, ◌≤◌, ◌<◌, Bool, true, false, not, leb, if◌then◌else◌, some, List,
  ◌++◌, length, take, drop, replicate, ◌≡◌, refl, ap, sym, ◌∙◌, arith, inl, inr, Bool-cases,
}
use hyla_fax.Base.Lists.{length-drop, drop_add}
use hyla_fax.Base.Checks.{leb→le, leb-false}
use hyla_fax.G3.Codes.{white_codes, black_codes}
use hyla_fax.G3.Encoder.{Encoder, putspan}
use hyla_fax.G3.Stream.{IsWf, Extends, Extends-trans}
use hyla_fax.G3.Tables.{IsTable, white-IsTable, black-IsTable}
use hyla_fax.G3.PutSpan.{Writes, putspan-Writes}
use hyla_fax.G3.Spans.{zeroruns, oneruns, findspan}
use hyla_fax.G3.Lead.{lead, lead-le, take_run, take_full, lead_after, lead_other}
use hyla_fax.G3.RunTables.{IsBytes, pixels, IsRunTable, zeroruns-IsRunTable, oneruns-IsRunTable}
use hyla_fax.G3.FindSpan.{At, length-pixels, findspan-Spans}
use hyla_fax.G3.Rows.{put_spans, codes_of, decode_line, decode_last, decode_more}

module _ (unmap : ℕ → ℕ) (row : List Bool) (w : ℕ) (long : w ≤ length row) where
  abbrev rest_of_row : ℕ → List Bool
  rest_of_row bs = take (w - bs) (drop bs row)

  -- The codes that a reader needs for the pixels from `bs` on, and one more; the first white run
  -- alone can be empty.
  abbrev need : Bool → ℕ → ℕ
  need c bs = 2 * (w - bs) + (if c then 1 else 2)

  -- `r` is the encoder with codes for the pixels from `bs` on behind those of `s`, and the pointer
  -- to the end of the row. `c` is the colour that the reader begins with.
  pub record LineWrites (c : Bool) (s : Encoder) (bs : ℕ) (r : Encoder × List ℕ) : Type 0 where
    pub codes : List Bool
    pub extends : Extends unmap s codes r.0
    pub at_end : At row r.1 w
    pub reads :
        (fuel : ℕ) (rest : List Bool)
        → need c bs ≤ fuel
        → decode_line fuel c (w - bs) (codes ++ rest) ≡ some (rest_of_row bs, rest)

  module _ (c : Bool) (runs : List ℕ) (table : IsRunTable c runs)
      (codes_table : IsTable (codes_of c)) where
    abbrev run_at : ℕ → ℕ
    run_at bs = lead c (w - bs) (drop bs row)

    abbrev after_span : Encoder → List ℕ → ℕ → Encoder
    after_span s bp bs = putspan s (findspan runs bp bs w).1 (codes_of c)

    span-Writes :
        (s : Encoder) (bp : List ℕ) (bs : ℕ)
        → IsWf s
        → ((b : ℕ) → b < 256 → unmap (s.bitmap b) ≡ b)
        → At row bp bs
        → bs ≤ w
        → Writes unmap (codes_of c) s (run_at bs) (after_span s bp bs)
    span-Writes s bp bs wf inverse a le =
        let f = findspan-Spans c runs table row bp bs w a le long in
        rw (← f.span_eq)
          (putspan-Writes unmap (codes_of c) codes_table s (findspan runs bp bs w).1 wf inverse)

    last_reads :
        (s : Encoder) (bp : List ℕ) (bs fuel : ℕ) (rest : List Bool)
        → run_at bs ≡ w - bs
        → need c bs ≤ fuel
        → (wr : Writes unmap (codes_of c) s (run_at bs) (after_span s bp bs))
        → decode_line fuel c (w - bs) (wr.codes ++ rest) ≡ some (rest_of_row bs, rest)
    last_reads s bp bs zero rest full enough wr = absurd (ground arith)
    last_reads s bp bs (suc fuel) rest full enough wr =
        decode_last fuel c (w - bs) (wr.codes ++ rest) rest
          (wr.reads (w - bs + 2) rest (omega arith) ∙ ap (λ (t : ℕ). some (t, rest)) full)
        ∙ ap (λ (ps : List Bool). some (ps, rest)) (sym (take_full c (w - bs) (drop bs row) full))

    more_reads :
        (s : Encoder) (bp : List ℕ) (bs : ℕ) (r : Encoder × List ℕ)
        → run_at bs < w - bs
        → need (not c) (bs + run_at bs) < need c bs
        → (wr : Writes unmap (codes_of c) s (run_at bs) (after_span s bp bs))
        → (later : LineWrites (not c) (after_span s bp bs) (bs + run_at bs) r)
        → (fuel : ℕ) (rest : List Bool) → need c bs ≤ fuel
        → decode_line fuel c (w - bs) ((wr.codes ++ later.codes) ++ rest)
          ≡ some (rest_of_row bs, rest)
    more_reads s bp bs r short fewer wr later zero rest enough = absurd (ground arith)
    more_reads s bp bs r short fewer wr later (suc fuel) rest enough =
        let k = run_at bs in
        let e : w - bs - k ≡ w - (bs + k) = omega arith in
        ap (decode_line (suc fuel) c (w - bs)) (append_assoc wr.codes later.codes rest)
        ∙ decode_more fuel c (w - bs) k _ (later.codes ++ rest) (rest_of_row (bs + k)) rest
            (wr.reads (w - bs + 2) (later.codes ++ rest) (omega arith)) short
            (ap (λ (t : ℕ). decode_line fuel (not c) t (later.codes ++ rest)) e
              ∙ later.reads fuel rest (omega arith))
        ∙ ap (λ (ps : List Bool). some (replicate k c ++ ps, rest))
            (ap₂ take (sym e) (drop_add bs k row))
        ∙ ap (λ (ps : List Bool). some (ps, rest)) (sym (take_run c (w - bs) (drop bs row)))

    -- A span that fills the row ends it.
    last_span :
        (s : Encoder) (bp : List ℕ) (bs : ℕ)
        → IsWf s
        → ((b : ℕ) → b < 256 → unmap (s.bitmap b) ≡ b)
        → At row bp bs
        → bs ≤ w
        → run_at bs ≡ w - bs
        → LineWrites c s bs (after_span s bp bs, (findspan runs bp bs w).0)
    last_span s bp bs wf inverse a le full =
        let f = findspan-Spans c runs table row bp bs w a le long in
        let wr = span-Writes s bp bs wf inverse a le in
        record {
          codes = wr.codes;
          extends = wr.extends;
          at_end = subst (At row (findspan runs bp bs w).0) (omega (arith, f.span_eq)) f.behind;
          reads = λ fuel rest enough. last_reads s bp bs fuel rest full enough wr;
        }

    -- A shorter span goes on with the other colour.
    then_more :
        (s : Encoder) (bp : List ℕ) (bs : ℕ) (r : Encoder × List ℕ)
        → IsWf s
        → ((b : ℕ) → b < 256 → unmap (s.bitmap b) ≡ b)
        → At row bp bs
        → bs ≤ w
        → run_at bs < w - bs
        → need (not c) (bs + run_at bs) < need c bs
        → LineWrites (not c) (after_span s bp bs) (bs + run_at bs) r
        → LineWrites c s bs r
    then_more s bp bs r wf inverse a le short fewer later =
        let wr = span-Writes s bp bs wf inverse a le in
        record {
          codes = wr.codes ++ later.codes;
          extends = Extends-trans wr.extends later.extends;
          at_end = later.at_end;
          reads = λ fuel rest enough. more_reads s bp bs r short fewer wr later fuel rest enough;
        }

    -- One span of the loop: `next` is what the loop goes on with where the row is not full.
    span_then :
        (s : Encoder) (bp : List ℕ) (bs : ℕ) (next : Encoder × List ℕ)
        → IsWf s
        → ((b : ℕ) → b < 256 → unmap (s.bitmap b) ≡ b)
        → At row bp bs
        → bs ≤ w
        → (bs + run_at bs < w
            → (need (not c) (bs + run_at bs) < need c bs)
              × LineWrites (not c) (after_span s bp bs) (bs + run_at bs) next)
        → LineWrites c s bs (
            if leb w (bs + (findspan runs bp bs w).1)
            then (after_span s bp bs, (findspan runs bp bs w).0)
            else next)
    span_then s bp bs next wf inverse a le more =
        let e = (findspan-Spans c runs table row bp bs w a le long).span_eq in
        let most = lead-le c (w - bs) (drop bs row) in
        elim (Bool-cases (leb w (bs + (findspan runs bp bs w).1))) [
          | inl full ↦ rw full (last_span s bp bs wf inverse a le (omega (arith, leb→le _ _ full)))
          | inr short ↦
              let lt : bs + run_at bs < w = omega (arith, leb-false _ _ short) in
              rw short
                (then_more s bp bs next wf inverse a le (omega arith) (more lt).0 (more lt).1)
        ]

  -- Behind a white run that does not fill the row stands a black pixel.
  black_pos :
      (bs k : ℕ)
      → bs ≤ w
      → lead false (w - bs) (drop bs row) ≡ k
      → bs + k < w
      → 0 < lead true (w - (bs + k)) (drop (bs + k) row)
  black_pos bs k le e short =
      lead_other false (w - (bs + k)) (drop (bs + k) row) (omega arith)
        (omega (arith, length-drop {0} (bs + k) row))
        (ap₂ (lead false) (omega arith) (drop_add bs k row)
          ∙ rw e at (lead_after false (w - bs) (drop bs row)))

  -- A black span of at least one pixel, and what the loop goes on with.
  black_then :
      (s : Encoder) (bp : List ℕ) (bs : ℕ) (next : Encoder × List ℕ)
      → IsWf s
      → ((b : ℕ) → b < 256 → unmap (s.bitmap b) ≡ b)
      → At row bp bs
      → bs ≤ w
      → 0 < lead true (w - bs) (drop bs row)
      → (IsWf (putspan s (findspan oneruns bp bs w).1 black_codes)
          → ((b : ℕ)
              → b < 256
              → unmap ((putspan s (findspan oneruns bp bs w).1 black_codes).bitmap b) ≡ b)
          → At row (findspan oneruns bp bs w).0 (bs + (findspan oneruns bp bs w).1)
          → bs < bs + (findspan oneruns bp bs w).1
          → bs + (findspan oneruns bp bs w).1 ≤ w
          → LineWrites false
              (putspan s (findspan oneruns bp bs w).1 black_codes)
              (bs + (findspan oneruns bp bs w).1)
              next)
      → LineWrites true s bs (
          if leb w (bs + (findspan oneruns bp bs w).1)
          then (putspan s (findspan oneruns bp bs w).1 black_codes, (findspan oneruns bp bs w).0)
          else next)
  black_then s bp bs next wf inverse a le p later =
      let f = findspan-Spans true oneruns oneruns-IsRunTable row bp bs w a le long in
      let wr =
        (span-Writes true oneruns oneruns-IsRunTable black-IsTable s bp bs wf inverse a
          le).extends in
      span_then true oneruns oneruns-IsRunTable black-IsTable s bp bs next wf inverse a le (λ lt. (
        ground arith,
        subst
            (λ k.
              LineWrites false (putspan s (findspan oneruns bp bs w).1 black_codes) (bs + k) next)
            f.span_eq
            (later wr.wf (rw wr.same_map inverse) f.behind (omega (arith, f.span_eq))
              (omega (arith, f.span_eq))),
      ))

  put_spans-LineWrites :
      (fuel : ℕ) (s : Encoder) (bp : List ℕ) (bs : ℕ)
      → IsWf s
      → ((b : ℕ) → b < 256 → unmap (s.bitmap b) ≡ b)
      → At row bp bs
      → bs ≤ w
      → w - bs < fuel
      → LineWrites false s bs (put_spans fuel s bp bs w)
  unfolding put_spans
  put_spans-LineWrites zero s bp bs wf inverse a le enough = absurd (omega arith)
  put_spans-LineWrites (suc fuel) s bp bs wf inverse a le enough =
      let f = findspan-Spans false zeroruns zeroruns-IsRunTable row bp bs w a le long in
      let wr =
        (span-Writes false zeroruns zeroruns-IsRunTable white-IsTable s bp bs wf inverse a
          le).extends in
      let white = findspan zeroruns bp bs w in
      let s1 = putspan s white.1 white_codes in
      let bs1 = bs + white.1 in
      let black = findspan oneruns white.0 bs1 w in
      let s2 = putspan s1 black.1 black_codes in
      let more = put_spans fuel s2 black.0 (bs1 + black.1) w in
      let next = if leb w (bs1 + black.1) then (s2, black.0) else more in
      span_then false zeroruns zeroruns-IsRunTable white-IsTable s bp bs next wf inverse a le (λ lt.
        (
          ground arith,
          subst (λ k. LineWrites true s1 (bs + k) next) f.span_eq
              (black_then s1 white.0 bs1 more wr.wf (rw wr.same_map inverse) f.behind
                (omega (arith, f.span_eq))
                (black_pos bs white.1 le (sym f.span_eq) (omega (arith, f.span_eq)))
                (λ wf' inverse' a' gt le'.
                  put_spans-LineWrites fuel s2 black.0 (bs1 + black.1) wf' inverse' a' le'
                    (omega arith))),
        ))

-- `r` is `s` with codes behind it that read back as the first `w` pixels of `bp`, whatever follows
-- them, and the pointer to the pixel behind the row.
abbrev pub RowWrites : (ℕ → ℕ) → Encoder → List ℕ → ℕ → Encoder × List ℕ → Type 0
RowWrites unmap s bp w r =
    (codes : List Bool) × Extends unmap s codes r.0
    × At (pixels bp) r.1 w
    × ((rest : List Bool)
        → decode_line (2 * w + 2) false w (codes ++ rest) ≡ some (take w (pixels bp), rest))

-- The 1-D line that encode writes for a row reads back as the pixels of the row, whatever follows
-- it, and the pointer is left at the pixel behind the row: on a well-formed encoder whose byte table
-- `unmap` undoes, for a raster of bytes that holds the `w` pixels; `w + 1` rounds are enough.
pub put_spans-row :
    (unmap : ℕ → ℕ) (s : Encoder) (bp : List ℕ) (w : ℕ)
    → IsWf s
    → ((b : ℕ) → b < 256 → unmap (s.bitmap b) ≡ b)
    → IsBytes bp
    → w ≤ 8 * length bp
    → RowWrites unmap s bp w (put_spans (w + 1) s bp 0 w)
put_spans-row unmap s bp w wf inverse bytes room =
    let start : At (pixels bp) bp 0 = record { bytes = bytes; at = refl } in
    let l =
      put_spans-LineWrites unmap (pixels bp) w (rw length-pixels room) (w + 1) s bp 0 wf inverse
        start (omega arith) (omega arith) in
    (
      l.codes,
      l.extends,
      l.at_end,
      λ rest. rw (sub-zero w) at (l.reads (2 * w + 2) rest (omega arith)),
    )
