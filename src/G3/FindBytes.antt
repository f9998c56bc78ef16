-- ===== src/G3/FindBytes.antt =====
-- The search over whole bytes in findspan (faxd/G3Encoder.c++).
use hyla_fax.Base.{
  ℕ, zero, suc, ◌+◌, ◌-◌, ◌*◌, ◌%◌, ◌≤◌, ◌<◌, Bool, ltb, leb, if◌then◌else◌, List, [], ◌∷◌, ◌++◌,
  length, get_or, drop, ◌≡◌, refl, ap, sym, ◌∙◌, arith, inl, inr, Bool-cases,
}
use hyla_fax.Base.Lists.{drop-append_length}
use hyla_fax.Base.Binary.{bits}
use hyla_fax.G3.Spans.{find_bytes}
use hyla_fax.G3.Lead.{lead, lead-le, lead_full, lead_stop, lead_cut}
use hyla_fax.G3.RunTables.{pixels, IsBytes, IsRunTable}

-- The result of a search that starts at the byte `bp`, with `span` pixels found before it: `k` more,
-- and a pointer to the byte with the next pixel.
pub record Found (bp : List ℕ) (span k : ℕ) (r : List ℕ × ℕ) : Type 0 where
  pub found_span : r.1 ≡ span + k
  pub found_bytes : IsBytes r.0
  pub found_at : drop (k % 8) (pixels r.0) ≡ drop k (pixels bp)

Found-same :
    (bp : List ℕ) (span k x : ℕ) → IsBytes bp → k < 8 → x ≡ k → Found bp span k (bp, span + x)
Found-same bp span k x bytes lt e = record {
  found_span = ap (◌+◌ span) e;
  found_bytes = bytes;
  found_at = ap (λ (t : ℕ). drop t (pixels bp)) (omega arith);
}

Found-next :
    (b : ℕ) (bp : List ℕ) (span k k' : ℕ) (r : List ℕ × ℕ)
    → k ≡ 8 + k'
    → Found bp (span + 8) k' r
    → Found (b ∷ bp) span k r
Found-next b bp span k k' r e f = record {
  found_span = f.found_span ∙ omega arith;
  found_bytes = f.found_bytes;
  found_at =
      ap (λ (t : ℕ). drop t (pixels r.0)) (omega arith)
      ∙ f.found_at
      ∙ sym (drop-append_length (bits 8 b) (pixels bp) k')
      ∙ ap (λ (t : ℕ). drop t (pixels (b ∷ bp))) (sym e);
}

module _ (c : Bool) (tab : List ℕ) (table : IsRunTable c tab) where
  abbrev pub entry : ℕ → ℕ
  entry b = get_or tab b 0

  -- The run at a byte `b` with the pixels `ys` behind it, by the entry of `b`.
  pub run_stop :
      (b n : ℕ) (ys : List Bool)
      → b < 256
      → 8 ≤ n
      → entry b < 8
      → lead c n (bits 8 b ++ ys) ≡ entry b
  run_stop b n ys byte big stop =
      lead_stop c (bits 8 b) ys n big (rw (← table.whole b byte) stop) ∙ sym (table.whole b byte)

  pub entry-le : (b : ℕ) → b < 256 → entry b ≤ 8
  entry-le b byte = rw (table.whole b byte) (lead-le c 8 (bits 8 b))

  pub run_full :
      (b n : ℕ) (ys : List Bool)
      → b < 256
      → 8 ≤ n
      → entry b ≡ 8
      → lead c n (bits 8 b ++ ys) ≡ 8 + lead c (n - 8) ys
  run_full b n ys byte big full = lead_full c (bits 8 b) ys n big (sym (table.whole b byte) ∙ full)

  pub run_cut :
      (b n : ℕ) (ys : List Bool)
      → b < 256
      → n ≤ 8
      → lead c n (bits 8 b ++ ys) ≡ (if ltb n (entry b) then n else entry b)
  run_cut b n ys byte small = rw (table.whole b byte) (lead_cut c (bits 8 b) ys n small)

  -- The search over whole bytes finds the run at the front of the next `n` pixels.
  pub find_bytes-Found :
      (bp : List ℕ) (n span : ℕ)
      → IsBytes bp
      → n ≤ 8 * length bp
      → Found bp span (lead c n (pixels bp)) (find_bytes tab bp n span)
  unfolding find_bytes
  find_bytes-Found [] zero span bytes room = record {
    found_span = unfold lead in omega arith;
    found_bytes = tt;
    found_at = unfold lead in refl;
  }
  find_bytes-Found [] (suc n) span bytes room = absurd (omega arith)
  find_bytes-Found (b ∷ bp) n span bytes room = elim (Bool-cases (leb 8 n)) [
    | inl big ↦ elim (Bool-cases (ltb (entry b) 8)) [
      | inl stop ↦
          let e = run_stop b n (pixels bp) bytes.0 (ground arith) (ground arith) in
          rw (big, stop) (Found-same (b ∷ bp) span _ (entry b) bytes (rw e (ground arith)) (sym e))
      | inr full ↦
          let e8 : entry b ≡ 8 = ground (arith, entry-le b bytes.0) in
          rw (big, full, e8)
            (Found-next b bp span _ _ _ (run_full b n (pixels bp) bytes.0 (ground arith) e8)
              (find_bytes-Found bp (n - 8) (span + 8) bytes.1 (omega arith)))
    ]
    | inr small ↦ elim (Bool-cases (ltb 0 n)) [
      | inl some_left ↦
          rw (small, some_left)
            (Found-same (b ∷ bp) span _ _ bytes
              (rw (run_cut b n (pixels bp) bytes.0 (ground arith)) (ground arith))
              (sym (run_cut b n (pixels bp) bytes.0 (ground arith))))
      | inr none_left ↦
          let e : n ≡ 0 = ground arith in
          rw (small, none_left, e)
            (record {
              found_span = unfold lead in omega arith;
              found_bytes = bytes;
              found_at = unfold lead in refl;
            })
    ]
  ]
