-- ===== src/G3/WordScan.antt =====
-- find0span and find1span (faxd/G3Encoder.c++) find the run of their colour, wherever the row lies in
-- memory.
use native.Mathlib.Nat.{zero-add}
use hyla_fax.Base.{
  ℕ, suc, ◌+◌, ◌-◌, ◌*◌, ◌/◌, ◌%◌, ◌≤◌, ◌<◌, Bool, true, false, not, ◌&&◌, ltb, ◌==◌, List, [], ◌∷◌,
  ◌++◌, length, drop, ◌≡◌, refl, ap, sym, ◌∙◌, arith, inl, inr, Bool-cases,
}
use hyla_fax.Base.Lists.{drop-append_front, length-drop, drop_add}
use hyla_fax.Base.Binary.{bits, length-bits}
use hyla_fax.G3.Spans.{zeroruns, oneruns, left_span}
use hyla_fax.G3.Lead.{lead}
use hyla_fax.G3.RunTables.{pixels, IsBytes, IsRunTable, zeroruns-IsRunTable, oneruns-IsRunTable}
use hyla_fax.G3.FindSpan.{clip, left_within, left_beyond}
use hyla_fax.G3.WordSpans.{scan_left, word_span, find0span, find1span}
use hyla_fax.G3.WordLoops.{
  IsFill, fill_holds-IsFill, zeroruns_fill, oneruns_fill, IsBytes-drop, pixels-drop, scan_from-lead,
}

module _ (c : Bool) (fill : ℕ) (tab : List ℕ) (table : IsRunTable c tab)
    (of_colour : IsFill fill tab) where
  scan_left-lead :
      (addr : ℕ) (b : ℕ) (bp : List ℕ) (n k : ℕ)
      → IsBytes (b ∷ bp)
      → k < 8
      → n ≤ 8 * length (b ∷ bp) - k
      → scan_left fill tab addr (b ∷ bp) k n ≡ lead c n (drop k (pixels (b ∷ bp)))
  unfolding scan_left
  scan_left-lead addr b bp n k bytes lt room = elim (Bool-cases (ltb (k + left_span tab b k n) 8)) [
    | inl within ↦
        rw within
          (sym (here ∙ left_within c tab table xs (pixels bp) n _ span_eq (ground (arith, len))))
    | inr beyond ↦
        let (full, run) =
          left_beyond c tab table xs (pixels bp) n _ span_eq (ground (arith, len)) in
        rw beyond (
          scan_from-lead c fill tab table of_colour (suc addr) bp (n - left_span tab b k n)
            (left_span tab b k n) bytes.1 (omega (arith, full, len))
          ∙ sym (here ∙ run))
  ]
    where
      xs : List Bool
      xs = drop k (bits 8 b)

      len : length xs ≡ 8 - k
      len = length-drop k (bits 8 b) ∙ ap (λ (t : ℕ). t - k) (length-bits 8 b)

      span_eq : left_span tab b k n ≡ clip c tab table n (lead c (length xs) xs)
      span_eq = rw len (unfold left_span in ap (clip c tab table n) (table.left k b lt bytes.0))

      here : lead c n (drop k (pixels (b ∷ bp))) ≡ lead c n (xs ++ pixels bp)
      here =
          ap (lead c n)
            (drop-append_front k (bits 8 b) (pixels bp) (omega (arith, length-bits 8 b)))

  left_from :
      (addr : ℕ) (bp : List ℕ) (n k : ℕ)
      → IsBytes bp
      → k < 8
      → 0 < n
      → n ≤ 8 * length bp - k
      → scan_left fill tab addr bp k n ≡ lead c n (drop k (pixels bp))
  left_from addr [] n k bytes lt p room = absurd (omega arith)
  left_from addr (b ∷ bp) n k bytes lt p room = scan_left-lead addr b bp n k bytes lt room

  word_span-lead :
      (addr : ℕ) (base : List ℕ) (bs be : ℕ)
      → IsBytes base
      → be ≤ 8 * length base
      → word_span fill tab addr base bs be ≡ lead c (be - bs) (drop bs (pixels base))
  unfolding word_span
  word_span-lead addr base bs be bytes fits =
      elim (Bool-cases (ltb 0 (be - bs) && not (bs % 8 == 0))) [
        | inl left ↦ rw left (
            left_from _ bp (be - bs) (bs % 8) bytes' (omega arith) (ground arith)
              (ground (arith, len))
            ∙ ap (lead c (be - bs)) (
                ap (drop (bs % 8)) start
                ∙ sym (drop_add (8 * (bs / 8)) (bs % 8) (pixels base))
                ∙ ap (λ (t : ℕ). drop t (pixels base)) (omega arith)))
        | inr whole ↦ elim (Bool-cases (ltb 0 (be - bs))) [
          | inl some_left ↦ rw whole (
              scan_from-lead c fill tab table of_colour _ bp (be - bs) 0 bytes'
                (ground (arith, len))
              ∙ zero-add _
              ∙ ap (lead c (be - bs)) (start ∙ ap (λ (t : ℕ). drop t (pixels base)) (ground arith)))
          | inr none_left ↦
              let e : be - bs ≡ 0 = ground arith in
              rw whole (
                scan_from-lead c fill tab table of_colour _ bp (be - bs) 0 bytes'
                  (ground (arith, len))
                ∙ zero-add _
                ∙ rw e (unfold lead in refl))
        ]
      ]
    where
      bp : List ℕ
      bp = drop (bs / 8) base

      bytes' : IsBytes bp
      bytes' = IsBytes-drop (bs / 8) base bytes

      len : length bp ≡ length base - bs / 8
      len = length-drop (bs / 8) base

      start : pixels bp ≡ drop (8 * (bs / 8)) (pixels base)
      start = pixels-drop (bs / 8) base

-- At every address, find0span returns the length of the run of white pixels at the front of the
-- range `bs` to `be` of the bit string, if the range lies within the string.
pub find0span-lead :
    (addr : ℕ) (base : List ℕ) (bs be : ℕ)
    → IsBytes base
    → be ≤ 8 * length base
    → find0span addr base bs be ≡ lead false (be - bs) (drop bs (pixels base))
unfolding find0span
find0span-lead =
    word_span-lead false 0x00 zeroruns zeroruns-IsRunTable
      (fill_holds-IsFill 0x00 zeroruns zeroruns_fill)

-- At every address, find1span returns the length of the run of black pixels at the front of the
-- range `bs` to `be` of the bit string, if the range lies within the string.
pub find1span-lead :
    (addr : ℕ) (base : List ℕ) (bs be : ℕ)
    → IsBytes base
    → be ≤ 8 * length base
    → find1span addr base bs be ≡ lead true (be - bs) (drop bs (pixels base))
unfolding find1span
find1span-lead =
    word_span-lead true 0xff oneruns oneruns-IsRunTable
      (fill_holds-IsFill 0xff oneruns oneruns_fill)
