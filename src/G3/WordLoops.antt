-- ===== src/G3/WordLoops.antt =====
-- The loops of find0span and find1span (faxd/G3Encoder.c++), byte by byte and word by word, find the run
-- of their colour from a byte boundary on.
use native.Mathlib.Nat.{zero-add}
use hyla_fax.Base.{
  ℕ, zero, suc, ◌+◌, ◌-◌, ◌*◌, ◌%◌, ◌≤◌, ◌<◌, bit_and, Bool, true, false, ◌&&◌, ltb, leb, ◌==◌,
  if◌then◌else◌, List, [], ◌∷◌, length, get_or, drop, ◌≡◌, refl, ap, sym, ◌∙◌, arith, inl, inr,
  Bool-cases,
}
use hyla_fax.Base.Checks.{all_below, all_below_sound, ==_iff}
use hyla_fax.Base.Lists.{drop-append_length, length-drop}
use hyla_fax.Base.Binary.{bits, bit_and-low_mask}
use hyla_fax.G3.Spans.{zeroruns, oneruns}
use hyla_fax.G3.Lead.{lead}
use hyla_fax.G3.RunTables.{pixels, IsBytes, IsRunTable}
use hyla_fax.G3.FindBytes.{run_stop, run_full, run_cut}
use hyla_fax.G3.WordSpans.{
  long_size, is_aligned, all_are, scan_bytes, scan_words, align_scan, scan_from,
}

-- `fill` is the one byte whose entry is 8.
pub record IsFill (fill : ℕ) (tab : List ℕ) : Type 0 where
  pub full : (b : ℕ) → b < 256 → (b == fill) ≡ true → get_or tab b 0 ≡ 8
  pub stop : (b : ℕ) → b < 256 → (b == fill) ≡ false → get_or tab b 0 < 8

abbrev pub fill_holds : ℕ → List ℕ → ℕ → Bool
fill_holds fill tab b = if b == fill then get_or tab b 0 == 8 else ltb (get_or tab b 0) 8

pub fill_holds-IsFill :
    (fill : ℕ) (tab : List ℕ) → all_below 256 (fill_holds fill tab) ≡ true → IsFill fill tab
fill_holds-IsFill fill tab h = record {
  full = λ b lt e. (==_iff _ _).0 (rw e at (all_below_sound 256 (fill_holds fill tab) b h lt));
  stop = λ b lt e. ground (arith, (rw e at (all_below_sound 256 (fill_holds fill tab) b h lt)));
}

pub zeroruns_fill : all_below 256 (fill_holds 0x00 zeroruns) ≡ true
unfolding all_below zeroruns
zeroruns_fill = refl

pub oneruns_fill : all_below 256 (fill_holds 0xff oneruns) ≡ true
unfolding all_below oneruns
oneruns_fill = refl

pub IsBytes-drop : (k : ℕ) (bp : List ℕ) → IsBytes bp → IsBytes (drop k bp)
IsBytes-drop zero bp h = h
IsBytes-drop (suc k) [] h = h
IsBytes-drop (suc k) (b ∷ bp) h = IsBytes-drop k bp h.1

drop_nil : (k : ℕ) → drop {A = Bool} k [] ≡ []
drop_nil zero = refl
drop_nil (suc k) = refl

pub pixels-drop : (k : ℕ) (bp : List ℕ) → pixels (drop k bp) ≡ drop (8 * k) (pixels bp)
pixels-drop zero bp = refl
pixels-drop (suc k) [] = sym (drop_nil (8 * suc k))
pixels-drop (suc k) (b ∷ bp) =
    pixels-drop k bp
    ∙ sym (drop-append_length (bits 8 b) (pixels bp) (8 * k))
    ∙ ap (λ (t : ℕ). drop t (pixels (b ∷ bp))) (omega arith)

module _ (c : Bool) (fill : ℕ) (tab : List ℕ) (table : IsRunTable c tab)
    (of_colour : IsFill fill tab) where
  scan_bytes-lead :
      (bp : List ℕ) (n span : ℕ)
      → IsBytes bp
      → n ≤ 8 * length bp
      → scan_bytes fill tab bp n span ≡ span + lead c n (pixels bp)
  unfolding scan_bytes
  scan_bytes-lead [] zero span bytes room = unfold lead in omega arith
  scan_bytes-lead [] (suc n) span bytes room = absurd (omega arith)
  scan_bytes-lead (b ∷ bp) n span bytes room = elim (Bool-cases (leb 8 n)) [
    | inl big ↦ elim (Bool-cases (b == fill)) [
      | inl full ↦
          rw (big, full)
            (scan_bytes-lead bp (n - 8) (span + 8) bytes.1 (ground arith)
              ∙ omega (
                arith,
                run_full c tab table b n (pixels bp) bytes.0 (ground arith)
                    (of_colour.full b bytes.0 full),
              ))
      | inr stop ↦
          rw (big, stop)
            (ap (◌+◌ span) (
              sym (
                run_stop c tab table b n (pixels bp) bytes.0 (ground arith)
                  (of_colour.stop b bytes.0 stop))))
    ]
    | inr small ↦ elim (Bool-cases (ltb 0 n)) [
      | inl some_left ↦
          rw (small, some_left)
            (ap (◌+◌ span) (sym (run_cut c tab table b n (pixels bp) bytes.0 (ground arith))))
      | inr none_left ↦
          let e : n ≡ 0 = ground arith in rw (small, none_left, e) (unfold lead in omega arith)
    ]
  ]

  all_are-lead :
      (k : ℕ) (bp : List ℕ) (n : ℕ)
      → IsBytes bp
      → 8 * k ≤ n
      → all_are fill k bp ≡ true
      → (k ≤ length bp) × (lead c n (pixels bp) ≡ 8 * k + lead c (n - 8 * k) (pixels (drop k bp)))
  unfolding all_are
  all_are-lead zero bp n bytes le e = (
    omega arith,
    ap (λ (t : ℕ). lead c t (pixels bp)) {x = n} {y = n - 8 * 0} (omega arith) ∙ sym (zero-add _),
  )
  all_are-lead (suc k) [] n bytes le e = absurd (ground arith)
  all_are-lead (suc k) (b ∷ bp) n bytes le e =
      let full : (b == fill) ≡ true = ground arith in
      let (room, rest) = all_are-lead k bp (n - 8) bytes.1 (omega arith) (ground arith) in
      (
        omega arith,
        run_full c tab table b n (pixels bp) bytes.0 (omega arith) (of_colour.full b bytes.0 full)
            ∙ ap (◌+◌ 8) rest
            ∙ omega (
              arith,
              ap (λ (t : ℕ). lead c t (pixels (drop k bp))) {x = n - 8 - 8 * k} {y = n - 8 * suc k}
                  (omega arith),
            ),
      )

  scan_words-lead :
      (fuel : ℕ) (bp : List ℕ) (n span : ℕ)
      → IsBytes bp
      → n ≤ 8 * length bp
      → scan_words fuel fill tab bp n span ≡ span + lead c n (pixels bp)
  unfolding scan_words
  scan_words-lead zero bp n span bytes room = scan_bytes-lead bp n span bytes room
  scan_words-lead (suc fuel) bp n span bytes room =
      elim (Bool-cases (leb (8 * long_size) n && all_are fill long_size bp)) [
        | inl word ↦
            let (big, run) = all_are-lead 8 bp n bytes (ground arith) (ground arith) in
            rw word (
              scan_words-lead fuel (drop 8 bp) (n - 64) (span + 64) (IsBytes-drop 8 bp bytes)
                (omega (arith, length-drop 8 bp))
              ∙ omega (arith, run))
        | inr other ↦ rw other (scan_bytes-lead bp n span bytes room)
      ]

  -- `k` bytes lie before the next word boundary.
  align_scan-lead :
      (k : ℕ) (addr : ℕ) (bp : List ℕ) (n span : ℕ)
      → IsBytes bp
      → n ≤ 8 * length bp
      → is_aligned (addr + k) ≡ true
      → 8 * k ≤ n
      → align_scan fill tab addr bp n span ≡ span + lead c n (pixels bp)
  unfolding align_scan
  align_scan-lead k addr [] zero span bytes room al le = unfold lead in omega arith
  align_scan-lead k addr [] (suc n) span bytes room al le = absurd (omega arith)
  align_scan-lead zero addr (b ∷ bp) n span bytes room al le =
      rw (ap is_aligned {x = addr} {y = addr + 0} (omega arith) ∙ al)
        (scan_words-lead n (b ∷ bp) n span bytes room)
  align_scan-lead (suc k) addr (b ∷ bp) n span bytes room al le =
      elim (Bool-cases (is_aligned addr)) [
        | inl here ↦ rw here (scan_words-lead n (b ∷ bp) n span bytes room)
        | inr before ↦ elim (Bool-cases (b == fill)) [
          | inl full ↦
              rw (before, full)
                (align_scan-lead k (suc addr) bp (n - 8) (span + 8) bytes.1 (omega arith)
                    (ap is_aligned {x = suc addr + k} {y = addr + suc k} (omega arith) ∙ al)
                    (omega arith)
                  ∙ omega (
                    arith,
                    run_full c tab table b n (pixels bp) bytes.0 (omega arith)
                        (of_colour.full b bytes.0 full),
                  ))
          | inr stop ↦
              rw (before, stop)
                (ap (◌+◌ span) (
                  sym (
                    run_stop c tab table b n (pixels bp) bytes.0 (omega arith)
                      (of_colour.stop b bytes.0 stop))))
        ]
      ]

  aligned_ahead : (addr : ℕ) → is_aligned (addr + (8 - addr % 8) % 8) ≡ true
  aligned_ahead addr =
      let e : bit_and (addr + (8 - addr % 8) % 8) 7 ≡ 0 =
        bit_and-low_mask 3 (addr + (8 - addr % 8) % 8) ∙ omega arith in
      rw e refl

  pub scan_from-lead :
      (addr : ℕ) (bp : List ℕ) (n span : ℕ)
      → IsBytes bp
      → n ≤ 8 * length bp
      → scan_from fill tab addr bp n span ≡ span + lead c n (pixels bp)
  unfolding scan_from
  scan_from-lead addr bp n span bytes room = elim (Bool-cases (leb (2 * 8 * long_size) n)) [
    | inl long ↦ rw long (
        align_scan-lead ((8 - addr % 8) % 8) addr bp n span bytes room (aligned_ahead addr)
          (ground arith))
    | inr short ↦ rw short (scan_bytes-lead bp n span bytes room)
  ]
