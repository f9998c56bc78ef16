-- ===== src/G3/FindSpan.antt =====
-- findspan (faxd/G3Encoder.c++) finds exactly the run of its colour at the front of the range, and
-- leaves the pointer where the next span begins.
use mathlib.Core.Path.{ap₂}
use native.Mathlib.Nat.{zero-add}
use hyla_fax.Base.{
  ℕ, ◌+◌, ◌-◌, ◌*◌, ◌%◌, ◌≤◌, ◌<◌, Bool, ltb, leb, ◌==◌, if◌then◌else◌, List, [], ◌∷◌, ◌++◌, length,
  drop, ◌≡◌, ◌≢◌, refl, ap, sym, ◌∙◌, arith, inl, inr, Bool-cases,
}
use hyla_fax.Base.Lists.{
  drop-append_length, drop_add, drop-append_front, length-drop, length-append,
}
use hyla_fax.Base.Binary.{bits, length-bits}
use hyla_fax.G3.Spans.{find_bytes, left_span, find_left, findspan}
use hyla_fax.G3.Lead.{lead, lead-le, lead_full, lead_stop, lead_cut}
use hyla_fax.G3.RunTables.{pixels, IsBytes, IsRunTable}
use hyla_fax.G3.FindBytes.{Found, find_bytes-Found}

-- The pointer `bp` stands at the byte with pixel `bs` of the row.
pub record At (row : List Bool) (bp : List ℕ) (bs : ℕ) : Type 0 where
  pub bytes : IsBytes bp
  pub at : drop (bs % 8) (pixels bp) ≡ drop bs row

pub length-pixels : (bp : List ℕ) → length (pixels bp) ≡ 8 * length bp
length-pixels [] = refl
length-pixels (b ∷ bp) = omega (arith, length-append {0} (bits 8 b) (pixels bp), length-pixels bp)

room-At :
    (row : List Bool) (bp : List ℕ) (bs be : ℕ)
    → At row bp bs
    → bs ≤ be
    → be ≤ length row
    → be - bs ≤ 8 * length bp - bs % 8
room-At row bp bs be a h fits = omega (
  arith,
  ap (length {A = Bool}) a.at,
  length-drop {0} (bs % 8) (pixels bp),
  length-drop {0} bs row,
  length-pixels bp,
)

At-found :
    (row : List Bool) (bp bp' : List ℕ) (bs k : ℕ)
    → IsBytes bp'
    → drop ((bs + k) % 8) (pixels bp') ≡ drop k (drop bs row)
    → At row bp' (bs + k)
At-found row bp bp' bs k bytes e = record { bytes = bytes; at = e ∙ sym (drop_add bs k row) }

module _ (c : Bool) (tab : List ℕ) (table : IsRunTable c tab) where
  -- The two halves of what findspan promises: the run, and the pointer behind it.
  pub record Spans (row : List Bool) (bs be : ℕ) (r : List ℕ × ℕ) : Type 0 where
    pub span_eq : r.1 ≡ lead c (be - bs) (drop bs row)
    pub behind : At row r.0 (bs + r.1)

  abbrev pub clip : ℕ → ℕ → ℕ
  clip bits l = if ltb bits l then bits else l

  -- A run that ends within the byte on the left, and one that does not.
  pub left_within :
      (xs ys : List Bool) (bits span : ℕ)
      → span ≡ clip bits (lead c (length xs) xs)
      → span < length xs
      → lead c bits (xs ++ ys) ≡ span
  left_within xs ys bits span e lt = elim (Bool-cases (leb bits (length xs))) [
    | inl small ↦ lead_cut c xs ys bits (ground arith) ∙ sym e
    | inr large ↦ lead_stop c xs ys bits (ground arith) (ground arith) ∙ ground arith
  ]

  pub left_beyond :
      (xs ys : List Bool) (bits span : ℕ)
      → span ≡ clip bits (lead c (length xs) xs)
      → length xs ≤ span
      → (span ≡ length xs) × (lead c bits (xs ++ ys) ≡ span + lead c (bits - span) ys)
  left_beyond xs ys bits span e ge =
      let le = lead-le c (length xs) xs in
      let full : span ≡ length xs = ground arith in
      (full, rw full (lead_full c xs ys bits (ground arith) (ground arith)))

  aligned :
      (row : List Bool) (bp : List ℕ) (bs be : ℕ)
      → At row bp bs
      → bs ≤ be
      → be ≤ length row
      → bs % 8 ≡ 0
      → Spans row bs be (find_bytes tab bp (be - bs) 0)
  aligned row bp bs be a h fits al =
      let start : pixels bp ≡ drop bs row = rw al at a.at in
      let f =
        find_bytes-Found c tab table bp (be - bs) 0 a.bytes
          (omega (arith, room-At row bp bs be a h fits)) in
      record {
        span_eq = f.found_span ∙ zero-add _ ∙ ap (lead c (be - bs)) start;
        behind = At-found row bp _ bs _ f.found_bytes (
            ap (λ (t : ℕ). drop t (pixels (find_bytes tab bp (be - bs) 0).0))
              {x = (bs + (find_bytes tab bp (be - bs) 0).1) % 8}
              {y = lead c (be - bs) (pixels bp) % 8} (omega (arith, f.found_span))
            ∙ f.found_at
            ∙ ap₂ (λ (t : ℕ) (ps : List Bool). drop t ps) (sym (f.found_span ∙ zero-add _)) start);
      }

  empty :
      (row : List Bool) (bp : List ℕ) (bs be : ℕ)
      → At row bp bs
      → be - bs ≡ 0
      → Spans row bs be (find_bytes tab bp (be - bs) 0)
  empty row bp bs be a e =
      let f = find_bytes-Found c tab table bp (be - bs) 0 a.bytes (omega arith) in
      let none_found : lead c (be - bs) (pixels bp) ≡ 0 = rw e (unfold lead in refl) in
      let none_here : lead c (be - bs) (drop bs row) ≡ 0 = rw e (unfold lead in refl) in
      let span0 : (find_bytes tab bp (be - bs) 0).1 ≡ 0 = f.found_span ∙ zero-add _ ∙ none_found in
      let same = (rw none_found at f.found_at) in
      record {
        span_eq = span0 ∙ sym none_here;
        behind = At-found row bp _ bs _ f.found_bytes (
            ap₂ (λ (t : ℕ) (ps : List Bool). drop t ps) (omega (arith, span0)) same
            ∙ a.at
            ∙ ap (λ (t : ℕ). drop t (drop bs row)) (sym span0));
      }

  -- The byte on the left: `xs` are its pixels in the range, `ys` those of the bytes behind it.
  left_next :
      (row xs : List Bool) (bp : List ℕ) (bs be span : ℕ) (r : List ℕ × ℕ)
      → xs ++ pixels bp ≡ drop bs row
      → length xs ≡ span
      → (bs + span) % 8 ≡ 0
      → lead c (be - bs) (xs ++ pixels bp) ≡ span + lead c (be - bs - span) (pixels bp)
      → Found bp span (lead c (be - bs - span) (pixels bp)) r
      → Spans row bs be r
  left_next row xs bp bs be span r cur size al run f =
      let k = lead c (be - bs - span) (pixels bp) in
      record {
        span_eq = f.found_span ∙ sym run ∙ ap (lead c (be - bs)) cur;
        behind = At-found row bp r.0 bs r.1 f.found_bytes (
            ap (λ (t : ℕ). drop t (pixels r.0)) (omega (arith, f.found_span))
            ∙ f.found_at
            ∙ sym (drop-append_length xs (pixels bp) k)
            ∙ ap₂ (λ (t : ℕ) (ps : List Bool). drop t ps)
                (ap (λ (t : ℕ). t + k) size ∙ sym f.found_span) cur);
      }

  At-ahead :
      (row : List Bool) (bp : List ℕ) (bs k : ℕ)
      → At row bp bs
      → bs % 8 + k < 8
      → At row bp (bs + k)
  At-ahead row bp bs k a lt = At-found row bp bp bs k a.bytes (
      ap (λ (t : ℕ). drop t (pixels bp)) (omega arith)
      ∙ drop_add (bs % 8) k (pixels bp)
      ∙ ap (drop k) a.at)

  left_pixels :
      (row byte : List Bool) (bp : List ℕ) (bs be span : ℕ) (b : ℕ)
      → At row (b ∷ bp) bs
      → pixels (b ∷ bp) ≡ byte ++ pixels bp
      → length byte ≡ 8
      → span ≡ clip (be - bs) (lead c (8 - bs % 8) (drop (bs % 8) byte))
      → be - bs ≤ 8 * length (b ∷ bp) - bs % 8
      → Spans row bs be (
          if ltb (bs % 8 + span) 8 then (b ∷ bp, span) else find_bytes tab bp (be - bs - span) span)
  left_pixels row byte bp bs be span b a split size e room =
      elim (Bool-cases (ltb (bs % 8 + span) 8)) [
        | inl within ↦
            let shorter : span < length xs = ground (arith, len) in
            rw within (record {
              span_eq =
                  sym (left_within xs (pixels bp) (be - bs) span e' shorter)
                  ∙ ap (lead c (be - bs)) cur;
              behind = At-ahead row (b ∷ bp) bs span a (ground arith);
            })
        | inr beyond ↦
            let past : length xs ≤ span = ground (arith, len) in
            let (full, run) = left_beyond xs (pixels bp) (be - bs) span e' past in
            rw beyond (
              left_next row xs bp bs be span _ cur (sym full) (omega (arith, full, len)) run (
                find_bytes-Found c tab table bp (be - bs - span) span a.bytes.1
                  (omega (arith, full, len))))
      ]
    where
      xs : List Bool
      xs = drop (bs % 8) byte

      len : length xs ≡ 8 - bs % 8
      len = length-drop (bs % 8) byte ∙ ap (λ (t : ℕ). t - bs % 8) size

      e' : span ≡ clip (be - bs) (lead c (length xs) xs)
      e' = rw len e

      cur : xs ++ pixels bp ≡ drop bs row
      cur =
          sym (drop-append_front (bs % 8) byte (pixels bp) (omega arith))
          ∙ ap (drop (bs % 8)) (sym split)
          ∙ a.at

  on_left :
      (row : List Bool) (bp : List ℕ) (bs be : ℕ)
      → At row bp bs
      → bs ≤ be
      → be ≤ length row
      → 0 < be - bs
      → bs % 8 ≢ 0
      → Spans row bs be (find_left tab bp (bs % 8) (be - bs))
  unfolding find_left
  on_left row [] bs be a h fits p al = absurd (omega (arith, room-At row [] bs be a h fits))
  on_left row (b ∷ bp) bs be a h fits p al =
      left_pixels row (bits 8 b) bp bs be (left_span tab b (bs % 8) (be - bs)) b a refl
        (length-bits 8 b)
        (unfold left_span in ap (clip (be - bs)) (table.left (bs % 8) b (omega arith) a.bytes.0))
        (room-At row (b ∷ bp) bs be a h fits)

  -- For a table of the runs of a colour and a pointer to the byte with pixel `bs` of a row, findspan
  -- returns the length of the run of that colour at the front of the range `bs` to `be`, and a
  -- pointer to the byte with the pixel behind the run: if the range lies within the row.
  pub findspan-Spans :
      (row : List Bool) (bp : List ℕ) (bs be : ℕ)
      → At row bp bs
      → bs ≤ be
      → be ≤ length row
      → Spans row bs be (findspan tab bp bs be)
  unfolding findspan
  findspan-Spans row bp bs be a h fits = elim (Bool-cases (ltb 0 (be - bs))) [
    | inr none_left ↦ rw none_left (empty row bp bs be a (ground arith))
    | inl some_left ↦ elim (Bool-cases (bs % 8 == 0)) [
      | inl al ↦ rw (some_left, al) (aligned row bp bs be a h fits (ground arith))
      | inr left ↦
          rw (some_left, left) (on_left row bp bs be a h fits (ground arith) (ground arith))
    ]
  ]
