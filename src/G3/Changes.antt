-- ===== src/G3/Changes.antt =====
-- PIXEL, finddiff and finddiff2 (faxd/G3Encoder.c++) on the pixels of a row.
use native.Mathlib.Nat.{sub-zero, suc-sub-suc, zero-add}
use hyla_fax.Base.{
  ℕ, zero, suc, ◌+◌, ◌-◌, ◌*◌, ◌/◌, ◌%◌, ◌^◌, ◌≤◌, ◌<◌, Bool, true, false, not, ltb, ◌==◌,
  if◌then◌else◌, List, [], ◌∷◌, ◌++◌, length, get_or, take, drop, replicate, ◌≡◌, refl, ap, sym,
  ◌∙◌, arith, inl, inr, Bool-cases,
}
use hyla_fax.Base.Checks.{ltb→lt, all_below, all_below_sound, ==_iff}
use hyla_fax.Base.Binary.{bits, length-bits}
use hyla_fax.G3.Decode.{same_bit}
use hyla_fax.G3.Lead.{lead}
use hyla_fax.G3.RunTables.{pixels, IsBytes}
use hyla_fax.G3.WordScan.{find0span-lead, find1span-lead}
use hyla_fax.G3.TwoD.{Raster, pixel, finddiff, finddiff2}
use hyla_fax.G3.Decode2d.{run_end, change_behind}

-- The number that PIXEL gives for a pixel.
abbrev pub bit_num : Bool → ℕ
bit_num true = 1
bit_num false = 0

pub get_or-drop : (a k : ℕ) (xs : List Bool) → get_or (drop a xs) k false ≡ get_or xs (a + k) false
get_or-drop zero k xs = ap (λ (t : ℕ). get_or xs t false) (sym (zero-add k))
get_or-drop (suc a) k [] = refl
get_or-drop (suc a) k (x ∷ xs) =
    get_or-drop a k xs
    ∙ ap (λ (t : ℕ). get_or (x ∷ xs) t false) {x = suc (a + k)} {y = suc a + k} (omega arith)

-- The pixels of a run, and the pixel behind it.
pub run_inside : (c : Bool) (n k : ℕ) (xs : List Bool) → k < lead c n xs → get_or xs k false ≡ c
unfolding lead same_bit
run_inside c zero k xs lt = absurd (omega arith)
run_inside c (suc n) k [] lt = absurd (omega arith)
run_inside true (suc n) zero (true ∷ xs) lt = refl
run_inside true (suc n) (suc k) (true ∷ xs) lt = run_inside true n k xs (omega arith)
run_inside true (suc n) k (false ∷ xs) lt = absurd (omega arith)
run_inside false (suc n) k (true ∷ xs) lt = absurd (omega arith)
run_inside false (suc n) zero (false ∷ xs) lt = refl
run_inside false (suc n) (suc k) (false ∷ xs) lt = run_inside false n k xs (omega arith)

pub run_behind :
    (c : Bool) (n : ℕ) (xs : List Bool)
    → n ≤ length xs
    → lead c n xs < n
    → get_or xs (lead c n xs) false ≡ not c
unfolding lead same_bit
run_behind c zero xs le lt = absurd (omega arith)
run_behind c (suc n) [] le lt = absurd (omega arith)
run_behind true (suc n) (true ∷ xs) le lt = run_behind true n xs (omega arith) (omega arith)
run_behind true (suc n) (false ∷ xs) le lt = refl
run_behind false (suc n) (true ∷ xs) le lt = refl
run_behind false (suc n) (false ∷ xs) le lt = run_behind false n xs (omega arith) (omega arith)

pub run_starts :
    (c : Bool) (n : ℕ) (xs : List Bool)
    → 0 < n
    → n ≤ length xs
    → get_or xs 0 false ≡ c
    → 0 < lead c n xs
unfolding lead same_bit
run_starts c zero xs p le e = absurd (omega arith)
run_starts c (suc n) [] p le e = absurd (omega arith)
run_starts true (suc n) (true ∷ xs) p le e = omega arith
run_starts true (suc n) (false ∷ xs) p le e = absurd (ground (arith, e))
run_starts false (suc n) (true ∷ xs) p le e = absurd (ground (arith, e))
run_starts false (suc n) (false ∷ xs) p le e = omega arith

-- A part of a run, and what is behind it.
pub run_part :
    (c : Bool) (n k : ℕ) (xs : List Bool)
    → k ≤ lead c n xs
    → (lead c n xs ≡ k + lead c (n - k) (drop k xs))
      × (take n xs ≡ replicate k c ++ take (n - k) (drop k xs))
unfolding lead same_bit
run_part c n zero xs le = (rw sub-zero (sym (zero-add _)), rw sub-zero refl)
run_part c zero (suc k) xs le = absurd (omega arith)
run_part c (suc n) (suc k) [] le = absurd (omega arith)
run_part true (suc n) (suc k) (true ∷ xs) le =
    let (a, b) = run_part true n k xs (omega arith) in
    (rw suc-sub-suc (omega (arith, a)), rw suc-sub-suc (ap (◌∷◌ true) b))
run_part true (suc n) (suc k) (false ∷ xs) le = absurd (omega arith)
run_part false (suc n) (suc k) (true ∷ xs) le = absurd (omega arith)
run_part false (suc n) (suc k) (false ∷ xs) le =
    let (a, b) = run_part false n k xs (omega arith) in
    (rw suc-sub-suc (omega (arith, a)), rw suc-sub-suc (ap (◌∷◌ false) b))

-- PIXEL reads the pixel.
abbrev pixel_holds : ℕ → ℕ → Bool
pixel_holds i b = b / 2 ^ (7 - i) % 2 == bit_num (get_or (bits 8 b) i false)

pixel_checked : all_below 8 (λ i. all_below 256 (pixel_holds i)) ≡ true
unfolding all_below
pixel_checked = refl

pixel_in : (i b : ℕ) → i < 8 → b < 256 → b / 2 ^ (7 - i) % 2 ≡ bit_num (get_or (bits 8 b) i false)
pixel_in i b li lb = (==_iff _ _).0 (
    all_below_sound 256 (pixel_holds i) b
      (all_below_sound 8 (λ i. all_below 256 (pixel_holds i)) i pixel_checked li) lb)

get_or-front :
    {A : Type 0} (xs ys : List A) (i : ℕ) (d : A)
    → i < length xs
    → get_or (xs ++ ys) i d ≡ get_or xs i d
get_or-front [] ys i d lt = absurd (omega arith)
get_or-front (x ∷ xs) ys zero d lt = refl
get_or-front (x ∷ xs) ys (suc i) d lt = get_or-front xs ys i d (omega arith)

get_or-behind :
    {A : Type 0} (xs ys : List A) (j : ℕ) (d : A)
    → get_or (xs ++ ys) (length xs + j) d ≡ get_or ys j d
get_or-behind [] ys j d = ap (λ (t : ℕ). get_or ys t d) (zero-add j)
get_or-behind (x ∷ xs) ys j d =
    ap (λ (t : ℕ). get_or (x ∷ (xs ++ ys)) t d) {x = suc (length xs) + j} {y = suc (length xs + j)}
      (omega arith)
    ∙ get_or-behind xs ys j d

pixel_at :
    (bytes : List ℕ) (i : ℕ)
    → IsBytes bytes
    → i < 8 * length bytes
    → get_or bytes (i / 8) 0 / 2 ^ (7 - i % 8) % 2 ≡ bit_num (get_or (pixels bytes) i false)
pixel_at [] i all lt = absurd (omega arith)
pixel_at (b ∷ bytes) i all lt = elim (Bool-cases (ltb i 8)) [
  | inl here ↦
      let zeroth : i / 8 ≡ 0 = ground arith in
      let same : i % 8 ≡ i = ground arith in
      rw (zeroth, same)
        (pixel_in i b (ground arith) all.0
          ∙ ap bit_num (
              sym
                (get_or-front (bits 8 b) (pixels bytes) i false (ground (arith, length-bits 8 b)))))
  | inr beyond ↦
      let next : i / 8 ≡ suc ((i - 8) / 8) = ground arith in
      let same : i % 8 ≡ (i - 8) % 8 = ground arith in
      let there : 8 + (i - 8) ≡ i = ground arith in
      rw (next, same)
        (pixel_at bytes (i - 8) all.1 (ground arith)
          ∙ ap bit_num (
              sym (get_or-behind (bits 8 b) (pixels bytes) (i - 8) false)
              ∙ ap (λ (t : ℕ). get_or (pixels (b ∷ bytes)) t false) there))
]

module _ (cp : Raster) (w : ℕ) (all : IsBytes cp.bytes) (room : w ≤ 8 * length cp.bytes) where
  pub pixel-get : (i : ℕ) → i < w → pixel cp i ≡ bit_num (get_or (pixels cp.bytes) i false)
  unfolding pixel
  pixel-get i lt = pixel_at cp.bytes i all (omega arith)

  pub finddiff-run :
      (i : ℕ) (c : Bool) → finddiff cp i w (bit_num c) ≡ run_end (pixels cp.bytes) w c i
  unfolding finddiff
  finddiff-run i false = ap (◌+◌ i) (find0span-lead cp.addr cp.bytes i w all room)
  finddiff-run i true = ap (◌+◌ i) (find1span-lead cp.addr cp.bytes i w all room)

  pub finddiff2-change :
      (i : ℕ) → finddiff2 cp i w (pixel cp i) ≡ change_behind (pixels cp.bytes) w i
  unfolding finddiff2
  finddiff2-change i = elim (Bool-cases (ltb i w)) [
    | inl before ↦
        rw (before, pixel-get i (ltb→lt i w before))
          (finddiff-run i (get_or (pixels cp.bytes) i false))
    | inr at_end ↦ rw at_end refl
  ]

-- The searches do not look behind the first `w` pixels.
lead-take : (c : Bool) (w : ℕ) (xs : List Bool) → lead c w xs ≡ lead c w (take w xs)
unfolding lead
lead-take c zero xs = refl
lead-take c (suc w) [] = refl
lead-take c (suc w) (x ∷ xs) = ap (λ (t : ℕ). if same_bit c x then suc t else 0) (lead-take c w xs)

lead-drop-take :
    (c : Bool) (i w : ℕ) (xs : List Bool)
    → lead c (w - i) (drop i xs) ≡ lead c (w - i) (drop i (take w xs))
unfolding lead
lead-drop-take c zero w xs = rw sub-zero (lead-take c w xs)
lead-drop-take c (suc i) zero xs = let none_left : 0 - suc i ≡ 0 = omega arith in rw none_left refl
lead-drop-take c (suc i) (suc w) [] = refl
lead-drop-take c (suc i) (suc w) (x ∷ xs) = rw suc-sub-suc (lead-drop-take c i w xs)

pub run_end-take :
    (xs : List Bool) (w : ℕ) (c : Bool) (i : ℕ) → run_end xs w c i ≡ run_end (take w xs) w c i
run_end-take xs w c i = ap (◌+◌ i) (lead-drop-take c i w xs)

get_or-take : (xs : List Bool) (w i : ℕ) → i < w → get_or (take w xs) i false ≡ get_or xs i false
get_or-take xs zero i lt = absurd (omega arith)
get_or-take [] (suc w) i lt = refl
get_or-take (x ∷ xs) (suc w) zero lt = refl
get_or-take (x ∷ xs) (suc w) (suc i) lt = get_or-take xs w i (omega arith)

pub change_behind-take :
    (xs : List Bool) (w i : ℕ) → change_behind xs w i ≡ change_behind (take w xs) w i
change_behind-take xs w i = elim (Bool-cases (ltb i w)) [
  | inl before ↦
      rw (before, get_or-take xs w i (ltb→lt i w before)) (run_end-take xs w (get_or xs i false) i)
  | inr at_end ↦ rw at_end refl
]
