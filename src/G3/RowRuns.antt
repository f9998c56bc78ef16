-- ===== src/G3/RowRuns.antt =====
-- Runs and changing elements of a row of pixels, and what is left of the row behind them.
use mathlib.Core.Path.{ap₂}
use hyla_fax.Base.{
  ℕ, ◌+◌, ◌-◌, ◌≤◌, ◌<◌, Bool, false, not, List, ◌++◌, length, get_or, take, drop, replicate, ◌≡◌,
  refl, ap, sym, ◌∙◌, arith,
}
use hyla_fax.Base.Lists.{length-drop, drop_add}
use hyla_fax.G3.Lead.{lead, lead-le}
use hyla_fax.G3.Decode2d.{run_end, change_behind}
use hyla_fax.G3.Changes.{get_or-drop, run_inside, run_behind, run_starts, run_part}

-- The pixels of a row of `w` from `a` on.
abbrev pub rest_of : List Bool → ℕ → ℕ → List Bool
rest_of row w a = take (w - a) (drop a row)

module _ (row : List Bool) (w : ℕ) (long : w ≤ length row) where
  pub part_of_run :
      (c : Bool) (a k : ℕ)
      → k ≤ lead c (w - a) (drop a row)
      → rest_of row w a ≡ replicate k c ++ rest_of row w (a + k)
  part_of_run c a k le =
      (run_part c (w - a) k (drop a row) le).1
      ∙ ap (λ (ps : List Bool). replicate k c ++ ps)
          (ap₂ take (omega arith) (sym (drop_add a k row)))

  pub colour_inside :
      (c : Bool) (a k : ℕ) → k < lead c (w - a) (drop a row) → get_or row (a + k) false ≡ c
  colour_inside c a k lt = sym (get_or-drop a k row) ∙ run_inside c (w - a) k (drop a row) lt

  pub colour_behind :
      (c : Bool) (a : ℕ) → run_end row w c a < w → get_or row (run_end row w c a) false ≡ not c
  colour_behind c a lt =
      sym (get_or-drop a (lead c (w - a) (drop a row)) row)
      ∙ run_behind c (w - a) (drop a row) (omega (arith, length-drop {0} a row)) (omega arith)

  pub run_end-gt : (c : Bool) (a : ℕ) → a < w → get_or row a false ≡ c → a < run_end row w c a
  run_end-gt c a lt e = omega (
    arith,
    run_starts c (w - a) (drop a row) (omega arith) (omega (arith, length-drop {0} a row)) (
        get_or-drop a 0 row
        ∙ ap (λ (t : ℕ). get_or row t false) {x = a + 0} {y = a} (omega arith)
        ∙ e),
  )

  pub change_behind-gt : (i : ℕ) → i < w → i < change_behind row w i
  change_behind-gt i lt = ground (arith, run_end-gt (get_or row i false) i lt refl)

  pub change_behind-le : (i : ℕ) → change_behind row w i ≤ w
  change_behind-le i = ground (arith, lead-le (get_or row i false) (w - i) (drop i row))

  pub change_behind-run :
      (c : Bool) (i : ℕ)
      → i < w
      → get_or row i false ≡ c
      → change_behind row w i ≡ run_end row w c i
  change_behind-run c i lt e = rw e (ground arith)
