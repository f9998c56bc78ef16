-- ===== src/G3/Lead.antt =====
-- The run of one colour at the front of a row of pixels, and how it splits at a byte.
use mathlib.Core.Path.{subst}
use native.Mathlib.Nat.{sub-zero, suc-sub-suc}
use hyla_fax.Base.{
  ℕ, zero, suc, ◌+◌, ◌-◌, ◌≤◌, ◌<◌, Bool, not, ltb, if◌then◌else◌, List, [], ◌∷◌, ◌++◌, length,
  take, drop, replicate, ◌≡◌, refl, arith, true, false, ap,
}
use hyla_fax.G3.Decode.{same_bit}

-- The number of pixels of colour `c` at the front of the first `n`; black is `true`.
unfoldable pub lead : Bool → ℕ → List Bool → ℕ
lead c zero xs = 0
lead c (suc n) [] = 0
lead c (suc n) (x ∷ xs) = if same_bit c x then suc (lead c n xs) else 0

pub lead-le : (c : Bool) (n : ℕ) (xs : List Bool) → lead c n xs ≤ n
unfolding lead
lead-le c zero xs = omega arith
lead-le c (suc n) [] = omega arith
lead-le c (suc n) (x ∷ xs) = ground (arith, lead-le c n xs)

-- A run that fills the front part goes on behind it.
pub lead_full :
    (c : Bool) (xs ys : List Bool) (n : ℕ)
    → length xs ≤ n
    → lead c (length xs) xs ≡ length xs
    → lead c n (xs ++ ys) ≡ length xs + lead c (n - length xs) ys
unfolding lead
lead_full c [] ys n h e = ground arith
lead_full c (x ∷ xs) ys zero h e = absurd (omega arith)
lead_full c (x ∷ xs) ys (suc n) h e = ground (arith, lead_full c xs ys n)

-- A run that ends in the front part ends there whatever follows.
pub lead_stop :
    (c : Bool) (xs ys : List Bool) (n : ℕ)
    → length xs ≤ n
    → lead c (length xs) xs < length xs
    → lead c n (xs ++ ys) ≡ lead c (length xs) xs
unfolding lead
lead_stop c [] ys n h e = absurd (omega arith)
lead_stop c (x ∷ xs) ys zero h e = absurd (omega arith)
lead_stop c (x ∷ xs) ys (suc n) h e = ground (arith, lead_stop c xs ys n)

-- A range that ends in the front part cuts the run.
pub lead_cut :
    (c : Bool) (xs ys : List Bool) (n : ℕ)
    → n ≤ length xs
    → lead c n (xs ++ ys) ≡ (if ltb n (lead c (length xs) xs) then n else lead c (length xs) xs)
unfolding lead
lead_cut c [] ys zero h = ground arith
lead_cut c [] ys (suc n) h = absurd (omega arith)
lead_cut c (x ∷ xs) ys zero h = ground arith
lead_cut c (x ∷ xs) ys (suc n) h = ground (arith, lead_cut c xs ys n)

-- The run consists of pixels of the colour.
pub take-lead :
    (c : Bool) (n : ℕ) (xs : List Bool) → take (lead c n xs) xs ≡ replicate (lead c n xs) c
unfolding lead same_bit
take-lead c zero xs = refl
take-lead c (suc n) [] = refl
take-lead true (suc n) (true ∷ xs) = ap (◌∷◌ true) (take-lead true n xs)
take-lead true (suc n) (false ∷ xs) = refl
take-lead false (suc n) (true ∷ xs) = refl
take-lead false (suc n) (false ∷ xs) = ap (◌∷◌ false) (take-lead false n xs)

-- Where there is no pixel of one colour at the front, there is one of the other.
pub lead_other :
    (c : Bool) (n : ℕ) (xs : List Bool)
    → 0 < n
    → n ≤ length xs
    → lead c n xs ≡ 0
    → 0 < lead (not c) n xs
unfolding lead same_bit
lead_other c zero xs p h e = absurd (omega arith)
lead_other c (suc n) [] p h e = absurd (omega arith)
lead_other true (suc n) (true ∷ xs) p h e = absurd (omega arith)
lead_other true (suc n) (false ∷ xs) p h e = omega arith
lead_other false (suc n) (true ∷ xs) p h e = omega arith
lead_other false (suc n) (false ∷ xs) p h e = absurd (omega arith)

-- The pixels of a range are the run at its front and what is behind it.
pub take_run :
    (c : Bool) (n : ℕ) (xs : List Bool)
    → take n xs ≡ replicate (lead c n xs) c ++ take (n - lead c n xs) (drop (lead c n xs) xs)
unfolding lead same_bit
take_run c zero xs = refl
take_run c (suc n) [] = rw sub-zero
take_run true (suc n) (true ∷ xs) = rw suc-sub-suc (ap (◌∷◌ true) (take_run true n xs))
take_run true (suc n) (false ∷ xs) = rw sub-zero
take_run false (suc n) (true ∷ xs) = rw sub-zero
take_run false (suc n) (false ∷ xs) = rw suc-sub-suc (ap (◌∷◌ false) (take_run false n xs))

-- A run is as long as it can be.
pub lead_after :
    (c : Bool) (n : ℕ) (xs : List Bool) → lead c (n - lead c n xs) (drop (lead c n xs) xs) ≡ 0
unfolding lead same_bit
lead_after c zero xs = refl
lead_after c (suc n) [] = rw sub-zero
lead_after true (suc n) (true ∷ xs) = rw suc-sub-suc (lead_after true n xs)
lead_after true (suc n) (false ∷ xs) = rw sub-zero
lead_after false (suc n) (true ∷ xs) = rw sub-zero
lead_after false (suc n) (false ∷ xs) = rw suc-sub-suc (lead_after false n xs)

pub take_full : (c : Bool) (n : ℕ) (xs : List Bool) → lead c n xs ≡ n → take n xs ≡ replicate n c
take_full c n xs e = subst (λ k. take k xs ≡ replicate k c) e (take-lead c n xs)
