-- ===== src/Row/Loops.antt =====
-- The loops of sgi2fax/row.c: eight elements a round, and then one by one.
use hyla_fax.Base.{
  ℕ, zero, suc, ◌-◌, true, leb, if◌then◌else◌, List, [], ◌∷◌, map, take, ◌≡◌, refl, ap, arith, inl,
  inr, Bool-cases,
}

module _ {A B : Type 0} (f : A → B) where
  -- while(n--)
  unfoldable pub by_one : List A → ℕ → List B
  by_one [] n = []
  by_one (x ∷ xs) zero = []
  by_one (x ∷ xs) (suc n) = f x ∷ by_one xs n

  -- while(n>=8), and the loop behind it. The rows hold `n` elements at least.
  unfoldable pub by_eight : List A → ℕ → List B
  by_eight (x0 ∷ x1 ∷ x2 ∷ x3 ∷ x4 ∷ x5 ∷ x6 ∷ x7 ∷ xs) n =
      let rest = by_eight xs (n - 8) in
      if leb 8 n
      then f x0 ∷ f x1 ∷ f x2 ∷ f x3 ∷ f x4 ∷ f x5 ∷ f x6 ∷ f x7 ∷ rest
      else by_one (x0 ∷ x1 ∷ x2 ∷ x3 ∷ x4 ∷ x5 ∷ x6 ∷ x7 ∷ xs) n
  by_eight xs n = by_one xs n

  by_one-map : (xs : List A) (n : ℕ) → by_one xs n ≡ map f (take n xs)
  unfolding by_one
  by_one-map [] zero = refl
  by_one-map [] (suc n) = refl
  by_one-map (x ∷ xs) zero = refl
  by_one-map (x ∷ xs) (suc n) = ap (◌∷◌ (f x)) (by_one-map xs n)

  take_eight :
      (x0 x1 x2 x3 x4 x5 x6 x7 : A) (xs : List A) (n : ℕ)
      → leb 8 n ≡ true
      → take n (x0 ∷ x1 ∷ x2 ∷ x3 ∷ x4 ∷ x5 ∷ x6 ∷ x7 ∷ xs)
        ≡ x0 ∷ x1 ∷ x2 ∷ x3 ∷ x4 ∷ x5 ∷ x6 ∷ x7 ∷ take (n - 8) xs
  take_eight x0 x1 x2 x3 x4 x5 x6 x7 xs n big =
      ap (λ (t : ℕ). take t (x0 ∷ x1 ∷ x2 ∷ x3 ∷ x4 ∷ x5 ∷ x6 ∷ x7 ∷ xs)) {x = n}
        {y = suc (suc (suc (suc (suc (suc (suc (suc (n - 8))))))))} (ground arith)

  -- The unrolled loop computes the operation on each of the first `n` elements of a row.
  pub by_eight-map : (xs : List A) (n : ℕ) → by_eight xs n ≡ map f (take n xs)
  unfolding by_eight
  by_eight-map [] n = by_one-map [] n
  by_eight-map (x0 ∷ []) n = by_one-map (x0 ∷ []) n
  by_eight-map (x0 ∷ x1 ∷ []) n = by_one-map (x0 ∷ x1 ∷ []) n
  by_eight-map (x0 ∷ x1 ∷ x2 ∷ []) n = by_one-map (x0 ∷ x1 ∷ x2 ∷ []) n
  by_eight-map (x0 ∷ x1 ∷ x2 ∷ x3 ∷ []) n = by_one-map (x0 ∷ x1 ∷ x2 ∷ x3 ∷ []) n
  by_eight-map (x0 ∷ x1 ∷ x2 ∷ x3 ∷ x4 ∷ []) n = by_one-map (x0 ∷ x1 ∷ x2 ∷ x3 ∷ x4 ∷ []) n
  by_eight-map (x0 ∷ x1 ∷ x2 ∷ x3 ∷ x4 ∷ x5 ∷ []) n =
      by_one-map (x0 ∷ x1 ∷ x2 ∷ x3 ∷ x4 ∷ x5 ∷ []) n
  by_eight-map (x0 ∷ x1 ∷ x2 ∷ x3 ∷ x4 ∷ x5 ∷ x6 ∷ []) n =
      by_one-map (x0 ∷ x1 ∷ x2 ∷ x3 ∷ x4 ∷ x5 ∷ x6 ∷ []) n
  by_eight-map (x0 ∷ x1 ∷ x2 ∷ x3 ∷ x4 ∷ x5 ∷ x6 ∷ x7 ∷ xs) n = elim (Bool-cases (leb 8 n)) [
    | inl big ↦ rw (big, take_eight x0 x1 x2 x3 x4 x5 x6 x7 xs n big, by_eight-map xs (n - 8)) refl
    | inr small ↦ rw small (by_one-map (x0 ∷ x1 ∷ x2 ∷ x3 ∷ x4 ∷ x5 ∷ x6 ∷ x7 ∷ xs) n)
  ]

-- Taking as many again changes nothing.
pub take-map :
    {A B : Type 0} (f : A → B) (n : ℕ) (xs : List A)
    → take n (map f (take n xs)) ≡ map f (take n xs)
take-map f zero xs = refl
take-map f (suc n) [] = refl
take-map f (suc n) (x ∷ xs) = ap (◌∷◌ (f x)) (take-map f n xs)
