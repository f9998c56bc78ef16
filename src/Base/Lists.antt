-- ===== src/Base/Lists.antt =====
-- C arrays as lists: length, reads, prefixes and suffixes over the native numbers.
use Prim.Native.Nat.{ℕ, zero, suc, ◌+◌, ◌-◌, ◌≤◌, ◌<◌}
use Prim.Native.Nat.add
use mathlib.Core.Path.{◌≡◌, refl, ap}
use mathlib.Core.List.{List, [], ◌∷◌, ◌++◌}
use mathlib.Core.Option.{Option, none, some}
use mathlib.Core.Bool.{false}
use hyla_fax.Base.Checks.{◌==◌}
use native.Mathlib.Omega.{arith}

module _ {ℓ} {A : Type ℓ} where
  abbrev pub length : List A → ℕ
  length [] = 0
  length (x ∷ xs) = suc (length xs)

  abbrev pub get_elem? : List A → ℕ → Option A
  get_elem? [] i = none
  get_elem? (x ∷ xs) zero = some x
  get_elem? (x ∷ xs) (suc i) = get_elem? xs i

  abbrev pub get_or : List A → ℕ → A → A
  get_or [] i d = d
  get_or (x ∷ xs) zero d = x
  get_or (x ∷ xs) (suc i) d = get_or xs i d

  abbrev pub take : ℕ → List A → List A
  take zero xs = []
  take (suc n) [] = []
  take (suc n) (x ∷ xs) = x ∷ take n xs

  abbrev pub drop : ℕ → List A → List A
  drop zero xs = xs
  drop (suc n) [] = []
  drop (suc n) (x ∷ xs) = drop n xs

  abbrev pub replicate : ℕ → A → List A
  replicate zero a = []
  replicate (suc n) a = a ∷ replicate n a

  pub length-append : (xs ys : List A) → length (xs ++ ys) ≡ length xs + length ys
  length-append [] ys = omega arith
  length-append (x ∷ xs) ys = omega (arith, length-append xs ys)

  pub take-append-drop : (n : ℕ) (xs : List A) → take n xs ++ drop n xs ≡ xs
  take-append-drop zero xs = refl
  take-append-drop (suc n) [] = refl
  take-append-drop (suc n) (x ∷ xs) = rw (take-append-drop n xs)

  pub length-replicate : (n : ℕ) (a : A) → length (replicate n a) ≡ n
  length-replicate zero a = refl
  length-replicate (suc n) a = ap suc (length-replicate n a)

  pub length-drop : (n : ℕ) (xs : List A) → length (drop n xs) ≡ length xs - n
  length-drop zero xs = omega arith
  length-drop (suc n) [] = omega arith
  length-drop (suc n) (x ∷ xs) = omega (arith, length-drop n xs)

  pub length-take : (n : ℕ) (xs : List A) → length (take n xs) + (length xs - n) ≡ length xs
  length-take zero xs = omega arith
  length-take (suc n) [] = omega arith
  length-take (suc n) (x ∷ xs) = omega (arith, length-take n xs)

  pub drop-append_length : (xs ys : List A) (k : ℕ) → drop (length xs + k) (xs ++ ys) ≡ drop k ys
  drop-append_length [] ys k = ground arith
  drop-append_length (x ∷ xs) ys k = rw add.suc (drop-append_length xs ys k)

  -- Two reads of a suffix: `drop` is additive.
  pub drop_add : (m n : ℕ) (xs : List A) → drop (m + n) xs ≡ drop n (drop m xs)
  drop_add zero n xs = ground arith
  drop_add (suc m) zero [] = rw add.suc
  drop_add (suc m) (suc n) [] = rw add.suc
  drop_add (suc m) n (x ∷ xs) = rw add.suc (drop_add m n xs)

  pub drop-append_front :
      (n : ℕ) (xs ys : List A) → n ≤ length xs → drop n (xs ++ ys) ≡ drop n xs ++ ys
  drop-append_front zero xs ys h = refl
  drop-append_front (suc n) [] ys h = absurd (omega arith)
  drop-append_front (suc n) (x ∷ xs) ys h = drop-append_front n xs ys (omega arith)

  pub replicate_snoc : (n : ℕ) (a : A) → replicate n a ++ a ∷ [] ≡ a ∷ replicate n a
  replicate_snoc zero a = refl
  replicate_snoc (suc n) a = ap (◌∷◌ a) (replicate_snoc n a)

  pub take_add : (m n : ℕ) (xs : List A) → take (m + n) xs ≡ take m xs ++ take n (drop m xs)
  take_add zero n xs = ap (λ (t : ℕ). take t xs) (omega arith)
  take_add (suc m) zero [] = rw add.suc
  take_add (suc m) (suc n) [] = rw add.suc
  take_add (suc m) n (x ∷ xs) = rw add.suc (ap (◌∷◌ x) (take_add m n xs))

  -- A write, which changes nothing out of range.
  abbrev pub put : List A → ℕ → A → List A
  put [] i v = []
  put (x ∷ xs) zero v = v ∷ xs
  put (x ∷ xs) (suc i) v = x ∷ put xs i v

  pub length-put : (xs : List A) (i : ℕ) (v : A) → length (put xs i v) ≡ length xs
  length-put [] i v = refl
  length-put (x ∷ xs) zero v = refl
  length-put (x ∷ xs) (suc i) v = ap suc (length-put xs i v)

  pub get_or-put_same :
      (xs : List A) (i : ℕ) (v d : A) → i < length xs → get_or (put xs i v) i d ≡ v
  get_or-put_same [] i v d lt = absurd (omega arith)
  get_or-put_same (x ∷ xs) zero v d lt = refl
  get_or-put_same (x ∷ xs) (suc i) v d lt = get_or-put_same xs i v d (omega arith)

  pub get_or-put_other :
      (xs : List A) (i j : ℕ) (v d : A) → (i == j) ≡ false → get_or (put xs i v) j d ≡ get_or xs j d
  get_or-put_other [] i j v d other = refl
  get_or-put_other (x ∷ xs) zero zero v d other = absurd (ground (arith, other))
  get_or-put_other (x ∷ xs) zero (suc j) v d other = refl
  get_or-put_other (x ∷ xs) (suc i) zero v d other = refl
  get_or-put_other (x ∷ xs) (suc i) (suc j) v d other =
      get_or-put_other xs i j v d (ground (arith, other))

  -- A read out of range gives the default.
  pub get_or-after : (xs : List A) (i : ℕ) (d : A) → length xs ≤ i → get_or xs i d ≡ d
  get_or-after [] i d le = refl
  get_or-after (x ∷ xs) zero d le = absurd (omega arith)
  get_or-after (x ∷ xs) (suc i) d le = get_or-after xs i d (omega arith)
