-- ===== src/Base/Ordered.antt =====
-- Lists that are kept in order: the walk of a queue to the place of a new item, and what it keeps.
use Prim.Native.Nat.{ℕ, suc, ◌+◌, ◌≤◌}
use native.Mathlib.Omega.{arith}
use mathlib.Core.Path.{◌≡◌, refl, ap}
use mathlib.Core.Logic.{inl, inr}
use mathlib.Core.List.{List, [], ◌∷◌, ◌++◌}
use mathlib.Core.Option.{Option, none, some}
use mathlib.Core.List.{Perm}
use mathlib.Core.List.Perm
use mathlib.Core.Bool.{Bool, true, false}
use hyla_fax.Base.Checks.{if◌then◌else◌, Bool-cases}
use hyla_fax.Base.Lists.{length}

abbrev pub All {ℓ κ} : {A : Type ℓ} → (A → Type κ) → List A → Type κ
All P [] = Unit
All P (x ∷ xs) = P x × All P xs

pub All-map {ℓ κ} :
    {A : Type ℓ} (P Q : A → Type κ) (xs : List A) → ((x : A) → P x → Q x) → All P xs → All Q xs
All-map P Q [] f all = tt
All-map P Q (x ∷ xs) f all = (f x all.0, All-map P Q xs f all.1)

-- Every item stands in the relation to every later one.
abbrev pub IsSorted {ℓ κ} : {A : Type ℓ} → (A → A → Type κ) → List A → Type κ
IsSorted R [] = Unit
IsSorted R (x ∷ xs) = All (R x) xs × IsSorted R xs

module _ {ℓ} {A : Type ℓ} (walk : A → Bool) (new : A) where
  -- The loop that passes the items which `walk` accepts, and puts the new item before the first other.
  unfoldable pub insert_while : List A → List A
  insert_while [] = new ∷ []
  insert_while (x ∷ xs) = if walk x then x ∷ insert_while xs else new ∷ x ∷ xs

  pub length-insert_while : (xs : List A) → length (insert_while xs) ≡ suc (length xs)
  unfolding insert_while
  length-insert_while [] = refl
  length-insert_while (x ∷ xs) = elim (Bool-cases (walk x)) [
    | inl on ↦ rw on (ap suc (length-insert_while xs))
    | inr stop ↦ rw stop refl
  ]

  pub insert_while-Perm : (xs : List A) → Perm (insert_while xs) (new ∷ xs)
  unfolding insert_while
  insert_while-Perm [] = Perm.refl _
  insert_while-Perm (x ∷ xs) = elim (Bool-cases (walk x)) [
    | inl on ↦ rw on (Perm.trans (Perm.cons x (insert_while-Perm xs)) (Perm.swap new x xs))
    | inr stop ↦ rw stop (Perm.refl _)
  ]

  pub insert_while-All {κ} :
      (P : A → Type κ) (xs : List A) → P new → All P xs → All P (insert_while xs)
  unfolding insert_while
  insert_while-All P [] p all = (p, tt)
  insert_while-All P (x ∷ xs) p all = elim (Bool-cases (walk x)) [
    | inl on ↦ rw on (all.0, insert_while-All P xs p all.1)
    | inr stop ↦ rw stop (p, all)
  ]

  -- The order is kept when a passed item may stand before the new one, and the one where the walk stops
  -- after it.
  pub insert_while-IsSorted {κ} :
      (R : A → A → Type κ) (xs : List A)
      → ((a b c : A) → R a b → R b c → R a c)
      → ((x : A) → walk x ≡ true → R x new)
      → ((x : A) → walk x ≡ false → R new x)
      → IsSorted R xs
      → IsSorted R (insert_while xs)
  unfolding insert_while
  insert_while-IsSorted R [] trans passed stopped sorted = (tt, tt)
  insert_while-IsSorted R (x ∷ xs) trans passed stopped sorted = elim (Bool-cases (walk x)) [
    | inl on ↦ rw on (
      insert_while-All (R x) xs (passed x on) sorted.0,
      insert_while-IsSorted R xs trans passed stopped sorted.1,
    )
    | inr stop ↦
        let first : R new x = stopped x stop in
        rw stop ((first, All-map (R x) (R new) xs (λ y r. trans new x y first r) sorted.0), sorted)
  ]

module _ {ℓ} {A : Type ℓ} (found : A → Bool) where
  -- The loop that unlinks the first item which `found` accepts.
  unfoldable pub remove_first : List A → List A
  remove_first [] = []
  remove_first (x ∷ xs) = if found x then xs else x ∷ remove_first xs

  pub remove_first-All {κ} : (P : A → Type κ) (xs : List A) → All P xs → All P (remove_first xs)
  unfolding remove_first
  remove_first-All P [] all = tt
  remove_first-All P (x ∷ xs) all = elim (Bool-cases (found x)) [
    | inl hit ↦ rw hit all.1
    | inr miss ↦ rw miss (all.0, remove_first-All P xs all.1)
  ]

  pub remove_first-IsSorted {κ} :
      (R : A → A → Type κ) (xs : List A) → IsSorted R xs → IsSorted R (remove_first xs)
  unfolding remove_first
  remove_first-IsSorted R [] sorted = tt
  remove_first-IsSorted R (x ∷ xs) sorted = elim (Bool-cases (found x)) [
    | inl hit ↦ rw hit sorted.1
    | inr miss ↦ rw miss (remove_first-All (R x) xs sorted.0, remove_first-IsSorted R xs sorted.1)
  ]

module _ {ℓ} {A : Type ℓ} (test : A → Bool) where
  -- The number of the items that pass the test.
  unfoldable pub count : List A → ℕ
  count [] = 0
  count (x ∷ xs) = (if test x then 1 else 0) + count xs

  pub count-insert_while :
      (walk : A → Bool) (new : A) (xs : List A)
      → count (insert_while walk new xs) ≡ (if test new then 1 else 0) + count xs
  unfolding insert_while count
  count-insert_while walk new [] = refl
  count-insert_while walk new (x ∷ xs) = elim (Bool-cases (walk x)) [
    | inl on ↦ rw on (omega (arith, count-insert_while walk new xs))
    | inr stop ↦ rw stop refl
  ]

  pub count-remove_first :
      (found : A → Bool) (xs : List A) → count (remove_first found xs) ≤ count xs
  unfolding remove_first count
  count-remove_first found [] = omega arith
  count-remove_first found (x ∷ xs) = elim (Bool-cases (found x)) [
    | inl hit ↦ rw hit (omega arith)
    | inr miss ↦ rw miss (omega (arith, count-remove_first found xs))
  ]

-- For a relation that is symmetric on the new item, the place does not matter.
pub insert_while-pairwise {ℓ κ} :
    {A : Type ℓ} (R : A → A → Type κ) (walk : A → Bool) (new : A) (xs : List A)
    → All (λ x. R x new) xs
    → All (R new) xs
    → IsSorted R xs
    → IsSorted R (insert_while walk new xs)
unfolding insert_while
insert_while-pairwise R walk new [] before after sorted = (tt, tt)
insert_while-pairwise R walk new (x ∷ xs) before after sorted = elim (Bool-cases (walk x)) [
  | inl on ↦ rw on (
    insert_while-All walk new (R x) xs before.0 sorted.0,
    insert_while-pairwise R walk new xs before.1 after.1 sorted.1,
  )
  | inr stop ↦ rw stop (after, sorted)
]

-- The first item that passes the test.
abbrev pub find_first {ℓ} : {A : Type ℓ} → (A → Bool) → List A → Option A
find_first test [] = none
find_first test (x ∷ xs) = if test x then some x else find_first test xs

abbrev pub any {ℓ} : {A : Type ℓ} → (A → Bool) → List A → Bool
any test [] = false
any test (x ∷ xs) = if test x then true else any test xs

module _ {ℓ κ} {A : Type ℓ} (test : A → Bool) where
  pub find_first-All :
      (P : A → Type κ) (xs : List A) (m : A) → find_first test xs ≡ some m → All P xs → P m
  find_first-All P [] m found all = absurd (ground (arith, found))
  find_first-All P (x ∷ xs) m found all = elim (Bool-cases (test x)) [
    | inl hit ↦ let e : x ≡ m = cc (hit, found) in rw (← e) all.0
    | inr miss ↦ find_first-All P xs m (cc (miss, found)) all.1
  ]

  -- In a sorted list the first that passes stands in the relation to all that pass.
  pub find_first-best :
      (R : A → A → Type κ) (xs : List A) (m : A)
      → ((x : A) → R x x)
      → find_first test xs ≡ some m
      → IsSorted R xs
      → All (λ x. test x ≡ true → R m x) xs
  find_first-best R [] m itself found sorted = tt
  find_first-best R (x ∷ xs) m itself found sorted = elim (Bool-cases (test x)) [
    | inl hit ↦
        let e : x ≡ m = cc (hit, found) in
        (
          λ h. rw (← e) (itself x),
          All-map (R x) (λ y. test y ≡ true → R m y) xs (λ y r h. rw (← e) r) sorted.0,
        )
    | inr miss ↦ (
      λ h. absurd (ground (arith, h, miss)),
      find_first-best R xs m itself (cc (miss, found)) sorted.1,
    )
  ]

module _ {ℓ} {A : Type ℓ} (test : A → Bool) where
  pub find_first-passes : (xs : List A) (m : A) → find_first test xs ≡ some m → test m ≡ true
  find_first-passes [] m found = absurd (ground (arith, found))
  find_first-passes (x ∷ xs) m found = elim (Bool-cases (test x)) [
    | inl hit ↦ let e : x ≡ m = cc (hit, found) in rw (← e) hit
    | inr miss ↦ find_first-passes xs m (cc (miss, found))
  ]

  pub find_first-missing : (xs : List A) → find_first test xs ≡ none → All (λ x. test x ≡ false) xs
  find_first-missing [] missing = tt
  find_first-missing (x ∷ xs) missing = elim (Bool-cases (test x)) [
    | inl hit ↦ absurd (ground (arith, hit, missing))
    | inr miss ↦ (miss, find_first-missing xs (cc (miss, missing)))
  ]

-- A new last item.
pub snoc-All {ℓ κ} :
    {A : Type ℓ} (P : A → Type κ) (new : A) (xs : List A)
    → P new
    → All P xs
    → All P (xs ++ new ∷ [])
snoc-All P new [] p all = (p, tt)
snoc-All P new (x ∷ xs) p all = (all.0, snoc-All P new xs p all.1)

pub snoc-IsSorted {ℓ κ} :
    {A : Type ℓ} (R : A → A → Type κ) (new : A) (xs : List A)
    → All (λ x. R x new) xs
    → IsSorted R xs
    → IsSorted R (xs ++ new ∷ [])
snoc-IsSorted R new [] before sorted = (tt, tt)
snoc-IsSorted R new (x ∷ xs) before sorted =
    (snoc-All (R x) new xs before.0 sorted.0, snoc-IsSorted R new xs before.1 sorted.1)
