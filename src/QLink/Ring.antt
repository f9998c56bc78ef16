-- ===== src/QLink/Ring.antt =====
-- insert (faxd/QLink.c++) puts an item at the end of the ring of the item that it is given.
use hyla_fax.Base.{
  ℕ, Bool, true, false, ◌||◌, ◌==◌, List, [], ◌∷◌, ◌++◌, Option, none, some, ◌≡◌, refl, ◌∙◌, arith,
  inl, inr, Bool-cases,
}
use hyla_fax.QLink.Store.{Store, linked, insert}

-- The links from `a` along the items `xs` to `b`, forward and backward.
abbrev pub Links : Store → (a : ℕ) → List ℕ → (b : ℕ) → Type 0
Links s a [] b = (s.next a ≡ b) × (s.prev b ≡ a)
Links s a (x ∷ xs) b = (s.next a ≡ x) × (s.prev x ≡ a) × Links s x xs b

abbrev pub member : ℕ → List ℕ → Bool
member a [] = false
member a (x ∷ xs) = a == x || member a xs

abbrev pub NoDup : List ℕ → Type 0
NoDup [] = Unit {0}
NoDup (x ∷ xs) = (member x xs ≡ false) × NoDup xs

-- The list with the head `head` has the items `xs`.
pub record IsRing (s : Store) (head : ℕ) (xs : List ℕ) : Type 0 where
  pub links : Links s head xs head
  pub nodup : NoDup (head ∷ xs)

-- The last item of a list that is not empty stands in it.
pub last-member :
    (s : Store) (a x b : ℕ) (xs : List ℕ) → Links s a (x ∷ xs) b → member (s.prev b) (x ∷ xs) ≡ true
last-member s a x b [] (n, p, (n', p')) = rw p' (ground arith)
last-member s a x b (y ∷ xs) (n, p, links) = ground (arith, last-member s x y b xs links)

module _ (s : Store) (head this : ℕ) where
  abbrev s' : Store
  s' = linked s this head

  linked-Links :
      (a : ℕ) (xs : List ℕ)
      → Links s a xs head
      → NoDup (a ∷ xs)
      → member head xs ≡ false
      → (this == head) ≡ false
      → member this (a ∷ xs) ≡ false
      → Links s' a (xs ++ this ∷ []) head
  linked-Links a [] (n, p) nodup apart self fresh = (
    ground (arith, p, self),
    ground (arith, p, self),
    (ground (arith, p, self, fresh), ground (arith, self)),
  )
  linked-Links a (x ∷ xs) (n, p, links) (once, nodup) apart self fresh =
      let lm : member (s.prev head) (x ∷ xs) ≡ true = last-member s a x head xs (n, p, links) in
      let not_last : (s.prev head == a) ≡ false = elim (Bool-cases (s.prev head == a)) [
        | inl same ↦
            let e : s.prev head ≡ a = ground (arith, same) in
            absurd (ground (arith, once, (rw e at lm)))
        | inr other ↦ other
      ] in
      (
        ground (arith, n, not_last, self, fresh),
        ground (arith, p, apart, fresh),
        linked-Links x xs links nodup (ground (arith, apart)) self (ground (arith, fresh)),
      )

  member-snoc : (a x : ℕ) (xs : List ℕ) → member a (xs ++ x ∷ []) ≡ (member a xs || a == x)
  member-snoc a x [] = ground arith
  member-snoc a x (y ∷ xs) = ground (arith, member-snoc a x xs)

  NoDup-snoc : (x : ℕ) (xs : List ℕ) → NoDup xs → member x xs ≡ false → NoDup (xs ++ x ∷ [])
  NoDup-snoc x [] nodup fresh = (refl, tt)
  NoDup-snoc x (y ∷ xs) (once, nodup) fresh = (
    member-snoc y x xs ∙ ground (arith, once, fresh),
    NoDup-snoc x xs nodup (ground (arith, fresh)),
  )

-- The ring that an insertion leaves.
pub Inserted : Option Store → (head : ℕ) → List ℕ → Type 0
Inserted none head xs = ⊥
Inserted (some s) head xs = IsRing s head xs

-- insert of an item that is on no list, before the head of a ring, makes it the last item of the ring:
-- the ring is linked in both directions, no item is on it twice, and the assertion holds.
pub insert-Inserted :
    (s : Store) (head this : ℕ) (xs : List ℕ)
    → IsRing s head xs
    → s.next this ≡ this
    → member this (head ∷ xs) ≡ false
    → Inserted (insert s this head) head (xs ++ this ∷ [])
unfolding insert Inserted
insert-Inserted s head this xs ring alone fresh =
    let (once, nodup) = ring.nodup in
    let self : (this == head) ≡ false = ground (arith, fresh) in
    let free : (s.next this == this) ≡ true = ground (arith, alone) in
    rw (insert, free)
      (record {
        links = linked-Links s head this head xs ring.links ring.nodup once self fresh;
        nodup = NoDup-snoc s head this this (head ∷ xs) ring.nodup fresh;
      })
