-- ===== src/QLink/Remove.antt =====
-- remove (faxd/QLink.c++) takes an item out of a ring and leaves the others as they are.
use hyla_fax.Base.{
  ℕ, true, false, ◌||◌, ◌==◌, List, [], ◌∷◌, ◌++◌, Option, none, some, ◌≡◌, ◌⊎◌, refl, ap, ◌∙◌,
  arith, inl, inr, Bool-cases,
}
use hyla_fax.QLink.Store.{Store, unlinked, remove}
use hyla_fax.QLink.Ring.{Links, member, NoDup, IsRing, last-member}

member-append : (a : ℕ) (xs ys : List ℕ) → member a (xs ++ ys) ≡ (member a xs || member a ys)
member-append a [] ys = refl
member-append a (x ∷ xs) ys = ground (arith, member-append a xs ys)

NoDup-append : (xs : List ℕ) (x : ℕ) (ys : List ℕ) → NoDup (xs ++ x ∷ ys) → NoDup (xs ++ ys)
NoDup-append [] x ys (once, nodup) = nodup
NoDup-append (z ∷ xs) x ys (once, nodup) = (
  member-append z xs ys ∙ ground (arith, once, member-append z xs (x ∷ ys)),
  NoDup-append xs x ys nodup,
)

-- The first links of a ring.
Links-front :
    (s : Store) (a : ℕ) (xs : List ℕ) (x : ℕ) (ys : List ℕ) (b : ℕ)
    → Links s a (xs ++ x ∷ ys) b
    → Links s a xs x
Links-front s a [] x ys b (n, p, links) = (n, p)
Links-front s a (z ∷ xs) x ys b (n, p, links) = (n, p, Links-front s z xs x ys b links)

Links-back :
    (s : Store) (a : ℕ) (xs : List ℕ) (x : ℕ) (ys : List ℕ) (b : ℕ)
    → Links s a (xs ++ x ∷ ys) b
    → Links s x ys b
Links-back s a [] x ys b (n, p, links) = links
Links-back s a (z ∷ xs) x ys b (n, p, links) = Links-back s z xs x ys b links

next-item :
    (s : Store) (x : ℕ) (ys : List ℕ) (b : ℕ)
    → Links s x ys b
    → (member (s.next x) ys ≡ true) ⊎ (s.next x ≡ b)
next-item s x [] b (n, p) = inr n
next-item s x (y ∷ ys) b (n, p, links) = inl (ground (arith, n))

other_of : (p a : ℕ) (xs : List ℕ) → member p xs ≡ true → member a xs ≡ false → (p == a) ≡ false
other_of p a xs there out = elim (Bool-cases (p == a)) [
  | inl same ↦ let e : p ≡ a = ground (arith, same) in absurd (ground (arith, out, (rw e at there)))
  | inr other ↦ other
]

tail_once : (xs : List ℕ) (x : ℕ) (ys : List ℕ) → NoDup (xs ++ x ∷ ys) → member x ys ≡ false
tail_once [] x ys (once, nodup) = once
tail_once (z ∷ xs) x ys (once, nodup) = tail_once xs x ys nodup

module _ (s : Store) (this : ℕ) (on_list : (s.next this == this) ≡ false) where
  abbrev s' : Store
  s' = unlinked s this

  -- Links that neither start at the item or the one before it nor end at the one behind it stay.
  unlinked-frame :
      (c : ℕ) (zs : List ℕ) (b : ℕ)
      → Links s c zs b
      → member this (c ∷ zs) ≡ false
      → member (s.prev this) (c ∷ zs) ≡ false
      → member (s.next this) zs ≡ false
      → (s.next this == b) ≡ false
      → Links s' c zs b
  unlinked-frame c [] b (n, p) self before behind end =
      (ground (arith, n, self, before, on_list), ground (arith, p, end))
  unlinked-frame c (z ∷ zs) b (n, p, links) self before behind end = (
    ground (arith, n, self, before, on_list),
    ground (arith, p, behind),
    unlinked-frame z zs b links (ground (arith, self)) (ground (arith, before))
        (ground (arith, behind)) end,
  )

  unlinked-Links :
      (a : ℕ) (xs ys : List ℕ) (b : ℕ)
      → Links s a (xs ++ this ∷ ys) b
      → NoDup (a ∷ (xs ++ this ∷ ys))
      → member b (xs ++ this ∷ ys) ≡ false
      → Links s' a (xs ++ ys) b
  unlinked-Links a [] [] b (n, p, (n', p')) (once, nodup) apart =
      (ground (arith, n, p, n', once, on_list), ground (arith, p, n', p'))
  unlinked-Links a [] (y ∷ ys) b (n, p, (n', p', links)) (once, (once', (once'', nodup))) apart = (
    ground (arith, n, p, n', once, on_list),
    ground (arith, p, n', p'),
    unlinked-frame y ys b links once' (ap (λ (v : ℕ). member v (y ∷ ys)) p ∙ ground (arith, once))
        (rw n' once'') (ground (arith, n', apart)),
  )
  unlinked-Links a (z ∷ xs) ys b (n, p, links) (once, (once', nodup)) apart =
      let last = last-member s a z this xs (Links-front s a (z ∷ xs) this ys b (n, p, links)) in
      let a_out : member a (z ∷ xs) ≡ false =
        ground (arith, once, member-append a (z ∷ xs) (this ∷ ys)) in
      let not_last : (s.prev this == a) ≡ false = other_of (s.prev this) a (z ∷ xs) last a_out in
      let z_out : member z ys ≡ false = ground (arith, once', member-append z xs (this ∷ ys)) in
      let not_next : (s.next this == z) ≡ false =
        elim (next-item s this ys b (Links-back s z xs this ys b links)) [
          | inl behind ↦ other_of (s.next this) z ys behind z_out
          | inr end ↦ ground (arith, end, apart)
        ] in
      let a_this : (this == a) ≡ false =
        ground (arith, once, member-append a (z ∷ xs) (this ∷ ys)) in
      (
        ground (arith, n, not_last, a_this, on_list),
        ground (arith, p, not_next),
        unlinked-Links z xs ys b links (once', nodup) (ground (arith, apart)),
      )

-- The ring that a removal leaves, and that the item is on no list.
pub Removed : Option Store → (head this : ℕ) → List ℕ → Type 0
Removed none head this xs = ⊥
Removed (some s) head this xs = IsRing s head xs × (s.next this ≡ this)

Removed-some :
    (o : Option Store) (s : Store) (head this : ℕ) (xs : List ℕ)
    → o ≡ some s
    → IsRing s head xs
    → s.next this ≡ this
    → Removed o head this xs
unfolding Removed
Removed-some o s head this xs e ring alone = rw e (ring, alone)

-- remove of an item of a ring leaves the ring of the others in their order, linked in both directions; the
-- item is on no list after it, and the assertion holds.
pub remove-Removed :
    (s : Store) (head this : ℕ) (xs ys : List ℕ)
    → IsRing s head (xs ++ this ∷ ys)
    → Removed (remove s this) head this (xs ++ ys)
unfolding remove Removed
remove-Removed s head this xs ys ring =
    let (once, nodup) = ring.nodup in
    let back = Links-back s head xs this ys head ring.links in
    let head_this : (head == this) ≡ false =
      ground (arith, once, member-append head xs (this ∷ ys)) in
    let alone : member this ys ≡ false = tail_once xs this ys nodup in
    let on_list : (s.next this == this) ≡ false = elim (next-item s this ys head back) [
      | inl behind ↦ other_of (s.next this) this ys behind alone
      | inr end ↦ ground (arith, end, head_this)
    ] in
    Removed-some (remove s this) (unlinked s this) head this (xs ++ ys) (rw (remove, on_list) refl)
      (record {
        links = unlinked-Links s this on_list head xs ys head ring.links ring.nodup once;
        nodup = NoDup-append (head ∷ xs) this ys ring.nodup;
      })
      (ground arith)
