-- ===== src/Modem/Listed.antt =====
-- The list of the modems by their addresses (faxd/Modem.c++): the modem at an address, its new value, and
-- its removal.
use hyla_fax.Base.{
  ℕ, ◌+◌, ◌≤◌, Bool, true, false, ◌==◌, if◌then◌else◌, List, [], ◌∷◌, Option, none, some, ◌≡◌, refl,
  arith, inl, inr, Bool-cases,
}
use hyla_fax.Base.Ordered.{All, All-map, IsSorted, insert_while, remove_first, count}
use hyla_fax.Modem.Model.{Modem, update, unlinked}

-- The relation of an item of the list to the later ones: no lower priority, and another address.
abbrev pub Before : Modem → Modem → Type 0
Before a b = a.priority ≤ b.priority

abbrev pub Apart : Modem → Modem → Type 0
Apart a b = (a.self == b.self) ≡ false

-- The modem of the list at an address.
abbrev pub listed : List Modem → (self : ℕ) → Option Modem
listed [] self = none
listed (m ∷ ms) self = if m.self == self then some m else listed ms self

pub listed-All {κ} :
    (P : Modem → Type κ) (ms : List Modem) (self : ℕ) (m : Modem)
    → listed ms self ≡ some m
    → All P ms
    → P m
listed-All P [] self m here all = absurd (ground (arith, here))
listed-All P (x ∷ ms) self m here all = elim (Bool-cases (x.self == self)) [
  | inl hit ↦ let e : x ≡ m = cc (hit, here) in rw (← e) all.0
  | inr miss ↦ listed-All P ms self m (cc (miss, here)) all.1
]

-- Where the addresses are apart, each modem is the one at its address.
pub listed-each : (ms : List Modem) → IsSorted Apart ms → All (λ m. listed ms m.self ≡ some m) ms
listed-each [] apart = tt
listed-each (x ∷ ms) apart = (
  let e : (x.self == x.self) ≡ true = ground arith in simp e refl,
  behind ms ms apart.0 (listed-each ms apart.1),
)
  where
    behind :
        (all ms : List Modem)
        → All (Apart x) ms
        → All (λ m. listed all m.self ≡ some m) ms
        → All (λ m. listed (x ∷ all) m.self ≡ some m) ms
    behind all [] away here = tt
    behind all (y ∷ ms) away here = (simp away.0 here.0, behind all ms away.1 here.1)

module _ (old m : Modem) where
  pub update-All {κ} :
      (P : Modem → Type κ) (ms : List Modem)
      → listed ms m.self ≡ some old
      → (P old → P m)
      → All P ms
      → All P (update ms m)
  unfolding update
  update-All P [] here keeps all = tt
  update-All P (x ∷ ms) here keeps all = elim (Bool-cases (x.self == m.self)) [
    | inl hit ↦ let e : x ≡ old = cc (hit, here) in simp hit (keeps (rw (← e) all.0), all.1)
    | inr miss ↦ simp miss (all.0, update-All P ms (cc (miss, here)) keeps all.1)
  ]

  pub update-IsSorted {κ} :
      (R : Modem → Modem → Type κ) (ms : List Modem)
      → listed ms m.self ≡ some old
      → ((x : Modem) → R x old → R x m)
      → ((x : Modem) → R old x → R m x)
      → IsSorted R ms
      → IsSorted R (update ms m)
  unfolding update
  update-IsSorted R [] here after before sorted = tt
  update-IsSorted R (x ∷ ms) here after before sorted = elim (Bool-cases (x.self == m.self)) [
    | inl hit ↦
        let e : x ≡ old = cc (hit, here) in
        simp hit (All-map (R x) (R m) ms (λ y r. before y (rw (← e) r)) sorted.0, sorted.1)
    | inr miss ↦
        let rest : listed ms m.self ≡ some old = cc (miss, here) in
        simp miss (
          update-All (R x) ms rest (after x) sorted.0,
          update-IsSorted R ms rest after before sorted.1,
        )
  ]

  pub count-update :
      (p : Modem → Bool) (ms : List Modem)
      → listed ms m.self ≡ some old
      → count p (update ms m) + (if p old then 1 else 0) ≡ count p ms + (if p m then 1 else 0)
  unfolding update count
  count-update p [] here = absurd (ground (arith, here))
  count-update p (x ∷ ms) here = elim (Bool-cases (x.self == m.self)) [
    | inl hit ↦ let e : x ≡ old = cc (hit, here) in simp hit (rw e (omega arith))
    | inr miss ↦
        let rest : listed ms m.self ≡ some old = cc (miss, here) in
        simp miss (omega (arith, count-update p ms rest))
  ]

pub count-unlinked :
    (p : Modem → Bool) (ms : List Modem) (m : Modem)
    → listed ms m.self ≡ some m
    → count p (unlinked ms m) + (if p m then 1 else 0) ≡ count p ms
unfolding remove_first count
count-unlinked p [] m here = absurd (ground (arith, here))
count-unlinked p (x ∷ ms) m here = elim (Bool-cases (x.self == m.self)) [
  | inl hit ↦ let e : x ≡ m = cc (hit, here) in simp hit (rw e (omega arith))
  | inr miss ↦
      let rest : listed ms m.self ≡ some m = cc (miss, here) in
      simp miss (omega (arith, count-unlinked p ms m rest))
]

pub unlinked-Apart :
    (ms : List Modem) (m : Modem)
    → listed ms m.self ≡ some m
    → IsSorted Apart ms
    → All (λ x. Apart x m) (unlinked ms m)
unfolding remove_first
unlinked-Apart [] m here apart = tt
unlinked-Apart (x ∷ ms) m here apart = elim (Bool-cases (x.self == m.self)) [
  | inl hit ↦
      let same : x.self ≡ m.self = ground (arith, hit) in
      simp hit (All-map (Apart x) (λ y. Apart y m) ms (λ y a. ground (arith, same, a)) apart.0)
  | inr miss ↦ simp miss (refl, unlinked-Apart ms m (cc (miss, here)) apart.1)
]

pub listed-update :
    (ms : List Modem) (old m : Modem)
    → listed ms m.self ≡ some old
    → listed (update ms m) m.self ≡ some m
unfolding update
listed-update [] old m here = absurd (ground (arith, here))
listed-update (x ∷ ms) old m here = elim (Bool-cases (x.self == m.self)) [
  | inl hit ↦ let e : (m.self == m.self) ≡ true = ground arith in simp hit (simp e refl)
  | inr miss ↦ simp miss (listed-update ms old m (cc (miss, here)))
]

pub listed-insert_while :
    (walk : Modem → Bool) (ms : List Modem) (m : Modem)
    → All (λ x. Apart x m) ms
    → listed (insert_while walk m ms) m.self ≡ some m
unfolding insert_while
listed-insert_while walk [] m away = let e : (m.self == m.self) ≡ true = ground arith in simp e refl
listed-insert_while walk (x ∷ ms) m away = elim (Bool-cases (walk x)) [
  | inl on ↦ simp on (simp away.0 (listed-insert_while walk ms m away.1))
  | inr stop ↦ let e : (m.self == m.self) ≡ true = ground arith in simp stop (simp e refl)
]
