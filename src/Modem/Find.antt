-- ===== src/Modem/Find.antt =====
-- findModem (faxd/Modem.c++): its loops are searches for the first modem that passes a test, so on a
-- sorted list what they choose is the best.
use hyla_fax.Base.{
  ◌≤◌, Bool, true, false, ◌&&◌, if◌then◌else◌, List, [], ◌∷◌, Option, none, some, ◌≡◌, refl, ap,
  arith, inl, inr, Bool-cases,
}
use hyla_fax.Base.Options.{Option-cases}
use hyla_fax.Base.Ordered.{
  All, IsSorted, find_first, any, find_first-All, find_first-best, find_first-passes,
  find_first-missing,
}
use hyla_fax.Modem.Model.{
  Modem, Job, Group, is_ready, is_capable, is_suitable, strict_pass, loose_pass, chosen,
}
use hyla_fax.Modem.Listed.{Before, Apart, listed, listed-each}

-- A modem of the class that can do the job, and one that the rules of the destination admit too.
abbrev pub can_do : Group → Job → Modem → Bool
can_do c job m = c m.dev_id && is_capable m job

abbrev pub may_do : Group → (cdci : Option Group) → Job → Modem → Bool
may_do c cdci job m = can_do c job m && is_suitable cdci job m

strict_pass-first :
    (c : Group) (cdci : Option Group) (job : Job) (ms : List Modem)
    → strict_pass c cdci job ms
      ≡ (any (may_do c cdci job) ms, find_first (λ m. may_do c cdci job m && is_ready m.state) ms)
unfolding strict_pass
strict_pass-first c cdci job [] = refl
strict_pass-first c cdci job (m ∷ ms) =
    let rest = strict_pass-first c cdci job ms in
    elim (Bool-cases (c m.dev_id)) [
      | inr outside ↦ simp outside rest
      | inl inside ↦ elim (Bool-cases (is_capable m job)) [
        | inr unable ↦ simp (inside, unable) rest
        | inl able ↦ elim (Bool-cases (is_suitable cdci job m)) [
          | inr unsuited ↦ simp (inside, able, unsuited) rest
          | inl suited ↦ elim (Bool-cases (is_ready m.state)) [
            | inr waits ↦
                simp (inside, able, suited, waits)
                  (ap (λ (r : Bool × Option Modem). (true, r.1)) rest)
            | inl stands ↦ simp (inside, able, suited, stands) refl
          ]
        ]
      ]
    ]

loose_pass-first :
    (c : Group) (job : Job) (ms : List Modem)
    → loose_pass c job ms ≡ find_first (λ m. can_do c job m && is_ready m.state) ms
unfolding loose_pass
loose_pass-first c job [] = refl
loose_pass-first c job (m ∷ ms) =
    let rest = loose_pass-first c job ms in
    elim (Bool-cases (can_do c job m)) [
      | inr unable ↦ simp unable rest
      | inl able ↦ elim (Bool-cases (is_ready m.state)) [
        | inr waits ↦ simp (able, waits) rest
        | inl stands ↦ simp (able, stands) refl
      ]
    ]

-- What the search for a modem of a class gives: the best of those that pass a test.
abbrev pub IsBest : (Modem → Bool) → List Modem → Option Modem → Type 0
IsBest test ms none = All (λ o. test o ≡ false) ms
IsBest test ms (some m) =
    (test m ≡ true)
    × (listed ms m.self ≡ some m)
    × All (λ o. test o ≡ true → m.priority ≤ o.priority) ms

pub find_first-IsBest :
    (test : Modem → Bool) (ms : List Modem)
    → IsSorted Before ms
    → IsSorted Apart ms
    → IsBest test ms (find_first test ms)
find_first-IsBest test ms sorted apart = elim (Option-cases (find_first test ms)) [
  | inl missing ↦ rw missing (find_first-missing test ms missing)
  | inr found ↦
      let e = found.is_value in
      rw e (
        find_first-passes test ms found.value e,
        find_first-All test (λ m. listed ms m.self ≡ some m) ms found.value e
            (listed-each ms apart),
        find_first-best test Before ms found.value (λ x. omega arith) e sorted,
      )
]

-- The modems that the search admits: those which the rules of the destination admit too, if there is any
-- that can do the job, ready or not; else every modem of the class that can do the job.
abbrev pub admitted : Group → (cdci : Option Group) → Job → List Modem → Modem → Bool
admitted c cdci job ms m =
    if any (may_do c cdci job) ms then may_do c cdci job m else can_do c job m

any-missing :
    (p q : Modem → Bool) (ms : List Modem)
    → any p ms ≡ false
    → find_first (λ m. p m && q m) ms ≡ none
any-missing p q [] missing = refl
any-missing p q (m ∷ ms) missing = elim (Bool-cases (p m)) [
  | inl hit ↦ absurd (ground (arith, hit, missing))
  | inr miss ↦ simp miss (any-missing p q ms (cc (miss, missing)))
]

pub chosen-first :
    (c : Group) (cdci : Option Group) (job : Job) (ms : List Modem)
    → chosen c cdci job ms ≡ find_first (λ m. admitted c cdci job ms m && is_ready m.state) ms
unfolding chosen
chosen-first c cdci job ms = elim (Bool-cases (any (may_do c cdci job) ms)) [
  | inl suited ↦
      elim (Option-cases (find_first (λ m. may_do c cdci job m && is_ready m.state) ms)) [
        | inl missing ↦ simp (chosen, strict_pass-first c cdci job ms, suited, missing) refl
        | inr found ↦ simp (chosen, strict_pass-first c cdci job ms, suited, found.is_value) refl
      ]
  | inr unsuited ↦
      simp
        (
          chosen,
          strict_pass-first c cdci job ms,
          unsuited,
          any-missing (may_do c cdci job) (λ m. is_ready m.state) ms unsuited,
        )
        (loose_pass-first c job ms)
]
