-- ===== src/Modem/Choice.antt =====
-- What findModem (faxd/Modem.c++) gives: the best modem of a class, and in any case one that fits the job.
use hyla_fax.Base.{
  ℕ, true, ◌&&◌, if◌then◌else◌, List, [], ◌∷◌, Option, none, some, ◌≡◌, refl, ◌∙◌, arith, inl, inr,
  Bool-cases,
}
use hyla_fax.Base.Options.{Option-cases}
use hyla_fax.Base.Ordered.{All, any, find_first, find_first-All, find_first-passes}
use hyla_fax.Modem.Model.{
  Modem, Modems, Job, Group, is_ready, is_capable, is_text, is_in_group, same_text, explicit_pass,
  chosen, find_modem,
}
use hyla_fax.Modem.Listed.{listed, listed-each}
use hyla_fax.Modem.Order.{IsModems}
use hyla_fax.Modem.Find.{admitted, may_do, IsBest, find_first-IsBest, chosen-first}

-- The class that the rules of the destination give.
abbrev pub destination_class : (groups : List ℕ → Option Group) → Job → Option Group
destination_class groups job = if is_text job.jci_modem then groups job.jci_modem else none

-- The search in a class that is registered.
pub find_modem-class :
    (groups : List ℕ → Option Group) (ms : Modems) (job : Job) (c : Group)
    → groups job.device ≡ some c
    → (find_modem groups ms job).1 ≡ chosen c (destination_class groups job) job ms.list
unfolding find_modem
find_modem-class groups ms job c registered =
    elim (Option-cases (chosen c (destination_class groups job) job ms.list)) [
      | inl missing ↦ simp (find_modem, registered, missing) refl
      | inr found ↦ simp (find_modem, registered, found.is_value) refl
    ]

-- For a job of a registered class, findModem gives a ready modem of the highest priority among those which
-- it admits: those that can do the job and that the rules of the destination admit, if there is any, ready
-- or not, else all that can do the job. It gives none only if none of them is ready.
pub find_modem-IsBest :
    (groups : List ℕ → Option Group) (ms : Modems) (job : Job) (c : Group)
    → IsModems ms
    → groups job.device ≡ some c
    → IsBest
        (λ m. admitted c (destination_class groups job) job ms.list m && is_ready m.state)
        ms.list
        (find_modem groups ms job).1
find_modem-IsBest groups ms job c v registered =
    let test =
      λ (m : Modem). admitted c (destination_class groups job) job ms.list m && is_ready m.state in
    rw
      (
        find_modem-class groups ms job c registered,
        chosen-first c (destination_class groups job) job ms.list,
      )
      (find_first-IsBest test ms.list v.sorted v.apart)

same_text-sym : (cs ds : List ℕ) → same_text cs ds ≡ same_text ds cs
same_text-sym [] [] = refl
same_text-sym [] (d ∷ ds) = refl
same_text-sym (c ∷ cs) [] = refl
same_text-sym (c ∷ cs) (d ∷ ds) = ground (arith, same_text-sym cs ds)

-- A modem that is given for a job: it is on the list, ready, of the job's class or device, and capable.
abbrev pub IsFit : (groups : List ℕ → Option Group) → Job → List Modem → Option Modem → Type 0
IsFit groups job ms none = Unit
IsFit groups job ms (some m) =
    (listed ms m.self ≡ some m)
    × (is_ready m.state ≡ true)
    × (is_in_group groups m job.device ≡ true)
    × (is_capable m job ≡ true)

-- The search for an explicit modem.
explicit_pass-found :
    (P : Modem → Type 0) (job : Job) (ms : List Modem) (m : Modem)
    → explicit_pass job ms ≡ some m
    → All P ms
    → P m
      × (is_ready m.state ≡ true)
      × (same_text job.device m.dev_id ≡ true)
      × (is_capable m job ≡ true)
unfolding explicit_pass
explicit_pass-found P job [] m found all = absurd (ground (arith, found))
explicit_pass-found P job (x ∷ ms) m found all =
    let rest = explicit_pass-found P job ms m in
    elim (Bool-cases (is_ready x.state)) [
      | inr waits ↦ rest (cc (waits, found)) all.1
      | inl stands ↦ elim (Bool-cases (same_text job.device x.dev_id)) [
        | inr other ↦ rest (cc (stands, other, found)) all.1
        | inl named ↦ elim (Bool-cases (is_capable x job)) [
          | inr unable ↦ absurd (ground (arith, stands, named, unable, found))
          | inl able ↦
              let e : x ≡ m = cc (stands, named, able, found) in
              rw (← e) (all.0, stands, named, able)
        ]
      ]
    ]

fit_of_admitted :
    (c : Group) (cdci : Option Group) (job : Job) (ms : List Modem) (m : Modem)
    → (admitted c cdci job ms m && is_ready m.state) ≡ true
    → (is_ready m.state ≡ true) × (c m.dev_id ≡ true) × (is_capable m job ≡ true)
fit_of_admitted c cdci job ms m passes = elim (Bool-cases (any (may_do c cdci job) ms)) [
  | inl suited ↦ let h = rw suited at passes in ground (arith, h)
  | inr unsuited ↦ let h = rw unsuited at passes in ground (arith, h)
]

-- A modem that findModem gives is on the list, ready, in the job's class or the device that the job names,
-- and capable of the job.
pub find_modem-IsFit :
    (groups : List ℕ → Option Group) (ms : Modems) (job : Job)
    → IsModems ms
    → IsFit groups job ms.list (find_modem groups ms job).1
unfolding find_modem
find_modem-IsFit groups ms job v = elim (Option-cases (groups job.device)) [
  | inr class ↦
      let c = class.value in
      let cdci = destination_class groups job in
      let test = λ (m : Modem). admitted c cdci job ms.list m && is_ready m.state in
      let e = find_modem-class groups ms job c class.is_value ∙ chosen-first c cdci job ms.list in
      elim (Option-cases (find_first test ms.list)) [
        | inl missing ↦ rw (e, missing) tt
        | inr found ↦
            let m = found.value in
            let passes = find_first-passes test ms.list m found.is_value in
            let r = fit_of_admitted c cdci job ms.list m passes in
            rw (e, found.is_value)
              (
                find_first-All test (λ x. listed ms.list x.self ≡ some x) ms.list m found.is_value
                    (listed-each ms.list v.apart),
                r.0,
                rw (is_in_group, class.is_value) r.1,
                r.2,
              )
      ]
  | inl explicit ↦ elim (Option-cases (explicit_pass job ms.list)) [
    | inl missing ↦ simp (find_modem, explicit, missing) tt
    | inr found ↦
        let r =
          explicit_pass-found (λ x. listed ms.list x.self ≡ some x) job ms.list found.value
            found.is_value (listed-each ms.list v.apart) in
        simp (find_modem, explicit, found.is_value)
          (
            r.0,
            r.1,
            rw (is_in_group, explicit) (same_text-sym found.value.dev_id job.device ∙ r.2),
            r.3,
          )
  ]
]
