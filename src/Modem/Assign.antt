-- ===== src/Modem/Assign.antt =====
-- assignModem (faxd/faxQueueApp.c++): the loop that takes the modems which findModem gives until the lock
-- file of one can be taken. Which lock files can be taken is the parameter `locks`.
use hyla_fax.Base.{
  ℕ, zero, suc, ◌<◌, Bool, true, ◌==◌, if◌then◌else◌, List, [], ◌∷◌, Option, none, some, ◌≡◌, refl,
  arith, inl, inr, Bool-cases,
}
use hyla_fax.Base.Options.{none-some, Option-cases}
use hyla_fax.Base.Ordered.{count}
use hyla_fax.Modem.Model.{
  Modem, Modems, Job, Group, busy, is_capable, is_in_group, find_modem, chosen, set_state, assign,
}
use hyla_fax.Modem.Listed.{listed, listed-update, listed-insert_while, unlinked-Apart}
use hyla_fax.Modem.Order.{IsModems, counts, set_state-IsModems}
use hyla_fax.Modem.Choice.{destination_class, find_modem-class, IsFit, find_modem-IsFit}
use hyla_fax.Modem.Steps.{find_modem-IsModems}

module _ (groups : List ℕ → Option Group) (locks : Modem → Bool) where
  -- The loop, with the number of its rounds bounded by the fuel.
  unfoldable pub assign_modem : ℕ → Modems → Job → Option (Modems × Option Modem)
  assign_modem zero ms job = none
  assign_modem (suc fuel) ms job =
      let found = find_modem groups ms job in
      let again = λ (m : Modem). assign_modem fuel (assign found.0 m (locks m)).0 job in
      elim found.1 [
        | none ↦ some (found.0, none)
        | some m ↦
            if (assign found.0 m (locks m)).1
            then some ((assign found.0 m (locks m)).0, some m)
            else again m
      ]

listed-count :
    (p : Modem → Bool) (ms : List Modem) (self : ℕ) (m : Modem)
    → listed ms self ≡ some m
    → p m ≡ true
    → 0 < count p ms
unfolding count
listed-count p [] self m here passes = absurd (ground (arith, here))
listed-count p (x ∷ ms) self m here passes = elim (Bool-cases (x.self == self)) [
  | inl hit ↦
      let e : x ≡ m = cc (hit, here) in let q : p x ≡ true = rw e passes in ground (arith, q)
  | inr miss ↦ omega (arith, listed-count p ms self m (cc (miss, here)) passes)
]

-- A modem that is assigned has its lock, and is on the list as busy; it fits the job. Where none is
-- assigned, findModem gives none.
abbrev pub IsOutcome :
    (groups : List ℕ → Option Group) → (locks : Modem → Bool) → Job → Modems → Option Modem → Type 0
IsOutcome groups locks job after none = (find_modem groups after job).1 ≡ none
IsOutcome groups locks job after (some m) =
    (locks m ≡ true)
    × (listed after.list m.self ≡ some (record m { state = busy }))
    × (is_in_group groups m job.device ≡ true)
    × (is_capable m job ≡ true)

-- What the scheduler gets: a modem that fits the job, whose lock it has and which is busy now, or none
-- where none is left that findModem gives.
pub record Assigned (groups : List ℕ → Option Group) (locks : Modem → Bool) (job : Job)
    (r : Option (Modems × Option Modem)) : Type 0 where
  pub after : Modems
  pub result : Option Modem
  pub returns : r ≡ some (after, result)
  pub well : IsModems after
  pub outcome : IsOutcome groups locks job after result

-- The modem that findModem gives stays on the list.
find_modem-listed :
    (groups : List ℕ → Option Group) (ms : Modems) (job : Job) (m : Modem)
    → IsModems ms
    → (find_modem groups ms job).1 ≡ some m
    → listed ms.list m.self ≡ some m
    → listed (find_modem groups ms job).0.list m.self ≡ some m
unfolding find_modem
find_modem-listed groups ms job m v found here = elim (Option-cases (groups job.device)) [
  | inl explicit ↦ simp (find_modem, explicit) here
  | inr class ↦
      elim (Option-cases (chosen class.value (destination_class groups job) job ms.list)) [
        | inl missing ↦ simp (find_modem, class.is_value, missing) here
        | inr some_modem ↦
            let e : some_modem.value ≡ m = cc (
              find_modem-class groups ms job class.value class.is_value,
              found,
              some_modem.is_value,
            ) in
            simp (find_modem, class.is_value, some_modem.is_value)
              (rw e (listed-insert_while _ _ m (unlinked-Apart ms.list m here v.apart)))
      ]
]

-- A search that gives no modem changes nothing.
find_modem-none :
    (groups : List ℕ → Option Group) (ms : Modems) (job : Job)
    → (find_modem groups ms job).1 ≡ none
    → (find_modem groups ms job).0 ≡ ms
unfolding find_modem
find_modem-none groups ms job missing = elim (Option-cases (groups job.device)) [
  | inl explicit ↦ simp (find_modem, explicit) refl
  | inr class ↦
      elim (Option-cases (chosen class.value (destination_class groups job) job ms.list)) [
        | inl nothing ↦ simp (find_modem, class.is_value, nothing) refl
        | inr some_modem ↦ absurd (
            none-some some_modem.value (
              cc (
                find_modem-class groups ms job class.value class.is_value,
                missing,
                some_modem.is_value,
              )))
      ]
]

find_modem-modems_ready :
    (groups : List ℕ → Option Group) (ms : Modems) (job : Job)
    → (find_modem groups ms job).0.modems_ready ≡ ms.modems_ready
unfolding find_modem
find_modem-modems_ready groups ms job = elim (Option-cases (groups job.device)) [
  | inl explicit ↦ simp (find_modem, explicit) refl
  | inr class ↦
      elim (Option-cases (chosen class.value (destination_class groups job) job ms.list)) [
        | inl missing ↦ simp (find_modem, class.is_value, missing) refl
        | inr found ↦ simp (find_modem, class.is_value, found.is_value) refl
      ]
]

-- With more rounds than there are ready modems the loop ends: each round that does not take a lock makes
-- one modem busy. It gives a modem that fits the job, with its lock taken and marked busy, or none when
-- findModem finds none, and what holds of the modems is kept.
pub assign_modem-Assigned :
    (groups : List ℕ → Option Group) (locks : Modem → Bool) (fuel : ℕ) (ms : Modems) (job : Job)
    → IsModems ms
    → ms.modems_ready < fuel
    → Assigned groups locks job (assign_modem groups locks fuel ms job)
unfolding assign_modem assign set_state
assign_modem-Assigned groups locks zero ms job v enough = absurd (omega arith)
assign_modem-Assigned groups locks (suc fuel) ms job v enough =
    let r = find_modem groups ms job in
    let w = find_modem-IsModems groups ms job v in
    let fit = find_modem-IsFit groups ms job v in
    elim (Option-cases r.1) [
      | inl missing ↦ record {
        after = r.0;
        result = none;
        returns = simp (assign_modem, missing) refl;
        well = w;
        outcome = rw (find_modem-none groups ms job missing) missing;
      }
      | inr found ↦
          let m = found.value in
          let f : IsFit groups job ms.list (some m) = rw found.is_value at fit in
          let here = find_modem-listed groups ms job m v found.is_value f.0 in
          let busy_m : Modem = record m { state = busy } in
          elim (Bool-cases (locks m)) [
            | inl locked ↦ record {
              after = set_state r.0 m busy;
              result = some m;
              returns = simp (assign_modem, found.is_value, assign, locked) refl;
              well = set_state-IsModems r.0 m busy here w;
              outcome = (locked, listed-update r.0.list m busy_m here, f.2, f.3);
            }
            | inr taken ↦
                let fewer : (set_state r.0 m busy).modems_ready < fuel = ground (
                  arith,
                  enough,
                  find_modem-modems_ready groups ms job,
                  w.counted,
                  f.1,
                  listed-count counts r.0.list m.self m here f.1,
                ) in
                simp (assign_modem, found.is_value, assign, taken)
                  (assign_modem-Assigned groups locks fuel (set_state r.0 m busy) job
                    (set_state-IsModems r.0 m busy here w) fewer)
          ]
    ]
