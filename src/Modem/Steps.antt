-- ===== src/Modem/Steps.antt =====
-- What the operations on the modems (faxd/Modem.c++) keep together, in any order of their calls.
use hyla_fax.Base.{
  ℕ, ◌≤◌, Bool, false, ◌&&◌, ◌==◌, List, [], Option, some, ◌≡◌, refl, sym, ◌∙◌, inl, inr,
}
use hyla_fax.Base.Options.{Option-cases}
use hyla_fax.Base.Ordered.{All, count, find_first, find_first-All}
use hyla_fax.Modem.Model.{
  Modem, Modems, ModemState, Job, Group, busy, ready, is_ready, chosen, find_modem, set_state,
  assign, release, set_capabilities, get_modem_by_id,
}
use hyla_fax.Modem.Listed.{listed, listed-each}
use hyla_fax.Modem.Order.{
  IsModems, IsRanged, placed-IsModems, set_state-IsModems, set_capabilities-IsModems,
  get_modem_by_id-IsModems,
}
use hyla_fax.Modem.Find.{admitted, chosen-first}
use hyla_fax.Modem.Choice.{destination_class}

-- findModem keeps what holds: the modem moves within the group of its priority.
pub find_modem-IsModems :
    (groups : List ℕ → Option Group) (ms : Modems) (job : Job)
    → IsModems ms
    → IsModems (find_modem groups ms job).0
unfolding find_modem
find_modem-IsModems groups ms job v = elim (Option-cases (groups job.device)) [
  | inl explicit ↦ simp (find_modem, explicit) v
  | inr class ↦
      let c = class.value in
      let test = λ (m : Modem).
        admitted c (destination_class groups job) job ms.list m && is_ready m.state in
      elim (Option-cases (chosen c (destination_class groups job) job ms.list)) [
        | inl missing ↦ simp (find_modem, class.is_value, missing) v
        | inr found ↦
            let m = found.value in
            let first : find_first test ms.list ≡ some m =
              sym (chosen-first c (destination_class groups job) job ms.list) ∙ found.is_value in
            let here : listed ms.list m.self ≡ some m =
              find_first-All test (λ x. listed ms.list x.self ≡ some x) ms.list m first
                (listed-each ms.list v.apart) in
            let low : m.priority ≤ 255 =
              find_first-All test (λ x. x.priority ≤ 255) ms.list m first v.ranged in
            simp (find_modem, class.is_value, found.is_value)
              (placed-IsModems ms m.priority m m here refl refl refl low v)
      ]
]

-- A call that the scheduler makes, on modems that it finds on the list.
pub data Step (groups : List ℕ → Option Group) (ms : Modems) (after : Modems) : Type 0 where
  makes :
      (fresh : ℕ) (id : List ℕ)
      → All (λ (x : Modem). (x.self == fresh) ≡ false) ms.list
      → after ≡ (get_modem_by_id ms fresh id).0
      → Step groups ms after
  sets :
      (m : Modem) (s : ModemState)
      → listed ms.list m.self ≡ some m
      → after ≡ set_state ms m s
      → Step groups ms after
  assigns :
      (m : Modem) (locked : Bool)
      → listed ms.list m.self ≡ some m
      → after ≡ (assign ms m locked).0
      → Step groups ms after
  releases :
      (m : Modem) → listed ms.list m.self ≡ some m → after ≡ release ms m → Step groups ms after
  tells :
      (m : Modem) (polls : Bool) (word : ℕ) (pri : Option ℕ)
      → listed ms.list m.self ≡ some m
      → IsRanged pri
      → after ≡ set_capabilities ms m polls word pri
      → Step groups ms after
  finds : (job : Job) → after ≡ (find_modem groups ms job).0 → Step groups ms after

pub data Reach (groups : List ℕ → Option Group) (ms : Modems) : Modems → Type 0 where
  here : Reach groups ms ms
  next : {mid after : Modems} → Reach groups ms mid → Step groups mid after → Reach groups ms after

-- Without a modem yet.
abbrev pub no_modems : Modems
no_modems = record { list = []; modems_ready = 0 }

pub Step-IsModems :
    {groups : List ℕ → Option Group} {ms after : Modems}
    → Step groups ms after
    → IsModems ms
    → IsModems after
unfolding assign release
Step-IsModems {groups} {ms} (makes fresh id new e) v =
    rw e (get_modem_by_id-IsModems ms fresh id new v)
Step-IsModems {groups} {ms} (sets m s at e) v = rw e (set_state-IsModems ms m s at v)
Step-IsModems {groups} {ms} (assigns m locked at e) v = rw e (set_state-IsModems ms m busy at v)
Step-IsModems {groups} {ms} (releases m at e) v = rw e (set_state-IsModems ms m ready at v)
Step-IsModems {groups} {ms} (tells m polls word pri at low e) v =
    rw e (set_capabilities-IsModems ms m polls word pri at low v)
Step-IsModems {groups} {ms} (finds job e) v = rw e (find_modem-IsModems groups ms job v)

-- After any calls, the master list is sorted by priority, every modem is on it once, and modemsReady is the
-- number of the modems on it that are ready, when the priorities that the modems tell are of the documented
-- range.
pub Reach-IsModems :
    {groups : List ℕ → Option Group} {ms : Modems} → Reach groups no_modems ms → IsModems ms
unfolding count
Reach-IsModems here = record { sorted = tt; apart = tt; ranged = tt; counted = refl }
Reach-IsModems (next r s) = Step-IsModems s (Reach-IsModems r)
