-- ===== src/TimeOfDay/Soonest.antt =====
-- nextTimeOfDay (libhylafax/TimeOfDay.c++) takes the soonest of the times that its list permits.
use hyla_fax.Base.{
  ℕ, ◌+◌, ◌-◌, ◌*◌, ◌/◌, ◌%◌, ◌≤◌, ◌<◌, Bool, true, false, ◌||◌, ltb, List, [], ◌∷◌, ◌≡◌, ◌⊎◌, refl,
  arith, inl, inr, Bool-cases,
}
use hyla_fax.TimeOfDay.Tod.{Tod, TimeOfDay, Tm, next_time, best_time, next_time_of_day}
use hyla_fax.TimeOfDay.NextDay.{HasDay}
use hyla_fax.TimeOfDay.NextTime.{
  accepts_after, documented_after, is_early_after, accepts-documented, next_time-accepts,
  next_time-first, next_time_bound,
}

-- Some _tod of a list permits the minute that is `m` minutes later, as nextTime reads its range.
abbrev pub permits : List Tod → (wday hm m : ℕ) → Bool
permits [] wday hm m = false
permits (t ∷ ts) wday hm m = accepts_after t wday hm m || permits ts wday hm m

-- The same by the comment above parse, where the early part of a range over midnight belongs to the day
-- after one that is OK; and the minutes that nextTime permits beyond that: those in the early part of such a
-- range on a day that is OK where the day before is not.
abbrev pub permits_documented : List Tod → (wday hm m : ℕ) → Bool
permits_documented [] wday hm m = false
permits_documented (t ∷ ts) wday hm m =
    documented_after t wday hm m || permits_documented ts wday hm m

abbrev pub permits_early : List Tod → (wday hm m : ℕ) → Bool
permits_early [] wday hm m = false
permits_early (t ∷ ts) wday hm m = is_early_after t wday hm m || permits_early ts wday hm m

permits-documented :
    (ts : List Tod) (wday hm m : ℕ)
    → permits ts wday hm m ≡ true
    → (permits_documented ts wday hm m ≡ true) ⊎ (permits_early ts wday hm m ≡ true)
permits-documented [] wday hm m ok = absurd (cc ok)
permits-documented (t ∷ ts) wday hm m ok = elim (Bool-cases (accepts_after t wday hm m)) [
  | inl here ↦ elim (accepts-documented t wday hm m here) [
    | inl agrees ↦ inl (rw agrees refl)
    | inr early ↦ inr (rw early refl)
  ]
  | inr not_here ↦ elim (permits-documented ts wday hm m (rw not_here at ok)) [
    | inl agrees ↦ inl (ground (arith, agrees))
    | inr early ↦ inr (ground (arith, early))
  ]
]

-- Every _tod of a list has a day that is OK and starts within a day.
abbrev pub AreValid : List Tod → Type 0
AreValid [] = Unit {0}
AreValid (t ∷ ts) = HasDay t.days × (t.start < 1440) × AreValid ts

-- No range of a list goes over midnight.
abbrev pub AreStraight : List Tod → Type 0
AreStraight [] = Unit {0}
AreStraight (t ∷ ts) = (t.start ≤ t.end) × AreStraight ts

module _ (wday hm : ℕ) (minute : hm < 1440) (today : wday < 7) where
  best_time_le : (ts : List Tod) (best : ℕ) → best_time ts wday hm best ≤ best
  unfolding best_time
  best_time_le [] best = omega arith
  best_time_le (t ∷ ts) best = elim (Bool-cases (ltb (next_time t wday hm) best)) [
    | inl less ↦ rw less (ground (arith, best_time_le ts (next_time t wday hm)))
    | inr not_less ↦ rw not_less (best_time_le ts best)
  ]

  -- The head of a list permits a time, or the rest does.
  permits-here :
      (t : Tod) (ts : List Tod) (m : ℕ)
      → accepts_after t wday hm m ≡ true
      → permits (t ∷ ts) wday hm m ≡ true
  permits-here t ts m ok = rw ok refl

  permits-there :
      (t : Tod) (ts : List Tod) (m : ℕ)
      → permits ts wday hm m ≡ true
      → permits (t ∷ ts) wday hm m ≡ true
  permits-there t ts m ok = elim (Bool-cases (accepts_after t wday hm m)) [
    | inl here ↦ rw here refl
    | inr not_here ↦ rw (not_here, ok) refl
  ]

  best_time-permits :
      (ts : List Tod) (best : ℕ)
      → AreValid ts
      → best_time ts wday hm best < best
      → permits ts wday hm (best_time ts wday hm best) ≡ true
  unfolding best_time
  best_time-permits [] best valid less = absurd (omega arith)
  best_time-permits (t ∷ ts) best (has, early, valid) less =
      let diff = next_time t wday hm in
      elim (Bool-cases (ltb diff best)) [
        | inl sooner ↦ rw sooner (elim (Bool-cases (ltb (best_time ts wday hm diff) diff)) [
          | inl other ↦ permits-there t ts _ (best_time-permits ts diff valid (ground arith))
          | inr this ↦
              let e : best_time ts wday hm diff ≡ diff = ground (arith, best_time_le ts diff) in
              permits-here t ts _ (rw e (next_time-accepts t wday hm has minute today early))
        ])
        | inr not_sooner ↦
            rw not_sooner (permits-there t ts _ (best_time-permits ts best valid (ground arith)))
      ]

  best_time-first :
      (ts : List Tod) (best m : ℕ)
      → AreValid ts
      → AreStraight ts
      → m < best_time ts wday hm best
      → permits ts wday hm m ≡ false
  unfolding best_time
  best_time-first [] best m valid straight less = refl
  best_time-first (t ∷ ts) best m (has, early, valid) (le, straight) less =
      let diff = next_time t wday hm in
      elim (Bool-cases (ltb diff best)) [
        | inl sooner ↦
            let less' : m < best_time ts wday hm diff = rw sooner at less in
            let here : m < diff = omega (arith, best_time_le ts diff) in
            rw (next_time-first t wday hm has minute today m le here)
              (best_time-first ts diff m valid straight less')
        | inr not_sooner ↦
            let less' : m < best_time ts wday hm best = rw not_sooner at less in
            let here : m < diff = ground (arith, best_time_le ts best) in
            rw (next_time-first t wday hm has minute today m le here)
              (best_time-first ts best m valid straight less')
      ]

-- The minutes from now until the time that nextTimeOfDay finds, and what the two tests above say of them.
abbrev pub minute_of_day : Tm → ℕ
minute_of_day tm = tm.tm_hour * 60 + tm.tm_min

module _ (localtime : ℕ → Tm) (weekday : (t : ℕ) → (localtime t).tm_wday < 7)
    (hour : (t : ℕ) → (localtime t).tm_hour < 24) (minute : (t : ℕ) → (localtime t).tm_min < 60)
    (s : TimeOfDay) (valid : AreValid (s.tod ∷ s.next)) (now : ℕ) where
  abbrev tm : Tm
  tm = localtime now

  abbrev found : ℕ
  found = best_time (s.tod ∷ s.next) tm.tm_wday (minute_of_day tm) (7 * 24 * 60 + 1)

  minute_lt : minute_of_day tm < 1440
  minute_lt = omega (arith, hour now, minute now)

  in_a_week : found < 7 * 24 * 60 + 1
  unfolding best_time
  in_a_week =
      let (has, early, valid') = valid in
      let bound =
        next_time_bound s.tod tm.tm_wday (minute_of_day tm) has minute_lt (weekday now) early in
      ground (
        arith,
        bound,
        best_time_le tm.tm_wday (minute_of_day tm) minute_lt (weekday now) s.next
            (next_time s.tod tm.tm_wday (minute_of_day tm)),
      )

  found_minutes : (next_time_of_day localtime s now - now) / 60 ≡ found
  unfolding next_time_of_day
  found_minutes = omega arith

  found-permits : permits (s.tod ∷ s.next) tm.tm_wday (minute_of_day tm) found ≡ true
  found-permits =
      best_time-permits tm.tm_wday (minute_of_day tm) minute_lt (weekday now) (s.tod ∷ s.next)
        (7 * 24 * 60 + 1) valid in_a_week

  -- The time that nextTimeOfDay returns is permitted by a _tod of the list as nextTime reads it: its day is
  -- OK and its minute is in the range, and the early part of a range over midnight, as 0:00 to 3:00 of
  -- Fr2200-0300, belongs to the named day itself. The time is also permitted as the comment above parse says,
  -- by which that part belongs to the next day, unless it is in the early part of a range over midnight of a
  -- _tod that has this day and not the day before. Each _tod has a day that is OK and starts within a day,
  -- and the C library's localtime gives a day of the week, an hour and a minute.
  pub next_time_of_day-permits :
      (permits
          (s.tod ∷ s.next)
          tm.tm_wday
          (minute_of_day tm)
          ((next_time_of_day localtime s now - now) / 60)
        ≡ true)
      × ((permits_documented
              (s.tod ∷ s.next)
              tm.tm_wday
              (minute_of_day tm)
              ((next_time_of_day localtime s now - now) / 60)
            ≡ true)
          ⊎ (permits_early
                (s.tod ∷ s.next)
                tm.tm_wday
                (minute_of_day tm)
                ((next_time_of_day localtime s now - now) / 60)
              ≡ true))
  next_time_of_day-permits = rw found_minutes (
    found-permits,
    permits-documented (s.tod ∷ s.next) tm.tm_wday (minute_of_day tm) found found-permits,
  )

  -- nextTimeOfDay returns the time it is given or a whole number of minutes later, within a week, if each
  -- _tod of the list has a day that is OK and starts within a day, and if the C library's localtime gives
  -- a day of the week, an hour and a minute.
  pub next_time_of_day-within :
      (now ≤ next_time_of_day localtime s now)
      × (next_time_of_day localtime s now ≤ now + 7 * 24 * 60 * 60)
      × ((next_time_of_day localtime s now - now) % 60 ≡ 0)
  unfolding next_time_of_day
  next_time_of_day-within = (omega arith, omega (arith, in_a_week), omega arith)

  -- No minute before the time that nextTimeOfDay returns is permitted, if each _tod of the list has a day
  -- that is OK, starts within a day and does not go over midnight, and if the C library's localtime gives
  -- a day of the week, an hour and a minute.
  pub next_time_of_day-first :
      (m : ℕ)
      → AreStraight (s.tod ∷ s.next)
      → now + 60 * m < next_time_of_day localtime s now
      → permits (s.tod ∷ s.next) tm.tm_wday (minute_of_day tm) m ≡ false
  unfolding next_time_of_day
  next_time_of_day-first m straight less =
      best_time-first tm.tm_wday (minute_of_day tm) minute_lt (weekday now) (s.tod ∷ s.next)
        (7 * 24 * 60 + 1) m valid straight (omega arith)
