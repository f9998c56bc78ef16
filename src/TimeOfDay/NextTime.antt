-- ===== src/TimeOfDay/NextTime.antt =====
-- nextTime (libhylafax/TimeOfDay.c++) finds a minute at which a job may be sent, and the first one where
-- the range of minutes does not go over midnight.
use hyla_fax.Base.{
  ℕ, ◌+◌, ◌-◌, ◌*◌, ◌/◌, ◌%◌, ◌≤◌, ◌<◌, Bool, true, false, not, ◌&&◌, ◌||◌, ltb, leb, ◌==◌,
  if◌then◌else◌, ◌≡◌, ◌⊎◌, refl, ap, sym, ◌∙◌, arith, inl, inr, Bool-cases,
}
use hyla_fax.TimeOfDay.Tod.{Tod, day_ok, next_day, next_time}
use hyla_fax.TimeOfDay.NextDay.{HasDay, IsFirstDay, next_day-IsFirstDay}

-- What a _tod permits, as nextTime reads it: a day that is OK, and a minute in the range, which goes over
-- midnight where it ends before it starts. The early part of such a range belongs to the named day itself.
abbrev pub in_range : Tod → ℕ → Bool
in_range t hm =
    if leb t.start t.end then leb t.start hm && leb hm t.end else leb t.start hm || leb hm t.end

abbrev pub accepts : Tod → (wday hm : ℕ) → Bool
accepts t wday hm = day_ok t.days wday && in_range t hm

-- The same, `m` minutes later.
abbrev pub accepts_after : Tod → (wday hm m : ℕ) → Bool
accepts_after t wday hm m = accepts t ((wday + (hm + m) / 1440) % 7) ((hm + m) % 1440)

-- What a _tod permits by the comment above parse: a range over midnight goes on to the next day, so its
-- early part belongs to the day after one that is OK.
abbrev pub documented : Tod → (wday hm : ℕ) → Bool
documented t wday hm =
    if leb t.start t.end
    then day_ok t.days wday && in_range t hm
    else (day_ok t.days wday && leb t.start hm) || (day_ok t.days ((wday + 6) % 7) && leb hm t.end)

abbrev pub documented_after : Tod → (wday hm m : ℕ) → Bool
documented_after t wday hm m = documented t ((wday + (hm + m) / 1440) % 7) ((hm + m) % 1440)

-- The early part of a range over midnight, on a day that is OK, after a day that is not.
abbrev pub is_early : Tod → (wday hm : ℕ) → Bool
is_early t wday hm =
    ltb t.end t.start && leb hm t.end && day_ok t.days wday && not (day_ok t.days ((wday + 6) % 7))

abbrev pub is_early_after : Tod → (wday hm m : ℕ) → Bool
is_early_after t wday hm m = is_early t ((wday + (hm + m) / 1440) % 7) ((hm + m) % 1440)

-- What nextTime takes as permitted is permitted by the comment as well, but there.
pub accepts-documented :
    (t : Tod) (wday hm m : ℕ)
    → accepts_after t wday hm m ≡ true
    → (documented_after t wday hm m ≡ true) ⊎ (is_early_after t wday hm m ≡ true)
accepts-documented t wday hm m ok = ground arith

module _ (t : Tod) (wday hm : ℕ) (has : HasDay t.days) (minute : hm < 1440) (today : wday < 7) where
  abbrev n : ℕ
  n = next_day t.days 1 wday

  next : IsFirstDay t.days 1 6 wday n
  next = next_day-IsFirstDay t.days 1 wday has

  here : day_ok t.days wday ≡ true → day_ok t.days ((wday + 0) % 7) ≡ true
  here ok = ap (day_ok t.days) {x = (wday + 0) % 7} {y = wday} (omega arith) ∙ ok

  later : (n == 0) ≡ false
  later = ground (arith, next.not_before)

  -- If the day is not OK, it is not OK in a week either.
  next_day_no_week : day_ok t.days wday ≡ false → n < 7
  next_day_no_week bad = elim (Bool-cases (n == 7)) [
    | inr less ↦ ground (arith, next.not_after)
    | inl week ↦
        let e : (wday + n) % 7 ≡ wday = ground arith in
        let ok : day_ok t.days wday ≡ true = ap (day_ok t.days) (sym e) ∙ next.found in
        absurd (ground (arith, ok, bad))
  ]

  -- Where nextTime lands: at the minute `h` of the day `k` on.
  record Landing : Type 0 where
    k : ℕ
    h : ℕ
    lands : hm + next_time t wday hm ≡ k * 1440 + h
    minute_lt : h < 1440
    day : day_ok t.days ((wday + k) % 7) ≡ true
    within : in_range t h ≡ true
    soon : hm + next_time t wday hm ≤ hm + 7 * 1440

  at_start :
      (m k : ℕ)
      → next_time t wday hm ≡ m
      → hm + m ≡ k * 1440 + t.start
      → t.start < 1440
      → day_ok t.days ((wday + k) % 7) ≡ true
      → m ≤ 7 * 1440
      → Landing
  at_start m k e lands early day soon = record {
    k = k;
    h = t.start;
    lands = omega (arith, e);
    minute_lt = early;
    day = day;
    within = ground arith;
    soon = omega (arith, e);
  }

  at_once :
      (m k : ℕ)
      → next_time t wday hm ≡ m
      → m ≡ k * 1440
      → k ≤ 7
      → in_range t hm ≡ true
      → day_ok t.days ((wday + k) % 7) ≡ true
      → Landing
  at_once m k e lands le within day = record {
    k = k;
    h = hm;
    lands = omega (arith, e);
    minute_lt = minute;
    day = day;
    within = within;
    soon = omega (arith, e);
  }

  landing_today : t.start < 1440 → day_ok t.days wday ≡ true → Landing
  unfolding next_time
  landing_today early ok = elim (Bool-cases (leb t.start t.end)) [
    | inl straight ↦ elim (Bool-cases (leb t.start hm)) [
      | inl begun ↦ elim (Bool-cases (ltb t.end hm)) [
        | inl over ↦
            at_start ((n - 1) * 24 * 60 + (24 * 60 - hm + t.start)) n
              (rw (ok, straight, begun, over) refl) (omega (arith, next.not_before)) early
              next.found (ground (arith, next.not_before, next.not_after))
        | inr within ↦
            at_once 0 0 (rw (ok, straight, begun, within) refl) refl (omega arith) (ground arith)
              (here ok)
      ]
      | inr before ↦
          at_start (t.start - hm) 0 (rw (ok, straight, before) (omega arith)) (ground arith) early
            (here ok) (omega arith)
    ]
    | inr wrapped ↦ elim (Bool-cases (leb t.start hm)) [
      | inl begun ↦
          at_once 0 0 (rw (ok, wrapped, begun) refl) refl (omega arith) (ground arith) (here ok)
      | inr before ↦ elim (Bool-cases (ltb t.end hm)) [
        | inl over ↦
            at_start (t.start - hm) 0 (rw (ok, wrapped, before, over) (omega arith)) (ground arith)
              early (here ok) (omega arith)
        | inr within ↦
            at_once 0 0 (rw (ok, wrapped, before, within) refl) refl (omega arith) (ground arith)
              (here ok)
      ]
    ]
  ]

  landing_later : t.start < 1440 → day_ok t.days wday ≡ false → Landing
  unfolding next_time
  landing_later early bad = elim (Bool-cases (leb t.start t.end)) [
    | inl straight ↦ elim (Bool-cases (leb t.start hm)) [
      | inl begun ↦
          at_start ((n - 1) * 24 * 60 + (24 * 60 - hm + t.start)) n
            (elim (Bool-cases (ltb t.end hm)) [
              | inl over ↦ rw (bad, straight, begun, over, later) refl
              | inr within ↦ rw (bad, straight, begun, within, later) refl
            ])
            (omega (arith, next.not_before)) early next.found
            (ground (arith, next.not_before, next.not_after))
      | inr before ↦
          at_start (n * 24 * 60 + (t.start - hm)) n (rw (bad, straight, before) refl) (ground arith)
            early next.found (ground (arith, next.not_before, next.not_after, next_day_no_week bad))
    ]
    | inr wrapped ↦ elim (Bool-cases (leb t.start hm)) [
      | inl begun ↦
          at_start ((n - 1) * 24 * 60 + (24 * 60 - hm + t.start)) n
            (rw (bad, wrapped, begun, later) refl) (omega (arith, next.not_before)) early next.found
            (ground (arith, next.not_before, next.not_after))
      | inr before ↦ elim (Bool-cases (ltb t.end hm)) [
        | inl over ↦
            at_start (n * 24 * 60 + (t.start - hm)) n (rw (bad, wrapped, before, over) refl)
              (ground arith) early next.found
              (ground (arith, next.not_before, next.not_after, next_day_no_week bad))
        | inr within ↦
            at_once (n * 24 * 60 + 0) n (rw (bad, wrapped, before, within) refl) (omega arith)
              (omega (arith, next.not_after)) (ground arith) next.found
      ]
    ]
  ]

  landing : t.start < 1440 → Landing
  landing early = elim (Bool-cases (day_ok t.days wday)) [
    | inl ok ↦ landing_today early ok
    | inr bad ↦ landing_later early bad
  ]

  -- The time that nextTime finds is permitted: for a _tod with a day that is OK and a range that starts
  -- within a day, from every minute of every day of the week.
  pub next_time-accepts : t.start < 1440 → accepts_after t wday hm (next_time t wday hm) ≡ true
  next_time-accepts early =
      let l = landing early in
      let day : (wday + (hm + next_time t wday hm) / 1440) % 7 ≡ (wday + l.k) % 7 =
        omega (arith, l.lands, l.minute_lt) in
      let min : (hm + next_time t wday hm) % 1440 ≡ l.h = omega (arith, l.lands, l.minute_lt) in
      rw (day, min, l.day) l.within

  -- nextTime looks a week ahead at most, for a _tod with a day that is OK and a range that starts within
  -- a day.
  pub next_time_bound : t.start < 1440 → next_time t wday hm ≤ 7 * 24 * 60
  next_time_bound early = omega (arith, (landing early).soon)

  not_later : leb t.start t.end ≡ true → hm + next_time t wday hm ≤ n * 1440 + t.start
  unfolding next_time
  not_later straight = ground (arith, next.not_before)

  not_today :
      (m : ℕ)
      → leb t.start t.end ≡ true
      → m < next_time t wday hm
      → hm + m < 1440
      → accepts t wday (hm + m) ≡ false
  unfolding next_time
  not_today m straight lt same_day = ground (arith, next.not_before)

  -- Where the range does not go over midnight, nextTime finds the first time that is permitted: no time
  -- before it is, from every minute of every day of the week, for a _tod with a day that is OK.
  pub next_time-first :
      (m : ℕ) → t.start ≤ t.end → m < next_time t wday hm → accepts_after t wday hm m ≡ false
  next_time-first m straight lt =
      let s : leb t.start t.end ≡ true = ground arith in
      let k = (hm + m) / 1440 in
      let h = (hm + m) % 1440 in
      elim (Bool-cases (k == 0)) [
        | inl today' ↦
            let day : (wday + k) % 7 ≡ wday = ground arith in
            let min : h ≡ hm + m = ground arith in rw (day, min) (not_today m s lt (ground arith))
        | inr after ↦ elim (Bool-cases (ltb k n)) [
          | inl before ↦ rw (next.first k (ground arith) (ground arith)) refl
          | inr reached ↦ let early : h < t.start = ground (arith, not_later s) in ground arith
        ]
      ]
