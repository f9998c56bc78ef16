-- ===== src/TimeOfDay/Tests.antt =====
-- Runs of the model of libhylafax/TimeOfDay.c++ on concrete specifications and times.
use hyla_fax.Base.{
  ℕ, ◌+◌, ◌-◌, ◌/◌, ◌%◌, ◌<◌, true, false, List, [], ◌∷◌, some, ◌≡◌, ◌⊎◌, refl, arith, inl,
}
use hyla_fax.TimeOfDay.Tod.{
  Tod, TimeOfDay, Tm, new_tod, next_day, day_rounds, next_time, next_parts, next_time_of_day,
  best_time, reset, add,
}
use hyla_fax.TimeOfDay.NextDay.{HasDay}
use hyla_fax.TimeOfDay.NextTime.{accepts_after, documented_after, is_early_after}
use hyla_fax.TimeOfDay.Soonest.{
  permits, permits_documented, permits_early, next_time_of_day-permits, next_time_of_day-first,
}
use hyla_fax.TimeOfDay.Parse.{
  parse, parse_specs, parse_spec, days_of, parse_days, find_day, skip, starts_with, scan_range,
  scan_u, scan_digits, digits, times_of, next_spec,
}
use hyla_fax.TimeOfDay.ParseValid.{IsTimeOfDay, Parsed, new_tod-IsTimeOfDay, parse-Parsed}

-- "MoWe/0830-1700,Wk": Monday and Wednesday between 8:30 and 17:00, or any time on a week day.
abbrev text : List ℕ
text = 77 ∷ 111 ∷ 87 ∷ 101 ∷ 47 ∷ 48 ∷ 56 ∷ 51 ∷ 48 ∷ 45 ∷ 49 ∷ 55 ∷ 48 ∷ 48 ∷ 44 ∷ 87 ∷ 107 ∷ []

abbrev office : Tod
office = record { days = 10; start = 510; end = 1020 }

abbrev week : Tod
week = record { days = 0x3e; start = 0; end = 1440 }

abbrev both : TimeOfDay
both = record { tod = office; next = week ∷ [] }

parse_run : parse new_tod text ≡ some both
unfolding parse reset parse_specs parse_spec days_of parse_days find_day skip starts_with scan_range
    scan_u scan_digits digits times_of next_spec add
parse_run = refl

has_office : HasDay 10
has_office = record { day = 1; day-lt = omega arith; is_ok = refl }

has_week : HasDay 0x3e
has_week = record { day = 1; day-lt = omega arith; is_ok = refl }

both-IsTimeOfDay : IsTimeOfDay both
both-IsTimeOfDay = record { first = has_office; others = (has_week, tt); set = inl refl }

parse-Parsed_example : Parsed (parse new_tod text)
parse-Parsed_example = parse-Parsed new_tod text new_tod-IsTimeOfDay

-- Wednesday at 18:00: the next time is Monday at 8:30.
next_time_run : next_time office 3 1080 ≡ 6630
unfolding next_time next_parts next_day day_rounds
next_time_run = refl

-- A clock that starts on a Saturday at 12:00.
abbrev clock : ℕ → Tm
clock t = record {
  tm_wday = (6 + t / 86400) % 7;
  tm_hour = (t / 3600 + 12) % 24;
  tm_min = (t / 60) % 60;
}

weekday : (t : ℕ) → (clock t).tm_wday < 7
weekday t = omega arith

hour : (t : ℕ) → (clock t).tm_hour < 24
hour t = omega arith

minute : (t : ℕ) → (clock t).tm_min < 60
minute t = omega arith

next_time_of_day-permits_example :
    (permits (office ∷ week ∷ []) 6 720 ((next_time_of_day clock both 0 - 0) / 60) ≡ true)
    × ((permits_documented (office ∷ week ∷ []) 6 720 ((next_time_of_day clock both 0 - 0) / 60)
          ≡ true)
        ⊎ (permits_early (office ∷ week ∷ []) 6 720 ((next_time_of_day clock both 0 - 0) / 60)
            ≡ true))
next_time_of_day-permits_example =
    next_time_of_day-permits clock weekday hour minute both
      (has_office, omega arith, (has_week, omega arith, tt)) 0

-- Monday at 0:00 is the first time on a week day.
next_time_of_day_run : next_time_of_day clock both 0 ≡ 129600
unfolding next_time_of_day best_time next_time next_parts next_day day_rounds
next_time_of_day_run = refl

next_time_of_day-first_example : permits (office ∷ week ∷ []) 6 720 1000 ≡ false
next_time_of_day-first_example =
    next_time_of_day-first clock weekday hour minute both
      (has_office, omega arith, (has_week, omega arith, tt)) 0 1000 (omega arith, (omega arith, tt))
      (rw next_time_of_day_run (omega arith))

-- A range over midnight, Friday 22:00 to 3:00, on a Thursday at 23:00: the answer is Friday at 22:00,
-- although Friday at 0:00 is permitted.
abbrev late : Tod
late = record { days = 32; start = 1320; end = 180 }

late_run : next_time late 4 1380 ≡ 1380
unfolding next_time next_parts next_day day_rounds
late_run = refl

late_earlier : accepts_after late 4 1380 60 ≡ true
late_earlier = refl

-- On a Friday at 1:00 the answer is that minute, which is permitted as nextTime reads the range and not as
-- the comment above parse does, by which the range permits a Saturday at 1:00.
friday_run : next_time late 5 60 ≡ 0
unfolding next_time next_parts next_day day_rounds
friday_run = refl

friday_documented : documented_after late 5 60 0 ≡ false
friday_documented = refl

friday_early : is_early_after late 5 60 0 ≡ true
friday_early = refl

saturday : accepts_after late 6 60 0 ≡ false
saturday = refl

saturday_documented : documented_after late 6 60 0 ≡ true
saturday_documented = refl
