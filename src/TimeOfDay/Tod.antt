-- ===== src/TimeOfDay/Tod.antt =====
-- libhylafax/TimeOfDay.h and libhylafax/TimeOfDay.c++: the state, and the search for the next time.
use hyla_fax.Base.{
  ℕ, zero, suc, ◌+◌, ◌-◌, ◌*◌, ◌%◌, ◌^◌, bit_and, Bool, not, ltb, leb, ◌==◌, if◌then◌else◌, List,
  [], ◌∷◌, ◌++◌,
}

-- _tod: a bit vector of days, Sunday in bit 0, and a range of minutes of a day. The link `next` is the
-- place in the list.
pub record Tod : Type 0 where
  pub days : ℕ
  pub start : ℕ
  pub end : ℕ

-- TimeOfDay: its first _tod, and the others that hang on it.
pub record TimeOfDay : Type 0 where
  pub tod : Tod
  pub next : List Tod

abbrev pub any_time : Tod
any_time = record { days = 0xff; start = 0; end = 24 * 60 }

-- The constructor.
abbrev pub new_tod : TimeOfDay
new_tod = record { tod = any_time; next = [] }

unfoldable pub reset : TimeOfDay → TimeOfDay
reset s = if s.tod.days == 0xff then s else new_tod

-- add; 0xff means that the first _tod is as the constructor made it.
unfoldable pub add : TimeOfDay → ℕ → ℕ → ℕ → TimeOfDay
add s days start end =
    let t : Tod = record { days = days; start = start; end = end } in
    if s.tod.days == 0xff then record s { tod = t } else record s { next = s.next ++ t ∷ [] }

-- `days & BIT(w)`.
abbrev pub day_ok : ℕ → ℕ → Bool
day_ok days w = not (bit_and days (2 ^ w) == 0)

-- The loop of nextDay from the day `w` on.
unfoldable pub day_rounds : ℕ → (days w d : ℕ) → ℕ
day_rounds zero days w d = d
day_rounds (suc rounds) days w d =
    let more = day_rounds rounds days ((w + 1) % 7) (d + 1) in if day_ok days w then d else more

-- nextDay. It looks at each day of the week once: 7 rounds are enough where a day is OK.
unfoldable pub next_day : (days d wday : ℕ) → ℕ
unfolding day_rounds
next_day days d wday = day_rounds 7 days ((wday + d) % 7) d

-- nextTime: the days and the minutes.
unfoldable pub next_parts : Tod → (wday hm : ℕ) → ℕ × ℕ
next_parts t wday hm =
    let d = if day_ok t.days wday then 0 else next_day t.days 1 wday in
    let d' = if d == 0 then next_day t.days (d + 1) wday else d in
    if leb t.start t.end
    then (if leb t.start hm
        then (if ltb t.end hm
            then (d' - 1, (24 * 60 - hm) + t.start)
            else if d == 0
            then (0, 0)
            else (d - 1, (24 * 60 - hm) + t.start))
        else (d, t.start - hm))
    else if leb t.start hm
    then (if d == 0 then (0, 0) else (d - 1, (24 * 60 - hm) + t.start))
    else if ltb t.end hm
    then (d, t.start - hm)
    else (d, 0)

unfoldable pub next_time : Tod → (wday hm : ℕ) → ℕ
unfolding next_parts
next_time t wday hm = let (d, mins) = next_parts t wday hm in d * 24 * 60 + mins

-- The fields of struct tm that nextTimeOfDay reads.
pub record Tm : Type 0 where
  pub tm_wday : ℕ
  pub tm_hour : ℕ
  pub tm_min : ℕ

-- The loop of nextTimeOfDay over the list.
unfoldable pub best_time : List Tod → (wday hm best : ℕ) → ℕ
best_time [] wday hm best = best
best_time (td ∷ tds) wday hm best =
    let diff = next_time td wday hm in best_time tds wday hm (if ltb diff best then diff else best)

-- nextTimeOfDay; `localtime` is the C library's.
unfoldable pub next_time_of_day : (ℕ → Tm) → TimeOfDay → ℕ → ℕ
unfolding best_time
next_time_of_day localtime s t =
    let tm = localtime t in
    let hm = tm.tm_hour * 60 + tm.tm_min in
    t + 60 * best_time (s.tod ∷ s.next) tm.tm_wday hm (7 * 24 * 60 + 1)
