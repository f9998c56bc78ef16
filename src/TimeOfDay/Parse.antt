-- ===== src/TimeOfDay/Parse.antt =====
-- TimeOfDay::parse and the copy constructor (libhylafax/TimeOfDay.c++). A string is the list of its
-- characters before the NUL; the end of the list reads as the NUL.
use hyla_fax.Base.{
  ℕ, zero, suc, ◌+◌, ◌-◌, ◌*◌, ◌/◌, ◌%◌, ◌^◌, bit_or, Bool, true, not, ◌&&◌, ◌||◌, ◌==◌,
  if◌then◌else◌, List, [], ◌∷◌, Option, none, some, drop, length,
}
unfoldable pub use hyla_fax.Base.Text.{is_space, is_digit, is_alpha, char_at, skip, digits}
use hyla_fax.TimeOfDay.Tod.{Tod, TimeOfDay, reset, add}

-- strneq with the length of the shorter string.
unfoldable pub starts_with : List ℕ → List ℕ → Bool
starts_with [] cp = true
starts_with (c ∷ cs) cp = char_at cp 0 == c && starts_with cs (drop 1 cp)

-- dayNames, from the place in it on: the day's bit and the third letter of its name.
abbrev pub day_names : List (ℕ × ℕ × ℕ)
day_names =
    (83, 117, 110)
    ∷ (77, 111, 110)
    ∷ (84, 117, 101)
    ∷ (87, 101, 100)
    ∷ (84, 104, 117)
    ∷ (70, 114, 105)
    ∷ (83, 97, 116)
    ∷ []

unfoldable pub find_day : List (ℕ × ℕ × ℕ) → (i : ℕ) → List ℕ → Option (ℕ × ℕ)
find_day [] i cp = none
find_day ((a, b, c) ∷ names) i cp =
    if char_at cp 0 == a && char_at cp 1 == b then some (i, c) else find_day names (i + 1) cp

-- What may stand between the names of days.
abbrev pub is_sugar : ℕ → Bool
is_sugar c = not (is_alpha c || is_digit c) && not (c == 44)

abbrev pub before_time : ℕ → Bool
before_time c = not (c == 44) && not (is_digit c)

-- The list of days; `fuel` bounds the rounds of the loop.
unfoldable pub parse_days : (fuel days : ℕ) → List ℕ → Option (ℕ × List ℕ)
parse_days zero days cp = none
parse_days (suc fuel) days cp = elim (find_day day_names 0 cp) [
  | none ↦ some (days, cp)
  | some (i, third) ↦
      let days' = bit_or days (2 ^ i) in
      let cp' = skip is_sugar (drop (if char_at cp 2 == third then 3 else 2) cp) in
      let more = parse_days fuel days' cp' in
      if is_alpha (char_at cp' 0) then more else some (days', cp')
]

-- The days of one specification, before the default.
unfoldable pub days_of : List ℕ → Option (ℕ × List ℕ)
days_of cp =
    if starts_with (65 ∷ 110 ∷ 121 ∷ []) cp
    then some (0x7f, drop 3 cp)
    else if starts_with (87 ∷ 107 ∷ []) cp
    then some (0x3e, drop 2 cp)
    else if is_alpha (char_at cp 0)
    then parse_days (suc (length cp)) 0 cp
    else some (0, cp)

-- The conversion %u of sscanf: white space, a sign, digits. C leaves a number of more than 32 bits
-- undefined; here it wraps around, as does the negation.
unfoldable pub scan_digits : List ℕ → Option (ℕ × List ℕ)
scan_digits cp =
    let (value, rest) = digits 0 cp in
    if is_digit (char_at cp 0) then some (value % 2 ^ 32, rest) else none

unfoldable pub scan_u : List ℕ → Option (ℕ × List ℕ)
scan_u cp =
    let cp' = skip is_space cp in
    if char_at cp' 0 == 45
    then elim (scan_digits (drop 1 cp')) [
      | none ↦ none
      | some (value, rest) ↦ some ((2 ^ 32 - value) % 2 ^ 32, rest)
    ]
    else scan_digits (if char_at cp' 0 == 43 then drop 1 cp' else cp')

-- sscanf(cp, "%u-%u", &start, &end) == 2.
unfoldable pub scan_range : List ℕ → Option (ℕ × ℕ)
scan_range cp = elim (scan_u cp) [
  | none ↦ none
  | some (start, rest) ↦
      if char_at rest 0 == 45
      then elim (scan_u (drop 1 rest)) [ none ↦ none | some (end, rest') ↦ some (start, end) ]
      else none
]

-- From military time to minutes.
abbrev pub minutes : ℕ → ℕ
minutes time = (time / 100) * 60 + time % 100

unfoldable pub times_of : List ℕ → ℕ × ℕ
times_of cp = elim (scan_range cp) [
  | none ↦ (0, 24 * 60)
  | some (start, end) ↦ (minutes start, minutes end)
]

-- `while (*cp && *cp++ != ',')`.
unfoldable pub next_spec : List ℕ → List ℕ
next_spec [] = []
next_spec (c ∷ cp) = if c == 44 then cp else next_spec cp

-- One round of parse on a string that is not empty: the state and what is left.
unfoldable pub parse_spec : TimeOfDay → List ℕ → Option (TimeOfDay × List ℕ)
parse_spec s cp = elim (days_of (skip is_space cp)) [
  | none ↦ none
  | some (days, rest) ↦
      let time = skip before_time rest in
      let (start, end) = times_of time in
      some (add s (if days == 0 then 0x7f else days) start end, next_spec time)
]

-- The rounds; `fuel` bounds them.
unfoldable pub parse_specs : (fuel : ℕ) → TimeOfDay → List ℕ → Option TimeOfDay
parse_specs fuel s [] = some s
parse_specs zero s (c ∷ cp) = none
parse_specs (suc fuel) s (c ∷ cp) = elim (parse_spec s (c ∷ cp)) [
  | none ↦ none
  | some (s', rest) ↦ parse_specs fuel s' rest
]

unfoldable pub parse : TimeOfDay → List ℕ → Option TimeOfDay
parse s cp = parse_specs (length cp) (reset s) cp

-- The copy constructor: the first _tod, then an add for each of the others.
unfoldable pub add_all : TimeOfDay → List Tod → TimeOfDay
add_all s [] = s
add_all s (t ∷ ts) = add_all (add s t.days t.start t.end) ts

unfoldable pub copy : TimeOfDay → TimeOfDay
copy other = add_all (record { tod = other.tod; next = [] }) other.next
