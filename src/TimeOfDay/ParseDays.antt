-- ===== src/TimeOfDay/ParseDays.antt =====
-- TimeOfDay::parse (libhylafax/TimeOfDay.c++) ends, and leaves specifications that each have a day that
-- is OK; the copy constructor copies all of them.
use hyla_fax.Base.{
  ℕ, zero, suc, ◌+◌, ◌-◌, ◌^◌, ◌≤◌, ◌<◌, bit_or, Bool, true, false, ◌&&◌, ◌||◌, ltb, ◌==◌,
  if◌then◌else◌, List, [], ◌∷◌, Option, none, some, drop, length, ◌≡◌, refl, arith, inl, inr,
  Bool-cases,
}
use hyla_fax.Base.Checks.{all_below, all_below_sound}
use hyla_fax.Base.Lists.{length-drop}
use hyla_fax.TimeOfDay.Tod.{day_ok, next_day, day_rounds}
use hyla_fax.TimeOfDay.NextDay.{HasDay}
use hyla_fax.TimeOfDay.Parse.{
  skip, find_day, day_names, parse_days, days_of, next_spec, is_sugar, is_alpha, char_at,
  starts_with,
}

-- Every bit vector of the seven days but 0 has a day.
seven_days :
    all_below 128 (λ d. d == 0 || ltb (next_day d 0 0) 7 && day_ok d (next_day d 0 0)) ≡ true
unfolding all_below next_day day_rounds
seven_days = refl

days_or : all_below 128 (λ d. all_below 7 (λ i. ltb (bit_or d (2 ^ i)) 128)) ≡ true
unfolding all_below
days_or = refl

pub HasDay-below : (d : ℕ) → d < 128 → (d == 0) ≡ false → HasDay d
HasDay-below d lt nonzero =
    let every = all_below_sound 128 _ d seven_days lt in
    record {
      day = next_day d 0 0;
      day-lt = ground (arith, every, nonzero);
      is_ok = ground (arith, every, nonzero);
    }

pub length-skip : (test : ℕ → Bool) (cp : List ℕ) → length (skip test cp) ≤ length cp
unfolding skip
length-skip test [] = omega arith
length-skip test (c ∷ cp) = elim (Bool-cases (test c)) [
  | inl more ↦ rw more (omega (arith, length-skip test cp))
  | inr stop ↦ rw stop (omega arith)
]

pub length-next_spec : (cp : List ℕ) → length (next_spec cp) ≤ length cp - 1
unfolding next_spec
length-next_spec [] = omega arith
length-next_spec (c ∷ cp) = elim (Bool-cases (c == 44)) [
  | inl comma ↦ rw comma (omega arith)
  | inr other ↦ rw other (omega (arith, length-next_spec cp))
]

-- The days that a string names, and what is left of its characters.
unfoldable pub DaysRead : (left : ℕ) → Option (ℕ × List ℕ) → Type 0
DaysRead left none = ⊥
DaysRead left (some (days, rest)) = (days < 128) × (length rest ≤ left)

-- The index of a day.
DayFound : (bound : ℕ) → Option (ℕ × ℕ) → Type 0
DayFound bound none = Unit {0}
DayFound bound (some (i, third)) = i < bound

find_day-DayFound :
    (names : List (ℕ × ℕ × ℕ)) (i : ℕ) (cp : List ℕ)
    → DayFound (i + length names) (find_day names i cp)
unfolding find_day DayFound
find_day-DayFound [] i cp = tt
find_day-DayFound ((a, b, c) ∷ names) i cp =
    elim (Bool-cases (char_at cp 0 == a && char_at cp 1 == b)) [
      | inl this ↦ rw this (omega arith)
      | inr other ↦
          let e : i + 1 + length names ≡ i + suc (length names) = omega arith in
          rw other (rw e at (find_day-DayFound names (i + 1) cp))
    ]

DaysRead-if :
    (left : ℕ) (b : Bool) (x y : Option (ℕ × List ℕ))
    → DaysRead left x
    → DaysRead left y
    → DaysRead left (if b then x else y)
DaysRead-if left true x y fx fy = fx
DaysRead-if left false x y fx fy = fy

DaysRead-more :
    (left more : ℕ) (x : Option (ℕ × List ℕ)) → left ≤ more → DaysRead left x → DaysRead more x
unfolding DaysRead
DaysRead-more left more none le x = absurd x
DaysRead-more left more (some (days, rest)) le (lt, short) = (lt, omega (arith, short))

length-drop_some : (n c : ℕ) (cp : List ℕ) → 1 ≤ n → length (drop n (c ∷ cp)) ≤ length cp
length-drop_some n c cp le = omega (arith, length-drop n (c ∷ cp))

days_of-day : (days i : ℕ) → days < 128 → i < 7 → bit_or days (2 ^ i) < 128
days_of-day days i lt seven =
    let every = all_below_sound 7 _ i (all_below_sound 128 _ days days_or lt) seven in
    ground (arith, every)

module _ (fuel days c : ℕ) (cp : List ℕ) (lt : days < 128)
    (enough : suc (length cp) < suc fuel) where
  -- A round of the loop over the names of days, given what the rounds after it do.
  parse_days-round :
      ((days' : ℕ) (cp' : List ℕ)
        → days' < 128
        → length cp' < fuel
        → DaysRead (length cp') (parse_days fuel days' cp'))
      → (o : Option (ℕ × ℕ)) → find_day day_names 0 (c ∷ cp) ≡ o
      → DayFound 7 o
      → DaysRead (suc (length cp)) (parse_days (suc fuel) days (c ∷ cp))
  unfolding parse_days DaysRead DayFound
  parse_days-round more none e found = rw (parse_days, e) (lt, omega arith)
  parse_days-round more (some (i, third)) e found =
      let cut = if char_at (c ∷ cp) 2 == third then 3 else 2 in
      let cut-le : 1 ≤ cut = ground arith in
      let cp' = skip is_sugar (drop cut (c ∷ cp)) in
      let short : length cp' ≤ length cp =
        omega (arith, length-skip is_sugar (drop cut (c ∷ cp)), length-drop_some cut c cp cut-le) in
      let days' = bit_or days (2 ^ i) in
      let lt' : days' < 128 = days_of-day days i lt found in
      let stop : DaysRead (suc (length cp)) (some (days', cp')) = (lt', omega (arith, short)) in
      let go_on : DaysRead (suc (length cp)) (parse_days fuel days' cp') =
        DaysRead-more (length cp') (suc (length cp)) (parse_days fuel days' cp')
          (omega (arith, short)) (more days' cp' lt' (omega (arith, short))) in
      rw (parse_days, e) (DaysRead-if (suc (length cp)) (is_alpha (char_at cp' 0)) _ _ go_on stop)

-- suc (length cp) rounds are enough for the list of days.
parse_days-DaysRead :
    (fuel days : ℕ) (cp : List ℕ)
    → days < 128
    → length cp < fuel
    → DaysRead (length cp) (parse_days fuel days cp)
unfolding parse_days DaysRead find_day
parse_days-DaysRead zero days cp lt enough = absurd (omega arith)
parse_days-DaysRead (suc fuel) days [] lt enough = (lt, omega arith)
parse_days-DaysRead (suc fuel) days (c ∷ cp) lt enough =
    parse_days-round fuel days c cp lt enough
      (λ days' cp' lt' enough'. parse_days-DaysRead fuel days' cp' lt' enough')
      (find_day day_names 0 (c ∷ cp)) refl (find_day-DayFound day_names 0 (c ∷ cp))

pub days_of-DaysRead : (cp : List ℕ) → DaysRead (length cp) (days_of cp)
unfolding days_of DaysRead
days_of-DaysRead cp =
    let week : DaysRead (length cp) (some (0x3e, drop 2 cp)) =
      (omega arith, omega (arith, length-drop 2 cp)) in
    let every : DaysRead (length cp) (some (0x7f, drop 3 cp)) =
      (omega arith, omega (arith, length-drop 3 cp)) in
    let nothing : DaysRead (length cp) (some (0, cp)) = (omega arith, omega arith) in
    let list = parse_days-DaysRead (suc (length cp)) 0 cp (omega arith) (omega arith) in
    DaysRead-if (length cp) (starts_with (65 ∷ 110 ∷ 121 ∷ []) cp) _ _ every (
      DaysRead-if (length cp) (starts_with (87 ∷ 107 ∷ []) cp) _ _ week
        (DaysRead-if (length cp) (is_alpha (char_at cp 0)) _ _ list nothing))
