-- ===== src/TimeOfDay/ParseValid.antt =====
-- TimeOfDay::parse (libhylafax/TimeOfDay.c++) ends on every string, and leaves specifications that each
-- have a day that is OK; the copy constructor copies all of them.
use hyla_fax.Base.{
  ℕ, zero, suc, ◌≤◌, ◌<◌, false, ◌==◌, if◌then◌else◌, List, [], ◌∷◌, ◌++◌, Option, none, some,
  length, ◌≡◌, ◌⊎◌, refl, ap, sym, ◌∙◌, arith, inl, inr, Bool-cases,
}
use mathlib.Core.List.{append_assoc, append-nil}
use hyla_fax.TimeOfDay.Tod.{Tod, TimeOfDay, new_tod, reset, add}
use hyla_fax.TimeOfDay.NextDay.{HasDay}
use hyla_fax.TimeOfDay.Parse.{
  skip, days_of, next_spec, parse_spec, parse_specs, parse, add_all, copy, is_space, before_time,
  times_of,
}
use hyla_fax.TimeOfDay.ParseDays.{
  HasDay-below, length-skip, length-next_spec, DaysRead, days_of-DaysRead,
}

abbrev pub HaveDays : List Tod → Type 0
HaveDays [] = Unit {0}
HaveDays (t ∷ ts) = HasDay t.days × HaveDays ts

-- The state of a TimeOfDay between its operations: each _tod has a day that is OK, and there is a second
-- one only where the first one has been set.
pub record IsTimeOfDay (s : TimeOfDay) : Type 0 where
  pub first : HasDay s.tod.days
  pub others : HaveDays s.next
  pub set : ((s.tod.days == 0xff) ≡ false) ⊎ (s.next ≡ [])

HasDay-any : HasDay 0xff
HasDay-any = record { day = 0; day-lt = omega arith; is_ok = refl }

pub new_tod-IsTimeOfDay : IsTimeOfDay new_tod
new_tod-IsTimeOfDay = record { first = HasDay-any; others = tt; set = inr refl }

reset-IsTimeOfDay : (s : TimeOfDay) → IsTimeOfDay s → IsTimeOfDay (reset s)
unfolding reset
reset-IsTimeOfDay s valid = elim (Bool-cases (s.tod.days == 0xff)) [
  | inl fresh ↦ rw fresh valid
  | inr used ↦ rw used new_tod-IsTimeOfDay
]

HaveDays-append : (ts : List Tod) (t : Tod) → HaveDays ts → HasDay t.days → HaveDays (ts ++ t ∷ [])
HaveDays-append [] t have has = (has, tt)
HaveDays-append (u ∷ ts) t (here, have) has = (here, HaveDays-append ts t have has)

-- A list of days that a specification may have.
add-IsTimeOfDay :
    (s : TimeOfDay) (days start end : ℕ)
    → IsTimeOfDay s
    → HasDay days
    → days < 128
    → IsTimeOfDay (add s days start end)
unfolding add
add-IsTimeOfDay s days start end valid has lt = elim (Bool-cases (s.tod.days == 0xff)) [
  | inl fresh ↦ rw fresh (record { first = has; others = valid.others; set = inl (ground arith) })
  | inr used ↦ rw used (record {
    first = valid.first;
    others = HaveDays-append s.next _ valid.others has;
    set = inl used;
  })
]

-- One specification read: the state is valid, and fewer characters are left.
SpecRead : (length_before : ℕ) → Option (TimeOfDay × List ℕ) → Type 0
SpecRead n none = ⊥
SpecRead n (some (s, rest)) = IsTimeOfDay s × (length rest < n)

module _ (s : TimeOfDay) (c : ℕ) (cp : List ℕ) (valid : IsTimeOfDay s) where
  abbrev text : List ℕ
  text = skip is_space (c ∷ cp)

  parse_spec-of :
      (o : Option (ℕ × List ℕ))
      → days_of text ≡ o
      → DaysRead (length text) o
      → SpecRead (suc (length cp)) (parse_spec s (c ∷ cp))
  unfolding parse_spec SpecRead DaysRead
  parse_spec-of none e read = absurd read
  parse_spec-of (some (days, rest)) e (lt, short) =
      let time = skip before_time rest in
      let left : length (next_spec time) < suc (length cp) = omega (
        arith,
        length-next_spec time,
        length-skip before_time rest,
        short,
        length-skip is_space (c ∷ cp),
      ) in
      let days' = if days == 0 then 0x7f else days in
      let lt' : days' < 128 = ground (arith, lt) in
      let has : HasDay days' = HasDay-below days' lt' (ground arith) in
      rw (parse_spec, e)
        (add-IsTimeOfDay s days' (times_of time).0 (times_of time).1 valid has lt', left)

  parse_spec-SpecRead : SpecRead (suc (length cp)) (parse_spec s (c ∷ cp))
  parse_spec-SpecRead = parse_spec-of (days_of text) refl (days_of-DaysRead text)

-- The whole string read.
unfoldable pub Parsed : Option TimeOfDay → Type 0
Parsed none = ⊥
Parsed (some s) = IsTimeOfDay s

parse_specs-of :
    (fuel : ℕ) (s : TimeOfDay) (c : ℕ) (cp : List ℕ)
    → ((s' : TimeOfDay) (rest : List ℕ)
        → IsTimeOfDay s'
        → length rest ≤ fuel
        → Parsed (parse_specs fuel s' rest))
    → length cp < suc fuel
    → (o : Option (TimeOfDay × List ℕ)) → parse_spec s (c ∷ cp) ≡ o
    → SpecRead (suc (length cp)) o
    → Parsed (parse_specs (suc fuel) s (c ∷ cp))
unfolding parse_specs SpecRead Parsed
parse_specs-of fuel s c cp more enough none e read = absurd read
parse_specs-of fuel s c cp more enough (some (s', rest)) e (valid, short) =
    rw (parse_specs, e) (more s' rest valid (omega (arith, short)))

parse_specs-Parsed :
    (fuel : ℕ) (s : TimeOfDay) (cp : List ℕ)
    → IsTimeOfDay s
    → length cp ≤ fuel
    → Parsed (parse_specs fuel s cp)
unfolding parse_specs Parsed
parse_specs-Parsed zero s [] valid enough = valid
parse_specs-Parsed zero s (c ∷ cp) valid enough = absurd (omega arith)
parse_specs-Parsed (suc fuel) s [] valid enough = valid
parse_specs-Parsed (suc fuel) s (c ∷ cp) valid enough =
    parse_specs-of fuel s c cp (λ s' rest valid' le. parse_specs-Parsed fuel s' rest valid' le)
      (omega arith) (parse_spec s (c ∷ cp)) refl (parse_spec-SpecRead s c cp valid)

-- parse ends on every string, within as many rounds as the string has characters, and leaves a valid
-- state, whose specifications each have a day that is OK, so that nextDay ends on each.
pub parse-Parsed : (s : TimeOfDay) (cp : List ℕ) → IsTimeOfDay s → Parsed (parse s cp)
unfolding parse
parse-Parsed s cp valid =
    parse_specs-Parsed (length cp) (reset s) cp (reset-IsTimeOfDay s valid) (omega arith)

add_all-append :
    (t : Tod) (ts us : List Tod)
    → (t.days == 0xff) ≡ false
    → add_all (record { tod = t; next = ts }) us ≡ record { tod = t; next = ts ++ us }
unfolding add_all add
add_all-append t ts [] used =
    ap (λ (v : List Tod). record { tod = t; next = v }) (sym (append-nil ts))
add_all-append t ts (u ∷ us) used = rw used (
    add_all-append t (ts ++ u ∷ []) us used
    ∙ ap (λ (v : List Tod). record { tod = t; next = v }) (append_assoc ts (u ∷ []) us))

-- The copy constructor copies a valid state.
pub copy-same : (s : TimeOfDay) → IsTimeOfDay s → copy s ≡ s
unfolding copy add_all
copy-same s valid = elim valid.set [
  | inl used ↦ add_all-append s.tod [] s.next used
  | inr alone ↦ rw alone refl
]
