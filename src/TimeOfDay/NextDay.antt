-- ===== src/TimeOfDay/NextDay.antt =====
-- nextDay (libhylafax/TimeOfDay.c++) stops at the first day that is OK.
use hyla_fax.Base.{
  ℕ, zero, suc, ◌+◌, ◌-◌, ◌*◌, ◌%◌, ◌≤◌, ◌<◌, ◌==◌, true, false, ◌≡◌, refl, ap, sym, ◌∙◌, arith,
  inl, inr, Bool-cases,
}
use hyla_fax.TimeOfDay.Tod.{day_ok, day_rounds, next_day}

-- A day of the week is OK.
pub record HasDay (days : ℕ) : Type 0 where
  pub day : ℕ
  pub day-lt : day < 7
  pub is_ok : day_ok days day ≡ true

-- `r` is the first of the days from `d` on that is OK, counted from `wday`; the day `far` later is.
pub record IsFirstDay (days d far wday r : ℕ) : Type 0 where
  pub found : day_ok days ((wday + r) % 7) ≡ true
  pub not_before : d ≤ r
  pub not_after : r ≤ d + far
  pub first : (k : ℕ) → d ≤ k → k < r → day_ok days ((wday + k) % 7) ≡ false

module _ (days wday : ℕ) where
  -- A day that is not OK puts the search off by one.
  IsFirstDay-suc :
      (d far r : ℕ)
      → day_ok days ((wday + d) % 7) ≡ false
      → IsFirstDay days (d + 1) far wday r
      → IsFirstDay days d (far + 1) wday r
  IsFirstDay-suc d far r not_here f = record {
    found = f.found;
    not_before = omega (arith, f.not_before);
    not_after = omega (arith, f.not_after);
    first = λ k ge lt. elim (Bool-cases (k == d)) [
      | inl same ↦
          let e : k ≡ d = ground arith in ap (λ (t : ℕ). day_ok days ((wday + t) % 7)) e ∙ not_here
      | inr other ↦ f.first k (ground arith) lt
    ];
  }

  day_rounds-first :
      (rounds far d w : ℕ)
      → w ≡ (wday + d) % 7
      → far < rounds
      → day_ok days ((wday + (d + far)) % 7) ≡ true
      → IsFirstDay days d far wday (day_rounds rounds days w d)
  unfolding day_rounds
  day_rounds-first zero far d w e lt ok = absurd (omega arith)
  day_rounds-first (suc rounds) zero d w e lt ok =
      let here : day_ok days w ≡ true =
        ap (day_ok days) {x = w} {y = (wday + (d + 0)) % 7} (omega arith) ∙ ok in
      rw here (record {
        found = ap (day_ok days) (sym e) ∙ here;
        not_before = omega arith;
        not_after = omega arith;
        first = λ k ge lt'. absurd (omega arith);
      })
  day_rounds-first (suc rounds) (suc far) d w e lt ok = elim (Bool-cases (day_ok days w)) [
    | inl here ↦ rw here (record {
      found = ap (day_ok days) (sym e) ∙ here;
      not_before = omega arith;
      not_after = omega arith;
      first = λ k ge lt'. absurd (omega arith);
    })
    | inr not_here ↦
        let next : (w + 1) % 7 ≡ (wday + (d + 1)) % 7 = omega arith in
        let ok' : day_ok days ((wday + (d + 1 + far)) % 7) ≡ true =
          ap (λ (t : ℕ). day_ok days ((wday + t) % 7)) {x = d + 1 + far} {y = d + suc far}
            (omega arith)
          ∙ ok in
        let f = day_rounds-first rounds far (d + 1) ((w + 1) % 7) next (omega arith) ok' in
        let up : far + 1 ≡ suc far = omega arith in
        rw not_here (rw up at (IsFirstDay-suc d far _ (ap (day_ok days) (sym e) ∙ not_here) f))
  ]

-- nextDay stops within seven rounds at the first day from `d` on that is OK, if a day is OK at all.
pub next_day-IsFirstDay :
    (days d wday : ℕ) → HasDay days → IsFirstDay days d 6 wday (next_day days d wday)
unfolding next_day
next_day-IsFirstDay days d wday has =
    let far = (has.day + 7 * (wday + d) - (wday + d)) % 7 in
    let there : (wday + (d + far)) % 7 ≡ has.day = omega (arith, has.day-lt) in
    let f =
      day_rounds-first days wday 7 far d ((wday + d) % 7) refl (omega arith)
        (ap (day_ok days) there ∙ has.is_ok) in
    record {
      found = f.found;
      not_before = f.not_before;
      not_after = omega (arith, f.not_after);
      first = f.first;
    }
