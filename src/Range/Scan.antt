-- ===== src/Range/Scan.antt =====
-- strtoul, as parse (libhylafax/Range.c++) uses it, ends inside of the string.
use hyla_fax.Base.{
  ℕ, ◌+◌, ◌-◌, ◌*◌, ◌^◌, ◌≤◌, Bool, true, false, leb, ◌==◌, List, [], ◌∷◌, drop, length, arith, inl,
  inr, Bool-cases,
}
use hyla_fax.Base.Lists.{length-drop}
use hyla_fax.Base.Text.{is_space, is_digit, char_at, skip, digits}
use hyla_fax.Range.Model.{scan_number, strtoul}

pub length-skip : (test : ℕ → Bool) (text : List ℕ) → length (skip test text) ≤ length text
unfolding skip
length-skip test [] = omega arith
length-skip test (c ∷ text) = elim (Bool-cases (test c)) [
  | inl on ↦ rw on (omega (arith, length-skip test text))
  | inr stop ↦ rw stop (omega arith)
]

length-digits : (value : ℕ) (text : List ℕ) → length (digits value text).1 ≤ length text
unfolding digits
length-digits value [] = omega arith
length-digits value (c ∷ text) = elim (Bool-cases (is_digit c)) [
  | inl on ↦ rw on (omega (arith, length-digits (value * 10 + (c - 48)) text))
  | inr stop ↦ rw stop (omega arith)
]

length-scan_number :
    (start at : List ℕ) (negative : Bool)
    → length at ≤ length start
    → length (scan_number start at negative).rest ≤ length start
unfolding scan_number
length-scan_number start at negative low = elim (Bool-cases (is_digit (char_at at 0))) [
  | inr nothing ↦ simp nothing (omega arith)
  | inl number ↦ elim (Bool-cases (leb (2 ^ 64) (digits 0 at).0)) [
    | inl over ↦ simp (number, over) (omega (arith, low, length-digits 0 at))
    | inr fits ↦ simp (number, fits) (omega (arith, low, length-digits 0 at))
  ]
]

-- strtoul ends inside the string.
pub length-strtoul : (text : List ℕ) → length (strtoul text).rest ≤ length text
unfolding strtoul
length-strtoul text =
    let s = skip is_space text in
    let low = length-skip is_space text in
    elim (Bool-cases (char_at s 0 == 45)) [
      | inl minus ↦
          simp minus (length-scan_number text (drop 1 s) true (omega (arith, low, length-drop 1 s)))
      | inr other ↦ elim (Bool-cases (char_at s 0 == 43)) [
        | inl plus ↦
            simp (other, plus)
              (length-scan_number text (drop 1 s) false (omega (arith, low, length-drop 1 s)))
        | inr bare ↦ simp (other, bare) (length-scan_number text s false low)
      ]
    ]
