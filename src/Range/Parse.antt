-- ===== src/Range/Parse.antt =====
-- parse (libhylafax/Range.c++) sets exactly the bits of the items that the string lists.
use hyla_fax.Base.{
  ℕ, zero, suc, ◌+◌, ◌-◌, ◌/◌, ◌%◌, ◌^◌, ◌≤◌, ◌<◌, Bool, true, false, ◌&&◌, ◌||◌, ltb, leb, ◌==◌,
  if◌then◌else◌, List, [], ◌∷◌, Option, some, get_or, drop, length, replicate, ◌++◌, length-append,
  ◌≡◌, refl, ◌∙◌, ap, arith, inl, inr, Bool-cases,
}
use hyla_fax.Base.Lists.{length-drop, length-replicate}
use hyla_fax.Base.Bytes.{bit_of-zero}
use hyla_fax.Base.Text.{is_space, char_at, skip}
use hyla_fax.Range.Model.{
  Range, strtoul, clamped, parse_rounds, zeroed, parse, get_map_bit, contains,
}
use hyla_fax.Range.Bits.{
  bit_at, AreBytes, Marked, Marked-none, Marked-as, Marked-both, item_bits, apply_op-Marked,
}
use hyla_fax.Range.Scan.{length-skip, length-strtoul}

-- The bits that a string selects, read item by item in the way of the loop: independent of the map.
unfoldable pub selected : (fuel op min max last : ℕ) → List ℕ → ℕ → Bool
selected zero op min max last text c = false
selected (suc fuel) op min max last text c =
    let s = strtoul text in
    let val = clamped min max s.value in
    let end = skip is_space s.rest in
    let op' = char_at end 0 in
    let more = selected fuel op' min max val (skip is_space (drop 1 end)) c in
    if s.failed
    then false
    else if op' == 0
    then item_bits op min last val c
    else more || item_bits op min last val c

length-pos : (text : List ℕ) → (char_at text 0 == 0) ≡ false → 0 < length text
length-pos [] on = absurd (ground (arith, on))
length-pos (c ∷ text) on = omega arith

pub parse_rounds-Marked :
    (fuel : ℕ) (map : List ℕ) (op min max last : ℕ) (text : List ℕ)
    → AreBytes map
    → (max - min) / 8 < length map
    → min ≤ max
    → max + 1 < 2 ^ 32
    → last ≤ max
    → (op == 44) || leb min last ≡ true
    → length text < fuel
    → Marked map (selected fuel op min max last text) (parse_rounds fuel map op min max last text)
unfolding parse_rounds selected
parse_rounds-Marked zero map op min max last text bytes inside order small high begun enough =
    absurd (omega arith)
parse_rounds-Marked (suc fuel) map op min max last text bytes inside order small high begun enough =
    let s = strtoul text in
    let val = clamped min max s.value in
    let end = skip is_space s.rest in
    let op' = char_at end 0 in
    let next = skip is_space (drop 1 end) in
    elim (Bool-cases s.failed) [
      | inl failed ↦
          Marked-as map _ _ _ _ (Marked-none map bytes) (rw (parse_rounds, failed) refl)
            λ c. rw (selected, failed) refl
      | inr scanned ↦
          let low' : min ≤ val = ground arith in
          let high' : val ≤ max = ground arith in
          let m =
            apply_op-Marked map op min max last val bytes inside low' high' small high begun in
          elim (Bool-cases (op' == 0)) [
            | inl stop ↦
                Marked-as map _ _ _ _ m (rw (parse_rounds, scanned, m.returns, stop) refl)
                  λ c. rw (selected, scanned, stop) refl
            | inr on ↦
                let shorter : length next < fuel = ground (
                  arith,
                  enough,
                  length-pos end on,
                  length-skip is_space s.rest,
                  length-strtoul text,
                  length-skip is_space (drop 1 end),
                  length-drop 1 end,
                ) in
                let n =
                  parse_rounds-Marked fuel m.after op' min max val next m.bytes
                    (omega (arith, m.same, inside)) order small high' (ground arith) shorter in
                Marked-both map _ _ _ _ m _
                  (Marked-as m.after _ _ _ _ n (rw (parse_rounds, scanned, m.returns, on) refl)
                    λ c. refl)
                  λ c. rw (selected, scanned, on) refl
          ]
    ]

only_zeros : (k i : ℕ) → get_or {A = ℕ} (replicate k 0 ++ []) i 0 ≡ 0
only_zeros zero i = refl
only_zeros (suc k) zero = refl
only_zeros (suc k) (suc i) = only_zeros k i

get_or-zeroed :
    (k : ℕ) (map : List ℕ) (i : ℕ)
    → get_or (replicate k 0 ++ drop k map) i 0 ≡ (if leb k i then get_or map i 0 else 0)
get_or-zeroed zero map i = ground arith
get_or-zeroed (suc k) [] zero = ground arith
get_or-zeroed (suc k) [] (suc i) = only_zeros k i ∙ ground arith
get_or-zeroed (suc k) (x ∷ map) zero = ground arith
get_or-zeroed (suc k) (x ∷ map) (suc i) = get_or-zeroed k map i ∙ ground arith

bit_at-zeroed :
    (map : List ℕ) (size b : ℕ)
    → bit_at (zeroed map size) b ≡ (leb (size / 8) (b / 8) && bit_at map b)
bit_at-zeroed map size b = elim (Bool-cases (leb (size / 8) (b / 8))) [
  | inl after ↦ simp (get_or-zeroed (size / 8) map (b / 8), after) refl
  | inr before ↦
      simp (get_or-zeroed (size / 8) map (b / 8), before) (bit_of-zero (b % 8) (omega arith))
]

length-zeroed :
    (map : List ℕ) (size : ℕ) → size / 8 ≤ length map → length (zeroed map size) ≡ length map
length-zeroed map size low = omega (
  arith,
  length-append (replicate (size / 8) 0) (drop (size / 8) map),
  length-replicate {A = ℕ} (size / 8) 0,
  length-drop (size / 8) map,
)

zeroed-AreBytes : (map : List ℕ) (size : ℕ) → AreBytes map → AreBytes (zeroed map size)
zeroed-AreBytes map size bytes i = rw (get_or-zeroed (size / 8) map i) (ground (arith, bytes i))

-- A bit inside of the map of a range that is set.
contains-bit_at :
    (r : Range) (v : ℕ)
    → r.set ≡ true
    → r.min ≤ v
    → v ≤ r.max
    → r.max < 2 ^ 32
    → (r.max - r.min) / 8 < length r.map
    → contains r v ≡ some (bit_at r.map (v - r.min))
unfolding contains get_map_bit
contains-bit_at r v set low high small inside =
    let e : (v + 2 ^ 32 - r.min) % 2 ^ 32 ≡ v - r.min = omega arith in
    let e' : (r.max + 2 ^ 32 - r.min) % 2 ^ 32 ≡ r.max - r.min = omega arith in
    let within : ltb (r.max - r.min) (v - r.min) ≡ false = ground arith in
    let reads : ltb ((v - r.min) / 8) (length r.map) ≡ true = ground (arith, inside) in
    let s : (v - r.min) % 8 + 1 - 1 ≡ (v - r.min) % 8 = omega arith in
    simp (set, e, e', within, reads, s) refl

parse-returns :
    (r : Range) (text : List ℕ) (size : ℕ) (after : List ℕ)
    → (r.max + 2 ^ 32 - r.min) % 2 ^ 32 ≡ size
    → parse_rounds (suc (length text)) (zeroed r.map size) 44 r.min r.max 0 text ≡ some after
    → parse r text ≡ some (record r { map = after; set = true })
unfolding parse
parse-returns r text size after e returns = rw (parse, e, returns) refl

-- What parse gives: which numbers of the range it contains then.
pub record Parsed (r : Range) (text : List ℕ) (result : Option Range) : Type 0 where
  pub after : Range
  pub returns : result ≡ some after
  pub contained :
      (v : ℕ)
      → r.min ≤ v
      → v ≤ r.max
      → contains after v
        ≡ some (
            selected (suc (length text)) 44 r.min r.max 0 text (v - r.min)
            || (leb ((r.max - r.min) / 8) ((v - r.min) / 8) && bit_at r.map (v - r.min)))

-- For a range of at least two numbers below 2^32 - 1, the difference of whose bounds is no multiple of 8,
-- with a map of bytes of the size that the constructor asks for, parse returns on every string without a
-- write outside of the map. After it contains holds exactly for the numbers that the items of the string
-- select, up to one that is out of range for strtoul, and for those whose bit in the last byte of the map
-- was set before.
pub parse-Parsed_range :
    (r : Range) (text : List ℕ)
    → r.min ≤ r.max
    → r.max + 1 < 2 ^ 32
    → length r.map ≡ (r.max - r.min + 7) / 8
    → 0 < (r.max - r.min) % 8
    → AreBytes r.map
    → Parsed r text (parse r text)
parse-Parsed_range r text order small sized partial bytes =
    let size = r.max - r.min in
    let e : (r.max + 2 ^ 32 - r.min) % 2 ^ 32 ≡ size = omega arith in
    let map = zeroed r.map size in
    let same = length-zeroed r.map size (omega (arith, sized)) in
    let inside : size / 8 < length map = omega (arith, same, sized, partial) in
    let m =
      parse_rounds-Marked (suc (length text)) map 44 r.min r.max 0 text
        (zeroed-AreBytes r.map size bytes) inside order small (omega arith) refl (omega arith) in
    let after : Range = record r { map = m.after; set = true } in
    record {
      after = after;
      returns = parse-returns r text size m.after e m.returns;
      contained = λ v low high.
          contains-bit_at after v refl low high (omega arith) (omega (arith, m.same, inside))
          ∙ ap some (m.bits (v - r.min) ∙ rw (bit_at-zeroed r.map size (v - r.min)) refl);
    }
