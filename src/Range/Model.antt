-- ===== src/Range/Model.antt =====
-- Range (libhylafax/Range.h and libhylafax/Range.c++). The map is the memory that malloc gives, as a list
-- of bytes; malloc is a parameter, which gives what happens to stand in that memory. A write or a read
-- outside of the map is the result `none`. A string is the list of the characters before its NUL; the
-- byte behind the NUL, which the loop of parse looks at before it ends, is left out.
use hyla_fax.Base.{
  ℕ, zero, suc, ◌+◌, ◌-◌, ◌/◌, ◌%◌, ◌^◌, bit_or, Bool, true, false, not, ltb, leb, ◌==◌,
  if◌then◌else◌, List, ◌++◌, Option, none, some, get_or, drop, replicate, length,
}
use hyla_fax.Base.Bytes.{bit_of}
use hyla_fax.Base.Lists.{put}
use hyla_fax.Base.Text.{is_space, is_digit, char_at, skip, digits}

pub record Range : Type 0 where
  pub min : ℕ
  pub max : ℕ
  pub map : List ℕ
  pub set : Bool

-- The constructor; the difference is an unsigned int.
unfoldable pub new_range : (malloc : ℕ → List ℕ) → (start end : ℕ) → Range
new_range malloc start end =
    let size = (end + 2 ^ 32 - start) % 2 ^ 32 in
    record { min = start; max = end; map = malloc ((size + 7) % 2 ^ 32 / 8); set = false }

-- setMapBit.
unfoldable pub set_map_bit : List ℕ → (b : ℕ) → Option (List ℕ)
set_map_bit map b =
    let bb = b / 8 in
    let bc = b % 8 + 1 in
    if ltb bb (length map)
    then some (put map bb (bit_or (get_or map bb 0) (2 ^ (bc - 1))))
    else none

-- getMapBit.
unfoldable pub get_map_bit : Range → (b : ℕ) → Option Bool
get_map_bit r b =
    let bb = b / 8 in
    let bc = b % 8 + 1 in
    if ltb ((r.max + 2 ^ 32 - r.min) % 2 ^ 32) b
    then some false
    else if ltb bb (length r.map)
    then some (bit_of (get_or r.map bb 0) (bc - 1))
    else none

-- contains; the difference is an unsigned int.
unfoldable pub contains : Range → (v : ℕ) → Option Bool
contains r v = if not r.set then some true else get_map_bit r ((v + 2 ^ 32 - r.min) % 2 ^ 32)

-- What strtoul gives for base 10: the value, the end, and whether errno is set.
pub record Scanned : Type 0 where
  pub value : ℕ
  pub rest : List ℕ
  pub failed : Bool

-- The digits behind the sign; without a digit the end is the start of the string.
unfoldable pub scan_number : (start digits_at : List ℕ) → (negative : Bool) → Scanned
scan_number start digits_at negative =
    let (value, rest) = digits 0 digits_at in
    if not (is_digit (char_at digits_at 0))
    then record { value = 0; rest = start; failed = false }
    else if leb (2 ^ 64) value
    then record { value = 2 ^ 64 - 1; rest = rest; failed = true }
    else record {
      value = if negative then (2 ^ 64 - value) % 2 ^ 64 else value;
      rest = rest;
      failed = false;
    }

unfoldable pub strtoul : List ℕ → Scanned
strtoul start =
    let s = skip is_space start in
    let sign = char_at s 0 in
    if sign == 45
    then scan_number start (drop 1 s) true
    else scan_number start (if sign == 43 then drop 1 s else s) false

-- The value moved into the range.
abbrev pub clamped : (min max val : ℕ) → ℕ
clamped min max val =
    let val' = if ltb max val then max else val in if ltb val' min then min else val'

-- The loop of the operator '-', from the bit `b` on.
unfoldable pub set_map_bits : List ℕ → (b rounds : ℕ) → Option (List ℕ)
set_map_bits map b zero = some map
set_map_bits map b (suc rounds) = elim (set_map_bit map b) [
  | none ↦ none
  | some map' ↦ set_map_bits map' (b + 1) rounds
]

-- The switch on the operator. Up to the largest number the loop of '-' does not end.
unfoldable pub apply_op : List ℕ → (op min last val : ℕ) → Option (List ℕ)
apply_op map op min last val =
    if op == 44
    then set_map_bit map (val - min)
    else if op == 45
    then if val == 2 ^ 32 - 1 then none else set_map_bits map (last - min) (val + 1 - last)
    else some map

-- The loop of parse, with the number of its rounds bounded by the fuel.
unfoldable pub parse_rounds : (fuel : ℕ) → List ℕ → (op min max last : ℕ) → List ℕ → Option (List ℕ)
parse_rounds zero map op min max last text = none
parse_rounds (suc fuel) map op min max last text =
    let s = strtoul text in
    let val = clamped min max s.value in
    let end = skip is_space s.rest in
    let op' = char_at end 0 in
    let next = skip is_space (drop 1 end) in
    let more = λ (map' : List ℕ). parse_rounds fuel map' op' min max val next in
    if s.failed then some map else elim (apply_op map op min last val) [
      | none ↦ none
      | some map' ↦ if op' == 0 then some map' else more map'
    ]

-- The memset of parse.
abbrev pub zeroed : List ℕ → (size : ℕ) → List ℕ
zeroed map size = replicate (size / 8) 0 ++ drop (size / 8) map

unfoldable pub parse : Range → List ℕ → Option Range
parse r text =
    let size = (r.max + 2 ^ 32 - r.min) % 2 ^ 32 in
    elim (parse_rounds (suc (length text)) (zeroed r.map size) 44 r.min r.max 0 text) [
      | none ↦ none
      | some map ↦ some (record r { map = map; set = true })
    ]
