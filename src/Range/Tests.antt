-- ===== src/Range/Tests.antt =====
-- Runs of the model of libhylafax/Range.c++ on concrete ranges.
use hyla_fax.Base.{
  ℕ, zero, suc, ◌<◌, get_or, true, false, List, [], ◌∷◌, none, some, replicate, ◌≡◌, refl, arith,
}
use hyla_fax.Base.Text.{skip, digits}
use hyla_fax.Range.Model.{
  Range, new_range, parse, parse_rounds, strtoul, scan_number, apply_op, set_map_bit, set_map_bits,
  get_map_bit, contains,
}
use hyla_fax.Range.Parse.{Parsed, parse-Parsed_range}

-- malloc gives memory of ones.
abbrev dirty : ℕ → List ℕ
dirty n = replicate n 0xff

-- "1,3-5"
abbrev text : List ℕ
text = 49 ∷ 44 ∷ 51 ∷ 45 ∷ 53 ∷ []

-- A range of the numbers 1 to 12.
abbrev pages : Range
pages = record { min = 1; max = 12; map = 0xff ∷ 0xff ∷ []; set = false }

new_range_run : new_range dirty 1 12 ≡ pages
unfolding new_range
new_range_run = refl

pages_bytes : (i : ℕ) → get_or pages.map i 0 < 256
pages_bytes zero = omega arith
pages_bytes (suc zero) = omega arith
pages_bytes (suc (suc i)) = omega arith

parse-Parsed_range_example : Parsed pages text (parse pages text)
parse-Parsed_range_example =
    parse-Parsed_range pages text (omega arith) (omega arith) refl (omega arith) pages_bytes

-- The numbers 1, 3, 4 and 5 are set, and what stood in the last byte is left: 9 to 12 are set too.
abbrev parsed : Range
parsed = record { min = 1; max = 12; map = 29 ∷ 0xff ∷ []; set = true }

parse_run : parse pages text ≡ some parsed
unfolding parse parse_rounds strtoul scan_number skip digits apply_op set_map_bit set_map_bits
parse_run = refl

contains_run : contains parsed 12 ≡ some true
unfolding contains get_map_bit
contains_run = refl

-- In a range of the numbers 1 to 9 the number 9 stands outside of the map.
parse_outside_run : parse (new_range dirty 1 9) (57 ∷ []) ≡ none
unfolding new_range parse parse_rounds strtoul scan_number skip digits apply_op set_map_bit
parse_outside_run = refl
