-- ===== src/G3/Decode.antt =====
-- A reference reader of T.4 one-dimensional code: it takes the first table entry whose code stands
-- at the front of the bits, adds up make-up codes, and stops at a terminating code.
use hyla_fax.Base.{
  ℕ, zero, suc, ◌+◌, Bool, true, false, not, ◌&&◌, ltb, ◌==◌, if◌then◌else◌, Option, none, some,
  List, [], ◌∷◌, ◌++◌, ◌≡◌, refl, arith,
}
use hyla_fax.Base.Int.{pos_part}
use hyla_fax.Base.Binary.{bits}
use hyla_fax.G3.Codes.{Tableentry, tableentry}

unfoldable pub same_bit : Bool → Bool → Bool
same_bit true b = b
same_bit false b = not b

-- The digits of an entry's code, and the run that it stands for.
abbrev pub code_bits : Tableentry → List Bool
code_bits (tableentry length code _) = bits length code

abbrev pub run_of : Tableentry → ℕ
run_of (tableentry _ _ r) = pos_part r

-- What is left of the stream behind a code, if the code stands at its front.
pub strip : List Bool → List Bool → Option (List Bool)
unfolding same_bit
strip [] bs = some bs
strip (c ∷ cs) [] = none
strip (c ∷ cs) (b ∷ bs) = if same_bit c b then strip cs bs else none

pub decode_code : List Tableentry → List Bool → Option (ℕ × List Bool)
decode_code [] bs = none
decode_code (e ∷ tab) bs = elim (strip (code_bits e) bs) [
  | some rest ↦ some (run_of e, rest)
  | none ↦ decode_code tab bs
]

infixl 5 ◌>>=◌
abbrev pub ◌>>=◌ : {A B : Type 0} → Option A → (A → Option B) → Option B
none >>= f = none
some a >>= f = f a

-- A run: make-up codes are those of 64 pixels and more. The fuel bounds the number of codes.
unfoldable pub decode_run : ℕ → List Tableentry → List Bool → Option (ℕ × List Bool)
decode_run zero tab bs = none
decode_run (suc fuel) tab bs = do
  (r, rest) ← decode_code tab bs
  let more = (do (r', rest') ← decode_run fuel tab rest; some (r + r', rest'))
  if ltb r 64 then some (r, rest) else more

-- `a` differs from `c` at a place that both have, so that no stream begins with both.
differs : List Bool → List Bool → Bool
differs [] c = false
differs (a ∷ as_) [] = false
differs (a ∷ as_) (b ∷ c) = elim (same_bit a b) [ true ↦ differs as_ c | false ↦ true ]

same_bits : List Bool → List Bool → Bool
same_bits [] [] = true
same_bits (a ∷ as_) (b ∷ bs) = same_bit a b && same_bits as_ bs
same_bits _ _ = false

strip-differs : (a c rest : List Bool) → differs a c ≡ true → strip a (c ++ rest) ≡ none
unfolding differs strip
strip-differs [] c rest h = cc
strip-differs (a ∷ as_) [] rest h = cc
strip-differs (a ∷ as_) (b ∷ c) rest h = ground (arith, strip-differs as_ c rest)

strip_same : (a c rest : List Bool) → same_bits a c ≡ true → strip a (c ++ rest) ≡ some rest
unfolding same_bits strip
strip_same [] [] rest h = refl
strip_same [] (b ∷ c) rest h = cc
strip_same (a ∷ as_) [] rest h = cc
strip_same (a ∷ as_) (b ∷ c) rest h = ground (arith, strip_same as_ c rest)

-- The code `c` stands in the table with run `r`, and differs from every code before it.
unfoldable pub found : List Tableentry → List Bool → ℕ → Bool
unfolding differs same_bits same_bit
found [] c r = false
found (e ∷ tab) c r =
    let code = code_bits e in
    elim (same_bits code c) [ true ↦ run_of e == r | false ↦ differs code c && found tab c r ]

pub decode_code-found :
    (tab : List Tableentry) (c : List Bool) (r : ℕ) (rest : List Bool)
    → found tab c r ≡ true
    → decode_code tab (c ++ rest) ≡ some (r, rest)
unfolding found decode_code
decode_code-found [] c r rest h = cc
decode_code-found (e ∷ tab) c r rest h = ground (
  arith,
  strip_same (code_bits e) c rest,
  strip-differs (code_bits e) c rest,
  decode_code-found tab c r rest,
)
