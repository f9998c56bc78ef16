-- ===== src/G3/Tables.antt =====
-- The tables of faxd/t4.h are codes: every entry that putspan uses is found first by a reader of
-- the table, fits its length, and stands for the run of its index.
use hyla_fax.Base.{
  ℕ, ◌+◌, ◌*◌, ◌^◌, ◌<◌, ◌≤◌, Bool, true, ◌&&◌, ltb, ◌||◌, ◌==◌, List, ◌++◌, some, ◌≡◌, refl, arith,
  false,
}
use hyla_fax.Base.Checks.{all_below, all_below_sound, ltb→lt}
use hyla_fax.Base.Int.{pos, negsuc}
use hyla_fax.G3.Codes.{Tableentry, tableentry, white_codes, black_codes}
use hyla_fax.G3.Encoder.{entry_at}
use hyla_fax.G3.Decode.{code_bits, decode_code, found, decode_code-found}

abbrev is_code : List Tableentry → Tableentry → ℕ → Bool
is_code tab (tableentry length code (pos r')) r =
    found tab (code_bits (tableentry length code (pos r'))) r
    && r' == r
    && ltb code 256
    && ltb code (2 ^ length)
is_code tab (tableentry _ _ (negsuc _)) r = false

abbrev codes_hold : List Tableentry → Bool
codes_hold tab =
    all_below 64 (λ i. is_code tab (entry_at tab i) i)
    && all_below 41 (λ k. k == 0 || is_code tab (entry_at tab (63 + k)) (64 * k))

white_checked : codes_hold white_codes ≡ true
unfolding all_below found white_codes
white_checked = refl

black_checked : codes_hold black_codes ≡ true
unfolding all_below found black_codes
black_checked = refl

-- An entry of the table that stands for the run `r`.
pub record IsCode (tab : List Tableentry) (te : Tableentry) (r : ℕ) : Type 0 where
  pub length : ℕ
  pub code : ℕ
  pub is_entry : te ≡ tableentry length code (pos r)
  pub small : code < 256
  pub fits : code < 2 ^ length
  pub decodes : (rest : List Bool) → decode_code tab (code_bits te ++ rest) ≡ some (r, rest)

is_code-IsCode :
    (tab : List Tableentry) (te : Tableentry) (r : ℕ) → is_code tab te r ≡ true → IsCode tab te r
is_code-IsCode tab (tableentry l c (negsuc n)) r h = absurd (ground arith)
is_code-IsCode tab (tableentry l c (pos n)) r h = record {
  length = l;
  code = c;
  is_entry = ground arith;
  small = ground arith;
  fits = ground (arith, ltb→lt c (2 ^ l));
  decodes =
      λ rest. decode_code-found tab (code_bits (tableentry l c (pos n))) r rest (ground arith);
}

-- The two tables of T.4, for the two colours.
pub record IsTable (tab : List Tableentry) : Type 0 where
  pub terminating : (i : ℕ) → i < 64 → IsCode tab (entry_at tab i) i
  pub make_up : (k : ℕ) → 1 ≤ k → k ≤ 40 → IsCode tab (entry_at tab (63 + k)) (64 * k)

codes_hold-IsTable : (tab : List Tableentry) → codes_hold tab ≡ true → IsTable tab
codes_hold-IsTable tab h = record {
  terminating = λ i lt.
      is_code-IsCode tab (entry_at tab i) i
        (all_below_sound 64 (λ i. is_code tab (entry_at tab i) i) i (ground arith) lt);
  make_up = λ k pos_k le. is_code-IsCode tab (entry_at tab (63 + k)) (64 * k) (
      ground (
        arith,
        all_below_sound 41 (λ k. k == 0 || is_code tab (entry_at tab (63 + k)) (64 * k)) k,
      ));
}

pub white-IsTable : IsTable white_codes
white-IsTable = codes_hold-IsTable white_codes white_checked

pub black-IsTable : IsTable black_codes
black-IsTable = codes_hold-IsTable black_codes black_checked
