-- ===== src/G3/RunTables.antt =====
-- The tables zeroruns and oneruns of faxd/G3Encoder.c++ hold the runs at the front of every byte.
use hyla_fax.Base.{
  ℕ, ◌-◌, ◌*◌, ◌^◌, ◌<◌, bit_and, Bool, true, false, ◌&&◌, ltb, ◌==◌, if◌then◌else◌, List, [], ◌∷◌,
  get_or, drop, ◌≡◌, refl, arith,
}
use hyla_fax.Base.Checks.{all_below, all_below_sound, ==_iff}
use hyla_fax.Base.Binary.{bits}
use hyla_fax.G3.Stream.{byte_bits}
use hyla_fax.G3.Decode.{same_bit}
use hyla_fax.G3.Spans.{zeroruns, oneruns}
use hyla_fax.G3.Lead.{lead}

-- The pixels of packed bytes, the most significant bit of a byte first.
abbrev pub pixels : List ℕ → List Bool
pixels = byte_bits (λ b. b)

abbrev pub IsBytes : List ℕ → Type 0
IsBytes [] = Unit {0}
IsBytes (b ∷ bs) = (b < 256) × IsBytes bs

abbrev pub left_entry : List ℕ → ℕ → ℕ → ℕ
left_entry tab n b =
    let span0 = get_or tab (bit_and (b * 2 ^ n) 0xff) 0 in
    if ltb (8 - n) span0 then 8 - n else span0

-- What findspan takes from a table: the run at the front of a byte, and behind its first `n` bits.
pub record IsRunTable (c : Bool) (tab : List ℕ) : Type 0 where
  pub whole : (b : ℕ) → b < 256 → get_or tab b 0 ≡ lead c 8 (bits 8 b)
  pub left : (n b : ℕ) → n < 8 → b < 256 → left_entry tab n b ≡ lead c (8 - n) (drop n (bits 8 b))

abbrev runs_hold : Bool → List ℕ → Bool
runs_hold c tab =
    all_below 256 (λ b. get_or tab b 0 == lead c 8 (bits 8 b))
    && all_below 8
        (λ n. all_below 256 (λ b. left_entry tab n b == lead c (8 - n) (drop n (bits 8 b))))

runs_hold-IsRunTable : (c : Bool) (tab : List ℕ) → runs_hold c tab ≡ true → IsRunTable c tab
runs_hold-IsRunTable c tab h = record {
  whole = λ b lt.
      (==_iff _ _).0
        (all_below_sound 256 (λ b. get_or tab b 0 == lead c 8 (bits 8 b)) b (ground arith) lt);
  left = λ n b ln lb. (==_iff _ _).0 (
      all_below_sound 256 (λ b. left_entry tab n b == lead c (8 - n) (drop n (bits 8 b))) b
        (all_below_sound 8
          (λ n. all_below 256 (λ b. left_entry tab n b == lead c (8 - n) (drop n (bits 8 b)))) n
          (ground arith) ln)
        lb);
}

zeroruns_checked : runs_hold false zeroruns ≡ true
unfolding all_below lead same_bit zeroruns
zeroruns_checked = refl

oneruns_checked : runs_hold true oneruns ≡ true
unfolding all_below lead same_bit oneruns
oneruns_checked = refl

pub zeroruns-IsRunTable : IsRunTable false zeroruns
zeroruns-IsRunTable = runs_hold-IsRunTable false zeroruns zeroruns_checked

pub oneruns-IsRunTable : IsRunTable true oneruns
oneruns-IsRunTable = runs_hold-IsRunTable true oneruns oneruns_checked
