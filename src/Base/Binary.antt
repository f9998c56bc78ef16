-- ===== src/Base/Binary.antt =====
-- `|` of disjoint fields and `&` with a low mask as arithmetic, and the binary digits of a
-- number, most significant first.
use Prim.Native.Nat.{
  ℕ, zero, suc, ◌+◌, ◌-◌, ◌*◌, ◌/◌, ◌%◌, ◌^◌, ◌≤◌, ◌<◌, min, max, digits, bit_and, bit_or,
  bit_and-bitwise, bit_or-bitwise,
}
use mathlib.Core.Path.{◌≡◌, refl, ap, sym, ◌∙◌}
use mathlib.Core.Bool.{Bool}
use hyla_fax.Base.Checks.{◌==◌}
use hyla_fax.Base.Lists.{length, length-append}
use mathlib.Core.List.{List, [], ◌∷◌, ◌++◌}
use native.Mathlib.Nat.{
  le_refl, pow-suc, one-le-pow, div-div-eq-div-mul, div-add-mod, add-zero, add-suc, div-eq_of_lt-le,
  div-add-mod', suc-mul,
}
use native.Mathlib.Numerals.{add-one}
use mathlib.Core.List.{append-nil, append_assoc}
use native.Mathlib.Omega.{arith}

digits-nothing : (z : ℕ → ℕ) (f : ℕ → ℕ → ℕ) (k b : ℕ) → digits z f k 0 b ≡ z b
digits-nothing z f zero b = refl
digits-nothing z f (suc k) b = refl

-- Fuel above the first number is as good as the number itself, for both recursive calls at once: all
-- fuels up to `n` are compared.
digits_enough :
    (n : ℕ) (z : ℕ → ℕ) (f : ℕ → ℕ → ℕ) (k a b : ℕ)
    → k ≤ n
    → a ≤ k
    → digits z f k a b ≡ digits z f a a b
digits_enough n z f k zero b below enough = digits-nothing z f k b
digits_enough n z f zero (suc a) b below enough = absurd (omega arith)
digits_enough zero z f (suc k) (suc a) b below enough = absurd (omega arith)
digits_enough (suc n) z f (suc k) (suc a) b below enough =
    let by = λ (m : ℕ) (le : m ≤ n) (ge : suc a / 2 ≤ m).
      digits_enough n z f m (suc a / 2) (b / 2) le ge in
    ap (λ (t : ℕ). t * 2 + f (suc a % 2) (b % 2))
      (by k (omega arith) (omega arith) ∙ sym (by a (omega arith) (omega arith)))

-- The halves and the parities of `|` and `&`.
or_halves :
    (a b : ℕ) → (bit_or a b / 2 ≡ bit_or (a / 2) (b / 2)) × (bit_or a b % 2 ≡ max (a % 2) (b % 2))
or_halves zero b = simp bit_or-bitwise (omega arith, omega arith)
or_halves (suc a) b =
    let e = digits_enough a (λ y. y) max a (suc a / 2) (b / 2) (omega arith) (omega arith) in
    simp bit_or-bitwise (omega (arith, e), omega (arith, e))

pub and_halves :
    (a b : ℕ)
    → (bit_and a b / 2 ≡ bit_and (a / 2) (b / 2)) × (bit_and a b % 2 ≡ min (a % 2) (b % 2))
and_halves zero b = simp bit_and-bitwise (omega arith, omega arith)
and_halves (suc a) b =
    let e = digits_enough a (λ y. 0) min a (suc a / 2) (b / 2) (omega arith) (omega arith) in
    simp bit_and-bitwise (omega (arith, e), omega (arith, e))

double : (q k : ℕ) → q * 2 ^ suc k ≡ 2 * (q * 2 ^ k)
double q k = omega (arith, ap (λ (t : ℕ). q * t) (pow-suc 2 k))

or_nothing : (bound a : ℕ) → a ≤ bound → bit_or a 0 ≡ a
or_nothing bound zero le = refl
or_nothing zero (suc a) le = absurd (omega arith)
or_nothing (suc bound) (suc a) le =
    let (half, parity) = or_halves (suc a) 0 in
    omega (arith, half, parity, or_nothing bound (suc a / 2) (omega arith))

and_nothing : (bound a : ℕ) → a ≤ bound → bit_and a 0 ≡ 0
and_nothing bound zero le = refl
and_nothing zero (suc a) le = absurd (omega arith)
and_nothing (suc bound) (suc a) le =
    let (half, parity) = and_halves (suc a) 0 in
    omega (arith, half, parity, and_nothing bound (suc a / 2) (omega arith))

or_swap : (bound a b : ℕ) → a ≤ bound → bit_or a b ≡ bit_or b a
or_swap bound zero b le = bit_or-bitwise 0 b ∙ sym (or_nothing b b (le_refl _))
or_swap zero (suc a) b le = absurd (omega arith)
or_swap (suc bound) (suc a) b le =
    let (half, parity) = or_halves (suc a) b in
    let (half', parity') = or_halves b (suc a) in
    omega (arith, half, parity, half', parity', or_swap bound (suc a / 2) (b / 2) (omega arith))

-- `(q << k) | r` is a sum where `r` fits in `k` bits.
pub bit_or-shifted : (k q r : ℕ) → r < 2 ^ k → bit_or (q * 2 ^ k) r ≡ q * 2 ^ k + r
bit_or-shifted zero q r fits = ground (arith, or_nothing q q (le_refl _))
bit_or-shifted (suc k) q r fits =
    let (half, parity) = or_halves (q * 2 ^ suc k) r in
    let r' : r / 2 < 2 ^ k = omega (arith, pow-suc 2 k) in
    ground (arith, half, parity, double q k, bit_or-shifted k q (r / 2) r')

-- `r | (q << k)`, the same with the low field first.
pub bit_or-above : (k q r : ℕ) → r < 2 ^ k → bit_or r (q * 2 ^ k) ≡ q * 2 ^ k + r
bit_or-above k q r fits = or_swap r r (q * 2 ^ k) (le_refl _) ∙ bit_or-shifted k q r fits

-- What a field of `k` bits keeps under the mask of `k` ones.
low_field : (k q r : ℕ) → r < 2 ^ k → bit_and (q * 2 ^ k + r) (2 ^ k - 1) ≡ r
low_field zero q r fits =
    let none_left : r ≡ 0 = omega arith in and_nothing _ (q * 1 + r) (le_refl _) ∙ sym none_left
low_field (suc k) q r fits =
    let (half, parity) = and_halves (q * 2 ^ suc k + r) (2 ^ suc k - 1) in
    let r' : r / 2 < 2 ^ k = omega (arith, pow-suc 2 k) in
    ground (arith, half, parity, double q k, pow-suc 2 k, one-le-pow k 2, low_field k q (r / 2) r')

-- `a & (2^k - 1)` keeps the low `k` bits.
pub bit_and-low_mask : (k a : ℕ) → bit_and a (2 ^ k - 1) ≡ a % 2 ^ k
bit_and-low_mask k a = ground (arith, one-le-pow k 2, low_field k (a / 2 ^ k) (a % 2 ^ k))

pub div_two_pow : (v k : ℕ) → v / 2 / 2 ^ k ≡ v / 2 ^ suc k
div_two_pow v k =
    div-div-eq-div-mul v 2 (2 ^ k) ∙ ap (λ (t : ℕ). v / t) (omega (arith, pow-suc 2 k))

-- The `n` low binary digits of `v`, most significant first.
abbrev pub bits : ℕ → ℕ → List Bool
bits zero v = []
bits (suc n) v = bits n (v / 2) ++ (v % 2 == 1) ∷ []

-- Digits above the `n` lowest stand in front.
pub bits_split : (m n v : ℕ) → bits (m + n) v ≡ bits m (v / 2 ^ n) ++ bits n v
bits_split m zero v = rw (add-zero, append-nil) (ap (bits m) (omega arith))
bits_split m (suc n) v = rw (add-suc, bits_split m n (v / 2), append_assoc, div_two_pow v n)

mod_two_pow-suc : (n v : ℕ) → v % 2 ^ suc n ≡ v / 2 % 2 ^ n * 2 + v % 2
mod_two_pow-suc n v = omega (
  arith,
  pow-suc 2 n,
  div_two_pow v n,
  div-add-mod v (2 ^ suc n),
  div-add-mod (v / 2) (2 ^ n),
  ap (λ (t : ℕ). t * 2 ^ suc n) (div_two_pow v n),
  ap (λ (t : ℕ). v / 2 / 2 ^ n * t) (pow-suc 2 n),
)

-- Only the low digits count.
pub bits-mod : (n v : ℕ) → bits n (v % 2 ^ n) ≡ bits n v
bits-mod zero v = refl
bits-mod (suc n) v = rw (mod_two_pow-suc n v, lem_half, lem_low, bits-mod n (v / 2))
  where
    lem_half : (v / 2 % 2 ^ n * 2 + v % 2) / 2 ≡ v / 2 % 2 ^ n
    lem_half = omega arith

    lem_low : (v / 2 % 2 ^ n * 2 + v % 2) % 2 ≡ v % 2
    lem_low = omega arith

pub length-bits : (n v : ℕ) → length (bits n v) ≡ n
length-bits zero v = refl
length-bits (suc n) v =
    omega (arith, length-append {0} (bits n (v / 2)) ((v % 2 == 1) ∷ []), length-bits n (v / 2))

pub pow-add : (m n : ℕ) → 2 ^ (m + n) ≡ 2 ^ m * 2 ^ n
pow-add m zero = rw add-zero (omega arith)
pow-add m (suc n) = rw add-suc (
    omega
      (arith, pow-suc 2 (m + n), pow-suc 2 n, pow-add m n, ap (λ (t : ℕ). 2 ^ m * t) (pow-suc 2 n)))

-- A number in two fields: `q` above the `n` low digits of `x`.
module _ (n q x : ℕ) (fits : x < 2 ^ n) where
  pub fields_div : (q * 2 ^ n + x) / 2 ^ n ≡ q
  fields_div =
      div-eq_of_lt-le (2 ^ n) (omega arith)
        (omega (arith, ap (λ (t : ℕ). t * 2 ^ n) (add-one q), suc-mul q (2 ^ n)))

  pub fields_mod : (q * 2 ^ n + x) % 2 ^ n ≡ x
  fields_mod =
      omega (arith, div-add-mod' (q * 2 ^ n + x) (2 ^ n), ap (λ (t : ℕ). t * 2 ^ n) fields_div)

  pub bits_fields : (m : ℕ) → bits (m + n) (q * 2 ^ n + x) ≡ bits m q ++ bits n x
  bits_fields m =
      rw (bits_split m n (q * 2 ^ n + x), fields_div, ← bits-mod n (q * 2 ^ n + x), fields_mod)
