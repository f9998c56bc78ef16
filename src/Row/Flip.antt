-- ===== src/Row/Flip.antt =====
-- sgi2fax/row.c: flipsrow, setrow and zerorow. A short is its 16-bit word.
use hyla_fax.Base.{
  ℕ, zero, suc, ◌+◌, ◌-◌, ◌*◌, ◌/◌, ◌≤◌, ◌<◌, true, ltb, leb, ◌==◌, if◌then◌else◌, ◌&&◌, List, [],
  ◌∷◌, length, get_or, replicate, ◌≡◌, refl, ap, ◌∙◌, arith, inl, inr, Bool-cases,
}
use hyla_fax.Base.Int.{ℤ, pos, negsuc}
use hyla_fax.Row.Samples.{to_word}

-- An assignment to an element of a row.
unfoldable pub put_at : List ℕ → ℕ → ℕ → List ℕ
put_at [] i v = []
put_at (x ∷ xs) zero v = v ∷ xs
put_at (x ∷ xs) (suc i) v = x ∷ put_at xs i v

-- A round of the loop of flipsrow: the elements that p1 and p2 point to are swapped.
unfoldable pub swap : List ℕ → ℕ → ℕ → List ℕ
swap row p1 p2 = put_at (put_at row p1 (get_or row p2 0)) p2 (get_or row p1 0)

unfoldable pub flip_rounds : ℕ → List ℕ → (p1 p2 : ℕ) → List ℕ
flip_rounds zero row p1 p2 = row
flip_rounds (suc n) row p1 p2 = flip_rounds n (swap row p1 p2) (p1 + 1) (p2 - 1)

unfoldable pub flipsrow : List ℕ → ℕ → List ℕ
flipsrow row n = flip_rounds (n / 2) row 0 (n - 1)

-- The loops of setrow, eight a round; a round takes off 8, so that `n` rounds are enough.
unfoldable pub set_one : ℕ → ℕ → List ℕ
set_one val zero = []
set_one val (suc n) = val ∷ set_one val n

unfoldable pub set_eight : ℕ → ℕ → ℕ → List ℕ
set_eight zero val n = set_one val n
set_eight (suc fuel) val n =
    let rest = set_eight fuel val (n - 8) in
    if leb 8 n then val ∷ val ∷ val ∷ val ∷ val ∷ val ∷ val ∷ val ∷ rest else set_one val n

abbrev pub zerorow : ℕ → List ℕ
zerorow n = replicate n 0

unfoldable pub setrow : ℤ → ℕ → List ℕ
unfolding set_eight
setrow (pos zero) n = zerorow n
setrow val n = set_eight n (to_word val) n

set_one-replicate : (val n : ℕ) → set_one val n ≡ replicate n val
unfolding set_one
set_one-replicate val zero = refl
set_one-replicate val (suc n) = ap (◌∷◌ val) (set_one-replicate val n)

replicate_eight :
    (val n : ℕ)
    → leb 8 n ≡ true
    → val ∷ val ∷ val ∷ val ∷ val ∷ val ∷ val ∷ val ∷ replicate (n - 8) val ≡ replicate n val
replicate_eight val n big =
    ap (λ (t : ℕ). replicate t val) {x = suc (suc (suc (suc (suc (suc (suc (suc (n - 8))))))))}
      {y = n} (ground arith)

set_eight-replicate : (fuel val n : ℕ) → set_eight fuel val n ≡ replicate n val
unfolding set_eight
set_eight-replicate zero val n = set_one-replicate val n
set_eight-replicate (suc fuel) val n = elim (Bool-cases (leb 8 n)) [
  | inl big ↦ rw (big, set_eight-replicate fuel val (n - 8)) (replicate_eight val n big)
  | inr small ↦ rw small (set_one-replicate val n)
]

-- setrow sets all of the `n` samples to the value, for every value: its short cut for 0 does the same.
pub setrow-replicate : (val : ℤ) (n : ℕ) → setrow val n ≡ replicate n (to_word val)
unfolding setrow
setrow-replicate (pos zero) n = refl
setrow-replicate (pos (suc k)) n = set_eight-replicate n (to_word (pos (suc k))) n
setrow-replicate (negsuc k) n = set_eight-replicate n (to_word (negsuc k)) n

put_at-length : (row : List ℕ) (i v : ℕ) → length (put_at row i v) ≡ length row
unfolding put_at
put_at-length [] i v = refl
put_at-length (x ∷ xs) zero v = refl
put_at-length (x ∷ xs) (suc i) v = ap suc (put_at-length xs i v)

get-put_at :
    (row : List ℕ) (i v k : ℕ)
    → i < length row
    → get_or (put_at row i v) k 0 ≡ (if k == i then v else get_or row k 0)
unfolding put_at
get-put_at [] i v k lt = absurd (omega arith)
get-put_at (x ∷ xs) zero v zero lt = ground arith
get-put_at (x ∷ xs) zero v (suc k) lt = ground arith
get-put_at (x ∷ xs) (suc i) v zero lt = ground arith
get-put_at (x ∷ xs) (suc i) v (suc k) lt = ground (arith, get-put_at xs i v k (omega arith))

swap-get :
    (row : List ℕ) (i j k : ℕ)
    → i < length row
    → j < length row
    → get_or (swap row i j) k 0
      ≡ (if k == j then get_or row i 0 else if k == i then get_or row j 0 else get_or row k 0)
unfolding swap
swap-get row i j k li lj =
    get-put_at (put_at row i (get_or row j 0)) j (get_or row i 0) k
      (omega (arith, put_at-length row i (get_or row j 0)))
    ∙ ap (λ (t : ℕ). if k == j then get_or row i 0 else t) (get-put_at row i (get_or row j 0) k li)

swap-length : (row : List ℕ) (i j : ℕ) → length (swap row i j) ≡ length row
unfolding swap
swap-length row i j =
    put_at-length (put_at row i (get_or row j 0)) j (get_or row i 0)
    ∙ put_at-length row i (get_or row j 0)

-- Where the element at `k` comes from when `n` rounds have swapped from `i` up and from `j` down.
abbrev origin : (n i j k : ℕ) → ℕ
origin n i j k =
    if leb i k && ltb k (i + n)
    then i + j - k
    else if ltb j (k + n) && leb k j
    then i + j - k
    else k

swapped :
    (row : List ℕ) (n i j k : ℕ)
    → i + 2 * suc n ≤ j + 1
    → j < length row
    → get_or (swap row i j) (origin n (i + 1) (j - 1) k) 0 ≡ get_or row (origin (suc n) i j k) 0
swapped row n i j k apart lt =
    swap-get row i j (origin n (i + 1) (j - 1) k) (omega arith) lt ∙ ground arith

flip_rounds-get :
    (n : ℕ) (row : List ℕ) (i j k : ℕ)
    → i + 2 * n ≤ j + 1
    → j < length row
    → get_or (flip_rounds n row i j) k 0 ≡ get_or row (origin n i j k) 0
unfolding flip_rounds
flip_rounds-get zero row i j k apart lt = ap (λ (t : ℕ). get_or row t 0) (ground arith)
flip_rounds-get (suc n) row i j k apart lt =
    flip_rounds-get n (swap row i j) (i + 1) (j - 1) k (omega arith)
      (omega (arith, swap-length row i j))
    ∙ swapped row n i j k apart lt

-- flipsrow reverses the first `n` samples of a row that holds as many, and leaves the others.
pub flipsrow-get :
    (row : List ℕ) (n k : ℕ)
    → n ≤ length row
    → get_or (flipsrow row n) k 0 ≡ get_or row (if ltb k n then n - 1 - k else k) 0
unfolding flipsrow
flipsrow-get row zero k le = unfold flip_rounds in ap (λ (t : ℕ). get_or row t 0) (ground arith)
flipsrow-get row (suc n) k le =
    flip_rounds-get (suc n / 2) row 0 (suc n - 1) k (omega arith) (omega arith)
    ∙ ap (λ (t : ℕ). get_or row t 0) (ground arith)
