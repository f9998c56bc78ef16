-- ===== src/Row/Samples.antt =====
-- sgi2fax/row.c: the operations on samples. A short is its 16-bit word, so that a word of 32768 or more
-- is negative; a row holds `n` samples at least, and a function returns the `n` that it writes.
use hyla_fax.Base.{
  ℕ, zero, suc, ◌+◌, ◌-◌, ◌*◌, ◌%◌, ◌≤◌, ◌<◌, ltb, leb, if◌then◌else◌, List, [], ◌∷◌, map, take,
  ◌≡◌, refl, ap, ◌∙◌, arith,
}
use hyla_fax.Base.Int.{ℤ, pos, negsuc}
use hyla_fax.Row.Loops.{by_eight, by_eight-map}

-- DOCLAMP.
abbrev pub clamp : ℕ → ℕ
clamp s = if leb 32768 s then 0 else if ltb 255 s then 255 else s

unfoldable pub clamprow : List ℕ → ℕ → List ℕ
clamprow = by_eight clamp

-- The word of an int that is converted to a short.
abbrev pub to_word : ℤ → ℕ
to_word (pos n) = n % 65536
to_word (negsuc n) = 65535 - n % 65536

-- Two rows of samples, element by element.
abbrev pub both : List ℕ → List ℕ → List (ℕ × ℕ)
both (x ∷ xs) (y ∷ ys) = (x, y) ∷ both xs ys
both _ _ = []

abbrev pub add_short : ℕ × ℕ → ℕ
add_short p = (p.0 + p.1) % 65536

abbrev pub sub_short : ℕ × ℕ → ℕ
sub_short p = (p.0 + 65536 - p.1) % 65536

unfoldable pub addsrow : List ℕ → List ℕ → ℕ → List ℕ
addsrow dptr sptr n = by_eight add_short (both dptr sptr) n

unfoldable pub subsrow : List ℕ → List ℕ → ℕ → List ℕ
subsrow dptr sptr n = by_eight sub_short (both dptr sptr) n

abbrev pub acc_short : ℤ → ℕ × ℕ → ℕ
acc_short w p = (p.0 + to_word w * p.1) % 65536

-- The tests for weights of 1 and -1.
unfoldable pub accrow : List ℕ → List ℕ → ℤ → ℕ → List ℕ
accrow iptr sptr (pos (suc zero)) n = addsrow iptr sptr n
accrow iptr sptr (negsuc zero) n = subsrow iptr sptr n
accrow iptr sptr w n = by_eight (acc_short w) (both iptr sptr) n

-- A row of samples.
abbrev pub AreShorts : List ℕ → Type 0
AreShorts [] = Unit {0}
AreShorts (x ∷ xs) = (x < 65536) × AreShorts xs

-- The samples of a row are between 0 and 255.
abbrev pub AreLevels : List ℕ → Type 0
AreLevels [] = Unit {0}
AreLevels (x ∷ xs) = (x ≤ 255) × AreLevels xs

map-clamp : (xs : List ℕ) → AreLevels (map clamp xs)
map-clamp [] = tt
map-clamp (x ∷ xs) = (ground arith, map-clamp xs)

map-clamp-twice : (xs : List ℕ) → AreLevels xs → map clamp xs ≡ xs
map-clamp-twice [] h = refl
map-clamp-twice (x ∷ xs) h =
    ap (λ (t : ℕ). t ∷ map clamp xs) {x = clamp x} {y = x} (ground (arith, h.0))
    ∙ ap (◌∷◌ x) (map-clamp-twice xs h.1)

take-AreLevels : (n : ℕ) (xs : List ℕ) → AreLevels xs → AreLevels (take n xs)
take-AreLevels zero xs h = tt
take-AreLevels (suc n) [] h = h
take-AreLevels (suc n) (x ∷ xs) h = (h.0, take-AreLevels n xs h.1)

-- clamprow puts samples between 0 and 255, for every row of shorts.
pub clamprow-AreLevels : (row : List ℕ) (n : ℕ) → AreLevels (clamprow row n)
unfolding clamprow
clamprow-AreLevels row n = rw (by_eight-map clamp row n) (map-clamp (take n row))

-- clamprow keeps the first `n` samples of a row whose samples are between 0 and 255.
pub clamprow-take : (row : List ℕ) (n : ℕ) → AreLevels row → clamprow row n ≡ take n row
unfolding clamprow
clamprow-take row n h =
    by_eight-map clamp row n ∙ map-clamp-twice (take n row) (take-AreLevels n row h)

map-add : (ps : List (ℕ × ℕ)) → map add_short ps ≡ map (acc_short (pos 1)) ps
map-add [] = refl
map-add (p ∷ ps) =
    ap (λ (t : ℕ). t ∷ map add_short ps) {x = add_short p} {y = acc_short (pos 1) p} (omega arith)
    ∙ ap (◌∷◌ (acc_short (pos 1) p)) (map-add ps)

minus_one : (a b : ℕ) → b < 65536 → (a + 65536 - b) % 65536 ≡ (a + 65535 * b) % 65536
minus_one a b lt = omega arith

map-sub :
    (xs ys : List ℕ) (n : ℕ)
    → AreShorts ys
    → map sub_short (take n (both xs ys)) ≡ map (acc_short (negsuc 0)) (take n (both xs ys))
map-sub xs ys zero h = refl
map-sub [] ys (suc n) h = refl
map-sub (x ∷ xs) [] (suc n) h = refl
map-sub (x ∷ xs) (y ∷ ys) (suc n) h =
    ap (λ (t : ℕ). t ∷ map sub_short (take n (both xs ys))) (minus_one x y h.0)
    ∙ ap (◌∷◌ ((x + 65535 * y) % 65536)) (map-sub xs ys n h.1)

-- accrow adds `w` times a sample, modulo 2^16, to each of the first `n` samples of a row, for every
-- weight: its short cuts for the weights 1 and -1 compute the same.
pub accrow-map :
    (iptr sptr : List ℕ) (w : ℤ) (n : ℕ)
    → AreShorts sptr
    → accrow iptr sptr w n ≡ map (acc_short w) (take n (both iptr sptr))
unfolding accrow addsrow subsrow
accrow-map iptr sptr (pos zero) n h = by_eight-map (acc_short (pos 0)) (both iptr sptr) n
accrow-map iptr sptr (pos (suc zero)) n h =
    by_eight-map add_short (both iptr sptr) n ∙ map-add (take n (both iptr sptr))
accrow-map iptr sptr (pos (suc (suc k))) n h =
    by_eight-map (acc_short (pos (suc (suc k)))) (both iptr sptr) n
accrow-map iptr sptr (negsuc zero) n h =
    by_eight-map sub_short (both iptr sptr) n ∙ map-sub iptr sptr n h
accrow-map iptr sptr (negsuc (suc k)) n h =
    by_eight-map (acc_short (negsuc (suc k))) (both iptr sptr) n
