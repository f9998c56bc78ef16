-- ===== src/FaxParams/Whole.antt =====
-- setupT30 (libhylafax/FaxParams.c++) of the bytes that have a meaning gives the bit string back, where its
-- extend bits are right.
use hyla_fax.Base.{
  ℕ, zero, suc, ◌+◌, ◌-◌, ◌≤◌, ◌<◌, bit_and, true, false, ◌&&◌, ◌||◌, ltb, ◌==◌, if◌then◌else◌,
  List, [], ◌∷◌, ◌++◌, get_or, take, replicate, length, ◌≡◌, refl, ap, sym, ◌∙◌, arith, inl, inr,
  Bool-cases,
}
use hyla_fax.Base.Checks.{all_below, all_below_sound}
use hyla_fax.Base.Lists.{length-take}
use hyla_fax.FaxParams.Bits.{get_byte, has_next_byte, setup_bytes, setup_t30, initialize_bit_string}
use hyla_fax.FaxParams.View.{view, IsFaxBits, byte_after}
use hyla_fax.FaxParams.Ascii.{last_from, last_byte, upto, put-upto, put_same}
use hyla_fax.FaxParams.Unsetting.{IsExtended}

-- The last byte with a meaning: it tells of no other, and those before it, from b on, do.
pub record IsLast (b l : ℕ) (m : List ℕ) : Type 0 where
  pub inside : l < 16
  pub from : b ≤ l
  pub stops : has_next_byte m l ≡ false
  pub more : (i : ℕ) → b ≤ i → i < l → has_next_byte m i ≡ true

here-IsLast : (b : ℕ) (m : List ℕ) → b < 16 → has_next_byte m b ≡ false → IsLast b b m
here-IsLast b m lt last = record {
  inside = lt;
  from = omega arith;
  stops = last;
  more = λ i ge less. absurd (omega (arith, ge, less));
}

last_from-IsLast :
    (left b : ℕ) (m : List ℕ)
    → suc left + b ≡ 16
    → view m 15 0 ≡ false
    → IsLast b (last_from (suc left) b m) m
unfolding last_from
last_from-IsLast zero b m fit ends = elim (Bool-cases (has_next_byte m b)) [
  | inr last ↦ rw last (here-IsLast b m (omega (arith, fit)) last)
  | inl next ↦ let e : b ≡ 15 = omega (arith, fit) in absurd (ground (arith, ends, (rw e at next)))
]
last_from-IsLast (suc left) b m fit ends = elim (Bool-cases (has_next_byte m b)) [
  | inr last ↦ rw last (here-IsLast b m (omega (arith, fit)) last)
  | inl next ↦
      let r = last_from-IsLast left (b + 1) m (omega (arith, fit)) ends in
      rw next (record {
        inside = r.inside;
        from = omega (arith, r.from);
        stops = r.stops;
        more = λ i ge lt. elim (Bool-cases (i == b)) [
          | inl same ↦ let e : i ≡ b = ground (arith, same) in rw e next
          | inr other ↦ r.more i (ground (arith, ge, other)) lt
        ];
      })
]

get_or-take_front : (n i : ℕ) (m : List ℕ) → i < n → get_or (take n m) i 0 ≡ get_or m i 0
get_or-take_front zero i m lt = absurd (omega arith)
get_or-take_front (suc n) i [] lt = refl
get_or-take_front (suc n) zero (x ∷ m) lt = refl
get_or-take_front (suc n) (suc i) (x ∷ m) lt = get_or-take_front n i m (omega arith)

-- The loop of setupT30 fills the array byte by byte.
setup_bytes-upto :
    (rounds b n : ℕ) (m : List ℕ)
    → length m ≡ 16
    → n ≤ 16
    → rounds + b ≡ n
    → ((i : ℕ) → b ≤ i → i + 1 < n → has_next_byte m i ≡ true)
    → setup_bytes rounds b false (take n m) (upto m b) ≡ upto m n
unfolding setup_bytes
setup_bytes-upto zero b n m sixteen small fit more = let e : b ≡ n = omega (arith, fit) in rw e refl
setup_bytes-upto (suc zero) b n m sixteen small fit more =
    let e : 16 - b ≡ suc (16 - suc b) = omega (arith, small, fit) in
    let n_is : n ≡ suc b = omega (arith, fit) in
    rw
      (
        get_or-take_front n b m (omega (arith, fit)),
        e,
        put-upto b (16 - suc b) m (omega (arith, sixteen, small, fit)),
        n_is,
      )
      refl
setup_bytes-upto (suc (suc rounds)) b n m sixteen small fit more =
    let e : 16 - b ≡ suc (16 - suc b) = omega (arith, small, fit) in
    let up : b + 1 ≡ suc b = omega arith in
    let goes : (ltb 2 b && bit_and (get_byte m b) 0x01 == 0) ≡ false =
      ground (arith, more b (omega arith) (omega (arith, fit))) in
    let next =
      setup_bytes-upto (suc rounds) (b + 1) n m sixteen small (omega (arith, fit))
        (λ i ge lt. more i (omega (arith, ge)) lt) in
    rw
      (
        get_or-take_front n b m (omega (arith, fit)),
        goes,
        e,
        put-upto b (16 - suc b) m (omega (arith, sixteen, small, fit)),
      )
      (ap (λ (k : ℕ). setup_bytes (suc rounds) (b + 1) false (take n m) (upto m k)) (sym up) ∙ next)

-- Zeros behind the first n bytes.
upto_whole :
    (n r : ℕ) (m : List ℕ)
    → length m ≡ n + r
    → ((i : ℕ) → n ≤ i → get_or m i 0 ≡ 0)
    → take n m ++ replicate r 0 ≡ m
upto_whole zero zero [] e zeros = refl
upto_whole zero zero (x ∷ m) e zeros = absurd (omega (arith, e))
upto_whole zero (suc r) [] e zeros = absurd (omega (arith, e))
upto_whole zero (suc r) (x ∷ m) e zeros =
    let rest = upto_whole zero r m (omega (arith, e)) (λ i ge. zeros (suc i) (omega arith)) in
    rw (zeros 0 (omega arith), rest) refl
upto_whole (suc n) r [] e zeros = absurd (omega (arith, e))
upto_whole (suc n) r (x ∷ m) e zeros =
    ap (◌∷◌ x) (upto_whole n r m (omega (arith, e)) (λ i ge. zeros (suc i) (omega (arith, ge))))

cleared_end : all_below 256 (λ v. view (v ∷ []) 0 0 || bit_and v 0xfe == v) ≡ true
unfolding all_below
cleared_end = refl

module _ (m : List ℕ) (is : IsFaxBits m) (ext : IsExtended m) where
  whole-ends : view m 15 0 ≡ false
  whole-ends = elim (Bool-cases (view m 15 0)) [
    | inl set ↦
        absurd (omega (arith, ext.needed 15 (omega arith) set, byte_after m is 16 (omega arith)))
    | inr unset ↦ unset
  ]

  pub whole-IsLast : IsLast 0 (last_byte m) m
  whole-IsLast = last_from-IsLast 15 0 m refl whole-ends

  -- Behind the last byte with a meaning the bytes are 0.
  whole-zeros : (i : ℕ) → suc (last_byte m) ≤ i → get_byte m i ≡ 0
  whole-zeros i beyond = elim (Bool-cases (get_byte m i == 0)) [
    | inl empty ↦ ground (arith, empty)
    | inr used ↦
        let stops = whole-IsLast.stops in
        let two : 2 ≤ last_byte m = ground (arith, stops) in
        let set = ext.extended (last_byte m) i two (omega (arith, beyond)) (ground (arith, used)) in
        absurd (ground (arith, stops, set))
  ]

  whole-upto : upto m (suc (last_byte m)) ≡ m
  whole-upto =
      let inside = whole-IsLast.inside in
      upto_whole (suc (last_byte m)) (16 - suc (last_byte m)) m (omega (arith, is.sixteen, inside))
        whole-zeros

  -- setupT30 of the bytes up to the last with a meaning gives the whole array back.
  pub setup_t30-whole : setup_t30 (take (suc (last_byte m)) m) ≡ m
  unfolding setup_t30
  setup_t30-whole =
      let l = whole-IsLast in
      let n = suc (last_byte m) in
      let len : length (take n m) ≡ n = omega (arith, length-take n m, is.sixteen, l.inside) in
      let rounds : (if ltb n 16 then n else 16) ≡ n = ground (arith, l.inside) in
      let filled : setup_bytes n 0 false (take n m) initialize_bit_string ≡ m =
        setup_bytes-upto n 0 n m is.sixteen (omega (arith, l.inside)) (omega arith)
          (λ i ge lt. l.more i (omega arith) (omega (arith, lt)))
        ∙ whole-upto in
      let last : bit_and (get_byte m 15) 0xfe ≡ get_byte m 15 =
        ground
          (arith, whole-ends, all_below_sound 256 _ (get_byte m 15) cleared_end (is.bytes 15)) in
      rw (len, rounds, filled, last) (put_same m 15)
