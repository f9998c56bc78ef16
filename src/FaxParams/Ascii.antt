-- ===== src/FaxParams/Ascii.antt =====
-- asciiEncode and asciiDecode (libhylafax/FaxParams.c++) are inverse on the bytes that have a meaning.
use hyla_fax.Base.{
  ℕ, zero, suc, ◌+◌, ◌-◌, ◌*◌, ◌/◌, ◌%◌, ◌≤◌, ◌<◌, bit_or, true, false, not, ◌||◌, ltb, leb, ◌==◌,
  if◌then◌else◌, List, [], ◌∷◌, ◌++◌, Option, none, some, get_or, take, replicate, length, ◌≡◌,
  refl, ap, sym, ◌∙◌, arith, inl, inr, Bool-cases,
}
use mathlib.Core.List.{append_assoc}
use hyla_fax.Base.Checks.{all_below, all_below_sound}
use hyla_fax.Base.Lists.{put}
use hyla_fax.FaxParams.Bits.{
  get_byte, has_next_byte, hex_byte, hex_value, hex_digit, encode_from, ascii_encode, decode_from,
  ascii_decode, set_extend_down, set_extend_bits, initialize_bit_string,
}
use hyla_fax.FaxParams.View.{view, IsFaxBits}

-- The last byte that has a meaning: the first from `byte` on that tells of no other.
unfoldable pub last_from : (left byte : ℕ) → List ℕ → ℕ
last_from zero byte m = byte
last_from (suc left) byte m =
    let rest = last_from left (byte + 1) m in if has_next_byte m byte then rest else byte

-- The first n bytes, and 0 for the others.
abbrev pub upto : List ℕ → ℕ → List ℕ
upto m n = take n m ++ replicate (16 - n) 0

get_or-upto :
    (n r i : ℕ) (m : List ℕ)
    → i < n
    → n ≤ length m
    → get_or (take n m ++ replicate r 0) i 0 ≡ get_or m i 0
get_or-upto zero r i m lt le = absurd (omega arith)
get_or-upto (suc n) r i [] lt le = absurd (omega arith)
get_or-upto (suc n) r zero (x ∷ m) lt le = refl
get_or-upto (suc n) r (suc i) (x ∷ m) lt le = get_or-upto n r i m (omega arith) (omega arith)

pub put-upto :
    (n r : ℕ) (m : List ℕ)
    → n < length m
    → put (take n m ++ replicate (suc r) 0) n (get_or m n 0) ≡ take (suc n) m ++ replicate r 0
put-upto n r [] lt = absurd (omega arith)
put-upto zero r (x ∷ m) lt = refl
put-upto (suc n) r (x ∷ m) lt = ap (◌∷◌ x) (put-upto n r m (omega arith))

pub put_same : (m : List ℕ) (i : ℕ) → put m i (get_or m i 0) ≡ m
put_same [] i = refl
put_same (x ∷ m) zero = refl
put_same (x ∷ m) (suc i) = ap (◌∷◌ x) (put_same m i)

odd_bytes : all_below 256 (λ v. bit_or v 0x01 == v || not (view (v ∷ []) 0 0)) ≡ true
unfolding all_below
odd_bytes = refl

odd_byte : (v : ℕ) → v < 256 → view (v ∷ []) 0 0 ≡ true → bit_or v 0x01 ≡ v
odd_byte v lt odd = ground (arith, odd, all_below_sound 256 _ v odd_bytes lt)

hex_bytes :
    all_below 256
      (λ v. (hex_value (hex_digit (v / 16 % 16)) * 16 + hex_value (hex_digit (v % 16))) % 256 == v)
    ≡ true
unfolding all_below
hex_bytes = refl

hex_byte_lem :
    (v : ℕ)
    → v < 256
    → (hex_value (hex_digit (v / 16 % 16)) * 16 + hex_value (hex_digit (v % 16))) % 256 ≡ v
hex_byte_lem v lt = ground (arith, all_below_sound 256 _ v hex_bytes lt)

-- setExtendBits changes nothing where the extend bits are set.
set_extend_down_same :
    (rounds : ℕ) (m : List ℕ)
    → ((i : ℕ) → i < rounds + 2 → get_byte m i < 256)
    → ((i : ℕ) → 2 ≤ i → i < rounds + 2 → view m i 0 ≡ true)
    → set_extend_down rounds m ≡ m
unfolding set_extend_down
set_extend_down_same zero m bytes set = refl
set_extend_down_same (suc rounds) m bytes set =
    rw
      (
        odd_byte (get_byte m (rounds + 2)) (bytes (rounds + 2) (omega arith))
            (set (rounds + 2) (omega arith) (omega arith)),
        put_same m (rounds + 2),
      )
      (set_extend_down_same rounds m (λ i lt. bytes i (omega arith))
        (λ i ge lt. set i ge (omega arith)))

set_extend_bits_same :
    (n : ℕ) (m : List ℕ)
    → ((i : ℕ) → i < n → get_byte m i < 256)
    → ((i : ℕ) → 2 ≤ i → i < n → view m i 0 ≡ true)
    → set_extend_bits m n ≡ m
unfolding set_extend_bits
set_extend_bits_same n m bytes set = elim (Bool-cases (leb 3 n)) [
  | inl long ↦ rw long (
      set_extend_down_same (n - 2) m (λ i lt. bytes i (ground (arith, long)))
        (λ i ge lt. set i ge (ground (arith, long))))
  | inr short ↦ rw short refl
]

-- What separates the bytes.
abbrev separator : ℕ → List ℕ
separator byte = if byte == 0 then [] else 32 ∷ []

-- The characters of the bytes from b on, and what asciiDecode makes of them.
record IsEncoded (left b : ℕ) (m : List ℕ) : Type 0 where
  body : List ℕ
  encoded : encode_from left b m ≡ some (separator b ++ body)
  decoded : decode_from body b (upto m b) ≡ some (upto m (suc (last_from left b m)))

module _ (m : List ℕ) (is : IsFaxBits m) (ends : view m 15 0 ≡ false) where
  module _ (b : ℕ) (inside : b < 16) (set : (i : ℕ) → 2 ≤ i → i < b → view m i 0 ≡ true) where
    -- A byte decoded in its place.
    store :
        set_extend_bits
          (put (upto m b) b (
            (hex_value (hex_digit (get_byte m b / 16 % 16)) * 16
              + hex_value (hex_digit (get_byte m b % 16)))
            % 256))
          b
        ≡ upto m (suc b)
    store =
        let e : 16 - b ≡ suc (16 - suc b) = omega arith in
        let written = put-upto b (16 - suc b) m (omega (arith, is.sixteen)) in
        rw (hex_byte_lem (get_byte m b) (is.bytes b), e, written)
          (set_extend_bits_same b (upto m (suc b))
            (λ i lt.
              rw (get_or-upto (suc b) (16 - suc b) i m (omega arith) (omega (arith, is.sixteen)))
                (is.bytes i))
            (λ i ge lt.
              rw (get_or-upto (suc b) (16 - suc b) i m (omega arith) (omega (arith, is.sixteen)))
                (set i ge lt)))

    abbrev hex : List ℕ
    hex = hex_byte (get_byte m b)

    last_one : has_next_byte m b ≡ false → (left : ℕ) → IsEncoded (suc left) b m
    unfolding encode_from decode_from last_from
    last_one last left =
        let lt : ltb b 16 ≡ true = ground arith in
        record { body = hex; encoded = rw last refl; decoded = rw (lt, last) (ap some store) }

    one_more :
        (left : ℕ) → has_next_byte m b ≡ true → IsEncoded left (b + 1) m → IsEncoded (suc left) b m
    unfolding encode_from decode_from last_from
    one_more left more r =
        let lt : ltb b 16 ≡ true = ground arith in
        let e : (b + 1 == 0) ≡ false = ground arith in
        let up : b + 1 ≡ suc b = omega arith in
        let encoded' : encode_from left (b + 1) m ≡ some (32 ∷ r.body) = r.encoded ∙ rw e refl in
        let decoded' : decode_from r.body (b + 1) (upto m (suc b))
            ≡ some (upto m (suc (last_from left (b + 1) m))) =
          ap (λ (k : ℕ). decode_from r.body (b + 1) (upto m k)) (sym up) ∙ r.decoded in
        record {
          body = hex ++ (32 ∷ r.body);
          encoded = rw (more, encoded') (ap some (append_assoc (separator b) hex (32 ∷ r.body)));
          decoded = rw (lt, store, more) decoded';
        }

  IsEncoded-from :
      (left b : ℕ)
      → suc left + b ≡ 16
      → ((i : ℕ) → 2 ≤ i → i < b → view m i 0 ≡ true)
      → IsEncoded (suc left) b m
  IsEncoded-from zero b fit set = elim (Bool-cases (has_next_byte m b)) [
    | inr last ↦ last_one b (omega arith) set last 0
    | inl more ↦ let e : b ≡ 15 = omega arith in absurd (ground (arith, ends, (rw e at more)))
  ]
  IsEncoded-from (suc left) b fit set = elim (Bool-cases (has_next_byte m b)) [
    | inr last ↦ last_one b (omega arith) set last (suc left)
    | inl more ↦
        let set' : (i : ℕ) → 2 ≤ i → i < b + 1 → view m i 0 ≡ true = λ i ge lt.
          elim (Bool-cases (i == b)) [
            | inl same ↦ let e : i ≡ b = ground (arith, same) in rw e (ground (arith, more))
            | inr under ↦ set i ge (ground (arith, under))
          ] in
        one_more b (omega arith) set (suc left) more
          (IsEncoded-from left (b + 1) (omega arith) set')
  ]

-- asciiEncode, then asciiDecode into a new FaxParams.
abbrev pub encode_decode : List ℕ → Option (List ℕ)
encode_decode m = elim (ascii_encode m) [
  | none ↦ none
  | some text ↦ ascii_decode text initialize_bit_string
]

abbrev pub last_byte : List ℕ → ℕ
last_byte m = last_from 16 0 m

-- asciiEncode stays within the array, and asciiDecode of its text in a new FaxParams gives the bytes back
-- up to the last that has a meaning, and 0 for the others, for sixteen bytes the last of which tells of no
-- other.
pub ascii_decode-ascii_encode :
    (m : List ℕ)
    → IsFaxBits m
    → view m 15 0 ≡ false
    → encode_decode m ≡ some (upto m (suc (last_byte m)))
unfolding ascii_encode ascii_decode
ascii_decode-ascii_encode m is ends =
    let r = IsEncoded-from m is ends 15 0 refl (λ i ge lt. absurd (omega arith)) in
    let e : ascii_encode m ≡ some r.body = r.encoded in rw (encode_decode, e) r.decoded
