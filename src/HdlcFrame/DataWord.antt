-- ===== src/HdlcFrame/DataWord.antt =====
-- getDataWord (faxd/HDLCFrame.c++) is the number that the first bytes of the data make.
use hyla_fax.Base.{
  ℕ, zero, suc, ◌+◌, ◌*◌, ◌^◌, ◌≤◌, ◌<◌, bit_or, true, ltb, if◌then◌else◌, List, [], ◌∷◌, get_or,
  take, drop, length, ◌≡◌, refl, sym, ap, ◌∙◌, arith,
}
use hyla_fax.Base.Lists.{length-drop}
use hyla_fax.Base.Binary.{bit_or-shifted}
use hyla_fax.HdlcFrame.Buffer.{HdlcFrame, byte_of, get_frame_data_length, get_data_word}

-- The number with the bytes as its digits, the first the highest.
unfoldable pub number_of : List ℕ → (above : ℕ) → ℕ
number_of [] above = above
number_of (b ∷ bytes) above = number_of bytes (above * 256 + b)

-- The data of a frame: what follows the three bytes of its address, control and FCF, without the
-- overhead.
abbrev pub frame_data : HdlcFrame → List ℕ
frame_data s = take (get_frame_data_length s) (drop 3 s.mem)

shift_or : (w b : ℕ) → b < 256 → bit_or (w * 2 ^ 8) b ≡ w * 256 + b
shift_or w b lt = bit_or-shifted 8 w b lt

-- The word of n bytes of data.
abbrev word : (n a b c d : ℕ) → ℕ
word n a b c d =
    let w1 = if ltb 0 n then a else 0 in
    let w2 = if ltb 1 n then bit_or (w1 * 2 ^ 8) b else w1 in
    let w3 = if ltb 2 n then bit_or (w2 * 2 ^ 8) c else w2 in
    if ltb 3 n then bit_or (w3 * 2 ^ 8) d else w3

word-number :
    (n : ℕ) (ds : List ℕ)
    → ((i : ℕ) → get_or ds i 0 < 256)
    → n ≤ length ds
    → word n (get_or ds 0 0) (get_or ds 1 0) (get_or ds 2 0) (get_or ds 3 0)
      ≡ number_of (take 4 (take n ds)) 0
unfolding number_of
word-number zero ds bytes room = refl
word-number (suc n) [] bytes room = absurd (omega arith)
word-number (suc zero) (a ∷ ds) bytes room = omega arith
word-number (suc (suc n)) (a ∷ []) bytes room = absurd (omega arith)
word-number (suc (suc zero)) (a ∷ b ∷ ds) bytes room = rw (shift_or a b (bytes 1)) (omega arith)
word-number (suc (suc (suc n))) (a ∷ b ∷ []) bytes room = absurd (omega arith)
word-number (suc (suc (suc zero))) (a ∷ b ∷ c ∷ ds) bytes room =
    rw (shift_or a b (bytes 1), shift_or (a * 256 + b) c (bytes 2)) (omega arith)
word-number (suc (suc (suc (suc n)))) (a ∷ b ∷ c ∷ []) bytes room = absurd (omega arith)
word-number (suc (suc (suc (suc n)))) (a ∷ b ∷ c ∷ d ∷ ds) bytes room =
    let k = suc (suc (suc (suc n))) in
    let l0 : ltb 0 k ≡ true = ground arith in
    let l1 : ltb 1 k ≡ true = ground arith in
    let l2 : ltb 2 k ≡ true = ground arith in
    let l3 : ltb 3 k ≡ true = ground arith in
    rw
      (
        l0,
        l1,
        l2,
        l3,
        shift_or a b (bytes 1),
        shift_or (a * 256 + b) c (bytes 2),
        shift_or ((a * 256 + b) * 256 + c) d (bytes 3),
      )
      (omega arith)

get_or-drop : (k i : ℕ) (m : List ℕ) → get_or (drop k m) i 0 ≡ get_or m (k + i) 0
get_or-drop zero i m = ap (λ (n : ℕ). get_or m n 0) (omega arith)
get_or-drop (suc k) i [] = refl
get_or-drop (suc k) i (x ∷ m) =
    get_or-drop k i m
    ∙ sym (ap (λ (n : ℕ). get_or (x ∷ m) n 0) {x = suc k + i} {y = suc (k + i)} (omega arith))

-- getDataWord is the number of the first four bytes of the data, or of all where there are fewer, for a
-- frame of bytes that has as many bytes of memory.
pub get_data_word-number :
    (s : HdlcFrame)
    → ((i : ℕ) → byte_of s i < 256)
    → 3 + get_frame_data_length s ≤ length s.mem
    → get_data_word s ≡ number_of (take 4 (frame_data s)) 0
unfolding get_data_word
get_data_word-number s bytes room =
    let at = λ (i : ℕ). get_or-drop 3 i s.mem in
    let data_bytes : (i : ℕ) → get_or (drop 3 s.mem) i 0 < 256 = λ i. rw (at i) (bytes (3 + i)) in
    rw (at 0, at 1, at 2, at 3) at
      (word-number (get_frame_data_length s) (drop 3 s.mem) data_bytes
        (omega (arith, room, length-drop 3 s.mem)))
