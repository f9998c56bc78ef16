-- ===== src/G3/WordSpans.antt =====
-- G3Encoder::find0span and G3Encoder::find1span (faxd/G3Encoder.c++), which look for a span of one
-- colour a machine word at a time. The two differ in their table and in the byte of the colour
-- (`fill`, 0x00 or 0xff; the word test is for long_size bytes of it).
use hyla_fax.Base.{
  ℕ, zero, suc, ◌+◌, ◌-◌, ◌*◌, ◌/◌, ◌%◌, bit_and, Bool, true, false, not, ◌&&◌, ltb, leb, ◌==◌,
  if◌then◌else◌, List, [], ◌∷◌, get_or, drop,
}
use hyla_fax.G3.Spans.{zeroruns, oneruns, left_span}

-- sizeof (long), as on a 64-bit machine.
abbrev pub long_size : ℕ
long_size = 8

-- isAligned: the address is a multiple of sizeof (long).
abbrev pub is_aligned : ℕ → Bool
is_aligned addr = bit_and addr (long_size - 1) == 0

-- The next `k` bytes are `fill`.
unfoldable pub all_are : ℕ → ℕ → List ℕ → Bool
all_are fill zero bp = true
all_are fill (suc k) [] = false
all_are fill (suc k) (b ∷ bp) = b == fill && all_are fill k bp

-- The loop over full bytes and the partial byte on the right.
unfoldable pub scan_bytes : ℕ → List ℕ → List ℕ → ℕ → ℕ → ℕ
scan_bytes fill tab [] bits span = span
scan_bytes fill tab (b ∷ bp) bits span =
    let n = get_or tab b 0 in
    let rest = scan_bytes fill tab bp (bits - 8) (span + 8) in
    if leb 8 bits
    then if b == fill then rest else span + n
    else if ltb 0 bits
    then span + (if ltb bits n then bits else n)
    else span

-- The loop over words. A round takes 8 * long_size bits, so that `bits` rounds are enough.
unfoldable pub scan_words : ℕ → ℕ → List ℕ → List ℕ → ℕ → ℕ → ℕ
scan_words zero fill tab bp bits span = scan_bytes fill tab bp bits span
scan_words (suc fuel) fill tab bp bits span =
    let rest =
      scan_words fuel fill tab (drop long_size bp) (bits - 8 * long_size) (span + 8 * long_size) in
    if leb (8 * long_size) bits && all_are fill long_size bp
    then rest
    else scan_bytes fill tab bp bits span

-- The loop up to a word boundary; `addr` is the address of the first byte of `bp`.
unfoldable pub align_scan : ℕ → List ℕ → ℕ → List ℕ → ℕ → ℕ → ℕ
align_scan fill tab addr [] bits span = span
align_scan fill tab addr (b ∷ bp) bits span =
    let rest = align_scan fill tab (suc addr) bp (bits - 8) (span + 8) in
    if is_aligned addr
    then scan_words bits fill tab (b ∷ bp) bits span
    else if b == fill
    then rest
    else span + get_or tab b 0

-- The search from a byte boundary on.
unfoldable pub scan_from : ℕ → List ℕ → ℕ → List ℕ → ℕ → ℕ → ℕ
scan_from fill tab addr bp bits span =
    if leb (2 * 8 * long_size) bits
    then align_scan fill tab addr bp bits span
    else scan_bytes fill tab bp bits span

unfoldable pub scan_left : ℕ → List ℕ → ℕ → List ℕ → ℕ → ℕ → ℕ
scan_left fill tab addr [] n bits = 0
scan_left fill tab addr (b ∷ bp) n bits =
    let span = left_span tab b n bits in
    if ltb (n + span) 8 then span else scan_from fill tab (suc addr) bp (bits - span) span

-- The body of both functions. Their callers pass `bs <= be`; `addr` is the address of the bit string.
unfoldable pub word_span : ℕ → List ℕ → ℕ → List ℕ → ℕ → ℕ → ℕ
word_span fill tab addr base bs be =
    let bits = be - bs in
    let n = bs % 8 in
    let bp = drop (bs / 8) base in
    let a = addr + bs / 8 in
    if ltb 0 bits && not (n == 0)
    then scan_left fill tab a bp n bits
    else scan_from fill tab a bp bits 0

unfoldable pub find0span : ℕ → List ℕ → ℕ → ℕ → ℕ
find0span = word_span 0x00 zeroruns

unfoldable pub find1span : ℕ → List ℕ → ℕ → ℕ → ℕ
find1span = word_span 0xff oneruns
