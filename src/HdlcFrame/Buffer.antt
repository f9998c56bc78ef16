-- ===== src/HdlcFrame/Buffer.antt =====
-- HDLCFrame (faxd/HDLCFrame.h, faxd/HDLCFrame.c++): the buffer of a frame. `mem` are the bytes from
-- `base` to `end`, `next` is the offset of the member of that name, and `in_buf` tells whether `base` is
-- the array `buf`.
use hyla_fax.Base.{
  ℕ, ◌+◌, ◌-◌, ◌*◌, ◌^◌, bit_and, bit_or, Bool, true, false, ltb, ◌==◌, if◌then◌else◌, not, List,
  [], ◌∷◌, ◌++◌, get_or, take, drop, length,
}
use hyla_fax.Base.Lists.{put}
use hyla_fax.HdlcFrame.Crc.{build_crc, crc_is_good}
use hyla_fax.FaxParams.Bits.{setup_t30}

pub record HdlcFrame : Type 0 where
  pub mem : List ℕ
  pub next : ℕ
  pub in_buf : Bool
  pub amount_to_grow_by : ℕ
  pub frame_overhead : ℕ
  pub crc : ℕ
  pub ok : Bool

-- sizeof (buf).
abbrev pub buf_size : ℕ
buf_size = 2048

-- memcpy to an offset; bytes beyond the end would be lost.
unfoldable pub copy_to : List ℕ → (offset : ℕ) → List ℕ → List ℕ
copy_to mem offset [] = mem
copy_to mem offset (b ∷ bytes) = copy_to (put mem offset b) (offset + 1) bytes

-- The constructor; `garbage` are the bytes of the array before they are written.
abbrev pub new_frame : (garbage : List ℕ) → (fo : ℕ) → HdlcFrame
new_frame garbage fo = record {
  mem = garbage;
  next = 0;
  in_buf = true;
  amount_to_grow_by = 1024;
  frame_overhead = fo;
  crc = 0xffff;
  ok = false;
}

abbrev pub reset : HdlcFrame → HdlcFrame
reset s = record s { next = 0; ok = false; crc = 0xffff }

abbrev pub get_length : HdlcFrame → ℕ
get_length s = s.next

-- What the frame holds.
abbrev pub contents : HdlcFrame → List ℕ
contents s = take s.next s.mem

module _ (malloc : ℕ → List ℕ) where
  -- grow; malloc gives bytes that may be any, realloc keeps those that there are.
  unfoldable pub grow : HdlcFrame → (amount : ℕ) → HdlcFrame
  grow s amount =
      let more = if ltb amount s.amount_to_grow_by then s.amount_to_grow_by else amount in
      let new_size = length s.mem + more in
      if s.in_buf
      then record s { mem = copy_to (malloc new_size) 0 (take buf_size s.mem); in_buf = false }
      else record s { mem = s.mem ++ drop (length s.mem) (malloc new_size) }

  -- `*next++ = c`.
  abbrev pub store : HdlcFrame → (c : ℕ) → HdlcFrame
  store s c = record s { mem = put s.mem s.next c; next = s.next + 1 }

  unfoldable pub addc : HdlcFrame → (c : ℕ) → HdlcFrame
  addc s c = if ltb s.next (length s.mem) then store s c else store (grow s s.amount_to_grow_by) c

  -- put of a byte.
  unfoldable pub put_byte : HdlcFrame → (c : ℕ) → HdlcFrame
  put_byte s c =
      let s' = if ltb s.next (length s.mem) then store s c else addc s c in
      record s' { crc = build_crc c s'.crc }

  -- put of several bytes, which leaves the checksum as it is.
  unfoldable pub put_bytes : HdlcFrame → (c : List ℕ) → HdlcFrame
  put_bytes s c =
      let remaining_space = length s.mem - s.next in
      let s' = if ltb remaining_space (length c) then grow s (length c - remaining_space) else s in
      record s' { mem = copy_to s'.mem s'.next c; next = s'.next + length c }

-- The copy constructor. `array` are the bytes of the copy's own array, and `amount` is what happens to
-- stand in amountToGrowBy, which the code does not set.
unfoldable pub copy_frame :
    (malloc : ℕ → List ℕ) → (array : List ℕ) → (amount : ℕ) → (other : HdlcFrame) → HdlcFrame
copy_frame malloc array amount other =
    let size = length other.mem in
    let large = ltb buf_size size in
    let base = if large then malloc size else take size array in
    record {
      mem = copy_to base 0 (take other.next other.mem);
      next = other.next;
      in_buf = not large;
      amount_to_grow_by = amount;
      frame_overhead = other.frame_overhead;
      crc = 0xffff;
      ok = other.ok;
    }

-- `(*this)[i]`.
abbrev pub byte_of : HdlcFrame → ℕ → ℕ
byte_of s i = get_or s.mem i 0

abbrev pub more_frames : HdlcFrame → Bool
more_frames s = bit_and (byte_of s 1) 0x08 == 0

abbrev pub check_crc : HdlcFrame → Bool
check_crc s = crc_is_good s.crc

-- getCRC, in 32 bits.
abbrev pub get_crc : HdlcFrame → ℕ
get_crc s = 0xffffffff - s.crc

abbrev pub set_ok : HdlcFrame → Bool → HdlcFrame
set_ok s b = record s { ok = b }

abbrev pub get_raw_fcf : HdlcFrame → ℕ
get_raw_fcf s = byte_of s 2

abbrev pub get_fcf : HdlcFrame → ℕ
get_fcf s = bit_and (byte_of s 2) 0x7f

abbrev pub get_fcf2 : HdlcFrame → ℕ
get_fcf2 s = bit_and (byte_of s 3) 0x7f

abbrev pub get_frame_data_length : HdlcFrame → ℕ
get_frame_data_length s =
    if ltb s.frame_overhead (get_length s) then get_length s - s.frame_overhead else 0

-- getDataWord.
unfoldable pub get_data_word : HdlcFrame → ℕ
get_data_word s =
    let n = get_frame_data_length s in
    let w1 = if ltb 0 n then byte_of s 3 else 0 in
    let w2 = if ltb 1 n then bit_or (w1 * 2 ^ 8) (byte_of s 4) else w1 in
    let w3 = if ltb 2 n then bit_or (w2 * 2 ^ 8) (byte_of s 5) else w2 in
    if ltb 3 n then bit_or (w3 * 2 ^ 8) (byte_of s 6) else w3

-- getDIS; a length of 0 makes the int -1, for which setupT30 reads nothing.
abbrev pub get_dis : HdlcFrame → List ℕ
get_dis s = setup_t30 (take (get_frame_data_length s - 1) (drop 3 s.mem))
