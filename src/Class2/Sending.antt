-- ===== src/Class2/Sending.antt =====
-- A DCS from the parameters of the sender to those of the receiver: update (libhylafax/Class2Params.c++),
-- sendFrame (faxd/Class1.c++), getDIS (faxd/HDLCFrame.c++) and setFromDCS.
use hyla_fax.Base.{
  none, ℕ, zero, suc, ◌+◌, ◌-◌, ◌%◌, Bool, true, false, not, ◌&&◌, leb, ltb, ◌==◌, if◌then◌else◌,
  List, [], ◌∷◌, Option, some, take, drop, length, ◌≡◌, refl, ap, sym, ◌∙◌, arith,
}
use hyla_fax.Base.Lists.{length-take}
use hyla_fax.FaxParams.Bits.{setup_t30_words, set_bit}
use hyla_fax.FaxParams.View.{IsFaxBits, bit_of-positive}
use hyla_fax.FaxParams.SetBit.{set_bit-IsFaxBits}
use hyla_fax.FaxParams.Setup.{get_or-zeros, initialize-IsFaxBits}
use hyla_fax.FaxParams.Unsetting.{IsExtended}
use hyla_fax.FaxParams.Extended.{set_bit-IsExtended}
use hyla_fax.FaxParams.Ascii.{last_byte}
use hyla_fax.FaxParams.Whole.{whole-IsLast, setup_t30-whole}
use hyla_fax.HdlcFrame.Buffer.{HdlcFrame, contents, get_dis}
use hyla_fax.HdlcFrame.Send.{
  received, IsReceived, received-IsReceived, send_frame, send_frame-IsSent,
}
use hyla_fax.Class2.Session.{Session, set_from_dcs}
use hyla_fax.Class2.Update.{
  check_param, resolution_bits, rate_bits, page_bits, format_bits, scan_bits, set_all, set_ecm,
  update,
}
use hyla_fax.Class2.Dcs.{IsSession, carried, set_from_dcs-update}

-- Sixteen bytes with right extend bits.
record IsString (m : List ℕ) : Type 0 where
  bits : IsFaxBits m
  extended : IsExtended m

set_bit-IsString :
    (m : List ℕ) (n : ℕ) (val : Bool)
    → ((n % 8 == 0) && leb 24 n) ≡ false
    → IsString m
    → IsString (set_bit m n val)
set_bit-IsString m n val plain is = record {
  bits = set_bit-IsFaxBits m n val is.bits;
  extended = set_bit-IsExtended m n val is.bits is.extended plain;
}

unfoldable are_plain : List (Bool × ℕ) → Bool
are_plain [] = true
are_plain ((c, n) ∷ more) = not ((n % 8 == 0) && leb 24 n) && are_plain more

set_all-IsString :
    (fs : List (Bool × ℕ)) (m : List ℕ) → are_plain fs ≡ true → IsString m → IsString (set_all fs m)
unfolding set_all are_plain
set_all-IsString [] m plain is = is
set_all-IsString ((true, n) ∷ more) m plain is =
    set_all-IsString more _ (ground (arith, plain))
      (set_bit-IsString m n true (ground (arith, plain)) is)
set_all-IsString ((false, n) ∷ more) m plain is = set_all-IsString more m (ground (arith, plain)) is

set_if-IsString :
    (m : List ℕ) (f : ℕ) (c val : Bool)
    → ((f % 8 == 0) && leb 24 f) ≡ false
    → IsString m
    → IsString (if c then set_bit (set_bit m 27 true) f val else m)
set_if-IsString m f true val plain is =
    set_bit-IsString _ f val plain (set_bit-IsString m 27 true refl is)
set_if-IsString m f false val plain is = is

start-IsString : IsString (setup_t30_words 0 0)
unfolding setup_t30_words
start-IsString = record {
  bits = initialize-IsFaxBits;
  extended = record {
    extended = λ i j ge lt positive. absurd (omega (arith, get_or-zeros 16 j, positive));
    needed = λ i ge set.
        absurd (omega (arith, get_or-zeros 16 i, bit_of-positive _ 0 (omega arith) set));
  };
}

update-IsString : (p : Session) → IsString (update p false)
unfolding update set_ecm are_plain
update-IsString p =
    let m1 =
      set_all-IsString (resolution_bits p false) _ refl
        (set_bit-IsString _ 10 true refl start-IsString) in
    let m2 = set_all-IsString (rate_bits p false) _ refl m1 in
    let m3 = set_all-IsString (page_bits p false) _ refl m2 in
    let m4 = set_all-IsString (format_bits p false) _ refl m3 in
    let m5 = set_all-IsString (scan_bits p false) _ refl m4 in
    set_if-IsString _ 28 (check_param p.ec 2 false) false refl
      (set_if-IsString _ 28 (check_param p.ec 1 false) true refl m5)

drop-take_front : (k n : ℕ) (mem : List ℕ) → take n (drop k mem) ≡ drop k (take (k + n) mem)
drop-take_front zero n mem = ap (λ (j : ℕ). take j mem) (omega arith)
drop-take_front (suc k) zero [] = let e : suc k + 0 ≡ suc (k + 0) = omega arith in rw e refl
drop-take_front (suc k) (suc n) [] =
    let e : suc k + suc n ≡ suc (k + suc n) = omega arith in rw e refl
drop-take_front (suc k) n (x ∷ mem) =
    let e : suc k + n ≡ suc (k + n) = omega arith in rw e (drop-take_front k n mem)

-- getDIS of the frame that arrives is the bit string that was sent.
get_dis-received :
    (m : List ℕ) (r : HdlcFrame) (control fcf : ℕ)
    → IsString m
    → (bytes : List ℕ) → bytes ≡ 0xff ∷ control ∷ fcf ∷ take (suc (last_byte m)) m
    → IsReceived bytes r 4
    → get_dis r ≡ m
get_dis-received m r control fcf is sent holds arrived =
    let l = whole-IsLast m is.bits is.extended in
    let n = suc (last_byte m) in
    let part : length (take n m) ≡ n = omega (arith, length-take n m, is.bits.sixteen, l.inside) in
    let all : length sent ≡ 3 + n = ap length holds ∙ omega (arith, part) in
    let size : r.next ≡ 3 + n + 2 = omega (arith, arrived.size, all) in
    let long : ltb r.frame_overhead r.next ≡ true = ground (arith, arrived.overhead, size) in
    let rest : r.next - r.frame_overhead - 1 ≡ n = omega (arith, arrived.overhead, size) in
    let bytes : take n (drop 3 r.mem) ≡ take n m =
      drop-take_front 3 n r.mem
      ∙ ap (λ (j : ℕ). drop 3 (take j r.mem)) (sym all)
      ∙ ap (drop 3) (arrived.same ∙ holds) in
    rw (long, rest, bytes) (setup_t30-whole m is.bits is.extended)

-- What the receiver makes of the parameters of the sender: `g` and `h` are the bytes that the arrays of the
-- two frames hold before they are written, `fcs1` and `fcs2` those of the checksum, and 4 is the default of
-- class1FrameOverhead.
unfoldable pub agreed :
    (malloc : ℕ → List ℕ)
    → (g h : List ℕ) → (fcf fcs1 fcs2 : ℕ) → (last_frame : Bool) → Session
    → Option Session
agreed malloc g h fcf fcs1 fcs2 last_frame p =
    elim (send_frame malloc g 4 fcf (update p false) last_frame) [
      | none ↦ none
      | some sent ↦ some (set_from_dcs (get_dis (received malloc h 4 fcs1 fcs2 sent)))
    ]

-- The receiver gets the parameters of the sender: a frame that sendFrame makes of the bits that update sets
-- for a DCS arrives, byte by byte and with two bytes of checksum, in a frame whose getDIS and setFromDCS give
-- back the vertical resolution, the bit rate up to 14400 bit/s, the page width and length, the data format,
-- the error correction, the scan line time and the JPEG mode, for settings that T.30 can tell; with JPEG there
-- is no other data format, and there is no file transfer. sendFrame stays within the array.
pub agreed-carried :
    (malloc : ℕ → List ℕ) (g h : List ℕ) (fcf fcs1 fcs2 : ℕ) (last_frame : Bool) (p : Session)
    → ((n : ℕ) → length (malloc n) ≡ n)
    → length g ≡ 2048
    → length h ≡ 2048
    → IsSession p
    → agreed malloc g h fcf fcs1 fcs2 last_frame p ≡ some (carried p)
unfolding agreed
agreed-carried malloc g h fcf fcs1 fcs2 last_frame p allocates room room' known =
    let m = update p false in
    let is = update-IsString p in
    let s =
      send_frame-IsSent malloc allocates m (last_byte m) is.bits.sixteen
        (whole-IsLast m is.bits is.extended) g 4 fcf last_frame room in
    let arrived = received-IsReceived malloc h 4 fcs1 fcs2 s.frame allocates room' in
    let same : get_dis (received malloc h 4 fcs1 fcs2 s.frame) ≡ m =
      get_dis-received m _ _ fcf is (contents s.frame) s.holds arrived in
    rw (agreed, s.returns) (ap some (ap set_from_dcs same ∙ set_from_dcs-update p known))
