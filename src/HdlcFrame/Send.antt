-- ===== src/HdlcFrame/Send.antt =====
-- sendFrame of a DIS or DCS (faxd/Class1.c++): the bytes of the bit string in a frame.
use hyla_fax.Base.{
  ℕ, zero, suc, ◌+◌, ◌-◌, ◌≤◌, ◌<◌, ◌==◌, Bool, true, false, if◌then◌else◌, List, [], ◌∷◌, ◌++◌,
  Option, none, some, get_or, take, drop, length, ◌≡◌, refl, ap, sym, ◌∙◌, arith, inl, inr,
  Bool-cases,
}
use mathlib.Core.List.{append-nil, append_assoc}
use hyla_fax.Base.{ltb, length-append}
use hyla_fax.Base.Lists.{length-take}
use hyla_fax.HdlcFrame.Check.{put_each}
use hyla_fax.FaxParams.Bits.{get_byte, has_next_byte}
use hyla_fax.FaxParams.Whole.{IsLast}
use hyla_fax.HdlcFrame.Buffer.{grow, addc, HdlcFrame, new_frame, contents, put_byte}
use hyla_fax.HdlcFrame.Content.{take-take, IsFrame, IsAppended, put_byte-IsAppended}

-- The loop over the bytes from `cur_byte` on; none stands for a read outside of the array, which ends
-- after `left` bytes.
unfoldable pub send_bytes :
    (malloc : ℕ → List ℕ) → (left cur_byte : ℕ) → (dcs_caps : List ℕ) → HdlcFrame → Option HdlcFrame
send_bytes malloc zero cur_byte dcs_caps frame = none
send_bytes malloc (suc left) cur_byte dcs_caps frame =
    let frame' = put_byte malloc frame (get_byte dcs_caps cur_byte) in
    let more = send_bytes malloc left (cur_byte + 1) dcs_caps frame' in
    if has_next_byte dcs_caps cur_byte then more else some frame'

-- The frame that sendFrame hands to sendRawFrame; `fo` is class1FrameOverhead.
unfoldable pub send_frame :
    (malloc : ℕ → List ℕ)
    → (garbage : List ℕ) → (fo fcf : ℕ) → (dcs_caps : List ℕ) → (last_frame : Bool)
    → Option HdlcFrame
send_frame malloc garbage fo fcf dcs_caps last_frame =
    let start = put_byte malloc (new_frame garbage fo) 0xff in
    let control = put_byte malloc start (if last_frame then 0xc8 else 0xc0) in
    send_bytes malloc 16 0 dcs_caps (put_byte malloc control fcf)

-- The frame that is sent, with what it holds.
pub record IsSent (sent : Option HdlcFrame) (bytes : List ℕ) : Type 0 where
  pub frame : HdlcFrame
  pub returns : sent ≡ some frame
  pub holds : contents frame ≡ bytes
  pub is : IsFrame frame

take_next :
    (k b : ℕ) (m : List ℕ)
    → b < length m
    → get_or m b 0 ∷ take k (drop (suc b) m) ≡ take (suc k) (drop b m)
take_next k b [] lt = absurd (omega arith)
take_next k zero (x ∷ m) lt = refl
take_next k (suc b) (x ∷ m) lt = take_next k b m (omega arith)

module _ (malloc : ℕ → List ℕ) (allocates : (n : ℕ) → length (malloc n) ≡ n) (m : List ℕ) (l : ℕ)
    (sixteen : length m ≡ 16) (last : IsLast 0 l m) where
  send_bytes-IsSent :
      (left b : ℕ) (s : HdlcFrame)
      → IsFrame s
      → left + b ≡ 16
      → b ≤ l
      → IsSent (send_bytes malloc left b m s) (contents s ++ take (suc l - b) (drop b m))
  unfolding send_bytes
  send_bytes-IsSent zero b s is fit reach = absurd (omega (arith, fit, reach, last.inside))
  send_bytes-IsSent (suc left) b s is fit reach =
      let a = put_byte-IsAppended malloc allocates s (get_byte m b) is in
      let inside : b < length m = omega (arith, sixteen, fit) in
      elim (Bool-cases (b == l)) [
        | inl same ↦
            let e : b ≡ l = ground (arith, same) in
            let stops : has_next_byte m b ≡ false = rw e last.stops in
            let one : suc l - b ≡ 1 = omega (arith, e) in
            rw stops (record {
              frame = put_byte malloc s (get_byte m b);
              returns = refl;
              holds =
                  a.appended
                  ∙ ap (λ (v : List ℕ). contents s ++ v) (rw one (take_next 0 b m inside));
              is = a.frame;
            })
        | inr before ↦
            let lt : b < l = ground (arith, before, reach) in
            let more : has_next_byte m b ≡ true = last.more b (omega arith) lt in
            let rest =
              send_bytes-IsSent left (b + 1) (put_byte malloc s (get_byte m b)) a.frame
                (omega (arith, fit)) (omega (arith, lt)) in
            let k : suc l - b ≡ suc (suc l - (b + 1)) = omega (arith, lt) in
            let up : b + 1 ≡ suc b = omega arith in
            let holds : contents rest.frame ≡ contents s ++ take (suc l - b) (drop b m) =
              rest.holds
              ∙ ap (λ (v : List ℕ). v ++ take (suc l - (b + 1)) (drop (b + 1) m)) a.appended
              ∙ append_assoc (contents s) (get_byte m b ∷ [])
                  (take (suc l - (b + 1)) (drop (b + 1) m))
              ∙ ap (λ (v : List ℕ). contents s ++ v)
                  (ap (λ (j : ℕ). get_byte m b ∷ take (suc l - (b + 1)) (drop j m)) up
                    ∙ take_next (suc l - (b + 1)) b m inside
                    ∙ rw (sym k) refl) in
            rw more
              (record { frame = rest.frame; returns = rest.returns; holds = holds; is = rest.is })
      ]

  -- The frame holds the address, the control byte, the function and the bytes with a meaning.
  pub send_frame-IsSent :
      (garbage : List ℕ) (fo fcf : ℕ) (last_frame : Bool)
      → length garbage ≡ 2048
      → IsSent
          (send_frame malloc garbage fo fcf m last_frame)
          (0xff ∷ (if last_frame then 0xc8 else 0xc0) ∷ fcf ∷ take (suc l) m)
  unfolding send_frame
  send_frame-IsSent garbage fo fcf last_frame room =
      let control : ℕ = if last_frame then 0xc8 else 0xc0 in
      let new : IsFrame (new_frame garbage fo) = record {
        within = omega arith;
        own = inr room;
        grows = omega arith;
      } in
      let a1 = put_byte-IsAppended malloc allocates (new_frame garbage fo) 0xff new in
      let a2 = put_byte-IsAppended malloc allocates _ control a1.frame in
      let a3 = put_byte-IsAppended malloc allocates _ fcf a2.frame in
      let whole : suc l - 0 ≡ suc l = omega arith in
      let sent = send_bytes-IsSent 16 0 _ a3.frame refl (omega arith) in
      record {
        frame = sent.frame;
        returns = sent.returns;
        holds = sent.holds ∙ rw (a3.appended, a2.appended, a1.appended, whole) refl;
        is = sent.is;
      }

-- The frame into which recvRawFrame puts the bytes that arrive, those of the checksum included; the modem's
-- stream is taken to carry the bytes of the frame that was sent.
abbrev pub received :
    (malloc : ℕ → List ℕ) → (garbage : List ℕ) → (fo fcs1 fcs2 : ℕ) → HdlcFrame → HdlcFrame
received malloc garbage fo fcs1 fcs2 sent =
    put_each malloc (new_frame garbage fo) (contents sent ++ fcs1 ∷ fcs2 ∷ [])

frame_overhead-grow :
    (malloc : ℕ → List ℕ) (s : HdlcFrame) (amount : ℕ)
    → (grow malloc s amount).frame_overhead ≡ s.frame_overhead
unfolding grow
frame_overhead-grow malloc s amount = elim (Bool-cases s.in_buf) [
  | inl own ↦ rw own refl
  | inr heap ↦ rw heap refl
]

frame_overhead-put_byte :
    (malloc : ℕ → List ℕ) (s : HdlcFrame) (c : ℕ)
    → (put_byte malloc s c).frame_overhead ≡ s.frame_overhead
unfolding put_byte addc
frame_overhead-put_byte malloc s c = elim (Bool-cases (ltb s.next (length s.mem))) [
  | inl room ↦ rw room refl
  | inr full ↦ rw full (frame_overhead-grow malloc s s.amount_to_grow_by)
]

frame_overhead-put_each :
    (malloc : ℕ → List ℕ) (s : HdlcFrame) (cs : List ℕ)
    → (put_each malloc s cs).frame_overhead ≡ s.frame_overhead
unfolding put_each
frame_overhead-put_each malloc s [] = refl
frame_overhead-put_each malloc s (c ∷ cs) =
    frame_overhead-put_each malloc (put_byte malloc s c) cs ∙ frame_overhead-put_byte malloc s c

put_each-IsAppended :
    (malloc : ℕ → List ℕ) (allocates : (n : ℕ) → length (malloc n) ≡ n) (s : HdlcFrame)
    (cs : List ℕ)
    → IsFrame s
    → IsAppended malloc allocates s cs (put_each malloc s cs)
unfolding put_each
put_each-IsAppended malloc allocates s [] is = record {
  appended = sym (append-nil (contents s));
  frame = is;
}
put_each-IsAppended malloc allocates s (c ∷ cs) is =
    let a = put_byte-IsAppended malloc allocates s c is in
    let r = put_each-IsAppended malloc allocates (put_byte malloc s c) cs a.frame in
    record {
      appended =
          r.appended
          ∙ ap (λ (v : List ℕ). v ++ cs) a.appended
          ∙ append_assoc (contents s) (c ∷ []) cs;
      frame = r.frame;
    }

-- What arrives of a frame.
pub record IsReceived (bytes : List ℕ) (r : HdlcFrame) (fo : ℕ) : Type 0 where
  pub overhead : r.frame_overhead ≡ fo
  pub size : r.next ≡ length bytes + 2
  pub same : take (length bytes) r.mem ≡ bytes

take_front : (xs ys : List ℕ) → take (length xs) (xs ++ ys) ≡ xs
take_front [] ys = refl
take_front (x ∷ xs) ys = ap (◌∷◌ x) (take_front xs ys)

pub received-IsReceived :
    (malloc : ℕ → List ℕ) (garbage : List ℕ) (fo fcs1 fcs2 : ℕ) (sent : HdlcFrame)
    → ((n : ℕ) → length (malloc n) ≡ n)
    → length garbage ≡ 2048
    → IsReceived (contents sent) (received malloc garbage fo fcs1 fcs2 sent) fo
received-IsReceived malloc garbage fo fcs1 fcs2 sent allocates room =
    let bytes = contents sent in
    let new : IsFrame (new_frame garbage fo) = record {
      within = omega arith;
      own = inr room;
      grows = omega arith;
    } in
    let all = bytes ++ fcs1 ∷ fcs2 ∷ [] in
    let r = received malloc garbage fo fcs1 fcs2 sent in
    let a = put_each-IsAppended malloc allocates (new_frame garbage fo) all new in
    let holds : take r.next r.mem ≡ all = a.appended in
    let size : r.next ≡ length bytes + 2 = omega (
      arith,
      length-take r.next r.mem,
      a.frame.within,
      ap length holds,
      length-append bytes (fcs1 ∷ fcs2 ∷ []),
    ) in
    record {
      overhead = frame_overhead-put_each malloc (new_frame garbage fo) all;
      size = size;
      same =
          sym (take-take (length bytes) r.next r.mem (omega (arith, size)))
          ∙ ap (take (length bytes)) holds
          ∙ take_front bytes (fcs1 ∷ fcs2 ∷ []);
    }
