-- ===== src/HdlcFrame/Content.antt =====
-- put (faxd/HDLCFrame.h, faxd/HDLCFrame.c++) appends to what a frame holds, and writes inside the memory
-- that the frame has.
use mathlib.Core.List.{append_assoc, append-nil}
use hyla_fax.Base.{
  ℕ, zero, suc, ◌+◌, ◌-◌, ◌≤◌, ◌<◌, true, false, ltb, if◌then◌else◌, List, [], ◌∷◌, ◌++◌, take,
  drop, length, length-append, ◌≡◌, ◌⊎◌, refl, sym, ap, ◌∙◌, arith, inl, inr, Bool-cases,
}
use hyla_fax.Base.Lists.{put, length-put, length-drop}
use hyla_fax.HdlcFrame.Buffer.{HdlcFrame, copy_to, contents, grow, store, addc, put_byte, put_bytes}

module _ {A : Type 0} where
  take-put :
      (xs : List A) (i : ℕ) (v : A)
      → i < length xs
      → take (suc i) (put xs i v) ≡ take i xs ++ v ∷ []
  take-put [] i v lt = absurd (omega arith)
  take-put (x ∷ xs) zero v lt = refl
  take-put (x ∷ xs) (suc i) v lt = ap (◌∷◌ x) (take-put xs i v (omega arith))

  pub take-take : (n k : ℕ) (xs : List A) → n ≤ k → take n (take k xs) ≡ take n xs
  take-take zero k xs le = refl
  take-take (suc n) zero xs le = absurd (omega arith)
  take-take (suc n) (suc k) [] le = refl
  take-take (suc n) (suc k) (x ∷ xs) le = ap (◌∷◌ x) (take-take n k xs (omega arith))

  take-append : (n : ℕ) (xs ys : List A) → n ≤ length xs → take n (xs ++ ys) ≡ take n xs
  take-append zero xs ys le = refl
  take-append (suc n) [] ys le = absurd (omega arith)
  take-append (suc n) (x ∷ xs) ys le = ap (◌∷◌ x) (take-append n xs ys (omega arith))

  take_all : (n : ℕ) (xs : List A) → length xs ≤ n → take n xs ≡ xs
  take_all zero [] le = refl
  take_all zero (x ∷ xs) le = absurd (omega arith)
  take_all (suc n) [] le = refl
  take_all (suc n) (x ∷ xs) le = ap (◌∷◌ x) (take_all n xs (omega arith))

length-copy_to : (mem : List ℕ) (o : ℕ) (bytes : List ℕ) → length (copy_to mem o bytes) ≡ length mem
unfolding copy_to
length-copy_to mem o [] = refl
length-copy_to mem o (b ∷ bytes) = length-copy_to (put mem o b) (o + 1) bytes ∙ length-put mem o b

-- What memcpy leaves up to the end of the copy.
take-copy_to :
    (mem : List ℕ) (o : ℕ) (bytes : List ℕ)
    → o + length bytes ≤ length mem
    → take (o + length bytes) (copy_to mem o bytes) ≡ take o mem ++ bytes
unfolding copy_to
take-copy_to mem o [] le =
    ap (λ (n : ℕ). take n mem) {x = o + 0} {y = o} (omega arith) ∙ sym (append-nil (take o mem))
take-copy_to mem o (b ∷ bytes) le =
    let rest = take-copy_to (put mem o b) (o + 1) bytes (omega (arith, length-put mem o b)) in
    let first : take (o + 1) (put mem o b) ≡ take o mem ++ b ∷ [] =
      ap (λ (n : ℕ). take n (put mem o b)) {x = o + 1} {y = suc o} (omega arith)
      ∙ take-put mem o b (omega arith) in
    ap (λ (n : ℕ). take n (copy_to (put mem o b) (o + 1) bytes)) {x = o + suc (length bytes)}
      {y = o + 1 + length bytes} (omega arith)
    ∙ rest
    ∙ ap (λ (v : List ℕ). v ++ bytes) first
    ∙ append_assoc (take o mem) (b ∷ []) bytes

-- The frame's offset is inside its memory, the array `buf` has its size, and the frame can grow.
pub record IsFrame (s : HdlcFrame) : Type 0 where
  pub within : s.next ≤ length s.mem
  pub own : (s.in_buf ≡ false) ⊎ (length s.mem ≡ 2048)
  pub grows : 0 < s.amount_to_grow_by

module _ (malloc : ℕ → List ℕ) (allocates : (n : ℕ) → length (malloc n) ≡ n) where
  -- What grow keeps, and the room that it makes.
  record IsGrown (s : HdlcFrame) (amount : ℕ) (s' : HdlcFrame) : Type 0 where
    same_contents : contents s' ≡ contents s
    same_next : s'.next ≡ s.next
    room : length s.mem + amount ≤ length s'.mem
    more : length s.mem < length s'.mem
    frame : IsFrame s'

  -- The size of the larger piece of memory.
  abbrev new_size : HdlcFrame → ℕ → ℕ
  new_size s amount =
      length s.mem + (if ltb amount s.amount_to_grow_by then s.amount_to_grow_by else amount)

  grown :
      (s : HdlcFrame) (amount : ℕ) (mem' : List ℕ)
      → IsFrame s
      → take (length s.mem) mem' ≡ s.mem
      → length mem' ≡ new_size s amount
      → IsGrown s amount (record s { mem = mem'; in_buf = false })
  grown s amount mem' is kept size = record {
    same_contents = sym (take-take s.next (length s.mem) mem' is.within) ∙ ap (take s.next) kept;
    same_next = refl;
    room = ground (arith, size);
    more = ground (arith, size, is.grows);
    frame = record { within = ground (arith, size, is.within); own = inl refl; grows = is.grows };
  }

  own_size : (s : HdlcFrame) → IsFrame s → s.in_buf ≡ true → length s.mem ≡ 2048
  own_size s is own = elim is.own [
    | inl heap ↦ absurd (ground (arith, own, heap))
    | inr size ↦ size
  ]

  grow-IsGrown : (s : HdlcFrame) (amount : ℕ) → IsFrame s → IsGrown s amount (grow malloc s amount)
  unfolding grow
  grow-IsGrown s amount is =
      let n = new_size s amount in
      elim (Bool-cases s.in_buf) [
        | inl own ↦
            let all : take 2048 s.mem ≡ s.mem =
              take_all 2048 s.mem (omega (arith, own_size s is own)) in
            let fits : 0 + length s.mem ≤ length (malloc n) = ground (arith, allocates n) in
            let kept : take (length s.mem) (copy_to (malloc n) 0 s.mem) ≡ s.mem =
              ap (λ (k : ℕ). take k (copy_to (malloc n) 0 s.mem)) {x = length s.mem}
                {y = 0 + length s.mem} (omega arith)
              ∙ take-copy_to (malloc n) 0 s.mem fits in
            simp (own, all)
              (grown s amount (copy_to (malloc n) 0 s.mem) is kept
                (length-copy_to (malloc n) 0 s.mem ∙ allocates n))
        | inr heap ↦
            let junk = drop (length s.mem) (malloc n) in
            let size : length (s.mem ++ junk) ≡ n = ground (
              arith,
              length-append s.mem junk,
              length-drop (length s.mem) (malloc n),
              allocates n,
            ) in
            let kept : take (length s.mem) (s.mem ++ junk) ≡ s.mem =
              take-append (length s.mem) s.mem junk (omega arith)
              ∙ take_all (length s.mem) s.mem (omega arith) in
            simp heap (grown s amount (s.mem ++ junk) is kept size)
      ]

  -- Bytes written in place.
  pub record IsAppended (s : HdlcFrame) (bytes : List ℕ) (s' : HdlcFrame) : Type 0 where
    pub appended : contents s' ≡ contents s ++ bytes
    pub frame : IsFrame s'

  copied :
      (s : HdlcFrame) (bytes : List ℕ)
      → IsFrame s
      → s.next + length bytes ≤ length s.mem
      → IsAppended s bytes
          (record s { mem = copy_to s.mem s.next bytes; next = s.next + length bytes })
  copied s bytes is room =
      let size = length-copy_to s.mem s.next bytes in
      record {
        appended = take-copy_to s.mem s.next bytes room;
        frame = record {
          within = omega (arith, room, size);
          own = elim is.own [ inl heap ↦ inl heap | inr own ↦ inr (size ∙ own) ];
          grows = is.grows;
        };
      }

  -- put of several bytes appends them to what the frame holds; the frame grows where they need room, so
  -- that all are written inside its memory.
  pub put_bytes-IsAppended :
      (s : HdlcFrame) (bytes : List ℕ) → IsFrame s → IsAppended s bytes (put_bytes malloc s bytes)
  unfolding put_bytes
  put_bytes-IsAppended s bytes is =
      let missing = length bytes - (length s.mem - s.next) in
      elim (Bool-cases (ltb (length s.mem - s.next) (length bytes))) [
        | inr room ↦ rw room (copied s bytes is (ground (arith, room, is.within)))
        | inl short ↦
            let g = grow-IsGrown s missing is in
            let a =
              copied (grow malloc s missing) bytes g.frame
                (ground (arith, short, is.within, g.same_next, g.room)) in
            rw short (record {
              appended = a.appended ∙ ap (λ (v : List ℕ). v ++ bytes) g.same_contents;
              frame = a.frame;
            })
      ]

  put_in_place :
      (s : HdlcFrame) (c : ℕ)
      → IsFrame s
      → s.next < length s.mem
      → IsAppended s (c ∷ []) (store malloc s c)
  put_in_place s c is room = record {
    appended =
        ap (λ (n : ℕ). take n (put s.mem s.next c)) {x = s.next + 1} {y = suc s.next} (omega arith)
        ∙ take-put s.mem s.next c room;
    frame = record {
      within = omega (arith, room, length-put s.mem s.next c);
      own = elim is.own [ inl heap ↦ inl heap | inr own ↦ inr (length-put s.mem s.next c ∙ own) ];
      grows = is.grows;
    };
  }

  addc-IsAppended : (s : HdlcFrame) (c : ℕ) → IsFrame s → IsAppended s (c ∷ []) (addc malloc s c)
  unfolding addc
  addc-IsAppended s c is = elim (Bool-cases (ltb s.next (length s.mem))) [
    | inl room ↦ rw room (put_in_place s c is (ground (arith, room)))
    | inr full ↦
        let g = grow-IsGrown s s.amount_to_grow_by is in
        let a =
          put_in_place (grow malloc s s.amount_to_grow_by) c g.frame
            (omega (arith, is.within, g.same_next, g.more)) in
        rw full (record {
          appended = a.appended ∙ ap (λ (v : List ℕ). v ++ c ∷ []) g.same_contents;
          frame = a.frame;
        })
  ]

  -- put of a byte appends it to what the frame holds; the frame grows where it is full, so that the byte
  -- is written inside its memory.
  pub put_byte-IsAppended :
      (s : HdlcFrame) (c : ℕ) → IsFrame s → IsAppended s (c ∷ []) (put_byte malloc s c)
  unfolding put_byte
  put_byte-IsAppended s c is = elim (Bool-cases (ltb s.next (length s.mem))) [
    | inl room ↦
        let a = put_in_place s c is (ground (arith, room)) in
        rw room (record {
          appended = a.appended;
          frame = record { within = a.frame.within; own = a.frame.own; grows = a.frame.grows };
        })
    | inr full ↦
        let a = addc-IsAppended s c is in
        rw full (record {
          appended = a.appended;
          frame = record { within = a.frame.within; own = a.frame.own; grows = a.frame.grows };
        })
  ]
