-- ===== src/Range/Bits.antt =====
-- The map of a Range (libhylafax/Range.c++) bit by bit: what setMapBit and the loops over it set.
use hyla_fax.Base.{
  ℕ, zero, suc, ◌+◌, ◌-◌, ◌/◌, ◌%◌, ◌^◌, ◌≤◌, ◌<◌, bit_or, Bool, true, false, ◌&&◌, ◌||◌, ltb, leb,
  ◌==◌, if◌then◌else◌, List, Option, some, get_or, length, ◌≡◌, refl, sym, ◌∙◌, arith, inl, inr,
  Bool-cases,
}
use hyla_fax.Base.Bytes.{bit_of, bit_of-or, or-byte}
use hyla_fax.Base.Lists.{put, length-put, get_or-put_same, get_or-put_other}
use hyla_fax.Range.Model.{set_map_bit, set_map_bits, apply_op}

-- The bit `b` of the map.
abbrev pub bit_at : List ℕ → (b : ℕ) → Bool
bit_at map b = bit_of (get_or map (b / 8) 0) (b % 8)

abbrev pub AreBytes : List ℕ → Type 0
AreBytes map = (i : ℕ) → get_or map i 0 < 256

-- A map in which the bits that pass the test have been set.
pub record Marked (map : List ℕ) (test : ℕ → Bool) (r : Option (List ℕ)) : Type 0 where
  pub after : List ℕ
  pub returns : r ≡ some after
  pub same : length after ≡ length map
  pub bytes : AreBytes after
  pub bits : (c : ℕ) → bit_at after c ≡ (test c || bit_at map c)

pub set_map_bit-Marked :
    (map : List ℕ) (b : ℕ)
    → AreBytes map
    → b / 8 < length map
    → Marked map (λ c. b == c) (set_map_bit map b)
unfolding set_map_bit
set_map_bit-Marked map b bytes inside =
    let i = b / 8 in
    let v = bit_or (get_or map i 0) (2 ^ (b % 8)) in
    let e : b % 8 + 1 - 1 ≡ b % 8 = omega arith in
    let within : ltb i (length map) ≡ true = ground arith in
    record {
      after = put map i v;
      returns = simp (within, e) refl;
      same = length-put map i v;
      bytes = λ j. elim (Bool-cases (i == j)) [
        | inl here ↦
            let same : i ≡ j = ground (arith, here) in
            rw (sym same, get_or-put_same map i v 0 inside)
              (or-byte (get_or map i 0) (b % 8) 0 (bytes i) (omega arith) (omega arith))
        | inr other ↦ rw (get_or-put_other map i j v 0 other) (bytes j)
      ];
      bits = λ c. elim (Bool-cases (i == c / 8)) [
        | inl here ↦
            let same : c / 8 ≡ i = ground (arith, here) in
            let t : (b % 8 == c % 8) ≡ (b == c) = ground (arith, same) in
            rw (same, get_or-put_same map i v 0 inside)
              (bit_of-or (get_or map i 0) (b % 8) (c % 8) (bytes i) (omega arith) (omega arith)
                ∙ rw t refl)
        | inr other ↦
            let t : (b == c) ≡ false = ground (arith, other) in
            rw (get_or-put_other map i (c / 8) v 0 other, t) refl
      ];
    }

pub Marked-none : (map : List ℕ) → AreBytes map → Marked map (λ c. false) (some map)
Marked-none map bytes = record {
  after = map;
  returns = refl;
  same = refl;
  bytes = bytes;
  bits = λ c. refl;
}

-- The same for another spelling of the result and of the test.
pub Marked-as :
    (map : List ℕ) (test test' : ℕ → Bool) (r r' : Option (List ℕ))
    → Marked map test r
    → r' ≡ r
    → ((c : ℕ) → test c ≡ test' c)
    → Marked map test' r'
Marked-as map test test' r r' m e same = record {
  after = m.after;
  returns = e ∙ m.returns;
  same = m.same;
  bytes = m.bytes;
  bits = λ c. rw (sym (same c)) (m.bits c);
}

-- The bits that one step and then another set.
pub Marked-both :
    (map : List ℕ) (first second both : ℕ → Bool) (r : Option (List ℕ)) (m : Marked map first r)
    → (r' : Option (List ℕ)) → Marked m.after second r'
    → ((c : ℕ) → (second c || first c) ≡ both c)
    → Marked map both r'
Marked-both map first second both r m r' n same = record {
  after = n.after;
  returns = n.returns;
  same = n.same ∙ m.same;
  bytes = n.bytes;
  bits = λ c. ground (arith, n.bits c, m.bits c, same c);
}

pub set_map_bits-Marked :
    (map : List ℕ) (b rounds limit : ℕ)
    → AreBytes map
    → b + rounds ≤ limit + 1
    → limit / 8 < length map
    → Marked map (λ c. leb b c && ltb c (b + rounds)) (set_map_bits map b rounds)
unfolding set_map_bits
set_map_bits-Marked map b zero limit bytes low high = record {
  after = map;
  returns = refl;
  same = refl;
  bytes = bytes;
  bits = λ c. ground arith;
}
set_map_bits-Marked map b (suc rounds) limit bytes low high =
    let m = set_map_bit-Marked map b bytes (omega arith) in
    let n =
      set_map_bits-Marked m.after (b + 1) rounds limit m.bytes (omega arith)
        (omega (arith, m.same)) in
    rw (set_map_bits, m.returns) (Marked-both map _ _ _ (set_map_bit map b) m _ n λ c. ground arith)

-- The bits of one item: a number, or a range from the number before it.
abbrev pub item_bits : (op min last val : ℕ) → ℕ → Bool
item_bits op min last val c =
    if op == 44
    then c + min == val
    else if op == 45
    then leb last (c + min) && leb (c + min) val
    else false

pub apply_op-Marked :
    (map : List ℕ) (op min max last val : ℕ)
    → AreBytes map
    → (max - min) / 8 < length map
    → min ≤ val
    → val ≤ max
    → max + 1 < 2 ^ 32
    → last ≤ max
    → (op == 44) || leb min last ≡ true
    → Marked map (item_bits op min last val) (apply_op map op min last val)
unfolding apply_op
apply_op-Marked map op min max last val bytes inside low high small high' begun =
    elim (Bool-cases (op == 44)) [
      | inl one ↦
          Marked-as map _ _ _ _ (set_map_bit-Marked map (val - min) bytes (omega arith))
            (simp (apply_op, one) refl) λ c. simp one (ground (arith, low))
      | inr more ↦ elim (Bool-cases (op == 45)) [
        | inl range ↦
            let ends : (val == 2 ^ 32 - 1) ≡ false = ground (arith, small, high) in
            let reach : last - min + (val + 1 - last) ≤ max - min + 1 =
              ground (arith, begun, more) in
            Marked-as map _ _ _ _
              (set_map_bits-Marked map (last - min) (val + 1 - last) (max - min) bytes reach inside)
              (simp (apply_op, more, range, ends) refl)
              λ c. simp (more, range) (ground (arith, begun, more))
        | inr other ↦
            Marked-as map _ _ _ _ (Marked-none map bytes) (simp (apply_op, more, other) refl)
              λ c. simp (more, other) refl
      ]
    ]
