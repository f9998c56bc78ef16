-- ===== src/DestInfo/Count.antt =====
-- active and done (faxd/DestInfo.c++): the batches of a destination are a set, and activeCount counts
-- them.
use hyla_fax.Base.{
  ℕ, ◌+◌, ◌%◌, ◌^◌, Bool, true, false, not, ◌&&◌, ◌||◌, ◌==◌, if◌then◌else◌, List, [], ◌∷◌, length,
  ◌≡◌, refl, ◌∙◌, arith, inl, inr, Bool-cases,
}
use hyla_fax.DestInfo.Active.{
  DestInfo, is_active, on_list, append_batch, unlink_batch, active, done,
}

-- No batch is on the list twice.
abbrev pub NoDup : List ℕ → Type 0
NoDup [] = Unit {0}
NoDup (bp ∷ bps) = (on_list bps bp ≡ false) × NoDup bps

-- The state between the operations: no batch twice, and the count of them as an unsigned short.
pub record IsDestInfo (d : DestInfo) : Type 0 where
  pub nodup : NoDup d.running
  pub counted : d.active_count ≡ length d.running % 2 ^ 16

on_list-append_batch :
    (bps : List ℕ) (batch b : ℕ)
    → on_list (append_batch bps batch) b ≡ ((batch == b) || on_list bps b)
unfolding on_list append_batch
on_list-append_batch [] batch b = ground arith
on_list-append_batch (bp ∷ bps) batch b = elim (Bool-cases (bp == batch)) [
  | inl same ↦ rw same (ground (arith, same))
  | inr other ↦ rw other (ground (arith, other, on_list-append_batch bps batch b))
]

on_list-unlink_batch :
    (bps : List ℕ) (batch b : ℕ)
    → NoDup bps
    → on_list (unlink_batch bps batch) b ≡ (not (batch == b) && on_list bps b)
unfolding on_list unlink_batch
on_list-unlink_batch [] batch b nodup = ground arith
on_list-unlink_batch (bp ∷ bps) batch b (fresh, nodup) = elim (Bool-cases (bp == batch)) [
  | inl same ↦ elim (Bool-cases (bp == b)) [
    | inl it ↦
        let e : b ≡ bp = ground (arith, it) in
        let own : (batch == bp) ≡ true = ground (arith, same) in rw (same, e, own) fresh
    | inr apart ↦ rw (same, apart) (ground (arith, same, apart))
  ]
  | inr other ↦ rw other (ground (arith, other, on_list-unlink_batch bps batch b nodup))
]

length-append_batch :
    (bps : List ℕ) (batch : ℕ)
    → on_list bps batch ≡ false
    → length (append_batch bps batch) ≡ length bps + 1
unfolding on_list append_batch
length-append_batch [] batch absent = refl
length-append_batch (bp ∷ bps) batch absent = elim (Bool-cases (bp == batch)) [
  | inl same ↦ absurd (ground (arith, (rw same at absent)))
  | inr other ↦
      let absent' : on_list bps batch ≡ false = rw other at absent in
      rw other (omega (arith, length-append_batch bps batch absent'))
]

length-unlink_batch :
    (bps : List ℕ) (batch : ℕ)
    → on_list bps batch ≡ true
    → length (unlink_batch bps batch) + 1 ≡ length bps
unfolding on_list unlink_batch
length-unlink_batch [] batch there = absurd (ground (arith, there))
length-unlink_batch (bp ∷ bps) batch there = elim (Bool-cases (bp == batch)) [
  | inl same ↦ rw same (omega arith)
  | inr other ↦
      let there' : on_list bps batch ≡ true = rw other at there in
      rw other (omega (arith, length-unlink_batch bps batch there'))
]

NoDup-append_batch : (bps : List ℕ) (batch : ℕ) → NoDup bps → NoDup (append_batch bps batch)
unfolding on_list append_batch
NoDup-append_batch [] batch nodup = (refl, tt)
NoDup-append_batch (bp ∷ bps) batch (fresh, nodup) = elim (Bool-cases (bp == batch)) [
  | inl same ↦ rw same (fresh, nodup)
  | inr other ↦
      let fresh' : on_list (append_batch bps batch) bp ≡ false =
        on_list-append_batch bps batch bp ∙ ground (arith, other, fresh) in
      rw other (fresh', NoDup-append_batch bps batch nodup)
]

NoDup-unlink_batch : (bps : List ℕ) (batch : ℕ) → NoDup bps → NoDup (unlink_batch bps batch)
unfolding on_list unlink_batch
NoDup-unlink_batch [] batch nodup = tt
NoDup-unlink_batch (bp ∷ bps) batch (fresh, nodup) = elim (Bool-cases (bp == batch)) [
  | inl same ↦ rw same nodup
  | inr other ↦
      let fresh' : on_list (unlink_batch bps batch) bp ≡ false =
        on_list-unlink_batch bps batch bp nodup ∙ ground (arith, fresh) in
      rw other (fresh', NoDup-unlink_batch bps batch nodup)
]

-- What an operation on one batch does: whether each batch is active after it, and the state.
pub record IsMarked (d : DestInfo) (batch : ℕ) (on : Bool) (d' : DestInfo) : Type 0 where
  pub of_others : (b : ℕ) → is_active d' b ≡ (if batch == b then on else is_active d b)
  pub state : IsDestInfo d'

-- active makes its batch active, and leaves the others as they are; whether the batch was active before
-- or not, no batch is on the list twice and the count is right, as an unsigned short.
pub active-IsMarked :
    (d : DestInfo) (batch : ℕ) → IsDestInfo d → IsMarked d batch true (active d batch)
unfolding active
active-IsMarked d batch is = elim (Bool-cases (on_list d.running batch)) [
  | inl there ↦ rw there (record {
    of_others = λ b. elim (Bool-cases (batch == b)) [
      | inl same ↦ let e : b ≡ batch = ground (arith, same) in rw (same, e) there
      | inr other ↦ rw other refl
    ];
    state = is;
  })
  | inr absent ↦ rw absent (record {
    of_others = λ b. on_list-append_batch d.running batch b ∙ ground arith;
    state = record {
      nodup = NoDup-append_batch d.running batch is.nodup;
      counted = omega (arith, is.counted, length-append_batch d.running batch absent);
    };
  })
]

-- done makes its batch inactive, and leaves the others as they are; whether the batch was active before or
-- not, no batch is on the list twice and the count is right, as an unsigned short.
pub done-IsMarked :
    (d : DestInfo) (batch : ℕ) → IsDestInfo d → IsMarked d batch false (done d batch)
unfolding done
done-IsMarked d batch is = elim (Bool-cases (on_list d.running batch)) [
  | inr absent ↦ rw absent (record {
    of_others = λ b. elim (Bool-cases (batch == b)) [
      | inl same ↦ let e : b ≡ batch = ground (arith, same) in rw (same, e) absent
      | inr other ↦ rw other refl
    ];
    state = is;
  })
  | inl there ↦ rw there (record {
    of_others = λ b. on_list-unlink_batch d.running batch b is.nodup ∙ ground arith;
    state = record {
      nodup = NoDup-unlink_batch d.running batch is.nodup;
      counted = omega (arith, is.counted, length-unlink_batch d.running batch there);
    };
  })
]
