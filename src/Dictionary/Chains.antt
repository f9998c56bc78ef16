-- ===== src/Dictionary/Chains.antt =====
-- One chain of an fxDictionary (libhylafax/Dictionary.c++): find after a change.
use hyla_fax.Base.{
  suc, Bool, true, false, if◌then◌else◌, List, [], ◌∷◌, none, some, length, ◌≡◌, refl, sym, ap, ◌∙◌,
  arith, inl, inr, Bool-cases,
}
use hyla_fax.Base.Options.{none-some}
use hyla_fax.Dictionary.Table.{find_in, set_in, remove_in}

module _ {K : Type 0} (compare_keys : K → K → Bool)
    (same : (k j : K) → compare_keys k j ≡ false → k ≡ j)
    (itself : (k : K) → compare_keys k k ≡ false) where
  -- A key that differs from one of two equal keys differs from the other.
  found_key : (k j i : K) → compare_keys k j ≡ false → compare_keys i j ≡ compare_keys i k
  found_key k j i e = ap (compare_keys i) (sym (same k j e))

  -- A key that is one of two that differ is not the other.
  other_key :
      (k j i : K) → compare_keys k j ≡ true → compare_keys i j ≡ false → compare_keys i k ≡ true
  other_key k j i differ e = elim (Bool-cases (compare_keys i k)) [
    | inl t ↦ t
    | inr f ↦
        let ij : i ≡ j = same i j e in
        let ik : i ≡ k = same i k f in
        let back : compare_keys k j ≡ false = rw (sym ik, sym ij) (itself i) in
        absurd (ground (arith, differ, back))
  ]

  module _ {V : Type 0} where
    -- No key stands in a chain twice.
    abbrev pub NoDup : List (K × V) → Type 0
    NoDup [] = Unit {0}
    NoDup ((k, v) ∷ chain) = (find_in compare_keys chain k ≡ none) × NoDup chain

    pub find_in-set_in :
        (chain : List (K × V)) (key i : K) (value old : V)
        → find_in compare_keys chain key ≡ some old
        → find_in compare_keys (set_in compare_keys chain key value) i
          ≡ (if compare_keys i key then find_in compare_keys chain i else some value)
    unfolding find_in set_in
    find_in-set_in [] key i value old e = absurd (none-some old e)
    find_in-set_in ((k, v) ∷ chain) key i value old e = elim (Bool-cases (compare_keys key k)) [
      | inr here ↦
          rw (here, found_key key k i here)
            (elim (Bool-cases (compare_keys i key)) [ inl t ↦ rw t refl | inr f ↦ rw f refl ])
      | inl there ↦
          let e' : find_in compare_keys chain key ≡ some old = rw there at e in
          let rest = find_in-set_in chain key i value old e' in
          elim (Bool-cases (compare_keys i k)) [
            | inl t ↦ rw (there, t) rest
            | inr f ↦ rw (there, f, other_key key k i there f) refl
          ]
    ]

    pub find_in-remove_in :
        (chain : List (K × V)) (key i : K)
        → NoDup chain
        → find_in compare_keys (remove_in compare_keys chain key) i
          ≡ (if compare_keys i key then find_in compare_keys chain i else none)
    unfolding find_in remove_in
    find_in-remove_in [] key i nodup = elim (Bool-cases (compare_keys i key)) [
      | inl t ↦ rw t refl
      | inr f ↦ rw f refl
    ]
    find_in-remove_in ((k, v) ∷ chain) key i (absent, nodup) =
        elim (Bool-cases (compare_keys key k)) [
          | inr here ↦
              let eq : key ≡ k = same key k here in
              elim (Bool-cases (compare_keys i key)) [
                | inl t ↦ rw (here, found_key key k i here, t) refl
                | inr f ↦
                    let ik : i ≡ k = same i key f ∙ eq in
                    let gone : find_in compare_keys chain i ≡ none =
                      ap (find_in compare_keys chain) ik ∙ absent in
                    rw (here, f) gone
              ]
          | inl there ↦
              let rest = find_in-remove_in chain key i nodup in
              elim (Bool-cases (compare_keys i k)) [
                | inl t ↦ rw (there, t) rest
                | inr f ↦ rw (there, f, other_key key k i there f) refl
              ]
        ]

    pub length-set_in :
        (chain : List (K × V)) (key : K) (value : V)
        → length (set_in compare_keys chain key value) ≡ length chain
    unfolding set_in
    length-set_in [] key value = refl
    length-set_in ((k, v) ∷ chain) key value = elim (Bool-cases (compare_keys key k)) [
      | inl there ↦ rw there (ap suc (length-set_in chain key value))
      | inr here ↦ rw here refl
    ]

    pub length-remove_in :
        (chain : List (K × V)) (key : K) (old : V)
        → find_in compare_keys chain key ≡ some old
        → suc (length (remove_in compare_keys chain key)) ≡ length chain
    unfolding find_in remove_in
    length-remove_in [] key old e = absurd (none-some old e)
    length-remove_in ((k, v) ∷ chain) key old e = elim (Bool-cases (compare_keys key k)) [
      | inl there ↦
          let e' : find_in compare_keys chain key ≡ some old = rw there at e in
          rw there (ap suc (length-remove_in chain key old e'))
      | inr here ↦ rw here refl
    ]

    pub NoDup-set_in :
        (chain : List (K × V)) (key : K) (value old : V)
        → find_in compare_keys chain key ≡ some old
        → NoDup chain
        → NoDup (set_in compare_keys chain key value)
    unfolding find_in set_in
    NoDup-set_in [] key value old e nodup = tt
    NoDup-set_in ((k, v) ∷ chain) key value old e (absent, nodup) =
        elim (Bool-cases (compare_keys key k)) [
          | inr here ↦ rw here (absent, nodup)
          | inl there ↦
              let e' : find_in compare_keys chain key ≡ some old = rw there at e in
              let kk : compare_keys k key ≡ true = other_key key k k there (itself k) in
              let absent' : find_in compare_keys (set_in compare_keys chain key value) k ≡ none =
                find_in-set_in chain key k value old e' ∙ rw kk absent in
              rw there (absent', NoDup-set_in chain key value old e' nodup)
        ]

    pub NoDup-remove_in :
        (chain : List (K × V)) (key : K) → NoDup chain → NoDup (remove_in compare_keys chain key)
    unfolding remove_in
    NoDup-remove_in [] key nodup = tt
    NoDup-remove_in ((k, v) ∷ chain) key (absent, nodup) = elim (Bool-cases (compare_keys key k)) [
      | inr here ↦ rw here nodup
      | inl there ↦
          let kk : compare_keys k key ≡ true = other_key key k k there (itself k) in
          let absent' : find_in compare_keys (remove_in compare_keys chain key) k ≡ none =
            find_in-remove_in chain key k nodup ∙ rw kk absent in
          rw there (absent', NoDup-remove_in chain key nodup)
    ]
