-- ===== src/Dictionary/Map.antt =====
-- fxDictionary (libhylafax/Dictionary.c++) is a finite map: what find returns after each operation.
use hyla_fax.Base.{
  ℕ, zero, suc, ◌+◌, ◌<◌, ◌==◌, Bool, true, false, if◌then◌else◌, List, [], ◌∷◌, Option, none,
  length, get_or, ◌≡◌, refl, ◌∙◌, arith, inl, inr, Bool-cases,
}
use hyla_fax.Base.Lists.{put, length-put, get_or-put_same, get_or-put_other}
use hyla_fax.Dictionary.Table.{Dictionary, bucket_at, find_in, index_of, chain_of, find}
use hyla_fax.Dictionary.Chains.{NoDup}

-- The items of all buckets.
unfoldable pub count : {A : Type 0} → List (List A) → ℕ
count [] = 0
count (chain ∷ chains) = length chain + count chains

pub count-put :
    {A : Type 0} (chains : List (List A)) (i : ℕ) (chain : List A)
    → i < length chains
    → count (put chains i chain) + length (get_or chains i []) ≡ count chains + length chain
unfolding count
count-put [] i chain lt = absurd (omega arith)
count-put (c ∷ chains) zero chain lt = omega arith
count-put (c ∷ chains) (suc i) chain lt = omega (arith, count-put chains i chain (omega arith))

module _ {K V : Type 0} (compare_keys : K → K → Bool)
    (same : (k j : K) → compare_keys k j ≡ false → k ≡ j)
    (itself : (k : K) → compare_keys k k ≡ false) (hash_key : K → ℕ) where
  -- A dictionary has a bucket, no key stands in a bucket twice, a key stands in the bucket of its hash
  -- only, and numItems counts the items.
  pub record IsDictionary (d : Dictionary K V) : Type 0 where
    pub some_bucket : 0 < length d.buckets
    pub nodup : (i : ℕ) → NoDup compare_keys same itself (bucket_at d.buckets i)
    pub counted : d.num_items ≡ count d.buckets
    pub placed :
        (i : ℕ) (key : K)
        → (index_of compare_keys hash_key d key == i) ≡ false
        → find_in compare_keys (bucket_at d.buckets i) key ≡ none

  pub index_lt :
      (d : Dictionary K V) (key : K)
      → 0 < length d.buckets
      → index_of compare_keys hash_key d key < length d.buckets
  index_lt d key some_bucket = omega (arith, some_bucket)

  -- Keys with different indices differ.
  apart :
      (d : Dictionary K V) (key j : K)
      → (index_of compare_keys hash_key d key == index_of compare_keys hash_key d j) ≡ false
      → compare_keys j key ≡ true
  apart d key j other = elim (Bool-cases (compare_keys j key)) [
    | inl t ↦ t
    | inr f ↦
        let e : j ≡ key = same j key f in
        let other' : (index_of compare_keys hash_key d key == index_of compare_keys hash_key d key)
            ≡ false =
          rw e at other in
        absurd (ground (arith, other'))
  ]

  -- A change of the chain of one key, which gives that key alone another answer.
  module _ (d : Dictionary K V) (key : K) (is : IsDictionary d) (n : ℕ) (chain : List (K × V))
      (answer : Option V)
      (at_key : (i : K)
        → find_in compare_keys chain i ≡ (
            if compare_keys i key
            then find_in compare_keys (chain_of compare_keys hash_key d key) i
            else answer)) where
    abbrev pub index : ℕ
    index = index_of compare_keys hash_key d key

    abbrev pub changed : Dictionary K V
    changed = record { num_items = n; buckets = put d.buckets index chain }

    inside : index < length d.buckets
    inside = index_lt d key is.some_bucket

    pub find-changed :
        (j : K)
        → find compare_keys hash_key changed j
          ≡ (if compare_keys j key then find compare_keys hash_key d j else answer)
    unfolding find
    find-changed j =
        let l = length-put d.buckets index chain in
        elim (Bool-cases (index == index_of compare_keys hash_key d j)) [
          | inl here ↦
              let e : index_of compare_keys hash_key d j ≡ index = ground (arith, here) in
              rw (l, e, get_or-put_same d.buckets index chain [] inside) (at_key j)
          | inr there ↦
              rw
                (
                  l,
                  get_or-put_other d.buckets index (index_of compare_keys hash_key d j) chain []
                      there,
                  apart d key j there,
                )
                refl
        ]

    pub changed-IsDictionary :
        NoDup compare_keys same itself chain
        → n + length (chain_of compare_keys hash_key d key) ≡ d.num_items + length chain
        → IsDictionary changed
    changed-IsDictionary nodup counted = record {
      some_bucket = rw (length-put d.buckets index chain) is.some_bucket;
      nodup = λ i. elim (Bool-cases (index == i)) [
        | inl here ↦
            let e : i ≡ index = ground (arith, here) in
            rw (e, get_or-put_same d.buckets index chain [] inside) nodup
        | inr there ↦ rw (get_or-put_other d.buckets index i chain [] there) (is.nodup i)
      ];
      counted = omega (arith, counted, is.counted, count-put d.buckets index chain inside);
      placed = λ i k other.
          let other' : (index_of compare_keys hash_key d k == i) ≡ false =
            rw (length-put d.buckets index chain) at other in
          elim (Bool-cases (index == i)) [
            | inl here ↦
                let e : i ≡ index = ground (arith, here) in
                let differ : compare_keys k key ≡ true =
                  apart d key k (ground (arith, here, other')) in
                rw (e, get_or-put_same d.buckets index chain [] inside)
                  (at_key k ∙ rw differ (is.placed index k (ground (arith, here, other'))))
            | inr there ↦
                rw (get_or-put_other d.buckets index i chain [] there) (is.placed i k other')
          ];
    }
