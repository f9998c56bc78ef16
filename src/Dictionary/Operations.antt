-- ===== src/Dictionary/Operations.antt =====
-- The operations of fxDictionary (libhylafax/Dictionary.c++), each on its own: what find returns after
-- it, and that the dictionary stays one.
use hyla_fax.Base.{
  ℕ, ◌+◌, ◌-◌, ◌≤◌, Bool, false, if◌then◌else◌, List, [], ◌∷◌, Option, none, some, length, ◌≡◌,
  refl, ap, ◌∙◌, arith, inl, inr, Bool-cases,
}
use hyla_fax.Base.Lists.{put}
use hyla_fax.Dictionary.Table.{
  Dictionary, find_in, set_in, remove_in, index_of, chain_of, find, add_internal, find_create,
  unlink, remove, cut,
}
use hyla_fax.Base.Options.{Option-cases}
use hyla_fax.Dictionary.Chains.{
  NoDup, find_in-set_in, find_in-remove_in, length-set_in, length-remove_in, NoDup-set_in,
  NoDup-remove_in,
}
use hyla_fax.Dictionary.Map.{IsDictionary, find-changed, changed-IsDictionary, count-put, index_lt}

module _ {K V : Type 0} (compare_keys : K → K → Bool)
    (same : (k j : K) → compare_keys k j ≡ false → k ≡ j)
    (itself : (k : K) → compare_keys k k ≡ false) (hash_key : K → ℕ) where
  -- A map with another answer for one key.
  abbrev pub update : (K → Option V) → K → Option V → K → Option V
  update f key answer j = if compare_keys j key then f j else answer

  -- A dictionary after a change: what find returns, and that it is one.
  pub record IsUpdated (d : Dictionary K V) (key : K) (answer : Option V) (d' : Dictionary K V)
      : Type 0 where
    pub found :
        (j : K)
        → find compare_keys hash_key d' j ≡ update (find compare_keys hash_key d) key answer j
    pub dictionary : IsDictionary compare_keys same itself hash_key d'

  module _ (d : Dictionary K V) (key : K)
      (is : IsDictionary compare_keys same itself hash_key d) where
    abbrev chain : List (K × V)
    chain = chain_of compare_keys hash_key d key

    -- numItems counts at least the items of the chain.
    counted_chain : length chain ≤ d.num_items
    counted_chain = omega (
      arith,
      is.counted,
      count-put d.buckets (index_of compare_keys hash_key d key) []
          (index_lt compare_keys same itself hash_key d key is.some_bucket),
    )

    chain-NoDup : NoDup compare_keys same itself chain
    chain-NoDup = is.nodup (index_of compare_keys hash_key d key)

    -- A new chain for the key updates the map.
    changed-IsUpdated :
        (n : ℕ) (chain' : List (K × V)) (answer : Option V)
        → ((i : K)
            → find_in compare_keys chain' i
              ≡ (if compare_keys i key then find_in compare_keys chain i else answer))
        → NoDup compare_keys same itself chain'
        → n + length chain ≡ d.num_items + length chain'
        → IsUpdated d key answer (record {
          num_items = n;
          buckets = put d.buckets (index_of compare_keys hash_key d key) chain';
        })
    changed-IsUpdated n chain' answer at_key nodup counted = record {
      found = find-changed compare_keys same itself hash_key d key is n chain' answer at_key;
      dictionary =
          changed-IsDictionary compare_keys same itself hash_key d key is n chain' answer at_key
            nodup counted;
    }

    set-IsUpdated :
        (value old : V)
        → find compare_keys hash_key d key ≡ some old
        → IsUpdated d key (some value) (record {
          num_items = d.num_items;
          buckets =
              put d.buckets
                (index_of compare_keys hash_key d key)
                (set_in compare_keys chain key value);
        })
    unfolding find
    set-IsUpdated value old e =
        changed-IsUpdated d.num_items (set_in compare_keys chain key value) (some value)
          (λ i. find_in-set_in compare_keys same itself chain key i value old e)
          (NoDup-set_in compare_keys same itself chain key value old e chain-NoDup)
          (omega (arith, length-set_in compare_keys same itself chain key value))

    push-IsUpdated :
        (value : V)
        → find compare_keys hash_key d key ≡ none
        → IsUpdated d key (some value) (record {
          num_items = d.num_items + 1;
          buckets = put d.buckets (index_of compare_keys hash_key d key) ((key, value) ∷ chain);
        })
    unfolding find find_in
    push-IsUpdated value e =
        changed-IsUpdated (d.num_items + 1) ((key, value) ∷ chain) (some value) (λ i. refl)
          (e, chain-NoDup) (omega arith)

    unlink-IsUpdated :
        (old : V)
        → find compare_keys hash_key d key ≡ some old
        → IsUpdated d key none (unlink compare_keys hash_key d key)
    unfolding find
    unlink-IsUpdated old e =
        let shorter = length-remove_in compare_keys same itself chain key old e in
        changed-IsUpdated (d.num_items - 1) (remove_in compare_keys chain key) none
          (λ i. find_in-remove_in compare_keys same itself chain key i chain-NoDup)
          (NoDup-remove_in compare_keys same itself chain key chain-NoDup)
          (omega (arith, shorter, counted_chain))

    -- A key that is not found may be taken out.
    same-IsUpdated : find compare_keys hash_key d key ≡ none → IsUpdated d key none d
    same-IsUpdated e = record {
      found = λ j. elim (Bool-cases (compare_keys j key)) [
        | inl t ↦ rw t refl
        | inr f ↦ rw f (ap (find compare_keys hash_key d) (same j key f) ∙ e)
      ];
      dictionary = is;
    }

    -- add gives the key the value, whether it was there or not, and leaves the other keys; the dictionary
    -- stays one.
    pub add_internal-IsUpdated :
        (value : V) → IsUpdated d key (some value) (add_internal compare_keys hash_key d key value)
    unfolding add_internal
    add_internal-IsUpdated value = elim (Option-cases (find compare_keys hash_key d key)) [
      | inl e ↦ rw (add_internal, e) (push-IsUpdated value e)
      | inr there ↦
          rw (add_internal, there.is_value) (set-IsUpdated value there.value there.is_value)
    ]

    -- remove takes the key out, if it is there, and leaves the other keys; the dictionary stays one.
    pub remove-IsUpdated : IsUpdated d key none (remove compare_keys hash_key d key)
    unfolding remove
    remove-IsUpdated = elim (Option-cases (find compare_keys hash_key d key)) [
      | inl e ↦ rw (remove, e) (same-IsUpdated e)
      | inr there ↦ rw (remove, there.is_value) (unlink-IsUpdated there.value there.is_value)
    ]

    pub cut-remove :
        cut compare_keys hash_key d key
        ≡ (find compare_keys hash_key d key, remove compare_keys hash_key d key)
    unfolding cut remove
    cut-remove = elim (Option-cases (find compare_keys hash_key d key)) [
      | inl e ↦ rw (cut, remove, e) refl
      | inr there ↦ rw (cut, remove, there.is_value) refl
    ]

    -- The value that operator[] refers to: the one found, or the new one.
    abbrev pub or_created : V → V
    or_created created = elim (find compare_keys hash_key d key) [
      | none ↦ created
      | some value ↦ value
    ]

    pub find_create-value :
        (created : V) → (find_create compare_keys hash_key d key created).0 ≡ or_created created
    unfolding find_create
    find_create-value created = elim (Option-cases (find compare_keys hash_key d key)) [
      | inl e ↦ rw (find_create, or_created, e) refl
      | inr there ↦ rw (find_create, or_created, there.is_value) refl
    ]

    kept-IsUpdated :
        (value : V) → find compare_keys hash_key d key ≡ some value → IsUpdated d key (some value) d
    kept-IsUpdated value e = record {
      found = λ j. elim (Bool-cases (compare_keys j key)) [
        | inl t ↦ rw t refl
        | inr f ↦ rw f (ap (find compare_keys hash_key d) (same j key f) ∙ e)
      ];
      dictionary = is;
    }

    -- findCreate leaves the key with the value that it returns, and the other keys as they are.
    pub find_create-IsUpdated :
        (created : V)
        → IsUpdated d key
            (some (find_create compare_keys hash_key d key created).0)
            (find_create compare_keys hash_key d key created).1
    unfolding find_create
    find_create-IsUpdated created = elim (Option-cases (find compare_keys hash_key d key)) [
      | inl e ↦ rw (find_create, e) (push-IsUpdated created e)
      | inr there ↦ rw (find_create, there.is_value) (kept-IsUpdated there.value there.is_value)
    ]
