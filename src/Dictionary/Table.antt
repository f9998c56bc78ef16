-- ===== src/Dictionary/Table.antt =====
-- fxDictionary and fxDictIter (libhylafax/Dictionary.h, libhylafax/Dictionary.c++). A chain of
-- fxDictBuckets is the list of its keys and values; what a subclass defines, hashKey, compareKeys and
-- createValue, is a parameter.
use hyla_fax.Base.{
  ℕ, zero, suc, ◌+◌, ◌-◌, ◌%◌, Bool, true, false, ◌==◌, if◌then◌else◌, List, [], ◌∷◌, Option, none,
  some, get_or, replicate, length, drop, map,
}
use hyla_fax.Base.Lists.{put}

-- The state: numItems and the buckets. The sizes of keys and values are those of their types.
pub record Dictionary (K V : Type 0) : Type 0 where
  pub num_items : ℕ
  pub buckets : List (List (K × V))

-- An iterator; `node` is the chain from its node on, and `dict` tells whether it has a dictionary.
pub record DictIter (K V : Type 0) : Type 0 where
  pub dict : Bool
  pub bucket : ℕ
  pub invalid : Bool
  pub node : List (K × V)

abbrev pub default_size : ℕ
default_size = 31

module _ {K V : Type 0} where
  -- The constructor.
  abbrev pub new_dictionary : (initsize : ℕ) → Dictionary K V
  new_dictionary initsize = record {
    num_items = 0;
    buckets = replicate (if initsize == 0 then default_size else initsize) [];
  }

  -- `buckets[index]`.
  abbrev pub bucket_at : List (List (K × V)) → ℕ → List (K × V)
  bucket_at buckets index = get_or buckets index []

  -- cleanup frees the buckets, and leaves numItems as it is.
  abbrev pub cleanup : Dictionary K V → Dictionary K V
  cleanup d = record { num_items = d.num_items; buckets = map (λ chain. []) d.buckets }

  module _ (compare_keys : K → K → Bool) where
    -- The loop that looks for a key in a chain; compare_keys is true where the keys differ.
    unfoldable pub find_in : List (K × V) → K → Option V
    find_in [] key = none
    find_in ((k, v) ∷ chain) key = if compare_keys key k then find_in chain key else some v

    -- The value of the bucket found is changed.
    unfoldable pub set_in : List (K × V) → K → V → List (K × V)
    set_in [] key value = []
    set_in ((k, v) ∷ chain) key value =
        if compare_keys key k then (k, v) ∷ set_in chain key value else (k, value) ∷ chain

    -- The bucket found is taken out of the chain.
    unfoldable pub remove_in : List (K × V) → K → List (K × V)
    remove_in [] key = []
    remove_in ((k, v) ∷ chain) key =
        if compare_keys key k then (k, v) ∷ remove_in chain key else chain

    module _ (hash_key : K → ℕ) where
      abbrev pub index_of : Dictionary K V → K → ℕ
      index_of d key = hash_key key % length d.buckets

      abbrev pub chain_of : Dictionary K V → K → List (K × V)
      chain_of d key = bucket_at d.buckets (index_of d key)

      unfoldable pub find : Dictionary K V → K → Option V
      find d key = find_in (chain_of d key) key

      -- addInternal.
      unfoldable pub add_internal : Dictionary K V → K → V → Dictionary K V
      add_internal d key value = elim (find d key) [
        | some old ↦ record {
          num_items = d.num_items;
          buckets = put d.buckets (index_of d key) (set_in (chain_of d key) key value);
        }
        | none ↦ record {
          num_items = d.num_items + 1;
          buckets = put d.buckets (index_of d key) ((key, value) ∷ chain_of d key);
        }
      ]

      -- findCreate; `created` is the value that createValue makes.
      unfoldable pub find_create : Dictionary K V → K → (created : V) → V × Dictionary K V
      find_create d key created = elim (find d key) [
        | some value ↦ (value, d)
        | none ↦ (
          created,
          record {
            num_items = d.num_items + 1;
            buckets = put d.buckets (index_of d key) ((key, created) ∷ chain_of d key);
          },
        )
      ]

      -- What remove and cut do to the dictionary, for a key that is found.
      abbrev pub unlink : Dictionary K V → K → Dictionary K V
      unlink d key = record {
        num_items = d.num_items - 1;
        buckets = put d.buckets (index_of d key) (remove_in (chain_of d key) key);
      }

      unfoldable pub remove : Dictionary K V → K → Dictionary K V
      remove d key = elim (find d key) [ none ↦ d | some value ↦ unlink d key ]

      unfoldable pub cut : Dictionary K V → K → Option V × Dictionary K V
      cut d key = elim (find d key) [ none ↦ (none, d) | some value ↦ (some value, unlink d key) ]

  -- advanceToValid: `rest` are the buckets behind the bucket `bucket`.
  unfoldable pub advance : (bucket : ℕ) → (rest : List (List (K × V))) → DictIter K V
  advance bucket [] = record { dict = false; bucket = bucket + 1; invalid = true; node = [] }
  advance bucket ([] ∷ rest) = advance (bucket + 1) rest
  advance bucket ((item ∷ chain) ∷ rest) = record {
    dict = true;
    bucket = bucket + 1;
    invalid = false;
    node = item ∷ chain;
  }

  abbrev pub advance_to_valid : Dictionary K V → (bucket : ℕ) → DictIter K V
  advance_to_valid d bucket = advance bucket (drop (bucket + 1) d.buckets)

  -- The node that an iterator is at, or the next that there is.
  unfoldable pub settle : Dictionary K V → (bucket : ℕ) → (node : List (K × V)) → DictIter K V
  settle d bucket [] = advance_to_valid d bucket
  settle d bucket (item ∷ chain) = record {
    dict = true;
    bucket = bucket;
    invalid = false;
    node = item ∷ chain;
  }

  -- The constructor of an iterator, and operator= of a dictionary to one.
  unfoldable pub start : Dictionary K V → DictIter K V
  start d = settle d 0 (bucket_at d.buckets 0)

  -- notDone.
  abbrev pub not_done : DictIter K V → Bool
  not_done it = elim it.node [ [] ↦ false | item ∷ chain ↦ true ]

  -- increment.
  unfoldable pub increment : Dictionary K V → DictIter K V → DictIter K V
  increment d it =
      if it.dict
      then (if it.invalid
          then record it { invalid = false }
          else settle d it.bucket (drop 1 it.node))
      else it

  -- `for (iter = dict; iter.notDone(); iter++)`: the items that it sees within `fuel` rounds.
  unfoldable pub visit : (fuel : ℕ) → Dictionary K V → DictIter K V → List (K × V)
  visit zero d it = []
  visit (suc fuel) d it =
      let rest = visit fuel d (increment d it) in
      elim it.node [ [] ↦ [] | item ∷ chain ↦ item ∷ rest ]
