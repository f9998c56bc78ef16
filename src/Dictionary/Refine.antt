-- ===== src/Dictionary/Refine.antt =====
-- fxDictionary (libhylafax/Dictionary.c++) refines a function from keys to values: a run of operations on
-- the hash table gives the answers that the function gives.
use std.Path.{fun_ext}
use hyla_fax.Base.{
  ℕ, zero, suc, ◌==◌, Bool, false, if◌then◌else◌, List, [], ◌∷◌, Option, none, some, replicate,
  get_or, ◌≡◌, refl, sym, ap, ◌∙◌, arith,
}
use hyla_fax.Base.Lists.{length-replicate}
use hyla_fax.Dictionary.Table.{
  Dictionary, new_dictionary, find_in, find, add_internal, find_create, remove, cut, default_size,
}
use hyla_fax.Dictionary.Map.{IsDictionary, count}
use hyla_fax.Dictionary.Operations.{
  update, add_internal-IsUpdated, find_create-IsUpdated, find_create-value, remove-IsUpdated,
  cut-remove,
}

get_or-empty : {A : Type 0} → (n i : ℕ) → get_or (replicate {A = List A} n []) i [] ≡ []
get_or-empty zero i = refl
get_or-empty (suc n) zero = refl
get_or-empty (suc n) (suc i) = get_or-empty n i

count-empty : (A : Type 0) (n : ℕ) → count (replicate {A = List A} n []) ≡ 0
unfolding count
count-empty A zero = refl
count-empty A (suc n) = omega (arith, count-empty A n)

-- The operations of an fxDictionary that its users call.
pub data Operation (K V : Type 0) : Type 0 where
  find_op : K → Operation K V
  add_op : K → V → Operation K V
  create_op : K → V → Operation K V
  remove_op : K → Operation K V
  cut_op : K → Operation K V

module _ {K V : Type 0} (compare_keys : K → K → Bool)
    (same : (k j : K) → compare_keys k j ≡ false → k ≡ j)
    (itself : (k : K) → compare_keys k k ≡ false) (hash_key : K → ℕ) where
  -- An operation on the table: its answer, and the table after it.
  unfoldable pub step : Operation K V → Dictionary K V → Option V × Dictionary K V
  step (find_op key) d = (find compare_keys hash_key d key, d)
  step (add_op key value) d = (none, add_internal compare_keys hash_key d key value)
  step (create_op key created) d =
      let (value, d') = find_create compare_keys hash_key d key created in (some value, d')
  step (remove_op key) d = (none, remove compare_keys hash_key d key)
  step (cut_op key) d = cut compare_keys hash_key d key

  -- The same on a function from keys to values.
  unfoldable pub step_map : Operation K V → (K → Option V) → Option V × (K → Option V)
  step_map (find_op key) f = (f key, f)
  step_map (add_op key value) f =
      (none, update compare_keys same itself hash_key f key (some value))
  step_map (create_op key created) f =
      let value : V = elim (f key) [ none ↦ created | some value ↦ value ] in
      (some value, update compare_keys same itself hash_key f key (some value))
  step_map (remove_op key) f = (none, update compare_keys same itself hash_key f key none)
  step_map (cut_op key) f = (f key, update compare_keys same itself hash_key f key none)

  unfoldable pub answers : List (Operation K V) → Dictionary K V → List (Option V)
  answers [] d = []
  answers (op ∷ ops) d = let (answer, d') = step op d in answer ∷ answers ops d'

  unfoldable pub answers_map : List (Operation K V) → (K → Option V) → List (Option V)
  answers_map [] f = []
  answers_map (op ∷ ops) f = let (answer, f') = step_map op f in answer ∷ answers_map ops f'

  -- What find returns, as a function.
  abbrev pub contents : Dictionary K V → K → Option V
  contents d = find compare_keys hash_key d

  -- A step of the table and one of the function go together.
  record Simulates (d : Dictionary K V) (a : Option V × Dictionary K V)
      (b : Option V × (K → Option V)) : Type 0 where
    answer : a.0 ≡ b.0
    after : contents a.1 ≡ b.1
    dictionary : IsDictionary compare_keys same itself hash_key a.1

  step-Simulates :
      (op : Operation K V) (d : Dictionary K V)
      → IsDictionary compare_keys same itself hash_key d
      → Simulates d (step op d) (step_map op (contents d))
  unfolding step step_map
  step-Simulates (find_op key) d is = record { answer = refl; after = refl; dictionary = is }
  step-Simulates (add_op key value) d is =
      let u = add_internal-IsUpdated compare_keys same itself hash_key d key is value in
      record { answer = refl; after = fun_ext u.found; dictionary = u.dictionary }
  step-Simulates (create_op key created) d is =
      let u = find_create-IsUpdated compare_keys same itself hash_key d key is created in
      let e = find_create-value compare_keys same itself hash_key d key is created in
      record {
        answer = ap some e;
        after =
            fun_ext u.found
            ∙ ap (λ (v : V). update compare_keys same itself hash_key (contents d) key (some v)) e;
        dictionary = u.dictionary;
      }
  step-Simulates (remove_op key) d is =
      let u = remove-IsUpdated compare_keys same itself hash_key d key is in
      record { answer = refl; after = fun_ext u.found; dictionary = u.dictionary }
  step-Simulates (cut_op key) d is =
      let u = remove-IsUpdated compare_keys same itself hash_key d key is in
      let e = cut-remove compare_keys same itself hash_key d key is in
      rw e (record { answer = refl; after = fun_ext u.found; dictionary = u.dictionary })

  -- Every run of operations on a dictionary has the answers that the run has on the function from keys to
  -- values that find is.
  pub answers-refines :
      (ops : List (Operation K V)) (d : Dictionary K V)
      → IsDictionary compare_keys same itself hash_key d
      → answers ops d ≡ answers_map ops (contents d)
  unfolding answers answers_map
  answers-refines [] d is = refl
  answers-refines (op ∷ ops) d is =
      let s = step-Simulates op d is in
      let rest = answers-refines ops (step op d).1 s.dictionary in
      rw (s.answer) (ap (◌∷◌ (step_map op (contents d)).0) (rest ∙ ap (answers_map ops) s.after))

  -- The dictionary that the constructor makes is one, whatever size is asked for.
  pub new_dictionary-IsDictionary :
      (initsize : ℕ)
      → IsDictionary {V = V} compare_keys same itself hash_key (new_dictionary initsize)
  unfolding find_in
  new_dictionary-IsDictionary initsize =
      let n = if initsize == 0 then default_size else initsize in
      record {
        some_bucket = rw (length-replicate {A = List (K × V)} n []) (ground arith);
        nodup = λ i. rw (get_or-empty {A = K × V} n i) tt;
        counted = sym (count-empty (K × V) n);
        placed = λ i key other. rw (get_or-empty {A = K × V} n i) refl;
      }
