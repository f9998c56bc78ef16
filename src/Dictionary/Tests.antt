-- ===== src/Dictionary/Tests.antt =====
-- Runs of the model of libhylafax/Dictionary.c++ on small dictionaries of numbers.
use hyla_fax.Base.{ℕ, ◌≤◌, Bool, false, not, ◌==◌, List, [], ◌∷◌, none, some, ◌≡◌, refl, arith}
use hyla_fax.Dictionary.Table.{
  Dictionary, new_dictionary, find, find_in, set_in, remove_in, add_internal, find_create, remove,
  cut, visit, start, settle, advance, increment,
}
use hyla_fax.Dictionary.Map.{IsDictionary, count}
use hyla_fax.Dictionary.Refine.{
  Operation, add_op, create_op, cut_op, find_op, remove_op, answers, answers_map, contents, step,
  answers-refines, new_dictionary-IsDictionary,
}
use hyla_fax.Dictionary.Iterate.{items, visit-start}

-- Numbers that differ.
abbrev compare_numbers : ℕ → ℕ → Bool
compare_numbers a b = not (a == b)

same : (k j : ℕ) → compare_numbers k j ≡ false → k ≡ j
same k j e = ground arith

itself : (k : ℕ) → compare_numbers k k ≡ false
itself k = ground arith

abbrev hash : ℕ → ℕ
hash k = k

abbrev fresh : Dictionary ℕ ℕ
fresh = new_dictionary 0

fresh-IsDictionary : IsDictionary {V = ℕ} compare_numbers same itself hash fresh
fresh-IsDictionary = new_dictionary-IsDictionary compare_numbers same itself hash 0

-- 3 and 34 have the same bucket of 31.
abbrev ops : List (Operation ℕ ℕ)
ops =
    add_op 3 30
    ∷ add_op 34 40
    ∷ add_op 3 31
    ∷ find_op 34
    ∷ create_op 5 0
    ∷ cut_op 34
    ∷ find_op 34
    ∷ find_op 3
    ∷ remove_op 3
    ∷ find_op 3
    ∷ []

answers_run :
    answers compare_numbers same itself hash ops fresh
    ≡ none ∷ none ∷ none ∷ some 40 ∷ some 0 ∷ some 40 ∷ none ∷ some 31 ∷ none ∷ none ∷ []
unfolding answers step find find_in add_internal set_in find_create cut remove remove_in
answers_run = refl

answers-refines_example :
    answers compare_numbers same itself hash ops fresh
    ≡ answers_map compare_numbers same itself hash ops
        (contents compare_numbers same itself hash fresh)
answers-refines_example =
    answers-refines compare_numbers same itself hash ops fresh fresh-IsDictionary

abbrev three : Dictionary ℕ ℕ
three = record { num_items = 3; buckets = [] ∷ ((1, 10) ∷ (3, 30) ∷ []) ∷ [] ∷ ((7, 70) ∷ []) ∷ [] }

three_count : count three.buckets ≤ 3
unfolding count
three_count = omega arith

visit-start_example : visit 3 three (start three) ≡ items three.buckets
visit-start_example = visit-start three 3 three_count

visit_run : visit 3 three (start three) ≡ (1, 10) ∷ (3, 30) ∷ (7, 70) ∷ []
unfolding visit start settle advance increment
visit_run = refl
