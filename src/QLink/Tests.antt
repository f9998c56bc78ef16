-- ===== src/QLink/Tests.antt =====
-- Runs of the model of faxd/QLink.c++ on a ring with the head 1 and the items 2 and 3.
use hyla_fax.Base.{[], ◌∷◌, ◌++◌, refl}
use hyla_fax.QLink.Store.{Store, insert, remove, linked}
use hyla_fax.QLink.Ring.{IsRing, Inserted, insert-Inserted}
use hyla_fax.QLink.Remove.{Removed, remove-Removed}

-- Every address as its constructor leaves it, then two insertions.
abbrev lone : Store
lone = record { next = λ a. a; prev = λ a. a }

abbrev queue : Store
queue = linked (linked lone 2 1) 3 1

queue-IsRing : IsRing queue 1 (2 ∷ 3 ∷ [])
queue-IsRing = record {
  links = (refl, refl, (refl, refl, (refl, refl)));
  nodup = (refl, (refl, (refl, tt)));
}

insert-Inserted_example : Inserted (insert queue 4 1) 1 ((2 ∷ 3 ∷ []) ++ 4 ∷ [])
insert-Inserted_example = insert-Inserted queue 1 4 (2 ∷ 3 ∷ []) queue-IsRing refl refl

remove-Removed_example : Removed (remove queue 2) 1 2 ([] ++ 3 ∷ [])
remove-Removed_example = remove-Removed queue 1 2 [] (3 ∷ []) queue-IsRing
