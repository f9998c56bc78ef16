-- ===== src/QLink/Store.antt =====
-- QLink (faxd/QLink.h, faxd/QLink.c++). The store has the members next and prev of the QLink at each
-- address; an assertion that fails is the result `none`.
use hyla_fax.Base.{ℕ, Bool, not, ◌==◌, if◌then◌else◌, Option, none, some}

pub record Store : Type 0 where
  pub next : ℕ → ℕ
  pub prev : ℕ → ℕ

-- `a->next = v` and `a->prev = v`.
abbrev pub set_next : Store → (a v : ℕ) → Store
set_next s a v = record { next = λ b. if a == b then v else s.next b; prev = s.prev }

abbrev pub set_prev : Store → (a v : ℕ) → Store
set_prev s a v = record { next = s.next; prev = λ b. if a == b then v else s.prev b }

-- The constructor.
abbrev pub new_link : Store → (this : ℕ) → Store
new_link s this = set_prev (set_next s this this) this this

-- isEmpty and isOnList.
abbrev pub is_empty : Store → (this : ℕ) → Bool
is_empty s this = s.next this == this

abbrev pub is_on_list : Store → (this : ℕ) → Bool
is_on_list s this = not (s.next this == this)

-- The four assignments of insert.
abbrev pub linked : Store → (this after : ℕ) → Store
linked s this after =
    let s1 = set_next s this after in
    let s2 = set_prev s1 this (s1.prev after) in
    let s3 = set_next s2 (s2.prev after) this in set_prev s3 after this

unfoldable pub insert : Store → (this after : ℕ) → Option Store
insert s this after = if s.next this == this then some (linked s this after) else none

-- The three assignments of remove.
abbrev pub unlinked : Store → (this : ℕ) → Store
unlinked s this =
    let s1 = set_prev s (s.next this) (s.prev this) in
    let s2 = set_next s1 (s1.prev this) (s1.next this) in set_next s2 this this

unfoldable pub remove : Store → (this : ℕ) → Option Store
remove s this = if s.next this == this then none else some (unlinked s this)
