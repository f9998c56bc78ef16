-- ===== src/Dispatcher/Timers.antt =====
-- The timers of the dispatcher (libhylafax/Dispatcher.c++): the comparisons of two times, and the queue.
-- The times on the queue are absolute, so not negative; a handler is named by its address.
use hyla_fax.Base.{
  ℕ, Bool, true, false, ltb, ◌==◌, if◌then◌else◌, List, [], ◌∷◌, ◌≡◌, arith, inl, inr, Bool-cases,
  ◌∙◌,
}
use hyla_fax.Base.Ordered.{
  All-map, IsSorted, insert_while, remove_first, insert_while-All, insert_while-IsSorted,
  remove_first-IsSorted,
}

pub record Timeval : Type 0 where
  pub tv_sec : ℕ
  pub tv_usec : ℕ

-- `src1 > src2` and `src1 < src2`.
abbrev pub later : (src1 src2 : Timeval) → Bool
later src1 src2 =
    if ltb src2.tv_sec src1.tv_sec
    then true
    else if src1.tv_sec == src2.tv_sec
    then ltb src2.tv_usec src1.tv_usec
    else false

abbrev pub earlier : (src1 src2 : Timeval) → Bool
earlier src1 src2 =
    if ltb src1.tv_sec src2.tv_sec
    then true
    else if src1.tv_sec == src2.tv_sec
    then ltb src1.tv_usec src2.tv_usec
    else false

pub record Timer : Type 0 where
  pub timer_value : Timeval
  pub handler : ℕ

-- insert, with the loop along `after`.
unfoldable pub insert : List Timer → Timeval → ℕ → List Timer
insert [] t h = record { timer_value = t; handler = h } ∷ []
insert (first ∷ rest) t h =
    if earlier t first.timer_value
    then record { timer_value = t; handler = h } ∷ first ∷ rest
    else first
      ∷ insert_while (λ after. later t after.timer_value) (record { timer_value = t; handler = h })
          rest

unfoldable pub remove : List Timer → ℕ → List Timer
remove queue h = remove_first (λ doomed. doomed.handler == h) queue

-- The first timer is not due after the second.
abbrev pub NotAfter : Timer → Timer → Type 0
NotAfter a b = earlier b.timer_value a.timer_value ≡ false

earlier-later : (s t : Timeval) → earlier s t ≡ later t s
earlier-later s t = ground arith

NotAfter-trans : (a b c : Timer) → NotAfter a b → NotAfter b c → NotAfter a c
NotAfter-trans a b c ab bc = ground (arith, ab, bc)

earlier-NotAfter : (s t : Timeval) → earlier s t ≡ true → earlier t s ≡ false
earlier-NotAfter s t e = ground (arith, e)

later-NotAfter : (s t : Timeval) → later s t ≡ true → earlier s t ≡ false
later-NotAfter s t e = ground (arith, e)

pub insert-IsSorted :
    (queue : List Timer) (t : Timeval) (h : ℕ)
    → IsSorted NotAfter queue
    → IsSorted NotAfter (insert queue t h)
unfolding insert
insert-IsSorted [] t h sorted = (tt, tt)
insert-IsSorted (first ∷ rest) t h sorted =
    let new : Timer = record { timer_value = t; handler = h } in
    elim (Bool-cases (earlier t first.timer_value)) [
      | inl before ↦
          let r : NotAfter new first = earlier-NotAfter t first.timer_value before in
          simp before (
            (
              r,
              All-map (NotAfter first) (NotAfter new) rest (λ y s. NotAfter-trans new first y r s)
                  sorted.0,
            ),
            sorted,
          )
      | inr behind ↦ simp behind (
        insert_while-All _ new (NotAfter first) rest behind sorted.0,
        insert_while-IsSorted _ new NotAfter rest NotAfter-trans
            (λ x e. later-NotAfter t x.timer_value e) (λ x e. earlier-later x.timer_value t ∙ e)
            sorted.1,
      )
    ]

pub remove-IsSorted :
    (queue : List Timer) (h : ℕ) → IsSorted NotAfter queue → IsSorted NotAfter (remove queue h)
unfolding remove
remove-IsSorted queue h sorted = remove_first-IsSorted _ NotAfter queue sorted
