-- ===== src/Dispatcher/Expire.antt =====
-- TimerQueue::expire (libhylafax/Dispatcher.c++). A handler may start and stop timers: what it does when
-- it is called is the parameter `react`, on a state `W` of the rest of the program.
use hyla_fax.Base.{
  ℕ, zero, suc, ◌≤◌, Bool, false, if◌then◌else◌, List, [], ◌∷◌, Option, none, some, ◌≡◌, refl, ap,
  arith, inl, inr, Bool-cases,
}
use hyla_fax.Base.Ordered.{All, IsSorted, count, count-insert_while, count-remove_first}
use hyla_fax.Dispatcher.Timers.{
  Timeval, Timer, earlier, later, insert, remove, NotAfter, insert-IsSorted, remove-IsSorted,
}

-- The calls of a handler on the queue: startTimer and stopTimer, with the absolute time.
pub data Action : Type 0 where
  start_timer : Timeval → ℕ → Action
  stop_timer : ℕ → Action

unfoldable pub perform : List Timer → List Action → List Timer
perform queue [] = queue
perform queue (start_timer t h ∷ actions) = perform (insert queue t h) actions
perform queue (stop_timer h ∷ actions) = perform (remove queue h) actions

module _ {ℓ} {W : Type ℓ} (react : W → Timer → Timeval → W × List Action) where
  -- The loop, with the number of its rounds bounded by the fuel.
  unfoldable pub expire : ℕ → Timeval → W → List Timer → Option (W × List Timer)
  expire fuel cur w [] = some (w, [])
  expire zero cur w (first ∷ rest) =
      if earlier first.timer_value cur then none else some (w, first ∷ rest)
  expire (suc fuel) cur w (first ∷ rest) =
      let r = react w first cur in
      let after = expire fuel cur r.0 (perform rest r.1) in
      if earlier first.timer_value cur then after else some (w, first ∷ rest)

-- The timers that are due.
abbrev pub is_due : Timeval → Timer → Bool
is_due cur timer = earlier timer.timer_value cur

-- An action that starts no timer which is due already.
abbrev pub IsLater : Timeval → Action → Type 0
IsLater cur (start_timer t h) = earlier t cur ≡ false
IsLater cur (stop_timer h) = Unit

perform-IsSorted :
    (queue : List Timer) (actions : List Action)
    → IsSorted NotAfter queue
    → IsSorted NotAfter (perform queue actions)
unfolding perform
perform-IsSorted queue [] sorted = sorted
perform-IsSorted queue (start_timer t h ∷ actions) sorted =
    perform-IsSorted (insert queue t h) actions (insert-IsSorted queue t h sorted)
perform-IsSorted queue (stop_timer h ∷ actions) sorted =
    perform-IsSorted (remove queue h) actions (remove-IsSorted queue h sorted)

insert-due :
    (cur : Timeval) (queue : List Timer) (t : Timeval) (h : ℕ)
    → earlier t cur ≡ false
    → count (is_due cur) (insert queue t h) ≡ count (is_due cur) queue
unfolding insert count
insert-due cur [] t h ahead = rw ahead refl
insert-due cur (first ∷ rest) t h ahead = elim (Bool-cases (earlier t first.timer_value)) [
  | inl before ↦ simp (before, ahead) (omega arith)
  | inr behind ↦ simp behind (
      rw (count-insert_while (is_due cur) (λ after. later t after.timer_value) _ rest, ahead)
        (omega arith))
]

perform-due :
    (cur : Timeval) (queue : List Timer) (actions : List Action)
    → All (IsLater cur) actions
    → count (is_due cur) (perform queue actions) ≤ count (is_due cur) queue
unfolding perform count remove
perform-due cur queue [] ahead = omega arith
perform-due cur queue (start_timer t h ∷ actions) ahead =
    omega
      (arith, perform-due cur (insert queue t h) actions ahead.1, insert-due cur queue t h ahead.0)
perform-due cur queue (stop_timer h ∷ actions) ahead = omega (
  arith,
  perform-due cur (remove queue h) actions ahead.1,
  count-remove_first (is_due cur) _ queue,
)

-- What expire leaves: no timer that is due, in order.
pub record Expired {ℓ} {W : Type ℓ} (cur : Timeval) (r : Option (W × List Timer)) : Type ℓ where
  pub world : W
  pub queue : List Timer
  pub returns : r ≡ some (world, queue)
  pub sorted : IsSorted NotAfter queue
  pub none_due : All (λ timer. is_due cur timer ≡ false) queue

-- Behind a timer that is not due stands none that is.
none_behind :
    (cur : Timeval) (first : Timer) (rest : List Timer)
    → is_due cur first ≡ false
    → All (NotAfter first) rest
    → All (λ timer. is_due cur timer ≡ false) rest
none_behind cur first [] ahead all = tt
none_behind cur first (x ∷ rest) ahead all =
    (ground (arith, ahead, all.0), none_behind cur first rest ahead all.1)

module _ {ℓ} {W : Type ℓ} (react : W → Timer → Timeval → W × List Action) (cur : Timeval) where
  -- When no handler starts a timer that is due already, as many rounds as there are due timers suffice:
  -- the loop ends, and leaves a queue in order without a timer that is due.
  pub expire-Expired :
      (fuel : ℕ) (w : W) (queue : List Timer)
      → ((v : W) (timer : Timer) → All (IsLater cur) (react v timer cur).1)
      → IsSorted NotAfter queue
      → count (is_due cur) queue ≤ fuel
      → Expired cur (expire react fuel cur w queue)
  unfolding expire count
  expire-Expired fuel w [] ahead sorted enough = record {
    world = w;
    queue = [];
    returns = refl;
    sorted = tt;
    none_due = tt;
  }
  expire-Expired zero w (first ∷ rest) ahead sorted enough =
      let waits : is_due cur first ≡ false = ground (arith, enough) in
      record {
        world = w;
        queue = first ∷ rest;
        returns = simp waits refl;
        sorted = sorted;
        none_due = (waits, none_behind cur first rest waits sorted.0);
      }
  expire-Expired (suc fuel) w (first ∷ rest) ahead sorted enough =
      elim (Bool-cases (is_due cur first)) [
        | inl due ↦
            let r = react w first cur in
            let few : count (is_due cur) (perform rest r.1) ≤ fuel =
              ground (arith, due, enough, perform-due cur rest r.1 (ahead w first)) in
            simp due (
              expire-Expired fuel r.0 (perform rest r.1) ahead (perform-IsSorted rest r.1 sorted.1)
                few)
        | inr waits ↦ record {
          world = w;
          queue = first ∷ rest;
          returns = simp waits refl;
          sorted = sorted;
          none_due = (waits, none_behind cur first rest waits sorted.0);
        }
      ]

  -- The handlers of the timers, called one after the other.
  abbrev pub fire : W → List Timer → W
  fire w [] = w
  fire w (timer ∷ timers) = fire (react w timer cur).0 timers

  -- The timers that are due, and the others, in their order.
  abbrev pub due_timers : List Timer → List Timer
  due_timers [] = []
  due_timers (x ∷ xs) = if is_due cur x then x ∷ due_timers xs else due_timers xs

  abbrev pub waiting_timers : List Timer → List Timer
  waiting_timers [] = []
  waiting_timers (x ∷ xs) = if is_due cur x then waiting_timers xs else x ∷ waiting_timers xs

  only_waiting :
      (queue : List Timer)
      → All (λ timer. is_due cur timer ≡ false) queue
      → (due_timers queue ≡ []) × (waiting_timers queue ≡ queue)
  only_waiting [] all = (refl, refl)
  only_waiting (x ∷ xs) all =
      let rest = only_waiting xs all.1 in (simp all.0 rest.0, simp all.0 (ap (◌∷◌ x) rest.1))

  -- With handlers that leave the queue alone, expire calls exactly the handlers of the due timers, in the
  -- order of the queue, and keeps exactly the others.
  pub expire-due_timers :
      (fuel : ℕ) (w : W) (queue : List Timer)
      → ((v : W) (timer : Timer) → (react v timer cur).1 ≡ [])
      → IsSorted NotAfter queue
      → count (is_due cur) queue ≤ fuel
      → expire react fuel cur w queue ≡ some (fire w (due_timers queue), waiting_timers queue)
  unfolding expire count perform
  expire-due_timers fuel w [] quiet sorted enough = refl
  expire-due_timers zero w (first ∷ rest) quiet sorted enough =
      let waits : is_due cur first ≡ false = ground (arith, enough) in
      let e = only_waiting rest (none_behind cur first rest waits sorted.0) in
      simp (waits, e.0, e.1) refl
  expire-due_timers (suc fuel) w (first ∷ rest) quiet sorted enough =
      elim (Bool-cases (is_due cur first)) [
        | inl due ↦
            simp (due, quiet w first)
              (expire-due_timers fuel (react w first cur).0 rest quiet sorted.1
                (ground (arith, due, enough)))
        | inr waits ↦
            let e = only_waiting rest (none_behind cur first rest waits sorted.0) in
            simp (waits, e.0, e.1) refl
      ]
