-- ===== src/JobQueue/FirstJobs.antt =====
-- The first ready jobs of the destinations on runq (faxd/faxQueueApp.c++), and what a change of the list
-- or of a destination does to them.
use hyla_fax.Base.{
  ℕ, Bool, true, false, ◌==◌, List, [], ◌∷◌, ◌≡◌, refl, ◌∙◌, ◌⊎◌, ap, arith, inl, inr, Bool-cases,
}
use hyla_fax.Base.Checks.{write_at}
use hyla_fax.Base.Ordered.{All, All-map, IsSorted, insert_while, remove_first}
use hyla_fax.JobQueue.Model.{Job, higher_priority, walks}
use hyla_fax.JobQueue.Order.{Higher, Higher-trans}

abbrev prepend : List Job → List Job → List Job
prepend [] jobs = jobs
prepend (first ∷ rest) jobs = first ∷ jobs

-- The first ready jobs of the destinations that have any.
abbrev pub heads : (ℕ → List Job) → List ℕ → List Job
heads table [] = []
heads table (di ∷ ds) = prepend (table di) (heads table ds)

abbrev pub Differs : ℕ → ℕ → Type 0
Differs a b = (a == b) ≡ false

prepend-All :
    (P : Job → Type 0) (jobs hs hs' : List Job)
    → All P (prepend jobs hs)
    → (All P hs → All P hs')
    → All P (prepend jobs hs')
prepend-All P [] hs hs' all f = f all
prepend-All P (j ∷ js) hs hs' all f = (all.0, f all.1)

behind-All : (P : Job → Type 0) (jobs hs : List Job) → All P (prepend jobs hs) → All P hs
behind-All P [] hs all = all
behind-All P (j ∷ js) hs all = all.1

prepend-IsSorted :
    (jobs hs hs' : List Job)
    → IsSorted Higher (prepend jobs hs)
    → (IsSorted Higher hs → IsSorted Higher hs')
    → ((j : Job) → All (Higher j) hs → All (Higher j) hs')
    → IsSorted Higher (prepend jobs hs')
prepend-IsSorted [] hs hs' sorted f g = f sorted
prepend-IsSorted (j ∷ js) hs hs' sorted f g = (g j sorted.0, f sorted.1)

behind-IsSorted : (jobs hs : List Job) → IsSorted Higher (prepend jobs hs) → IsSorted Higher hs
behind-IsSorted [] hs sorted = sorted
behind-IsSorted (j ∷ js) hs sorted = sorted.1

heads-All :
    (P : Job → Type 0) (table : ℕ → List Job) (gone : ℕ → Bool) (ds : List ℕ)
    → All P (heads table ds)
    → All P (heads table (remove_first gone ds))
unfolding remove_first
heads-All P table gone [] all = tt
heads-All P table gone (d ∷ ds) all = elim (Bool-cases (gone d)) [
  | inl hit ↦ simp hit (behind-All P (table d) (heads table ds) all)
  | inr miss ↦ simp miss (prepend-All P (table d) _ _ all (heads-All P table gone ds))
]

pub heads-remove_first :
    (table : ℕ → List Job) (gone : ℕ → Bool) (ds : List ℕ)
    → IsSorted Higher (heads table ds)
    → IsSorted Higher (heads table (remove_first gone ds))
unfolding remove_first
heads-remove_first table gone [] sorted = tt
heads-remove_first table gone (d ∷ ds) sorted = elim (Bool-cases (gone d)) [
  | inl hit ↦ simp hit (behind-IsSorted (table d) (heads table ds) sorted)
  | inr miss ↦ simp miss (
      prepend-IsSorted (table d) _ _ sorted (heads-remove_first table gone ds)
        λ j. heads-All (Higher j) table gone ds)
]

-- A destination that is not on the list may change its jobs.
pub heads-write_at :
    (table : ℕ → List Job) (place : ℕ) (jobs : List Job) (ds : List ℕ)
    → All (λ d. Differs d place) ds
    → heads (write_at table place jobs) ds ≡ heads table ds
heads-write_at table place jobs [] away = refl
heads-write_at table place jobs (d ∷ ds) away =
    simp away.0 (ap (prepend (table d)) (heads-write_at table place jobs ds away.1))

-- A change that keeps the first job of the destination.
pub heads-same_first :
    (table : ℕ → List Job) (place : ℕ) (first : Job) (old new : List Job) (ds : List ℕ)
    → table place ≡ first ∷ old
    → heads (write_at table place (first ∷ new)) ds ≡ heads table ds
heads-same_first table place first old new [] e = refl
heads-same_first table place first old new (d ∷ ds) e =
    let rest = heads-same_first table place first old new ds e in
    elim (Bool-cases (d == place)) [
      | inl here ↦
          let same : d ≡ place = ground (arith, here) in
          let was : table d ≡ first ∷ old = ap table same ∙ e in
          simp (here, was) (ap (◌∷◌ first) rest)
      | inr other ↦ simp other (ap (prepend (table d)) rest)
    ]

pub removed-Differs :
    (place : ℕ) (ds : List ℕ)
    → IsSorted Differs ds
    → All (λ d. Differs d place) (remove_first (λ other. other == place) ds)
unfolding remove_first
removed-Differs place [] once = tt
removed-Differs place (d ∷ ds) once = elim (Bool-cases (d == place)) [
  | inl hit ↦
      let same : d ≡ place = ground (arith, hit) in
      simp hit
        (All-map (Differs d) (λ x. Differs x place) ds (λ x e. ground (arith, same, e)) once.0)
  | inr miss ↦ simp miss (refl, removed-Differs place ds once.1)
]

-- What a computed list of jobs is.
pub record IsCons (jobs : List Job) : Type 0 where
  pub first : Job
  pub rest : List Job
  pub is_cons : jobs ≡ first ∷ rest

pub List-cases : (jobs : List Job) → (jobs ≡ []) ⊎ IsCons jobs
List-cases [] = inl refl
List-cases (j ∷ js) = inr (record { first = j; rest = js; is_cons = refl })

-- The place of a destination whose first job is new.
module _ (table : ℕ → List Job) (job placed : Job) (rest : List Job) (di : ℕ)
    (first : table di ≡ placed ∷ rest) (pri : placed.pri ≡ job.pri)
    (tts : placed.tts ≡ job.tts) where
  heads-insert-All :
      (P : Job → Type 0) (ds : List ℕ)
      → P placed
      → All P (heads table ds)
      → All P (heads table (insert_while (walks table job) di ds))
  unfolding insert_while
  heads-insert-All P [] p all = simp first (p, tt)
  heads-insert-All P (d ∷ ds) p all = elim (Bool-cases (walks table job d)) [
    | inl on ↦ simp on (prepend-All P (table d) _ _ all (heads-insert-All P ds p))
    | inr stop ↦ simp (stop, first) (p, all)
  ]

  pub heads-insert_while :
      (ds : List ℕ)
      → IsSorted Higher (heads table ds)
      → IsSorted Higher (heads table (insert_while (walks table job) di ds))
  unfolding insert_while
  heads-insert_while [] sorted = simp first (tt, tt)
  heads-insert_while (d ∷ ds) sorted = elim (List-cases (table d)) [
    | inl idle ↦
        let on : walks table job d ≡ true = rw (walks, idle) refl in
        simp (on, idle) (heads-insert_while ds (simp idle at sorted))
    | inr jobs ↦
        let nj = jobs.first in
        let e = jobs.is_cons in
        let order : All (Higher nj) (heads table ds) × IsSorted Higher (heads table ds) =
          simp e at sorted in
        elim (Bool-cases (higher_priority nj job)) [
          | inl on ↦
              let before : Higher nj placed = ground (arith, on, pri, tts) in
              let walk : walks table job d ≡ true = rw (walks, e) on in
              simp (walk, e)
                (heads-insert-All (Higher nj) ds before order.0, heads-insert_while ds order.1)
          | inr stop ↦
              let after : Higher placed nj = ground (arith, stop, pri, tts) in
              let walk : walks table job d ≡ false = rw (walks, e) stop in
              simp (walk, e, first)
                (
                  (
                    after,
                    All-map (Higher nj) (Higher placed) _ (λ x h. Higher-trans placed nj x after h)
                        order.0,
                  ),
                  order,
                )
        ]
  ]
