-- ===== src/JobQueue/Heads.antt =====
-- setReady (faxd/faxQueueApp.c++) keeps the destinations of runq in the order of their first ready jobs.
use hyla_fax.Base.{true, false, ◌==◌, List, ◌∷◌, ◌≡◌, refl, arith, inl, inr, Bool-cases}
use hyla_fax.Base.Checks.{write_at}
use hyla_fax.Base.Ordered.{
  All-map, IsSorted, insert_while, remove_first, insert_while-pairwise, remove_first-IsSorted,
}
use hyla_fax.JobQueue.Model.{
  Job, Queues, state_ready, state_blocked, higher_priority, skips, made_ready,
}
use hyla_fax.JobQueue.Order.{Higher}
use hyla_fax.JobQueue.FirstJobs.{
  heads, Differs, heads-remove_first, heads-write_at, heads-same_first, removed-Differs, List-cases,
  heads-insert_while,
}

-- The destinations are on runq once, in the order of their first ready jobs.
pub record IsRunq (q : Queues) : Type 0 where
  pub once : IsSorted Differs q.runq
  pub in_order : IsSorted Higher (heads q.ready_q q.runq)

-- The ready jobs of the destination with the new one: behind the first job, or before all.
module _ (job placed : Job) (jobs : List Job) where
  abbrev with_new : List Job
  with_new = insert_while (λ other. higher_priority other job) placed jobs

  -- The first job and the ones behind it.
  record KeepsFirst : Type 0 where
    first : Job
    old : List Job
    new : List Job
    before : jobs ≡ first ∷ old
    after : with_new ≡ first ∷ new

  with_new-skipped : skips jobs job ≡ true → KeepsFirst
  unfolding insert_while
  with_new-skipped skipped = elim (List-cases jobs) [
    | inl idle ↦ absurd (let h = rw idle at skipped in ground (arith, h))
    | inr c ↦
        let on : higher_priority c.first job ≡ true = rw c.is_cons at skipped in
        record {
          first = c.first;
          old = c.rest;
          new = insert_while (λ other. higher_priority other job) placed c.rest;
          before = c.is_cons;
          after = simp (c.is_cons, on) refl;
        }
  ]

  with_new-first : skips jobs job ≡ false → with_new ≡ placed ∷ jobs
  unfolding insert_while
  with_new-first first = elim (List-cases jobs) [
    | inl idle ↦ simp idle refl
    | inr c ↦
        let stop : higher_priority c.first job ≡ false = rw c.is_cons at first in
        simp (c.is_cons, stop) refl
  ]

-- setReady keeps every destination once on runq, and those with ready jobs in the order of their first ready
-- jobs.
pub made_ready-IsRunq : (q : Queues) (job : Job) → IsRunq q → IsRunq (made_ready q job)
unfolding made_ready
made_ready-IsRunq q job v =
    let di = job.dest in
    elim (Bool-cases (skips (q.ready_q di) job)) [
      | inl skipped ↦
          let placed : Job = record job { state = state_blocked } in
          let k = with_new-skipped job placed (q.ready_q di) skipped in
          simp (made_ready, skipped)
            (record {
              once = v.once;
              in_order =
                  rw (k.after, heads-same_first q.ready_q di k.first k.old k.new q.runq k.before)
                    v.in_order;
            })
      | inr first ↦
          let placed : Job = record job { state = state_ready } in
          let jobs = with_new job placed (q.ready_q di) in
          let rest = remove_first (λ other. other == di) q.runq in
          let away = removed-Differs di q.runq v.once in
          let table = write_at q.ready_q di jobs in
          let at_di : table di ≡ placed ∷ q.ready_q di =
            let itself : (di == di) ≡ true = ground arith in
            simp itself (with_new-first job placed (q.ready_q di) first) in
          let sorted : IsSorted Higher (heads table rest) =
            rw (heads-write_at q.ready_q di jobs rest away)
              (heads-remove_first q.ready_q _ q.runq v.in_order) in
          simp (made_ready, first)
            (record {
              once =
                  insert_while-pairwise Differs _ di rest away
                    (All-map (λ d. Differs d di) (Differs di) rest (λ x e. ground (arith, e)) away)
                    (remove_first-IsSorted _ Differs q.runq v.once);
              in_order =
                  heads-insert_while table job placed (q.ready_q di) di at_di refl refl rest sorted;
            })
    ]
