-- ===== src/JobQueue/Order.antt =====
-- The queues of jobs (faxd/faxQueueApp.c++) stay in order: a destination's ready jobs by priority and time
-- to send, its sleeping jobs and the pending jobs by time to send.
use hyla_fax.Base.{
  ℕ, ◌≤◌, Bool, true, false, leb, ◌==◌, if◌then◌else◌, List, ◌∷◌, Option, none, some, ◌≡◌, refl,
  arith, inl, inr, Bool-cases,
}
use hyla_fax.Base.Checks.{write_at}
use hyla_fax.Base.Ordered.{IsSorted, insert_while, insert_while-IsSorted, remove_first-IsSorted}
use hyla_fax.JobQueue.Model.{
  Job, Queues, state_active, higher_priority, remove, is_on_list, skips, asserted, made_ready,
  set_ready, set_pending, set_sleep, set_dead, set_suspend, set_ready_to_run, ctrl_job_done,
}

-- The first job may stand before the second.
abbrev pub Higher : Job → Job → Type 0
Higher a b = higher_priority a b ≡ true

abbrev pub Sooner : Job → Job → Type 0
Sooner a b = a.tts ≤ b.tts

pub record IsQueues (q : Queues) : Type 0 where
  pub ready : (di : ℕ) → IsSorted Higher (q.ready_q di)
  pub sleeping : (di : ℕ) → IsSorted Sooner (q.sleep_q di)
  pub pending : IsSorted Sooner q.pendq

pub Higher-trans : (a b c : Job) → Higher a b → Higher b c → Higher a c
Higher-trans a b c ab bc = ground (arith, ab, bc)

pub Higher-total : (a b : Job) → higher_priority a b ≡ false → Higher b a
Higher-total a b lower = ground (arith, lower)

Sooner-trans : (a b c : Job) → Sooner a b → Sooner b c → Sooner a c
Sooner-trans a b c ab bc = omega arith

write_at-each :
    (P : List Job → Type 0) (table : ℕ → List Job) (place : ℕ) (jobs : List Job)
    → ((di : ℕ) → P (table di))
    → P jobs
    → (di : ℕ) → P (write_at table place jobs di)
write_at-each P table place jobs each new di = elim (Bool-cases (di == place)) [
  | inl here ↦ rw here new
  | inr other ↦ rw other (each di)
]

-- The place of a job among the ready ones of its destination.
placed-IsSorted :
    (job placed : Job) (jobs : List Job)
    → placed.pri ≡ job.pri
    → placed.tts ≡ job.tts
    → IsSorted Higher jobs
    → IsSorted Higher (insert_while (λ other. higher_priority other job) placed jobs)
placed-IsSorted job placed jobs pri tts sorted =
    insert_while-IsSorted _ placed Higher jobs Higher-trans (λ x e. ground (arith, e, pri, tts))
      (λ x e. ground (arith, e, pri, tts)) sorted

by_time-IsSorted :
    (job : Job) (jobs : List Job)
    → IsSorted Sooner jobs
    → IsSorted Sooner (insert_while (λ other. leb other.tts job.tts) job jobs)
by_time-IsSorted job jobs sorted =
    insert_while-IsSorted _ job Sooner jobs Sooner-trans (λ x e. ground (arith, e))
      (λ x e. ground (arith, e)) sorted

pub made_ready-IsQueues : (q : Queues) (job : Job) → IsQueues q → IsQueues (made_ready q job)
unfolding made_ready
made_ready-IsQueues q job v = elim (Bool-cases (skips (q.ready_q job.dest) job)) [
  | inl skipped ↦
      simp (made_ready, skipped)
        (record {
          ready =
              write_at-each (IsSorted Higher) q.ready_q job.dest _ v.ready
                (placed-IsSorted job _ (q.ready_q job.dest) refl refl (v.ready job.dest));
          sleeping = v.sleeping;
          pending = v.pending;
        })
  | inr first ↦
      simp (made_ready, first)
        (record {
          ready =
              write_at-each (IsSorted Higher) q.ready_q job.dest _ v.ready
                (placed-IsSorted job _ (q.ready_q job.dest) refl refl (v.ready job.dest));
          sleeping = v.sleeping;
          pending = v.pending;
        })
]

pub remove-IsQueues : (q : Queues) (job : Job) → IsQueues q → IsQueues (remove q job)
unfolding remove
remove-IsQueues q job v = record {
  ready =
      write_at-each (IsSorted Higher) q.ready_q job.dest _ v.ready
        (remove_first-IsSorted _ Higher _ (v.ready job.dest));
  sleeping =
      write_at-each (IsSorted Sooner) q.sleep_q job.dest _ v.sleeping
        (remove_first-IsSorted _ Sooner _ (v.sleeping job.dest));
  pending = remove_first-IsSorted _ Sooner q.pendq v.pending;
}

pub set_dead-IsQueues : (q : Queues) (job : Job) → IsQueues q → IsQueues (set_dead q job)
unfolding set_dead
set_dead-IsQueues q job v =
    let w = remove-IsQueues q job v in
    record { ready = w.ready; sleeping = w.sleeping; pending = w.pending }

-- What an operation leaves, unless an assertion fails.
abbrev pub IsWell : Option Queues → Type 0
IsWell none = Unit
IsWell (some q) = IsQueues q

asserted-IsWell : (holds : Bool) (q : Queues) → IsQueues q → IsWell (asserted holds q)
asserted-IsWell true q v = v
asserted-IsWell false q v = tt

pub set_ready-IsWell : (q : Queues) (job : Job) → IsQueues q → IsWell (set_ready q job)
unfolding set_ready
set_ready-IsWell q job v = asserted-IsWell _ _ (made_ready-IsQueues q job v)

pub set_pending-IsWell : (q : Queues) (job : Job) → IsQueues q → IsWell (set_pending q job)
unfolding set_pending
set_pending-IsWell q job v = asserted-IsWell _ _ (record {
  ready = v.ready;
  sleeping = v.sleeping;
  pending = by_time-IsSorted job q.pendq v.pending;
})

pub set_sleep-IsWell :
    (q : Queues) (job : Job) (tts : ℕ) → IsQueues q → IsWell (set_sleep q job tts)
unfolding set_sleep
set_sleep-IsWell q job tts v = asserted-IsWell _ _ (record {
  ready = v.ready;
  sleeping =
      write_at-each (IsSorted Sooner) q.sleep_q job.dest _ v.sleeping
        (by_time-IsSorted (record job { tts = tts }) (q.sleep_q job.dest) (v.sleeping job.dest));
  pending = v.pending;
})

pub set_suspend-IsWell : (q : Queues) (job : Job) → IsQueues q → IsWell (set_suspend q job)
unfolding set_suspend
set_suspend-IsWell q job v =
    asserted-IsWell _ _ (record { ready = v.ready; sleeping = v.sleeping; pending = v.pending })

if-IsWell : (b : Bool) (x y : Option Queues) → IsWell x → IsWell y → IsWell (if b then x else y)
if-IsWell true x y wx wy = wx
if-IsWell false x y wx wy = wy

pub ctrl_job_done-IsWell : (q : Queues) (job : Job) → IsQueues q → IsWell (ctrl_job_done q job)
unfolding ctrl_job_done
ctrl_job_done-IsWell q job v =
    if-IsWell job.suspend_pending _ _
      (record { ready = v.ready; sleeping = v.sleeping; pending = v.pending })
      (if-IsWell (is_on_list q job) _ _
        (set_ready-IsWell (remove q job) job (remove-IsQueues q job v)) tt)

pub set_ready_to_run-IsWell :
    (q : Queues) (job : Job) (control started : Bool)
    → IsQueues q
    → IsWell (set_ready_to_run q job control started)
unfolding set_ready_to_run
set_ready_to_run-IsWell q job control started v =
    let waiting : Queues = record q {
      jcontrolq = record job { state = state_active } ∷ q.jcontrolq;
    } in
    let w : IsQueues waiting = record {
      ready = v.ready;
      sleeping = v.sleeping;
      pending = v.pending;
    } in
    let plain = set_ready-IsWell q job v in
    if-IsWell _ _ _ plain (
      if-IsWell control _ _
        (if-IsWell (is_on_list q job) _ _ tt (
          if-IsWell started _ _ w
            (set_ready-IsWell waiting (record job { state = state_active }) w)))
        plain)
