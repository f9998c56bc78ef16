-- ===== src/JobQueue/Tests.antt =====
-- Runs of the model of the job queues on concrete jobs.
use hyla_fax.Base.{ℕ, true, false, [], ◌∷◌, none, ◌≡◌, refl}
use hyla_fax.Base.Ordered.{insert_while, remove_first}
use hyla_fax.JobQueue.Model.{
  Job, Queues, state_pending, state_ready, state_blocked, made_ready, set_ready, set_ready_to_run,
  is_on_list, remove,
}
use hyla_fax.JobQueue.Steps.{
  Reach, here, next, readies, no_jobs, Reach-IsQueues, set_ready_to_run-asserts,
}
use hyla_fax.JobQueue.Order.{IsQueues}
use hyla_fax.JobQueue.Heads.{IsRunq, made_ready-IsRunq}
use hyla_fax.JobQueue.FirstJobs.{heads}

-- A job of a destination with a priority.
abbrev a_job : ℕ → ℕ → ℕ → Job
a_job self dest pri = record {
  self = self;
  dest = dest;
  pri = pri;
  tts = 0;
  state = state_pending;
  suspend_pending = false;
}

-- Two jobs of destination 7, and then a more urgent one of destination 8.
abbrev two : Queues
two = made_ready (made_ready no_jobs (a_job 1 7 100)) (a_job 2 7 200)

abbrev three : Queues
three = made_ready two (a_job 3 8 50)

three_run : three.runq ≡ 8 ∷ 7 ∷ []
unfolding made_ready insert_while remove_first
three_run = refl

two-IsRunq : IsRunq two
unfolding made_ready insert_while remove_first
two-IsRunq = record { once = (tt, tt); in_order = (tt, tt) }

made_ready-IsRunq_example : IsRunq three
made_ready-IsRunq_example = made_ready-IsRunq two (a_job 3 8 50) two-IsRunq

three-Reach : Reach no_jobs three
unfolding made_ready set_ready is_on_list insert_while remove_first
three-Reach =
    next (next (next here (readies (a_job 1 7 100) refl)) (readies (a_job 2 7 200) refl))
      (readies (a_job 3 8 50) refl)

Reach-IsQueues_example : IsQueues three
Reach-IsQueues_example = Reach-IsQueues three-Reach

set_ready_to_run-asserts_example : set_ready_to_run no_jobs (a_job 1 7 100) true false ≡ none
set_ready_to_run-asserts_example = set_ready_to_run-asserts no_jobs (a_job 1 7 100) refl

-- When the first job of a destination leaves, the destination keeps its place: its job of priority 200 is
-- then tried before the one of priority 150 of destination 9.
abbrev left : Queues
left = remove (made_ready two (a_job 4 9 150)) (a_job 1 7 100)

left_run :
    heads left.ready_q left.runq
    ≡ record (a_job 2 7 200) { state = state_blocked }
      ∷ record (a_job 4 9 150) { state = state_ready }
      ∷ []
unfolding remove made_ready insert_while remove_first
left_run = refl
