-- ===== src/JobQueue/Steps.antt =====
-- What the operations on the queues of jobs (faxd/faxQueueApp.c++) keep together, in any order of their
-- calls, and the assertion that a failed job control command meets.
use hyla_fax.Base.{
  ℕ, Bool, true, false, ◌==◌, [], ◌∷◌, Option, none, some, ◌≡◌, refl, arith, inl, inr, Bool-cases,
}
use hyla_fax.JobQueue.Model.{
  Job, Queues, state_active, is_blocked, remove, is_on_list, set_ready, set_pending, set_sleep,
  set_dead, set_suspend, set_ready_to_run, ctrl_job_done, park,
}
use hyla_fax.JobQueue.Order.{
  IsQueues, IsWell, set_ready-IsWell, set_ready_to_run-IsWell, ctrl_job_done-IsWell,
  set_pending-IsWell, set_sleep-IsWell, set_suspend-IsWell, set_dead-IsQueues, remove-IsQueues,
}

-- A call of the scheduler on the queues; a started or prepared job is taken off the queue that it is on.
pub data Step (q after : Queues) : Type 0 where
  readies : (job : Job) → set_ready q job ≡ some after → Step q after
  runs :
      (job : Job) (control started : Bool)
      → set_ready_to_run q job control started ≡ some after
      → Step q after
  controlled : (job : Job) → ctrl_job_done q job ≡ some after → Step q after
  pends : (job : Job) → set_pending q job ≡ some after → Step q after
  sleeps : (job : Job) (tts : ℕ) → set_sleep q job tts ≡ some after → Step q after
  suspends : (job : Job) → set_suspend q job ≡ some after → Step q after
  dies : (job : Job) → after ≡ set_dead q job → Step q after
  leaves : (job : Job) → after ≡ remove q job → Step q after
  parks : (di : ℕ) → after ≡ park q di → Step q after

pub data Reach (q : Queues) : Queues → Type 0 where
  here : Reach q q
  next : {mid after : Queues} → Reach q mid → Step mid after → Reach q after

abbrev pub no_jobs : Queues
no_jobs = record {
  ready_q = λ di. [];
  sleep_q = λ di. [];
  runq = [];
  destq = [];
  pendq = [];
  suspendq = [];
  deadq = [];
  jcontrolq = [];
}

returned : {r : Option Queues} {after : Queues} → r ≡ some after → IsWell r → IsQueues after
returned e w = rw e at w

pub Step-IsQueues : {q after : Queues} → Step q after → IsQueues q → IsQueues after
unfolding park
Step-IsQueues {q} (readies job e) v = returned e (set_ready-IsWell q job v)
Step-IsQueues {q} (runs job control started e) v =
    returned e (set_ready_to_run-IsWell q job control started v)
Step-IsQueues {q} (controlled job e) v = returned e (ctrl_job_done-IsWell q job v)
Step-IsQueues {q} (pends job e) v = returned e (set_pending-IsWell q job v)
Step-IsQueues {q} (sleeps job tts e) v = returned e (set_sleep-IsWell q job tts v)
Step-IsQueues {q} (suspends job e) v = returned e (set_suspend-IsWell q job v)
Step-IsQueues {q} (dies job e) v = rw e (set_dead-IsQueues q job v)
Step-IsQueues {q} (leaves job e) v = rw e (remove-IsQueues q job v)
Step-IsQueues {q} (parks di e) v =
    rw e (record { ready = v.ready; sleeping = v.sleeping; pending = v.pending })

-- After any calls, the ready jobs of every destination are in the order of their priority and time to send,
-- and the sleeping jobs of every destination and the pending jobs in the order of their time to send.
pub Reach-IsQueues : {q : Queues} → Reach no_jobs q → IsQueues q
Reach-IsQueues here = record { ready = λ di. tt; sleeping = λ di. tt; pending = tt }
Reach-IsQueues (next r s) = Step-IsQueues s (Reach-IsQueues r)

controlled_listed :
    (q : Queues) (job : Job)
    → is_on_list
        (record q { jcontrolq = record job { state = state_active } ∷ q.jcontrolq })
        (record job { state = state_active })
      ≡ true
unfolding is_on_list
controlled_listed q job =
    let itself : (job.self == job.self) ≡ true = ground arith in simp itself (ground arith)

-- With a job control command whose child cannot be started, setReadyToRun of a job that is not blocked ends
-- in a failed assertion: the job is on the queue of the jobs under control when setReady inserts it.
pub set_ready_to_run-asserts :
    (q : Queues) (job : Job)
    → is_blocked job.state ≡ false
    → set_ready_to_run q job true false ≡ none
unfolding set_ready_to_run set_ready
set_ready_to_run-asserts q job unblocked = elim (Bool-cases (is_on_list q job)) [
  | inl on ↦ simp (unblocked, on) refl
  | inr off ↦ simp (unblocked, off, controlled_listed q job) refl
]
