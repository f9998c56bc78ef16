-- ===== src/JobQueue/Model.antt =====
-- The queues of the scheduler (faxd/faxQueueApp.c++) and the order of jobs (faxd/Job.c++). A job and a
-- DestInfo are named by their addresses; a queue is the list of the jobs on it, from the first on. What
-- the operations do beside (traces, triggers, timers, the queue file, the notices to the sender) is left
-- out.
use hyla_fax.Base.{
  ℕ, Bool, true, false, not, ◌||◌, ltb, leb, ◌==◌, if◌then◌else◌, List, [], ◌∷◌, ◌++◌, map, Option,
  none, some,
}
use hyla_fax.Base.Checks.{write_at}
use hyla_fax.Base.Ordered.{any, insert_while, remove_first}

-- The states of FaxRequest.
pub data JobState : Type 0 where
  state_undefined : JobState
  state_suspended : JobState
  state_pending : JobState
  state_sleeping : JobState
  state_blocked : JobState
  state_ready : JobState
  state_active : JobState
  state_done : JobState
  state_failed : JobState

-- A job; `dest` is the DestInfo that destJobs has for its destination.
pub record Job : Type 0 where
  pub self : ℕ
  pub dest : ℕ
  pub pri : ℕ
  pub tts : ℕ
  pub state : JobState
  pub suspend_pending : Bool

pub record Queues : Type 0 where
  pub ready_q : ℕ → List Job
  pub sleep_q : ℕ → List Job
  pub runq : List ℕ
  pub destq : List ℕ
  pub pendq : List Job
  pub suspendq : List Job
  pub deadq : List Job
  pub jcontrolq : List Job

abbrev pub higher_priority : Job → (other : Job) → Bool
higher_priority job other =
    if ltb job.pri other.pri
    then true
    else if job.pri == other.pri
    then leb job.tts other.tts
    else false

-- `job.remove()`: the job is taken off the queue that it is on.
abbrev pub unlink : Job → List Job → List Job
unlink job = remove_first (λ other. other.self == job.self)

unfoldable pub remove : Queues → Job → Queues
remove q job = record q {
  ready_q = write_at q.ready_q job.dest (unlink job (q.ready_q job.dest));
  sleep_q = write_at q.sleep_q job.dest (unlink job (q.sleep_q job.dest));
  pendq = unlink job q.pendq;
  suspendq = unlink job q.suspendq;
  deadq = unlink job q.deadq;
  jcontrolq = unlink job q.jcontrolq;
}

-- Whether the loop of setReady passes a job.
abbrev pub skips : List Job → Job → Bool
skips [] job = false
skips (first ∷ rest) job = higher_priority first job

-- Whether the walk along runq passes a destination.
abbrev pub walks : (ℕ → List Job) → Job → (dip : ℕ) → Bool
walks ready_q job dip = elim (ready_q dip) [ [] ↦ true | ◌∷◌ nj rest ↦ higher_priority nj job ]

abbrev has : List Job → Job → Bool
has jobs job = any (λ other. other.self == job.self) jobs

-- isOnList, for a job that is not in a batch.
unfoldable pub is_on_list : Queues → Job → Bool
is_on_list q job =
    has (q.ready_q job.dest) job
    || has (q.sleep_q job.dest) job
    || has q.pendq job
    || has q.suspendq job
    || has q.deadq job
    || has q.jcontrolq job

-- QLink's insert asserts that the item is on no list, and remove that it is on one: `none` is an assertion
-- that fails, which ends the scheduler.
abbrev pub asserted : Bool → Queues → Option Queues
asserted holds q = if holds then some q else none

-- setReady. A job that is not the first of its destination is blocked, by blockJob.
unfoldable pub made_ready : Queues → Job → Queues
made_ready q job =
    let di = job.dest in
    let skipped = skips (q.ready_q di) job in
    let placed = record job { state = if skipped then state_blocked else state_ready } in
    let jobs = insert_while (λ other. higher_priority other job) placed (q.ready_q di) in
    let at_di = λ (other : ℕ). other == di in
    if skipped then record q { ready_q = write_at q.ready_q di jobs } else record q {
      ready_q = write_at q.ready_q di jobs;
      destq = remove_first at_di q.destq;
      runq = insert_while (walks (write_at q.ready_q di jobs) job) di (remove_first at_di q.runq);
    }

unfoldable pub set_ready : Queues → Job → Option Queues
set_ready q job = asserted (not (is_on_list q job)) (made_ready q job)

-- setPending.
unfoldable pub set_pending : Queues → Job → Option Queues
set_pending q job =
    asserted (not (is_on_list q job))
      (record q { pendq = insert_while (λ other. leb other.tts job.tts) job q.pendq })

-- setSleep; startTTSTimer gives the job the time.
unfoldable pub set_sleep : Queues → Job → (tts : ℕ) → Option Queues
set_sleep q job tts =
    let jobs = q.sleep_q job.dest in
    asserted (not (is_on_list q job)) (record q {
      sleep_q =
          write_at q.sleep_q job.dest
            (insert_while (λ other. leb other.tts tts) (record job { tts = tts }) jobs);
    })

abbrev is_over : JobState → Bool
is_over state_done = true
is_over state_failed = true
is_over state = false

-- setDead, which takes the job off its queue if it is on one.
unfoldable pub set_dead : Queues → Job → Queues
set_dead q job =
    let dead = record job {
      state = if is_over job.state then job.state else state_failed;
      suspend_pending = false;
    } in
    let off = remove q job in record off { deadq = dead ∷ off.deadq }

-- setSuspend.
unfoldable pub set_suspend : Queues → Job → Option Queues
set_suspend q job =
    asserted (not (is_on_list q job))
      (record q { suspendq = record job { state = state_suspended } ∷ q.suspendq })

-- setActive: the jobs of the batch.
unfoldable pub set_active : (jobs : List Job) → Job → List Job
set_active jobs job = jobs ++ record job { state = state_active } ∷ []

abbrev pub is_blocked : JobState → Bool
is_blocked state_blocked = true
is_blocked state = false

-- setReadyToRun: whether there is a job control command, and whether its child was started, which fails
-- without a pipe or a fork.
unfoldable pub set_ready_to_run : Queues → Job → (control started : Bool) → Option Queues
set_ready_to_run q job control started =
    let active = record job { state = state_active } in
    let waiting = record q { jcontrolq = active ∷ q.jcontrolq } in
    let plain = set_ready q job in
    let failed = set_ready waiting active in
    let controlled = if is_on_list q job then none else if started then some waiting else failed in
    if is_blocked job.state then plain else if control then controlled else plain

abbrev cleared : Job → List Job → List Job
cleared job =
    map
      (λ other. if other.self == job.self then record other { suspend_pending = false } else other)

-- ctrlJobDone, where suspendJob waits for it or not.
unfoldable pub ctrl_job_done : Queues → Job → Option Queues
ctrl_job_done q job =
    let ready = set_ready (remove q job) job in
    if job.suspend_pending
    then some (record q { jcontrolq = cleared job q.jcontrolq })
    else if is_on_list q job
    then ready
    else none

-- The scheduler takes a destination without ready jobs off runq.
unfoldable pub park : Queues → (di : ℕ) → Queues
park q di = record q {
  runq = remove_first (λ other. other == di) q.runq;
  destq = q.destq ++ di ∷ [];
}
