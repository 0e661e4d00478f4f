-- ===== src/Kernel/Sched/Inv.antt =====
-- The invariant of the scheduler, and that the parts of `schedule` keep it.
use kruspix.Base.{
  ℕ, ◌≤◌, ◌≡◌, ◌≢◌, ◌⊎◌, refl, sym, ap, ◌∙◌, inl, inr, true, false, none, some, List, [], ◌∷◌,
  arith,
}
use kruspix.Kernel.Sched.{TaskState, Scheduler, prepare_new_tasks, switch_to, choose}
use kruspix.Kernel.Sched.Queue.{
  mem, distinct, mem-append, distinct-append, distinct-append_one, prepare_lem,
}

-- What holds of the queues and states at all times.
pub record Queues (s : Scheduler) : Type 0 where
  -- the tasks of a queue are in its state
  pub new_state : (t : ℕ) → mem t s.new_queue ≡ true → s.states t ≡ some TaskState.new
  pub ready_state : (t : ℕ) → mem t s.ready_queue ≡ true → s.states t ≡ some TaskState.ready
  pub terminated_state :
      (t : ℕ) → mem t s.terminated_queue ≡ true → s.states t ≡ some TaskState.terminated
  -- no ready task but the idle one is lost
  pub ready_queued :
      (t : ℕ) → s.states t ≡ some TaskState.ready → t ≢ s.idle_task → mem t s.ready_queue ≡ true
  -- at most the current task is running
  pub only_current : (t : ℕ) → s.states t ≡ some TaskState.running → t ≡ s.current_task
  -- the idle task is ready or running, and never queued
  pub idle_state :
      (s.states s.idle_task ≡ some TaskState.running)
      ⊎ (s.states s.idle_task ≡ some TaskState.ready)
  pub idle_unqueued : mem s.idle_task s.ready_queue ≡ false
  -- no task is queued twice
  pub new_distinct : distinct s.new_queue ≡ true
  pub ready_distinct : distinct s.ready_queue ≡ true
  pub terminated_distinct : distinct s.terminated_queue ≡ true
  -- ids are handed out in order
  pub fresh : (t : ℕ) → s.next_tid ≤ t → s.states t ≡ none

-- Between two operations the current task is running.
pub record IsValid (s : Scheduler) : Type 0 where
  pub queues : Queues s
  pub current_running : s.states s.current_task ≡ some TaskState.running

-- When `schedule` is called the current task is running or has ended.
abbrev pub Stopped : Scheduler → Type 0
Stopped s =
    (s.states s.current_task ≡ some TaskState.running)
    ⊎ (s.states s.current_task ≡ some TaskState.terminated)

pub prepare-Queues : (s : Scheduler) → Queues s → Queues (prepare_new_tasks s)
unfolding prepare_new_tasks mem distinct
prepare-Queues s q =
    let (queue, states) = prepare_lem s.new_queue s.ready_queue s.states in
    record {
      new_state = λ t h. cc;
      ready_state = λ t h. ground (
        arith,
        states t,
        queue,
        q.ready_state t,
        mem-append t s.ready_queue s.new_queue,
        ap (mem t) queue,
      );
      terminated_state = λ t h. ground (arith, states t, q.terminated_state t, q.new_state t);
      ready_queued = λ t h ne. ground (
        arith,
        states t,
        q.ready_queued t,
        mem-append t s.ready_queue s.new_queue,
        ap (mem t) queue,
      );
      only_current = λ t h. ground (arith, states t, q.only_current t);
      idle_state = ground (arith, states s.idle_task, q.idle_state, q.new_state s.idle_task);
      idle_unqueued = ground (
        arith,
        mem-append s.idle_task s.ready_queue s.new_queue,
        ap (mem s.idle_task) queue,
        q.idle_state,
        q.idle_unqueued,
        q.new_state s.idle_task,
      );
      new_distinct = refl;
      ready_distinct =
          ap distinct queue
          ∙ distinct-append s.ready_queue s.new_queue q.ready_distinct q.new_distinct
              (λ t h. ground (arith, q.ready_state t, q.new_state t));
      terminated_distinct = q.terminated_distinct;
      fresh = λ t h. ground (arith, states t, q.fresh t, q.new_state t);
    }

-- Switching to a task from the front of the ready queue.
switch-IsValid :
    (s : Scheduler) (next : ℕ) (rest : List ℕ)
    → Queues s
    → Stopped s
    → s.new_queue ≡ []
    → s.ready_queue ≡ next ∷ rest
    → IsValid (switch_to s next rest)
unfolding switch_to mem distinct
switch-IsValid s next rest q stopped no_new e =
    let in_queue = λ (t : ℕ). ap (mem t) e in
    let d = sym (ap distinct e) ∙ q.ready_distinct in
    let next_ready = q.ready_state next (in_queue next ∙ ground arith) in
    record {
      current_running = ground arith;
      queues = record {
        new_state = λ t h. absurd (none_new t h);
        ready_state = λ t h. ground (
          arith,
          in_queue t,
          q.ready_state t,
          stopped,
          d,
          next_ready,
          mem-append t rest (s.current_task ∷ []),
          next_out t,
        );
        terminated_state =
            λ t h. ground (arith, q.terminated_state t h, q.only_current t, stopped, next_ready);
        ready_queued = λ t h ne. ground (
          arith,
          in_queue t,
          q.ready_queued t,
          q.only_current t,
          stopped,
          mem-append t rest (s.current_task ∷ []),
        );
        only_current = λ t h. ground (arith, q.only_current t, stopped);
        idle_state = ground (arith, q.idle_state, q.only_current s.idle_task, stopped);
        idle_unqueued = ground (
          arith,
          in_queue s.idle_task,
          q.idle_unqueued,
          stopped,
          mem-append s.idle_task rest (s.current_task ∷ []),
        );
        new_distinct = q.new_distinct;
        ready_distinct = ground (
          arith,
          d,
          stopped,
          in_queue s.current_task,
          q.ready_state s.current_task,
          distinct-append_one rest s.current_task,
        );
        terminated_distinct = q.terminated_distinct;
        fresh = λ t h. ground (arith, q.fresh t h, next_ready, stopped);
      };
    }
  where
    next_out : (t : ℕ) → mem t rest ≡ true → t ≢ next
    next_out t h =
        let d = sym (ap distinct e) ∙ q.ready_distinct in
        λ same. ground (arith, ap (λ x. mem x rest) same)

    none_new : (t : ℕ) → mem t s.new_queue ≡ true → ⊥
    none_new t h = let r = sym (ap (mem t) no_new) ∙ h in cc

-- With nothing ready, a task that has ended makes room for the idle task.
idle-IsValid :
    (s : Scheduler)
    → Queues s
    → s.states s.current_task ≡ some TaskState.terminated
    → s.ready_queue ≡ []
    → IsValid (switch_to s s.idle_task [])
unfolding switch_to mem distinct
idle-IsValid s q ended e =
    let empty = λ (t : ℕ). ap (mem t) e in
    record {
      current_running = ground arith;
      queues = record {
        new_state = λ t h. ground (arith, q.new_state t h, q.idle_state);
        ready_state = λ t h. ground arith;
        terminated_state = λ t h. ground (arith, q.terminated_state t h, q.idle_state);
        ready_queued = λ t h ne. ground (arith, q.ready_queued t, empty t);
        only_current = λ t h. ground (arith, q.only_current t);
        idle_state = ground arith;
        idle_unqueued = ground arith;
        new_distinct = q.new_distinct;
        ready_distinct = ground arith;
        terminated_distinct = q.terminated_distinct;
        fresh = λ t h. ground (arith, q.fresh t h, q.idle_state);
      };
    }

pub choose-IsValid :
    (s : Scheduler) (queue : List ℕ)
    → Queues s
    → Stopped s
    → s.new_queue ≡ []
    → s.ready_queue ≡ queue
    → IsValid (choose s queue)
unfolding choose
choose-IsValid s [] q (inl r) no_new e = rw r (record { queues = q; current_running = r })
choose-IsValid s [] q (inr r) no_new e = rw r (idle-IsValid s q r e)
choose-IsValid s (next ∷ rest) q stopped no_new e = switch-IsValid s next rest q stopped no_new e

pub prepare-Stopped : (s : Scheduler) → Queues s → Stopped s → Stopped (prepare_new_tasks s)
unfolding prepare_new_tasks
prepare-Stopped s q stopped = ground (
  arith,
  (prepare_lem s.new_queue s.ready_queue s.states).1 s.current_task,
  stopped,
  q.new_state s.current_task,
)

pub prepare-new_queue : (s : Scheduler) → (prepare_new_tasks s).new_queue ≡ []
unfolding prepare_new_tasks
prepare-new_queue s = refl
