-- ===== src/Kernel/Sched/Ops.antt =====
-- The operations of the scheduler keep its invariant.
use kruspix.Base.{ℕ, ◌+◌, ◌<◌, ◌^◌, ◌≡◌, refl, inl, none, [], ◌∷◌, arith, add64}
use kruspix.Kernel.Sched.{Scheduler, scheduler_new, start, add_task, prepare_new_tasks, schedule}
use kruspix.Kernel.Sched.Queue.{mem, distinct, mem-append, distinct-append_one}
use kruspix.Kernel.Sched.Inv.{
  Queues, IsValid, Stopped, prepare-Queues, choose-IsValid, prepare-Stopped, prepare-new_queue,
}

schedule-Stopped : (s : Scheduler) → Queues s → Stopped s → IsValid (schedule s)
unfolding schedule
schedule-Stopped s q stopped =
    choose-IsValid (prepare_new_tasks s) (prepare_new_tasks s).ready_queue (prepare-Queues s q)
      (prepare-Stopped s q stopped) (prepare-new_queue s) refl

-- `schedule` keeps the invariant: afterwards the current task is running and no other is, every
-- queue holds tasks of its state only, none of them twice, and no ready task is lost.
pub schedule-IsValid : (s : Scheduler) → IsValid s → IsValid (schedule s)
schedule-IsValid s v = schedule-Stopped s v.queues (inl v.current_running)

-- Adding a task keeps the invariant, if two ids are left below 2^64.
pub add_task-IsValid : (s : Scheduler) → IsValid s → s.next_tid + 2 < 2 ^ 64 → IsValid (add_task s)
unfolding add_task mem distinct
add_task-IsValid s v room =
    let q = v.queues in
    let r = v.current_running in
    let f = λ (t : ℕ). q.fresh t in
    record {
      current_running = ground (arith, q.fresh s.current_task, r);
      queues = record {
        new_state = λ t h.
            ground
              (arith, q.new_state t, q.fresh t, mem-append t s.new_queue ((s.next_tid + 1) ∷ []));
        ready_state = λ t h. ground (arith, q.ready_state t h, q.fresh t);
        terminated_state = λ t h. ground (arith, q.terminated_state t h, q.fresh t);
        ready_queued = λ t h d. ground (arith, q.ready_queued t);
        only_current = λ t h. ground (arith, q.only_current t);
        idle_state = ground (arith, q.idle_state, q.fresh s.idle_task);
        idle_unqueued = q.idle_unqueued;
        new_distinct =
            let w : add64 s.next_tid 1 ≡ s.next_tid + 1 = omega arith in
            rw w (
              distinct-append_one s.new_queue (s.next_tid + 1) q.new_distinct
                (ground (arith, q.new_state (s.next_tid + 1), q.fresh (s.next_tid + 1))));
        ready_distinct = q.ready_distinct;
        terminated_distinct = q.terminated_distinct;
        fresh = λ t h. ground (arith, q.fresh t);
      };
    }

-- A new scheduler satisfies the invariant once it is started, if no task was made before and its id and
-- the next are below 2^64.
pub start-IsValid :
    (next_tid : ℕ) → next_tid + 1 < 2 ^ 64 → IsValid (start (scheduler_new next_tid (λ _. none)))
unfolding start scheduler_new mem distinct
start-IsValid n room = record {
  current_running = ground arith;
  queues = record {
    new_state = λ t h. ground arith;
    ready_state = λ t h. ground arith;
    terminated_state = λ t h. ground arith;
    ready_queued = λ t h d. ground arith;
    only_current = λ t h. ground arith;
    idle_state = ground arith;
    idle_unqueued = refl;
    new_distinct = refl;
    ready_distinct = refl;
    terminated_distinct = refl;
    fresh = λ t h. ground arith;
  };
}
