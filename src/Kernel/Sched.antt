-- ===== src/Kernel/Sched.antt =====
-- src/kernel/sched.rs: the round-robin scheduler of one core. A task is its `tid`; the state that an
-- `Arc<Task>` shares lives in a table from `tid` to state. A call that runs with interrupts masked is
-- one step. `switch_context` is recorded: the tasks left and entered, latest first.
pub mod Queue
pub mod Inv
pub mod Ops
pub mod Fair
mod Tests
use kruspix.Base.{
  ℕ, ◌+◌, ◌≡◌, Bool, true, false, not, ◌&&◌, Option, none, some, List, [], ◌∷◌, ◌++◌, if◌then◌else◌,
  ◌==◌, add64,
}

pub data TaskState : Type 0 where
  new ready running waiting terminated : TaskState

abbrev pub is_running : Option TaskState → Bool
is_running none = false
is_running (some new) = false
is_running (some ready) = false
is_running (some running) = true
is_running (some waiting) = false
is_running (some terminated) = false

abbrev pub States : Type 0
States = ℕ → Option TaskState

-- `*task.state.lock() = state`
abbrev pub set_state : ℕ → TaskState → States → States
set_state tid state states t = if t == tid then some state else states t

pub record Scheduler : Type 0 where
  pub next_tid : ℕ
  pub states : States
  pub new_queue : List ℕ
  pub ready_queue : List ℕ
  pub terminated_queue : List ℕ
  pub current_task : ℕ
  pub idle_task : ℕ
  pub switches : List (ℕ × ℕ)

-- `Task::new`: the next `tid`, in state `New`.
abbrev pub task_new : Scheduler → Scheduler
task_new s = record s { next_tid = add64 s.next_tid 1; states = set_state s.next_tid new s.states }

-- `Scheduler::new`, with the tasks created before.
pub scheduler_new : ℕ → States → Scheduler
scheduler_new next_tid states = record {
  next_tid = add64 next_tid 1;
  states = set_state next_tid new states;
  new_queue = [];
  ready_queue = [];
  terminated_queue = [];
  current_task = next_tid;
  idle_task = next_tid;
  switches = [];
}

-- `Scheduler::start`
pub start : Scheduler → Scheduler
start s = record s { states = set_state s.current_task running s.states }

-- `Scheduler::add_task`
abbrev pub scheduler_add_task : Scheduler → Scheduler
scheduler_add_task s = record (task_new s) { new_queue = s.new_queue ++ s.next_tid ∷ [] }

-- `add_task`: it makes a task, and then calls the method, which makes the one that is queued.
pub add_task : Scheduler → Scheduler
add_task s = scheduler_add_task (task_new s)

-- The loop of `_prepare_new_tasks`.
pub prepare : List ℕ → List ℕ → States → List ℕ × States
prepare [] ready_queue states = (ready_queue, states)
prepare (tid ∷ new_queue) ready_queue states =
    prepare new_queue (ready_queue ++ tid ∷ []) (set_state tid ready states)

pub prepare_new_tasks : Scheduler → Scheduler
prepare_new_tasks s =
    let (ready_queue, states) = prepare s.new_queue s.ready_queue s.states in
    record s { new_queue = []; ready_queue = ready_queue; states = states }

-- The part of `schedule` behind the choice of the next task; `rest` is the ready queue by then.
pub switch_to : Scheduler → ℕ → List ℕ → Scheduler
switch_to s next rest =
    let current = s.current_task in
    let may_continue = is_running (s.states current) in
    record s {
      ready_queue =
          if may_continue && not (current == s.idle_task) then rest ++ current ∷ [] else rest;
      current_task = next;
      states =
          set_state next running
            (if may_continue then set_state current ready s.states else s.states);
      switches = (current, next) ∷ s.switches;
    }

pub choose : Scheduler → List ℕ → Scheduler
choose s [] = if is_running (s.states s.current_task) then s else switch_to s s.idle_task []
choose s (next ∷ rest) = switch_to s next rest

pub schedule : Scheduler → Scheduler
unfolding choose prepare_new_tasks
schedule s = let s' = prepare_new_tasks s in choose s' s'.ready_queue

-- `Scheduler::exit_current`
pub exit_current : Scheduler → Scheduler
exit_current s = schedule (record s {
  states = set_state s.current_task terminated s.states;
  terminated_queue = s.terminated_queue ++ s.current_task ∷ [];
})

pub task_id : Scheduler → ℕ
task_id s = s.current_task
