-- ===== src/Kernel/Sched/Tests.antt =====
-- A scheduler at work, and the theorems at its states.
use kruspix.Base.{◌≡◌, refl, none, List, [], ◌∷◌, arith}
use kruspix.Kernel.Sched.{Scheduler, scheduler_new, start, add_task, schedule, prepare, switch_to}
use kruspix.Kernel.Sched.Inv.{IsValid}
use kruspix.Kernel.Sched.Ops.{start-IsValid, add_task-IsValid, schedule-IsValid}
use kruspix.Kernel.Sched.Fair.{Op, step, run, switches_in, served_in_turn}

-- The idle task, and two tasks that are queued: ids 1 and 3 are made and dropped.
abbrev booted : Scheduler
booted = start (scheduler_new 0 (λ _. none))

abbrev two_tasks : Scheduler
two_tasks = add_task (add_task booted)

ids : two_tasks.new_queue ≡ 2 ∷ 4 ∷ []
unfolding start scheduler_new add_task
ids = refl

abbrev script : List Op
script = Op.yield ∷ Op.add ∷ []

turn : (run script two_tasks).current_task ≡ 2
unfolding start scheduler_new add_task schedule prepare switch_to run step
turn = refl

one-IsValid : IsValid (add_task booted)
unfolding start scheduler_new
one-IsValid = add_task-IsValid booted (start-IsValid 0 (omega arith)) (omega arith)

add_task-IsValid_example : IsValid two_tasks
unfolding start scheduler_new add_task
add_task-IsValid_example = add_task-IsValid (add_task booted) one-IsValid (omega arith)

schedule-IsValid_example : IsValid (schedule two_tasks)
schedule-IsValid_example = schedule-IsValid two_tasks add_task-IsValid_example

served_in_turn_example : (step Op.exit (run script two_tasks)).current_task ≡ 4
unfolding start scheduler_new add_task switches_in
served_in_turn_example = served_in_turn script Op.exit two_tasks 4 1 refl refl refl
