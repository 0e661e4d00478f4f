-- ===== src/Kernel/Sched/Fair.antt =====
-- Fairness: a task that waits gets the core after as many switches as tasks stand before it.
use kruspix.Base.{
  ℕ, zero, suc, ◌≡◌, refl, sym, ap, ◌∙◌, Bool, true, false, not, ◌&&◌, some, List, [], ◌∷◌, ◌++◌,
  append-nil, append_assoc, arith, if◌then◌else◌, ◌==◌, get_elem?, get_elem?-append_left,
}
use kruspix.Kernel.Sched.{Scheduler, is_running, add_task, switch_to, schedule, exit_current}
use kruspix.Kernel.Sched.Queue.{prepare_lem}

-- What the tasks and the timer can do.
pub data Op : Type 0 where
  add yield exit : Op

unfoldable pub step : Op → Scheduler → Scheduler
step add s = add_task s
step yield s = schedule s
step exit s = exit_current s

unfoldable pub run : List Op → Scheduler → Scheduler
run [] s = s
run (op ∷ ops) s = run ops (step op s)

abbrev pub is_switch : Op → Bool
is_switch add = false
is_switch yield = true
is_switch exit = true

-- How often the core is given away.
unfoldable pub switches_in : List Op → ℕ
switches_in [] = 0
switches_in (op ∷ ops) = if is_switch op then suc (switches_in ops) else switches_in ops

-- The tasks that wait for the core, first to last.
abbrev pub waiting_line : Scheduler → List ℕ
waiting_line s = s.ready_queue ++ s.new_queue

-- The first task in line gets the core, and those behind it move up.
Served : Scheduler → ℕ → List ℕ → Type 0
Served s t rest = (s.current_task ≡ t) × (back : List ℕ) × (waiting_line s ≡ rest ++ back)

switch-Served :
    (s : Scheduler) (t : ℕ) (rest : List ℕ) → s.new_queue ≡ [] → Served (switch_to s t rest) t rest
unfolding switch_to Served
switch-Served s t rest e = (
  refl,
  (if c then s.current_task ∷ [] else []),
  ap (◌++◌ (if c then rest ++ s.current_task ∷ [] else rest)) e ∙ append-nil _ ∙ split c,
)
  where
    c : Bool
    c = is_running (s.states s.current_task) && not (s.current_task == s.idle_task)

    split :
        (b : Bool)
        → (if b then rest ++ s.current_task ∷ [] else rest)
          ≡ rest ++ (if b then s.current_task ∷ [] else [])
    split true = refl
    split false = sym (append-nil rest)

schedule-Served :
    (s : Scheduler) (t : ℕ) (rest : List ℕ) → waiting_line s ≡ t ∷ rest → Served (schedule s) t rest
unfolding schedule
schedule-Served s t rest e =
    let queue = (prepare_lem s.new_queue s.ready_queue s.states).0 in
    rw (queue ∙ e) (switch-Served _ t rest refl)

step-Served :
    (op : Op) (s : Scheduler) (t : ℕ) (rest : List ℕ)
    → is_switch op ≡ true
    → waiting_line s ≡ t ∷ rest
    → Served (step op s) t rest
unfolding step exit_current
step-Served add s t rest h e = cc
step-Served yield s t rest h e = schedule-Served s t rest e
step-Served exit s t rest h e = schedule-Served _ t rest e

add-line : (s : Scheduler) → (back : List ℕ) × (waiting_line (add_task s) ≡ waiting_line s ++ back)
unfolding add_task
add-line s = (_, sym (append_assoc s.ready_queue s.new_queue _))

-- The line after one operation, if `t` stands at place `k` and there is no switch, or at `suc k` and
-- there is one.
stays :
    (s : Scheduler) (t k : ℕ)
    → get_elem? (waiting_line s) k ≡ some t
    → get_elem? (waiting_line (step add s)) k ≡ some t
unfolding step
stays s t k h =
    let (back, e) = add-line s in
    ap (λ l. get_elem? l k) e ∙ get_elem?-append_left (waiting_line s) back k t h

moves_up :
    (op : Op) (s : Scheduler) (t k : ℕ) (line : List ℕ)
    → is_switch op ≡ true
    → waiting_line s ≡ line
    → get_elem? line (suc k) ≡ some t
    → get_elem? (waiting_line (step op s)) k ≡ some t
unfolding Served
moves_up op s t k [] sw e h = cc
moves_up op s t k (x ∷ rest) sw e h =
    let (_, back, e') = step-Served op s x rest sw e in
    ap (λ l. get_elem? l k) e' ∙ get_elem?-append_left rest back k t h

same : {x t : ℕ} → get_elem? (x ∷ []) 0 ≡ some t → x ≡ t
same h = cc

first_served :
    (op : Op) (s : Scheduler) (t : ℕ) (line : List ℕ)
    → is_switch op ≡ true
    → waiting_line s ≡ line
    → get_elem? line 0 ≡ some t
    → (step op s).current_task ≡ t
unfolding Served
first_served op s t [] sw e h = cc
first_served op s t (x ∷ rest) sw e h =
    let (now, _, _) = step-Served op s x rest sw e in now ∙ same h

-- A task with `k` tasks before it in line, ready ones before new ones, runs after the `k + 1`st switch
-- from now, whatever tasks are added, yield or end in between.
pub served_in_turn :
    (ops : List Op) (last : Op) (s : Scheduler) (t k : ℕ)
    → get_elem? (waiting_line s) k ≡ some t
    → switches_in ops ≡ k
    → is_switch last ≡ true
    → (step last (run ops s)).current_task ≡ t
unfolding run switches_in
served_in_turn [] last s t zero h n sw = first_served last s t (waiting_line s) sw refl h
served_in_turn [] last s t (suc k) h n sw = absurd (omega arith)
served_in_turn (add ∷ ops) last s t k h n sw =
    served_in_turn ops last (step add s) t k (stays s t k h) n sw
served_in_turn (yield ∷ ops) last s t zero h n sw = absurd (omega arith)
served_in_turn (yield ∷ ops) last s t (suc k) h n sw =
    served_in_turn ops last (step yield s) t k (moves_up yield s t k (waiting_line s) refl refl h)
      (omega arith) sw
served_in_turn (exit ∷ ops) last s t zero h n sw = absurd (omega arith)
served_in_turn (exit ∷ ops) last s t (suc k) h n sw =
    served_in_turn ops last (step exit s) t k (moves_up exit s t k (waiting_line s) refl refl h)
      (omega arith) sw
