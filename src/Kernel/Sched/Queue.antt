-- ===== src/Kernel/Sched/Queue.antt =====
-- Queues of task ids: membership, and what `prepare` makes of the two queues.
use kruspix.Base.{
  ℕ, ◌≡◌, refl, sym, ◌∙◌, Bool, true, false, not, ◌&&◌, ◌||◌, some, List, [], ◌∷◌, ◌++◌, append-nil,
  append_assoc, arith, if◌then◌else◌, ◌==◌,
}
use kruspix.Kernel.Sched.{TaskState, States, set_state, prepare}

unfoldable pub mem : ℕ → List ℕ → Bool
mem t [] = false
mem t (x ∷ xs) = (t == x) || mem t xs

-- No task stands twice in the queue.
unfoldable pub distinct : List ℕ → Bool
distinct [] = true
distinct (x ∷ xs) = not (mem x xs) && distinct xs

pub mem-append : (t : ℕ) (xs ys : List ℕ) → mem t (xs ++ ys) ≡ (mem t xs || mem t ys)
unfolding mem
mem-append t [] ys = refl
mem-append t (x ∷ xs) ys = ground (arith, mem-append t xs ys)

pub distinct-append_one :
    (xs : List ℕ) (t : ℕ) → distinct xs ≡ true → mem t xs ≡ false → distinct (xs ++ t ∷ []) ≡ true
unfolding distinct mem
distinct-append_one [] t d m = refl
distinct-append_one (x ∷ xs) t d m =
    ground (arith, distinct-append_one xs t, mem-append x xs (t ∷ []))

-- The tasks of the new queue go behind those of the ready queue, and become ready.
pub prepare_lem :
    (news readies : List ℕ) (states : States)
    → ((prepare news readies states).0 ≡ readies ++ news)
      × ((t : ℕ)
          → (prepare news readies states).1 t
            ≡ (if mem t news then some TaskState.ready else states t))
unfolding prepare mem
prepare_lem [] readies states = (sym (append-nil readies), λ t. refl)
prepare_lem (n ∷ ns) readies states =
    let ih = prepare_lem ns (readies ++ n ∷ []) (set_state n TaskState.ready states) in
    (ih.0 ∙ append_assoc readies (n ∷ []) ns, λ t. ground (arith, ih.1 t))

pub distinct-append :
    (xs ys : List ℕ)
    → distinct xs ≡ true
    → distinct ys ≡ true
    → ((t : ℕ) → mem t xs ≡ true → mem t ys ≡ false)
    → distinct (xs ++ ys) ≡ true
unfolding distinct mem
distinct-append [] ys d e apart = e
distinct-append (x ∷ xs) ys d e apart =
    let rest = distinct-append xs ys (ground arith) e (λ t m. apart t (ground arith)) in
    let here = apart x (ground arith) in ground (arith, mem-append x xs ys)
