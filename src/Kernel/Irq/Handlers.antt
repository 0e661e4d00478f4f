-- ===== src/Kernel/Irq/Handlers.antt =====
-- The table of handlers.
use kruspix.Base.{
  ℕ, ◌≡◌, Bool, true, false, ◌&&◌, Option, none, some, arith, if◌then◌else◌, ltb, ◌==◌,
}
use kruspix.Kernel.Irq.{Irq, max_irqs, register_handler, dispatch_irq}

abbrev pub is_free : Option ℕ → Bool
is_free none = true
is_free (some h) = false

-- After a registration, whether it is refused or not, the handler of a number is the new one just when
-- the number is the registered one, is below 256 and had no handler; every other number keeps what it had.
pub dispatch_irq-register_handler :
    (virq w handler : ℕ) (s : Irq)
    → dispatch_irq w (register_handler virq handler s).1 ≡ (
        if (w == virq) && (ltb virq max_irqs && is_free (s.handlers virq))
        then some handler
        else dispatch_irq w s)
unfolding register_handler dispatch_irq
dispatch_irq-register_handler virq w handler s = ground arith
