-- ===== src/Kernel/Irq/Tests.antt =====
-- A board with a root controller of 64 lines, to which a second one of 96 lines is attached.
use kruspix.Base.{◌≡◌, refl, ◌+◌, true, none, some, [], ◌∷◌, arith, if◌then◌else◌, ltb, ◌==◌, ◌&&◌}
use kruspix.Kernel.Irq.{
  ok, IrqDomain, Irq, NodeView, max_irqs, register_controller, register_handler, dispatch_irq,
  enable_irq,
}
use kruspix.Kernel.Irq.Domains.{IsValid, register_controller-IsValid, enable_irq-registered}
use kruspix.Kernel.Irq.Handlers.{is_free, dispatch_irq-register_handler}

abbrev root : IrqDomain
root = record { node_addr = 4096; controller = 1; virq_base = 0; irq_count = 64 }

abbrev second : IrqDomain
second = record { node_addr = 8192; controller = 2; virq_base = 64; irq_count = 96 }

abbrev board : Irq
board = record {
  next_virq_base = 160;
  root_controller = some root;
  controllers = second ∷ [];
  handlers = λ v. none;
}

abbrev third : NodeView
third = record {
  addr = 12288;
  interrupt_parent = none;
  phandle = none;
  parent_is_controller = some true;
}

board-IsValid : IsValid board
board-IsValid = record {
  ranges = (omega arith, (omega arith, omega arith));
  few = omega arith;
  root_first = λ e. absurd (cc e);
}

register_controller-IsValid_example : IsValid (register_controller (λ v. none) third 3 32 board).1
register_controller-IsValid_example =
    register_controller-IsValid (λ v. none) third 3 32 board (omega arith) board-IsValid

enable_irq-registered_example : enable_irq (64 + 7) board ≡ ok (2, 7)
enable_irq-registered_example =
    enable_irq-registered board 1 second 7 board-IsValid refl (omega arith)

dispatch_irq-register_handler_example : dispatch_irq 70 (register_handler 70 9 board).1 ≡ (
    if (70 == 70) && (ltb 70 max_irqs && is_free (board.handlers 70))
    then some 9
    else dispatch_irq 70 board)
dispatch_irq-register_handler_example = dispatch_irq-register_handler 70 70 9 board
