-- ===== src/Kernel/Irq.antt =====
-- src/kernel/irq.rs: interrupt domains, the handler table and the dispatch. A controller is the number
-- by which the driver is known; what it does is a parameter (`Driver`). Atomic counters and the tables
-- behind the locks are fields of one state, and a call is one step.
pub mod Domains
pub mod Handlers
mod Tests
use kruspix.Base.{
  ℕ, zero, suc, ◌+◌, ◌-◌, ◌%◌, ◌^◌, ◌≡◌, Bool, true, false, not, ◌&&◌, ◌||◌, Option, none, some,
  List, [], ◌∷◌, ◌++◌, if◌then◌else◌, ltb, leb, ◌==◌, add64, sub64,
}

pub data IrqError : Type 0 where
  invalid_config invalid_controller_parent translation_failed invalid_virq busy : IrqError

pub data IrqResult (A : Type 0) : Type 0 where
  ok : A → IrqResult A
  err : IrqError → IrqResult A

pub record IrqDomain : Type 0 where
  pub node_addr : ℕ
  pub controller : ℕ
  pub virq_base : ℕ
  pub irq_count : ℕ

abbrev pub max_irqs : ℕ
max_irqs = 256

-- `u32` addition and subtraction of a release build
abbrev pub add32 : ℕ → ℕ → ℕ
add32 a b = (a + b) % 2 ^ 32

abbrev pub sub32 : ℕ → ℕ → ℕ
sub32 a b = (a + 2 ^ 32 - b) % 2 ^ 32

-- `as u32`
unfoldable pub as_u32 : ℕ → ℕ
as_u32 a = a % 2 ^ 32

-- The state of the module; a handler is a number too.
pub record Irq : Type 0 where
  pub next_virq_base : ℕ
  pub root_controller : Option IrqDomain
  pub controllers : List IrqDomain
  pub handlers : ℕ → Option ℕ

-- What `register_controller` reads of a device tree node: the phandle that its interrupt parent
-- property gives, its own phandle, whether it has a parent node, and whether that is a controller.
pub record NodeView : Type 0 where
  pub addr : ℕ
  pub interrupt_parent : Option ℕ
  pub phandle : Option ℕ
  pub parent_is_controller : Option Bool

unfoldable pub is_root : NodeView → Bool
is_root node = elim node.interrupt_parent [
  | some phandle ↦ elim node.phandle [ some own ↦ own == phandle | none ↦ false ]
  | none ↦ elim node.parent_is_controller [ some c ↦ not c | none ↦ true ]
]

abbrev pub is_some : Option IrqDomain → Bool
is_some none = false
is_some (some d) = true

-- `is_root == ROOT_CONTROLLER.get().is_some()`
abbrev pub bool_eq : Bool → Bool → Bool
bool_eq true b = b
bool_eq false b = not b

-- The rest of `register_controller` after the range is taken: `refused` is what the controller's
-- `set_virq_base` answers.
unfoldable pub install : Option IrqError → Bool → IrqDomain → Irq → IrqResult (Unit {0}) × Irq
install (some e) root domain s = (err e, s)
install none true domain s =
    if is_some s.root_controller
    then (
      err IrqError.invalid_controller_parent,
      record s { next_virq_base = sub64 s.next_virq_base domain.irq_count },
    )
    else (ok tt, record s { root_controller = some domain })
install none false domain s = (ok tt, record s { controllers = s.controllers ++ domain ∷ [] })

unfoldable pub register_controller :
    (set_virq_base : ℕ → Option IrqError) → NodeView → ℕ → ℕ → Irq → IrqResult (Unit {0}) × Irq
register_controller set_virq_base node controller irq_count s =
    if bool_eq (is_root node) (is_some s.root_controller)
    then (err IrqError.invalid_controller_parent, s)
    else if leb (sub64 max_irqs irq_count) s.next_virq_base
    then (err IrqError.invalid_config, s)
    else (let virq_base = as_u32 s.next_virq_base in
        install (set_virq_base virq_base) (is_root node)
          (record {
            node_addr = node.addr;
            controller = controller;
            virq_base = virq_base;
            irq_count = irq_count;
          })
          (record s { next_virq_base = add64 s.next_virq_base irq_count }))

unfoldable pub register_handler : ℕ → ℕ → Irq → IrqResult (Unit {0}) × Irq
register_handler virq handler s =
    if leb max_irqs virq then (err IrqError.invalid_virq, s) else elim (s.handlers virq) [
      | some h ↦ (err IrqError.busy, s)
      | none ↦
          (ok tt, record s { handlers = λ v. if v == virq then some handler else s.handlers v })
    ]

-- The handler that `dispatch_irq` calls, if any.
unfoldable pub dispatch_irq : ℕ → Irq → Option ℕ
dispatch_irq virq s = if leb max_irqs virq then none else s.handlers virq

-- `ROOT_CONTROLLER.get().into_iter().chain(domains.iter())`
abbrev pub all_domains : Irq → List IrqDomain
all_domains s = elim s.root_controller [ none ↦ s.controllers | some d ↦ d ∷ s.controllers ]

abbrev pub serves : ℕ → IrqDomain → Bool
serves virq d = leb d.virq_base virq && ltb virq (add32 d.virq_base d.irq_count)

unfoldable pub find : (IrqDomain → Bool) → List IrqDomain → Option IrqDomain
find test [] = none
find test (d ∷ ds) = let rest = find test ds in if test d then some d else rest

-- The controller and the hardware line that `enable_irq` enables.
unfoldable pub enable_irq : ℕ → Irq → IrqResult (ℕ × ℕ)
enable_irq virq s = elim (find (serves virq) (all_domains s)) [
  | none ↦ err IrqError.invalid_virq
  | some d ↦ ok (d.controller, sub32 virq d.virq_base)
]

-- `global_irq_dispatch`, over the lines that the root controller reports one after the other: the
-- handlers called, each before the line is acknowledged.
unfoldable pub global_irq_dispatch : List ℕ → Irq → List (Option ℕ × ℕ)
global_irq_dispatch [] s = []
global_irq_dispatch (hwirq ∷ pending) s = elim s.root_controller [
  | none ↦ []
  | some root ↦ (dispatch_irq (add32 root.virq_base hwirq) s, hwirq) ∷ global_irq_dispatch pending s
]

-- The end of `resolve_virq`: the domain of the interrupt parent translates the specifier.
unfoldable pub resolve_in_domain : (xlate : ℕ → IrqResult ℕ) → ℕ → Irq → IrqResult ℕ
resolve_in_domain xlate node_addr s = elim (find (λ d. d.node_addr == node_addr) (all_domains s)) [
  | none ↦ err IrqError.invalid_controller_parent
  | some d ↦ elim (xlate d.controller) [ err e ↦ err e | ok hwirq ↦ ok (add32 d.virq_base hwirq) ]
]
