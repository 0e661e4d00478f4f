-- ===== src/Kernel/Irq/Domains.antt =====
-- The ranges of virtual interrupt numbers of the registered controllers.
use kruspix.Base.{
  ℕ, zero, suc, ◌+◌, ◌<◌, ◌≤◌, ◌≡◌, refl, sym, ap, inl, inr, Bool, true, false, Option, none, some,
  List, [], ◌∷◌, ◌++◌, ◌⊎◌, arith, subst, leb, Bool-cases, add64, sub64, get_elem?, lt→ltb, le→leb,
  le→not_ltb, le→leb, not_leb→lt,
}
use mathlib.Core.Bool.{and-false}
use mathlib.Core.Option.{some-injective}
use kruspix.Kernel.Irq.{
  IrqError, ok, IrqDomain, Irq, NodeView, is_root, is_some, bool_eq, max_irqs, as_u32, add32, sub32,
  install, register_controller, all_domains, serves, find, enable_irq,
}

-- The ranges lie one behind the other from `lo` to `hi`.
abbrev pub Increasing : ℕ → List IrqDomain → ℕ → Type 0
Increasing lo [] hi = lo ≤ hi
Increasing lo (d ∷ ds) hi = (lo ≤ d.virq_base) × Increasing (d.virq_base + d.irq_count) ds hi

pub record IsValid (s : Irq) : Type 0 where
  pub ranges : Increasing 0 (all_domains s) s.next_virq_base
  pub few : s.next_virq_base ≤ max_irqs
  -- the root controller is registered first
  pub root_first : s.root_controller ≡ none → s.controllers ≡ []

Increasing-append :
    (lo : ℕ) (ds : List IrqDomain) (hi : ℕ) (d : IrqDomain) (top : ℕ)
    → Increasing lo ds hi
    → hi ≤ d.virq_base
    → d.virq_base + d.irq_count ≤ top
    → Increasing lo (ds ++ d ∷ []) top
Increasing-append lo [] hi d top r h t = (omega arith, t)
Increasing-append lo (e ∷ ds) hi d top r h t =
    (r.0, Increasing-append (e.virq_base + e.irq_count) ds hi d top r.1 h t)

Increasing-mono :
    (lo : ℕ) (ds : List IrqDomain) (hi top : ℕ)
    → Increasing lo ds hi
    → hi ≤ top
    → Increasing lo ds top
Increasing-mono lo [] hi top r h = omega arith
Increasing-mono lo (e ∷ ds) hi top r h =
    (r.0, Increasing-mono (e.virq_base + e.irq_count) ds hi top r.1 h)

Increasing-le : (lo : ℕ) (ds : List IrqDomain) (hi : ℕ) → Increasing lo ds hi → lo ≤ hi
Increasing-le lo [] hi r = r
Increasing-le lo (e ∷ ds) hi r =
    let h = Increasing-le (e.virq_base + e.irq_count) ds hi r.1 in omega (arith, r.0)

inside :
    (base count hwirq : ℕ) → base + count ≤ 256 → hwirq < count → base + hwirq < add32 base count
inside base count hwirq t h = omega arith

outside : (base count b hwirq : ℕ) → base + count ≤ b → b ≤ 256 → add32 base count ≤ b + hwirq
outside base count b hwirq h t = omega arith

offset : (base hwirq : ℕ) → base + hwirq ≤ 512 → sub32 (base + hwirq) base ≡ hwirq
offset base hwirq h = omega arith

-- The domain at place `i` is the only one that serves a number of its range.
find-serves :
    (lo : ℕ) (ds : List IrqDomain) (hi i : ℕ) (d : IrqDomain) (hwirq : ℕ)
    → Increasing lo ds hi
    → hi ≤ max_irqs
    → get_elem? ds i ≡ some d
    → hwirq < d.irq_count
    → (find (serves (d.virq_base + hwirq)) ds ≡ some d)
      × (lo ≤ d.virq_base)
      × (d.virq_base + d.irq_count ≤ hi)
unfolding find
find-serves lo [] hi i d hwirq r top e h = cc
find-serves lo (x ∷ ds) hi zero d hwirq r top e h =
    let x≡d : x ≡ d = some-injective {A = IrqDomain} x d e in
    subst
      (λ y.
        (lo ≤ y.virq_base) × Increasing (y.virq_base + y.irq_count) ds hi
        → (find (serves (d.virq_base + hwirq)) (y ∷ ds) ≡ some d)
          × (lo ≤ d.virq_base)
          × (d.virq_base + d.irq_count ≤ hi))
      (sym x≡d)
      (λ q.
        let t = Increasing-le (d.virq_base + d.irq_count) ds hi q.1 in
        (
          rw
              (
                le→leb d.virq_base (d.virq_base + hwirq) (omega arith),
                lt→ltb (d.virq_base + hwirq) (add32 d.virq_base d.irq_count)
                    (inside d.virq_base d.irq_count hwirq (omega arith) h),
              )
              refl,
          q.0,
          t,
        ))
      r
find-serves lo (x ∷ ds) hi (suc i) d hwirq r top e h =
    let ih = find-serves (x.virq_base + x.irq_count) ds hi i d hwirq r.1 top e h in
    (
      rw
          (
            le→not_ltb (d.virq_base + hwirq) (add32 x.virq_base x.irq_count) (
                outside x.virq_base x.irq_count d.virq_base hwirq ih.1
                  (let k = Increasing-le (d.virq_base + d.irq_count) [] hi ih.2 in omega arith)),
            and-false,
          )
          ih.0,
      omega (arith, r.0, ih.1),
      ih.2,
    )

-- A service that passes its tests has room: nothing wraps.
room :
    (base count : ℕ)
    → leb (sub64 max_irqs count) base ≡ false
    → count ≤ max_irqs
    → (add64 base count ≡ base + count) × (base + count ≤ max_irqs) × (as_u32 base ≡ base)
unfolding as_u32
room base count e h =
    let l = not_leb→lt (sub64 max_irqs count) base e in (omega arith, omega arith, omega arith)

-- A service that `install` starts from: the range of `d` is taken and given to nobody.
Pending : IrqDomain → Irq → Type 0
Pending d s =
    Increasing 0 (all_domains s) d.virq_base
    × (s.next_virq_base ≡ d.virq_base + d.irq_count)
    × (d.virq_base + d.irq_count ≤ max_irqs)
    × (s.root_controller ≡ none → s.controllers ≡ [])

is_some-cases :
    (o : Option IrqDomain)
    → ((o ≡ none) × (is_some o ≡ false)) ⊎ ((is_some o ≡ true) × (r : IrqDomain) × (o ≡ some r))
is_some-cases none = inl (refl, refl)
is_some-cases (some r) = inr (refl, r, refl)

install-IsValid :
    (answer : Option IrqError) (root : Bool) (d : IrqDomain) (s : Irq)
    → bool_eq root (is_some s.root_controller) ≡ false
    → Pending d s
    → IsValid (install answer root d s).1
unfolding install Pending
install-IsValid (some e) root d s differs p = record {
  ranges = Increasing-mono 0 (all_domains s) d.virq_base s.next_virq_base p.0 (omega (arith, p.1));
  few = omega (arith, p.1, p.2);
  root_first = p.3;
}
install-IsValid none true d s differs p = elim (is_some-cases s.root_controller) [
  | inl e ↦ rw e.1 (record {
    ranges = (omega arith, rw (p.3 e.0) (omega (arith, p.1)));
    few = omega (arith, p.1, p.2);
    root_first = λ q. cc;
  })
  | inr e ↦ absurd (let q = e.0 in cc)
]
install-IsValid none false d s differs p = elim (is_some-cases s.root_controller) [
  | inl e ↦ absurd (let q = e.1 in cc)
  | inr e ↦ record {
    ranges =
        let old : Increasing 0 (e.1 ∷ s.controllers) d.virq_base = rw e.2 at p.0 in
        rw e.2 (
          Increasing-append 0 (e.1 ∷ s.controllers) d.virq_base d s.next_virq_base old (omega arith)
            (omega (arith, p.1)));
    few = omega (arith, p.1, p.2);
    root_first = λ q. let r = e.2 in cc;
  }
]

-- Whatever the controller answers, a registration of at most 256 lines keeps a valid state valid: the
-- ranges of the registered controllers do not overlap and end at 256 or below.
pub register_controller-IsValid :
    (set_virq_base : ℕ → Option IrqError) (node : NodeView) (controller count : ℕ) (s : Irq)
    → count ≤ max_irqs
    → IsValid s
    → IsValid (register_controller set_virq_base node controller count s).1
unfolding register_controller Pending
register_controller-IsValid set_virq_base node controller count s h v =
    elim (Bool-cases (bool_eq (is_root node) (is_some s.root_controller))) [
      | inl e ↦ rw e v
      | inr e ↦ elim (Bool-cases (leb (sub64 max_irqs count) s.next_virq_base)) [
        | inl f ↦ rw (e, f) v
        | inr f ↦
            let fits = room s.next_virq_base count f h in
            rw (e, f)
              (install-IsValid (set_virq_base (as_u32 s.next_virq_base)) (is_root node)
                (record {
                  node_addr = node.addr;
                  controller = controller;
                  virq_base = as_u32 s.next_virq_base;
                  irq_count = count;
                })
                (record s { next_virq_base = add64 s.next_virq_base count }) e
                (rw fits.2 v.ranges, rw fits.2 fits.0, rw fits.2 fits.1, v.root_first))
      ]
    ]

-- In a valid state, a virtual number inside the range of a registered controller enables that
-- controller's line, counted from the base of the range.
pub enable_irq-registered :
    (s : Irq) (i : ℕ) (d : IrqDomain) (hwirq : ℕ)
    → IsValid s
    → get_elem? (all_domains s) i ≡ some d
    → hwirq < d.irq_count
    → enable_irq (d.virq_base + hwirq) s ≡ ok (d.controller, hwirq)
unfolding enable_irq
enable_irq-registered s i d hwirq v e h =
    let found = find-serves 0 (all_domains s) s.next_virq_base i d hwirq v.ranges v.few e h in
    rw (enable_irq, found.0)
      (ap (λ n. ok (d.controller, n))
        (offset d.virq_base hwirq (let f = v.few in omega (arith, found.2))))
