-- ===== src/Arch/Mmu/MapPage.antt =====
-- What `map_page` does to the translation of addresses.
use kruspix.Base.{
  ℕ, suc, ◌+◌, ◌*◌, ◌/◌, ◌%◌, ◌^◌, ◌<◌, ◌≤◌, ◌≡◌, ◌≢◌, refl, ap, sym, ◌∙◌, Bool-cases, inl, inr,
  eq→==, ◌==◌, leb, arith, subst, some, leb→le,
}
use kruspix.Base.Outcome.{Outcome, ok, ◌>>=◌, >>=-eq-ok, ok-injective}
use kruspix.Arch.Mmu.{
  Mmu, level_0, level_1, level_2, level_0_index, level_1_index, level_2_index, level_3_index,
  level_0_linear_index, level_0_heap_index, level_0_io_index, kernel_offset, normal_write_back,
  device, new_descriptor, page_attributes, page_desc, virt_to_phys, MemoryRegionAttrIndex, set_at,
  set_descriptor, get_or_create_next_leve_table, store_page, map_in, map_page,
}
use kruspix.Arch.Mmu.Bits.{RefersTo, new_descriptor-RefersTo, attributes-RefersTo}
use kruspix.Arch.Mmu.Walk.{region, walk, translate, walk_page, walk_table}
use kruspix.Arch.Mmu.Tree.{set_tree, set_elsewhere, not_pages, walk-set}
use kruspix.Arch.Mmu.Step.{FrameSource, IsMmu, Got, get_or_create_next_leve_table-Got}

abbrev pub IsKernel : ℕ → Type 0
IsKernel va = (kernel_offset ≤ va) × (va < 2 ^ 64)

module _ {W : Type 0} {alloc_frame : W → ℕ × W} (source : FrameSource W alloc_frame) where
  -- The page of `va` is at `pa` now, every other page of the kernel is where it was, and frames that were taken
  -- are.
  pub record Maps (va pa : ℕ) (m m' : Mmu W) : Type 0 where
    pub next : IsMmu source m'
    pub mapped : (a : ℕ) → a / 4096 ≡ va / 4096 → translate m' a ≡ some (pa + a % 4096)
    pub fewer : source.left m.frames ≤ source.left m'.frames + 3
    pub kept : (p : ℕ) → source.Taken m.frames p → source.Taken m'.frames p
    pub others : (a : ℕ) → IsKernel a → a / 4096 ≢ va / 4096 → translate m' a ≡ translate m a

  module _ (va : ℕ) (in_kernel : IsKernel va) (m : Mmu W) (inv : IsMmu source m)
      (r1 r2 r3 : ℕ × Mmu W)
      (g1 : Got source m inv (virt_to_phys m.kernel_table) (level_0_index va) 2 r1)
      (g2 : Got source r1.1 g1.next (virt_to_phys r1.0) (level_1_index va) 1 r2)
      (g3 : Got source r2.1 g2.next (virt_to_phys r2.0) (level_2_index va) 0 r3) (d pa : ℕ)
      (refers : RefersTo pa d) where
    abbrev root : ℕ
    root = virt_to_phys m.kernel_table

    abbrev last : ℕ → ℕ → ℕ
    last = set_at (virt_to_phys r3.0) (level_3_index va) d r3.1.tables

    root_1 : g1.next.tree.depth root ≡ 4
    root_1 = g1.same_depth root (λ e. omega (arith, e, inv.tree.root_depth)) ∙ inv.tree.root_depth

    root_2 : g2.next.tree.depth root ≡ 4
    root_2 = g2.same_depth root (λ e. omega (arith, e, root_1)) ∙ root_1

    root_3 : g3.next.tree.depth root ≡ 4
    root_3 = g3.same_depth root (λ e. omega (arith, e, root_2)) ∙ root_2

    first_2 : g2.next.tree.depth (virt_to_phys r1.0) ≡ 3
    first_2 = g2.same_depth (virt_to_phys r1.0) (λ e. omega (arith, e, g1.deep)) ∙ g1.deep

    first_3 : g3.next.tree.depth (virt_to_phys r1.0) ≡ 3
    first_3 = g3.same_depth (virt_to_phys r1.0) (λ e. omega (arith, e, first_2)) ∙ first_2

    second_3 : g3.next.tree.depth (virt_to_phys r2.0) ≡ 2
    second_3 = g3.same_depth (virt_to_phys r2.0) (λ e. omega (arith, e, g2.deep)) ∙ g2.deep

    same_root : virt_to_phys r3.1.kernel_table ≡ root
    same_root = ap (λ k. virt_to_phys k) (g3.same_root ∙ g2.same_root ∙ g1.same_root)

    -- the tables above those of pages are not changed at the end
    last_above : (x j n : ℕ) → g3.next.tree.depth x ≡ suc (suc n) → last x j ≡ r3.1.tables x j
    last_above x j n e =
        set_elsewhere r3.1.tables (virt_to_phys r3.1.kernel_table) g3.next.tree (virt_to_phys r3.0)
          (level_3_index va) d g3.deep x j
          (λ same k.
            not_pages r3.1.tables (virt_to_phys r3.1.kernel_table) g3.next.tree (virt_to_phys r3.0)
              (level_3_index va) d g3.deep n x e same)

    entry_0 : last root (level_0_index va) ≡ r1.1.tables root (level_0_index va)
    entry_0 =
        let valid_2 : r2.1.tables root (level_0_index va) ≡ r1.1.tables root (level_0_index va) =
          g2.persists root (level_0_index va) (λ e. omega (arith, e, root_1)) g1.is_entry in
        last_above root (level_0_index va) 2 root_3
        ∙ g3.persists root (level_0_index va) (λ e. omega (arith, e, root_2))
            (ap (λ y. y % 4) valid_2 ∙ g1.is_entry)
        ∙ valid_2

    entry_1 :
        last (virt_to_phys r1.0) (level_1_index va)
        ≡ r2.1.tables (virt_to_phys r1.0) (level_1_index va)
    entry_1 =
        last_above (virt_to_phys r1.0) (level_1_index va) 1 first_3
        ∙ g3.persists (virt_to_phys r1.0) (level_1_index va) (λ e. omega (arith, e, first_2))
            g2.is_entry

    entry_2 :
        last (virt_to_phys r2.0) (level_2_index va)
        ≡ r3.1.tables (virt_to_phys r2.0) (level_2_index va)
    entry_2 = last_above (virt_to_phys r2.0) (level_2_index va) 0 second_3

    entry_3 : last (virt_to_phys r3.0) (level_3_index va) ≡ d
    entry_3 =
        rw
          (
            eq→== (virt_to_phys r3.0) (virt_to_phys r3.0) refl,
            eq→== (level_3_index va) (level_3_index va) refl,
          )
          refl

    last_mapped : (a : ℕ) → a / 4096 ≡ va / 4096 → walk 3 last root a ≡ some (pa + a % 4096)
    unfolding region
    last_mapped a e =
        let i0 : region 3 a % 512 ≡ level_0_index va = omega (arith, e) in
        let i1 : region 2 a % 512 ≡ level_1_index va = omega (arith, e) in
        let i2 : region 1 a % 512 ≡ level_2_index va = omega (arith, e) in
        let i3 : region 0 a % 512 ≡ level_3_index va = omega (arith, e) in
        let d0 = r1.1.tables root (level_0_index va) in
        let d1 = r2.1.tables (virt_to_phys r1.0) (level_1_index va) in
        let d2 = r3.1.tables (virt_to_phys r2.0) (level_2_index va) in
        walk_table 2 last root a d0 (ap (last root) i0 ∙ entry_0) g1.is_entry
        ∙ ap (λ y. walk 2 last y a) g1.is_next
        ∙ walk_table 1 last (virt_to_phys r1.0) a d1 (ap (last (virt_to_phys r1.0)) i1 ∙ entry_1)
            g2.is_entry
        ∙ ap (λ y. walk 1 last y a) g2.is_next
        ∙ walk_table 0 last (virt_to_phys r2.0) a d2 (ap (last (virt_to_phys r2.0)) i2 ∙ entry_2)
            g3.is_entry
        ∙ ap (λ y. walk 0 last y a) g3.is_next
        ∙ walk_page last (virt_to_phys r3.0) a d (ap (last (virt_to_phys r3.0)) i3 ∙ entry_3)
            refers.is_entry
        ∙ ap (λ y. some (y + a % 4096)) refers.is_at

    last_others :
        (a : ℕ) → IsKernel a → a / 4096 ≢ va / 4096 → walk 3 last root a ≡ walk 3 m.tables root a
    unfolding region
    last_others a (above, below) ne =
        let (va_above, va_below) = in_kernel in
        let path : g3.next.tree.path (virt_to_phys r3.0) * 512 + level_3_index va ≡ va / 4096 =
          omega (arith, g3.under, g2.under, g1.under, inv.tree.root_path, va_above, va_below) in
        let top : g3.next.tree.path root ≡ region 4 a =
          ap g3.next.tree.path (sym same_root)
          ∙ g3.next.tree.root_path
          ∙ omega (arith, above, below) in
        walk-set r3.1.tables (virt_to_phys r3.1.kernel_table) g3.next.tree (virt_to_phys r3.0)
          (level_3_index va) d g3.deep 3 root a root_3 top (λ e. ne (e ∙ path))
        ∙ g3.same_walk 3 root a root_2
        ∙ g2.same_walk 3 root a root_1
        ∙ g1.same_walk 3 root a inv.tree.root_depth

    pub last-Maps : Maps va pa m (record r3.1 { tables = last })
    last-Maps = record {
      next = record {
        tree =
            set_tree r3.1.tables (virt_to_phys r3.1.kernel_table) g3.next.tree (virt_to_phys r3.0)
              (level_3_index va) d g3.deep;
        taken = g3.next.taken;
        low = g3.next.low;
      };
      mapped = λ a e. ap (λ y. walk 3 last y a) same_root ∙ last_mapped a e;
      fewer = omega (arith, g1.fewer, g2.fewer, g3.fewer);
      kept = λ p h. g3.kept p (g2.kept p (g1.kept p h));
      others = λ a k ne. ap (λ y. walk 3 last y a) same_root ∙ last_others a k ne;
    }

page_desc-RefersTo : (va pa d : ℕ) → pa < 2 ^ 48 → page_desc va pa ≡ ok d → RefersTo pa d
unfolding page_desc
page_desc-RefersTo va pa d lt run =
    let made : (a : MemoryRegionAttrIndex)
        → (new_descriptor pa >>= λ e. ok (page_attributes a e)) ≡ ok d
        → RefersTo pa d =
      λ a run'.
        let (e, p, q) = >>=-eq-ok (new_descriptor pa) (λ e. ok (page_attributes a e)) run' in
        subst (RefersTo pa) (ok-injective q)
          (attributes-RefersTo a pa e (new_descriptor-RefersTo pa e lt p).1) in
    elim (Bool-cases (level_0_index va == level_0_linear_index)) [
      | inl l ↦ let run' = rw l at run in cc
      | inr l ↦ elim (Bool-cases (level_0_index va == level_0_heap_index)) [
        | inl h ↦ made normal_write_back (rw (l, h) at run)
        | inr h ↦ elim (Bool-cases (level_0_index va == level_0_io_index)) [
          | inl i ↦ made device (rw (l, h, i) at run)
          | inr i ↦ let run' = rw (l, h, i) at run in cc
        ]
      ]
    ]

module _ {W : Type 0} {alloc_frame : W → ℕ × W} (source : FrameSource W alloc_frame) where
  store_page-Maps :
      (va pa d : ℕ) (m m' : Mmu W)
      → IsKernel va
      → IsMmu source m
      → 3 ≤ source.left m.frames
      → RefersTo pa d
      → store_page alloc_frame va d m ≡ ok m'
      → Maps source va pa m m'
  unfolding store_page
  store_page-Maps va pa d m m' k inv enough refers run =
      let done : ℕ × Mmu W → Outcome (Mmu W) =
        λ r. ok (record r.1 { tables = set_descriptor r.0 (level_3_index va) d r.1.tables }) in
      let third : ℕ × Mmu W → Outcome (Mmu W) = λ r.
        get_or_create_next_leve_table alloc_frame r.0 (level_2_index va) level_2 r.1 >>= done in
      let second : ℕ × Mmu W → Outcome (Mmu W) = λ r.
        get_or_create_next_leve_table alloc_frame r.0 (level_1_index va) level_1 r.1 >>= third in
      let (r1, p1, q1) =
        >>=-eq-ok
          (get_or_create_next_leve_table alloc_frame m.kernel_table (level_0_index va) level_0 m)
          second run in
      let (r2, p2, q2) =
        >>=-eq-ok (get_or_create_next_leve_table alloc_frame r1.0 (level_1_index va) level_1 r1.1)
          third q1 in
      let (r3, p3, q3) =
        >>=-eq-ok (get_or_create_next_leve_table alloc_frame r2.0 (level_2_index va) level_2 r2.1)
          done q2 in
      let g1 =
        get_or_create_next_leve_table-Got source m inv level_0 m.kernel_table (level_0_index va) 2
          r1 refl inv.tree.root_depth (omega arith) (omega (arith, enough)) p1 in
      let g2 =
        get_or_create_next_leve_table-Got source r1.1 g1.next level_1 r1.0 (level_1_index va) 1 r2
          refl g1.deep (omega arith) (omega (arith, enough, g1.fewer)) p2 in
      let g3 =
        get_or_create_next_leve_table-Got source r2.1 g2.next level_2 r2.0 (level_2_index va) 0 r3
          refl g2.deep (omega arith) (omega (arith, enough, g1.fewer, g2.fewer)) p3 in
      subst (Maps source va pa m) (ok-injective q3)
        (last-Maps source va k m inv r1 r2 r3 g1 g2 g3 d pa refers)

  -- When map_page returns, with 3 frames left before: the addresses of the page of va translate to those of the frame at pa, the translation of every other page of the kernel is as before, and the tables are a tree in frames that are taken.
  pub map_page-Maps :
      (va pa : ℕ) (m m' : Mmu W)
      → va < 2 ^ 64
      → pa < 2 ^ 48
      → IsMmu source m
      → 3 ≤ source.left m.frames
      → map_page alloc_frame va pa m ≡ ok m'
      → Maps source va pa m m'
  unfolding map_page map_in
  map_page-Maps va pa m m' lt small inv enough run = elim (Bool-cases (leb kernel_offset va)) [
    | inr u ↦ let run' = rw u at run in cc
    | inl k ↦
        let run' : (page_desc va pa >>= λ d. store_page alloc_frame va d m) ≡ ok m' = rw k at run in
        let (d, p, q) = >>=-eq-ok (page_desc va pa) (λ d. store_page alloc_frame va d m) run' in
        store_page-Maps va pa d m m' (leb→le kernel_offset va k, lt) inv enough
          (page_desc-RefersTo va pa d small p) q
  ]
