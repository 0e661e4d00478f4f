-- ===== src/Arch/Mmu/Step.antt =====
-- One level of the walk of `map_page`: it gives the next table, with what there was as it was.
use kruspix.Base.{
  ℕ, suc, ◌+◌, ◌*◌, ◌%◌, ◌^◌, ◌<◌, ◌≤◌, ◌≡◌, ◌≢◌, refl, ap, sym, ◌∙◌, true, Bool-cases, inl, inr,
  ==→eq, eq→==, if◌then◌else◌, ◌==◌, arith, subst, not_==→ne, ne→not_==,
}
use kruspix.Base.Outcome.{Outcome, ok, ◌>>=◌, >>=-eq-ok, ok-injective}
use kruspix.Arch.Mmu.{
  Mmu, TranslationLevel, level_0, level_1, level_2, level_3, table, invalid, of_table, of_block,
  descriptor, new_descriptor, masked, next_level_table, virt_to_phys, phys_to_virt, get_descriptor,
  set_descriptor, set_at, fill_table, alloc_page, new, match_descriptor,
  get_or_create_next_leve_table,
}
use kruspix.Arch.Mmu.Bits.{RefersTo, new_descriptor-RefersTo}
use kruspix.Arch.Mmu.Walk.{walk}
use kruspix.Arch.Mmu.Tree.{Tree, same_depth, grown_here, grown_persists, grown_tree, walk-grown}

-- What `map_page` relies on: an allocator with frames left hands out one that was not taken.
pub record FrameSource (W : Type 0) (alloc_frame : W → ℕ × W) : Type 1 where
  pub Taken : W → ℕ → Type 0
  pub left : W → ℕ
  pub nonzero : (w : W) → 0 < left w → (alloc_frame w).0 ≢ 0
  pub on_frame : (w : W) → 0 < left w → (alloc_frame w).0 % 4096 ≡ 0
  pub below : (w : W) → 0 < left w → (alloc_frame w).0 < 2 ^ 47
  pub unused : (w : W) → 0 < left w → Taken w (alloc_frame w).0 → ⊥
  pub marked : (w : W) → 0 < left w → Taken (alloc_frame w).1 (alloc_frame w).0
  pub kept : (w : W) (p : ℕ) → Taken w p → Taken (alloc_frame w).1 p
  pub fewer : (w : W) → left w ≤ left (alloc_frame w).1 + 1

linear-low : (x : ℕ) → x < 2 ^ 47 → virt_to_phys (phys_to_virt x) ≡ x
linear-low x lt = ground arith

module _ {W : Type 0} {alloc_frame : W → ℕ × W} (source : FrameSource W alloc_frame) where
  -- The tables are a tree in frames that are taken.
  pub record IsMmu (m : Mmu W) : Type 0 where
    pub tree : Tree m.tables (virt_to_phys m.kernel_table)
    pub taken : (t : ℕ) → tree.depth t ≢ 0 → source.Taken m.frames t
    pub low : (t : ℕ) → tree.depth t ≢ 0 → t < 2 ^ 47

  -- The table `r.0` below entry `i` of `t`.
  pub record Got (m : Mmu W) (inv : IsMmu m) (t i l : ℕ) (r : ℕ × Mmu W) : Type 0 where
    pub next : IsMmu r.1
    pub is_entry : r.1.tables t i % 4 ≡ 3
    pub is_next : masked (r.1.tables t i) ≡ virt_to_phys r.0
    pub same_depth : (x : ℕ) → inv.tree.depth x ≢ 0 → next.tree.depth x ≡ inv.tree.depth x
    pub deep : next.tree.depth (virt_to_phys r.0) ≡ suc l
    pub under : next.tree.path (virt_to_phys r.0) ≡ inv.tree.path t * 512 + i
    pub persists :
        (x j : ℕ) → inv.tree.depth x ≢ 0 → m.tables x j % 4 ≡ 3 → r.1.tables x j ≡ m.tables x j
    pub same_walk :
        (n x va : ℕ) → inv.tree.depth x ≡ suc n → walk n r.1.tables x va ≡ walk n m.tables x va
    pub same_root : r.1.kernel_table ≡ m.kernel_table
    pub fewer : source.left m.frames ≤ source.left r.1.frames + 1
    pub kept : (p : ℕ) → source.Taken m.frames p → source.Taken r.1.frames p

  Got-table :
      (m : Mmu W) (inv : IsMmu m) (t i l : ℕ)
      → inv.tree.depth t ≡ suc (suc l)
      → i < 512
      → m.tables t i % 4 ≡ 3
      → Got m inv t i l (next_level_table (m.tables t i), m)
  Got-table m inv t i l at lt v =
      let (deep, under) = inv.tree.child l t i at lt v in
      let back : masked (m.tables t i) ≡ virt_to_phys (next_level_table (m.tables t i)) = sym (
        linear-low (masked (m.tables t i))
          (inv.low (masked (m.tables t i)) (λ z. omega (arith, z, deep)))) in
      record {
        next = inv;
        is_entry = v;
        is_next = back;
        same_depth = λ x ne. refl;
        deep = ap inv.tree.depth (sym back) ∙ deep;
        under = ap inv.tree.path (sym back) ∙ under;
        persists = λ x j ne v'. refl;
        same_walk = λ n x va e. refl;
        same_root = refl;
        fewer = omega arith;
        kept = λ p h. h;
      }

  fresh_depth :
      (m : Mmu W) (inv : IsMmu m)
      → 0 < source.left m.frames
      → inv.tree.depth (alloc_frame m.frames).0 ≡ 0
  fresh_depth m inv some_left = elim (Bool-cases (inv.tree.depth (alloc_frame m.frames).0 == 0)) [
    | inl e ↦ ==→eq (inv.tree.depth (alloc_frame m.frames).0) 0 e
    | inr e ↦ absurd (
        source.unused m.frames some_left (
          inv.taken (alloc_frame m.frames).0
            (not_==→ne (inv.tree.depth (alloc_frame m.frames).0) 0 e)))
  ]

  -- what holds of the new frame and of all others holds of all
  grown_all :
      (P : ℕ → Type 0) (f l : ℕ) (depth : ℕ → ℕ)
      → P f
      → ((x : ℕ) → depth x ≢ 0 → P x)
      → (x : ℕ) → (if x == f then suc l else depth x) ≢ 0
      → P x
  grown_all P f l depth new_one old x ne = elim (Bool-cases (x == f)) [
    | inl e ↦ subst P (sym (==→eq x f e)) new_one
    | inr e ↦ old x (rw e at ne)
  ]

  Got-new :
      (m : Mmu W) (inv : IsMmu m) (t i l d : ℕ)
      → inv.tree.depth t ≡ suc (suc l)
      → i < 512
      → m.tables t i % 4 ≢ 3
      → m.tables t i % 4 ≢ 1
      → 0 < source.left m.frames
      → RefersTo (alloc_frame m.frames).0 d
      → Got m inv t i l (
        next_level_table (set_at t i d (fill_table (alloc_frame m.frames).0 (λ j. 0) m.tables) t i),
        record {
          kernel_table = m.kernel_table;
          user_table = m.user_table;
          tables = set_at t i d (fill_table (alloc_frame m.frames).0 (λ j. 0) m.tables);
          frames = (alloc_frame m.frames).1;
        },
      )
  Got-new m inv t i l d at lt ne3 ne1 some_left refers =
      let f = (alloc_frame m.frames).0 in
      let root = virt_to_phys m.kernel_table in
      let fresh = fresh_depth m inv some_left in
      let next_tree = grown_tree m.tables root inv.tree t i l d f at fresh refers ne3 ne1 in
      let here : set_at t i d (fill_table f (λ j. 0) m.tables) t i ≡ d =
        grown_here m.tables root inv.tree t i l d f at fresh refers ne3 ne1 in
      let back : virt_to_phys (next_level_table (set_at t i d (fill_table f (λ j. 0) m.tables) t i))
          ≡ f =
        ap (λ y. virt_to_phys (next_level_table y)) here
        ∙ ap (λ y. virt_to_phys (phys_to_virt y)) refers.is_at
        ∙ linear-low f (source.below m.frames some_left) in
      let self : (f == f) ≡ true = eq→== f f refl in
      let deep_f : next_tree.depth f ≡ suc l = rw self refl in
      let path_f : next_tree.path f ≡ inv.tree.path t * 512 + i = rw self refl in
      record {
        next = record {
          tree = next_tree;
          taken =
              grown_all (source.Taken (alloc_frame m.frames).1) f l inv.tree.depth
                (source.marked m.frames some_left)
                (λ x ne. source.kept m.frames x (inv.taken x ne));
          low =
              grown_all (λ x. x < 2 ^ 47) f l inv.tree.depth (source.below m.frames some_left)
                inv.low;
        };
        is_entry = ap (λ y. y % 4) here ∙ refers.is_entry;
        is_next = ap masked here ∙ refers.is_at ∙ sym back;
        same_depth = same_depth m.tables root inv.tree t i l d f at fresh refers ne3 ne1;
        deep = ap next_tree.depth back ∙ deep_f;
        under = ap next_tree.path back ∙ path_f;
        persists = grown_persists m.tables root inv.tree t i l d f at fresh refers ne3 ne1;
        same_walk = walk-grown m.tables root inv.tree t i l d f at fresh refers ne3 ne1;
        same_root = refl;
        fewer = source.fewer m.frames;
        kept = source.kept m.frames;
      }

  no_block :
      (level : TranslationLevel) (ptr i : ℕ) (m : Mmu W) (r : ℕ × Mmu W)
      → (of_block level >>= λ d. match_descriptor alloc_frame d ptr i m) ≢ ok r
  unfolding match_descriptor
  no_block level_0 ptr i m r run = cc
  no_block level_1 ptr i m r run = cc
  no_block level_2 ptr i m r run = cc
  no_block level_3 ptr i m r run = cc

  -- a descriptor that is no descriptor yet
  Got-invalid :
      (m : Mmu W) (inv : IsMmu m) (ptr i l : ℕ) (r : ℕ × Mmu W)
      → inv.tree.depth (virt_to_phys ptr) ≡ suc (suc l)
      → i < 512
      → m.tables (virt_to_phys ptr) i % 4 ≢ 3
      → m.tables (virt_to_phys ptr) i % 4 ≢ 1
      → 0 < source.left m.frames
      → match_descriptor alloc_frame invalid ptr i m ≡ ok r
      → Got m inv (virt_to_phys ptr) i l r
  unfolding match_descriptor new alloc_page
  Got-invalid m inv ptr i l r at lt ne3 ne1 some_left run =
      let f = (alloc_frame m.frames).0 in
      let there : virt_to_phys (if f == 0 then 0 else phys_to_virt f) ≡ f =
        let ne = ne→not_== f 0 (source.nonzero m.frames some_left) in
        rw ne (linear-low f (source.below m.frames some_left)) in
      let next : ℕ → ℕ → Outcome (ℕ × Mmu W) = λ a d.
        let tables = set_descriptor ptr i d (fill_table a (λ j. 0) m.tables) in
        ok (
          next_level_table (get_descriptor ptr i tables),
          record {
            kernel_table = m.kernel_table;
            user_table = m.user_table;
            tables = tables;
            frames = (alloc_frame m.frames).1;
          },
        ) in
      let run' : (new_descriptor f >>= λ d. next f d) ≡ ok r =
        subst (λ a. (new_descriptor a >>= λ d. next a d) ≡ ok r) there run in
      let (d, made, q) = >>=-eq-ok (new_descriptor f) (next f) run' in
      let below : f < 2 ^ 48 = omega (arith, source.below m.frames some_left) in
      let (whole, refers) = new_descriptor-RefersTo f d below made in
      subst (Got m inv (virt_to_phys ptr) i l) (ok-injective q)
        (Got-new m inv (virt_to_phys ptr) i l d at lt ne3 ne1 some_left refers)

  pub get_or_create_next_leve_table-Got :
      (m : Mmu W) (inv : IsMmu m) (level : TranslationLevel) (ptr i l : ℕ) (r : ℕ × Mmu W)
      → of_table level ≡ ok table
      → inv.tree.depth (virt_to_phys ptr) ≡ suc (suc l)
      → i < 512
      → 0 < source.left m.frames
      → get_or_create_next_leve_table alloc_frame ptr i level m ≡ ok r
      → Got m inv (virt_to_phys ptr) i l r
  unfolding get_or_create_next_leve_table descriptor match_descriptor
  get_or_create_next_leve_table-Got m inv level ptr i l r upper at lt some_left run =
      let d = m.tables (virt_to_phys ptr) i in
      elim (Bool-cases (d % 4 == 3)) [
        | inl v ↦
            let run' : ok (next_level_table d, m) ≡ ok r = rw (v, upper) at run in
            subst (Got m inv (virt_to_phys ptr) i l) (ok-injective run')
              (Got-table m inv (virt_to_phys ptr) i l at lt (==→eq (d % 4) 3 v))
        | inr not3 ↦ elim (Bool-cases (d % 4 == 1)) [
          | inl v ↦ absurd (no_block level ptr i m r (rw (not3, v) at run))
          | inr not1 ↦
              Got-invalid m inv ptr i l r at lt (not_==→ne (d % 4) 3 not3)
                (not_==→ne (d % 4) 1 not1) some_left (rw (not3, not1) at run)
        ]
      ]
