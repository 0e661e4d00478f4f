-- ===== src/Arch/Mmu/Tree.antt =====
-- The tables form a tree: a table stands at one depth, below one entry of one table.
use kruspix.Base.{
  ℕ, zero, suc, ◌+◌, ◌*◌, ◌%◌, ◌<◌, ◌≡◌, ◌≢◌, refl, ap, sym, ◌∙◌, true, false, Bool-cases, inl, inr,
  ==→eq, eq→==, if◌then◌else◌, ◌==◌, arith, ne→not_==, not_==→ne,
}
use kruspix.Arch.Mmu.{Tables, masked, set_at, fill_table}
use kruspix.Arch.Mmu.Bits.{RefersTo}
use kruspix.Arch.Mmu.Walk.{region, walk, walk_table, walk_same_page, walk_same, walk_invalid}

-- `depth` is 0 where there is no table, 1 for a table of pages and 4 for the root. `path` is the number of
-- the region that a table describes.
pub record Tree (tables : Tables) (root : ℕ) : Type 0 where
  pub depth : ℕ → ℕ
  pub path : ℕ → ℕ
  pub root_depth : depth root ≡ 4
  pub root_path : path root ≡ 65535
  pub child :
      (l t i : ℕ)
      → depth t ≡ suc (suc l)
      → i < 512
      → tables t i % 4 ≡ 3
      → (depth (masked (tables t i)) ≡ suc l) × (path (masked (tables t i)) ≡ path t * 512 + i)

-- An entry of no kind gets a new table without descriptors.
module _ (tables : Tables) (root : ℕ) (tree : Tree tables root) (t i l d f : ℕ)
    (at : tree.depth t ≡ suc (suc l)) (fresh : tree.depth f ≡ 0) (refers : RefersTo f d)
    (ne3 : tables t i % 4 ≢ 3) (ne1 : tables t i % 4 ≢ 1) where
  abbrev pub grown : Tables
  grown = set_at t i d (fill_table f (λ j. 0) tables)

  f-t : f ≢ t
  f-t e = let k = sym fresh ∙ ap tree.depth e ∙ at in absurd (omega (arith, k))

  -- an entry of a table that there was, but for the one that is set
  grown_elsewhere : (x j : ℕ) → tree.depth x ≢ 0 → (x ≡ t → j ≡ i → ⊥) → grown x j ≡ tables x j
  grown_elsewhere x j ne other =
      let not_f : (x == f) ≡ false = ne→not_== x f (λ e. ne (ap tree.depth e ∙ fresh)) in
      elim (Bool-cases (x == t)) [
        | inl e ↦ rw (e, ne→not_== j i (other (==→eq x t e)), not_f) refl
        | inr e ↦ rw (e, not_f) refl
      ]

  -- what refers to a table is not changed
  pub grown_persists : (x j : ℕ) → tree.depth x ≢ 0 → tables x j % 4 ≡ 3 → grown x j ≡ tables x j
  grown_persists x j exists v =
      grown_elsewhere x j exists
        (λ e k. ne3 (ap (λ y. tables y i % 4) (sym e) ∙ ap (λ y. tables x y % 4) (sym k) ∙ v))

  pub grown_here : grown t i ≡ d
  grown_here = rw (eq→== t t refl, eq→== i i refl) refl

  grown_new : (j : ℕ) → grown f j ≡ 0
  grown_new j = rw (ne→not_== f t f-t, eq→== f f refl) refl

  abbrev pub grown_depth : ℕ → ℕ
  grown_depth x = if x == f then suc l else tree.depth x

  abbrev pub grown_path : ℕ → ℕ
  grown_path x = if x == f then tree.path t * 512 + i else tree.path x

  pub same_depth : (x : ℕ) → tree.depth x ≢ 0 → grown_depth x ≡ tree.depth x
  same_depth x ne = rw (ne→not_== x f (λ e. ne (ap tree.depth e ∙ fresh))) refl

  pub same_path : (x : ℕ) → tree.depth x ≢ 0 → grown_path x ≡ tree.path x
  same_path x ne = rw (ne→not_== x f (λ e. ne (ap tree.depth e ∙ fresh))) refl

  new_child :
      (n x j : ℕ)
      → x ≡ t
      → j ≡ i
      → grown_depth x ≡ suc (suc n)
      → (grown_depth (masked (grown x j)) ≡ suc n)
        × (grown_path (masked (grown x j)) ≡ grown_path x * 512 + j)
  new_child n x j same k e =
      let exists : tree.depth x ≢ 0 = λ z. let a = ap tree.depth same ∙ at in omega (arith, z, a) in
      let here : masked (grown x j) ≡ f =
        ap (λ y. masked (grown y j)) same
        ∙ ap (λ y. masked (grown t y)) k
        ∙ ap masked grown_here
        ∙ refers.is_at in
      let level : suc (suc n) ≡ suc (suc l) =
        sym e ∙ same_depth x exists ∙ ap tree.depth same ∙ at in
      let self : (f == f) ≡ true = eq→== f f refl in
      let at_f : grown_depth f ≡ suc l = rw self refl in
      let path_f : grown_path f ≡ tree.path t * 512 + i = rw self refl in
      let path_x : grown_path x ≡ tree.path t = same_path x exists ∙ ap tree.path same in
      (
        ap grown_depth here ∙ at_f ∙ omega (arith, level),
        ap grown_path here ∙ path_f ∙ omega (arith, path_x, k),
      )

  old_child :
      (n x j : ℕ)
      → (x ≡ t → j ≡ i → ⊥)
      → x ≢ f
      → grown_depth x ≡ suc (suc n)
      → j < 512
      → grown x j % 4 ≡ 3
      → (grown_depth (masked (grown x j)) ≡ suc n)
        × (grown_path (masked (grown x j)) ≡ grown_path x * 512 + j)
  old_child n x j other not_f e lt v =
      let was : tree.depth x ≡ suc (suc n) = let k = ne→not_== x f not_f in rw k at e in
      let exists : tree.depth x ≢ 0 = λ z. omega (arith, z, was) in
      let same = grown_elsewhere x j exists other in
      let (deep, under) = tree.child n x j was lt (ap (λ y. y % 4) (sym same) ∙ v) in
      let there : tree.depth (masked (tables x j)) ≢ 0 = λ z. omega (arith, z, deep) in
      let path_x : grown_path x ≡ tree.path x = same_path x exists in
      (
        ap (λ y. grown_depth (masked y)) same ∙ same_depth (masked (tables x j)) there ∙ deep,
        ap (λ y. grown_path (masked y)) same
            ∙ same_path (masked (tables x j)) there
            ∙ under
            ∙ ap (λ y. y * 512 + j) (sym path_x),
      )

  pub grown_child :
      (n x j : ℕ)
      → grown_depth x ≡ suc (suc n)
      → j < 512
      → grown x j % 4 ≡ 3
      → (grown_depth (masked (grown x j)) ≡ suc n)
        × (grown_path (masked (grown x j)) ≡ grown_path x * 512 + j)
  grown_child n x j e lt' v = elim (Bool-cases (x == f)) [
    | inl is_f ↦
        let zero_there : grown x j ≡ 0 = ap (λ y. grown y j) (==→eq x f is_f) ∙ grown_new j in
        absurd (omega (arith, v, zero_there))
    | inr not_f ↦ elim (Bool-cases (x == t)) [
      | inr ne ↦ old_child n x j (λ same k. not_==→ne x t ne same) (not_==→ne x f not_f) e lt' v
      | inl eq ↦ elim (Bool-cases (j == i)) [
        | inr ne ↦ old_child n x j (λ same k. not_==→ne j i ne k) (not_==→ne x f not_f) e lt' v
        | inl k ↦ new_child n x j (==→eq x t eq) (==→eq j i k) e
      ]
    ]
  ]

  abbrev pub grown_tree : Tree grown root
  grown_tree = record {
    depth = grown_depth;
    path = grown_path;
    root_depth = same_depth root (λ e. omega (arith, e, tree.root_depth)) ∙ tree.root_depth;
    root_path = same_path root (λ e. omega (arith, e, tree.root_depth)) ∙ tree.root_path;
    child = grown_child;
  }

  walk-new :
      (n va : ℕ) → region (suc n) va % 512 ≡ i → walk (suc n) grown t va ≡ walk (suc n) tables t va
  walk-new n va e =
      let nothing : (k : ℕ) → grown f (region n va % 512) % 4 ≡ suc k → ⊥ =
        λ k v. let z = grown_new (region n va % 512) in omega (arith, v, z) in
      walk_table n grown t va d (ap (grown t) e ∙ grown_here) refers.is_entry
      ∙ ap (λ y. walk n grown y va) refers.is_at
      ∙ walk_invalid n grown f va (nothing 2) (nothing 0)
      ∙ sym (
          walk_invalid (suc n) tables t va (λ v. ne3 (ap (λ y. tables t y % 4) (sym e) ∙ v))
            (λ v. ne1 (ap (λ y. tables t y % 4) (sym e) ∙ v)))

  pub walk-grown : (n x va : ℕ) → tree.depth x ≡ suc n → walk n grown x va ≡ walk n tables x va
  walk-grown zero x va e = walk_same_page tables grown x va (
      grown_elsewhere x (region 0 va % 512) (λ z. omega (arith, z, e))
        (λ same j. let k = sym e ∙ ap tree.depth same ∙ at in omega (arith, k)))
  walk-grown (suc n) x va e =
      let idx = region (suc n) va % 512 in
      let exists : tree.depth x ≢ 0 = λ z. omega (arith, z, e) in
      let elsewhere : (x ≡ t → idx ≡ i → ⊥) → walk (suc n) grown x va ≡ walk (suc n) tables x va =
        λ other.
          let same = grown_elsewhere x idx exists other in
          walk_same n tables grown x va same (λ v.
            walk-grown n (masked (tables x idx)) va (tree.child n x idx e (omega arith) v).0) in
      elim (Bool-cases (x == t)) [
        | inr ne ↦ elsewhere (λ same j. not_==→ne x t ne same)
        | inl eq ↦ elim (Bool-cases (idx == i)) [
          | inr ne ↦ elsewhere (λ same j. not_==→ne idx i ne j)
          | inl here ↦
              let same = ==→eq x t eq in
              ap (λ y. walk (suc n) grown y va) same
              ∙ walk-new n va (==→eq idx i here)
              ∙ ap (λ y. walk (suc n) tables y va) (sym same)
        ]
      ]

-- An entry of a table of pages gets another descriptor.
module _ (tables : Tables) (root : ℕ) (tree : Tree tables root) (t i d : ℕ)
    (at : tree.depth t ≡ 1) where
  pub set_elsewhere : (x j : ℕ) → (x ≡ t → j ≡ i → ⊥) → set_at t i d tables x j ≡ tables x j
  set_elsewhere x j other = elim (Bool-cases (x == t)) [
    | inl e ↦ rw (e, ne→not_== j i (other (==→eq x t e))) refl
    | inr e ↦ rw e refl
  ]

  pub not_pages : (n x : ℕ) → tree.depth x ≡ suc (suc n) → x ≢ t
  not_pages n x e same = let k = sym e ∙ ap tree.depth same ∙ at in absurd (omega (arith, k))

  pub set_child :
      (n x j : ℕ)
      → tree.depth x ≡ suc (suc n)
      → j < 512
      → set_at t i d tables x j % 4 ≡ 3
      → (tree.depth (masked (set_at t i d tables x j)) ≡ suc n)
        × (tree.path (masked (set_at t i d tables x j)) ≡ tree.path x * 512 + j)
  set_child n x j e lt v =
      let same = set_elsewhere x j (λ s k. not_pages n x e s) in
      let (deep, under) = tree.child n x j e lt (ap (λ y. y % 4) (sym same) ∙ v) in
      (ap (λ y. tree.depth (masked y)) same ∙ deep, ap (λ y. tree.path (masked y)) same ∙ under)

  abbrev pub set_tree : Tree (set_at t i d tables) root
  set_tree = record {
    depth = tree.depth;
    path = tree.path;
    root_depth = tree.root_depth;
    root_path = tree.root_path;
    child = set_child;
  }

  -- another page, from a table on its way
  pub walk-set :
      (n x va : ℕ)
      → tree.depth x ≡ suc n
      → tree.path x ≡ region (suc n) va
      → region 0 va ≢ tree.path t * 512 + i
      → walk n (set_at t i d tables) x va ≡ walk n tables x va
  unfolding region
  walk-set zero x va e under other = walk_same_page tables (set_at t i d tables) x va (
      set_elsewhere x (region 0 va % 512)
        (λ same k. let p = sym (ap tree.path same) ∙ under in other (omega (arith, p, k))))
  walk-set (suc n) x va e under other =
      let idx = region (suc n) va % 512 in
      walk_same n tables (set_at t i d tables) x va
        (set_elsewhere x idx (λ same k. not_pages n x e same))
        (λ v.
          let (deep, below) = tree.child n x idx e (omega arith) v in
          walk-set n (masked (tables x idx)) va deep (below ∙ omega (arith, under)) other)
