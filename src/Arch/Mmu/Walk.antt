-- ===== src/Arch/Mmu/Walk.antt =====
-- How the hardware translates a kernel address: the walk through the tables of four levels, as the
-- architecture describes it for pages of 4 KiB and addresses of 48 bits.
use kruspix.Base.{
  ℕ, zero, suc, ◌+◌, ◌*◌, ◌/◌, ◌%◌, ◌^◌, ◌≡◌, ◌≢◌, refl, Bool-cases, inl, inr, ==→eq, if◌then◌else◌,
  ◌==◌, Option, some, none, ne→not_==,
}
use kruspix.Arch.Mmu.{Tables, Mmu, masked, virt_to_phys}

-- The number of the region that a table of a level describes by one entry: a page at level 3, which is 0
-- here, and 512 of the regions of the next level at the others.
unfoldable pub region : ℕ → ℕ → ℕ
region zero va = va / 4096
region (suc l) va = region l va / 512

-- A block descriptor is for the levels 1 and 2.
unfoldable pub block_at : ℕ → ℕ → ℕ → Option ℕ
block_at zero d va = none
block_at (suc zero) d va = some (d / 2 ^ 21 % 2 ^ 27 * 2 ^ 21 + va % 2 ^ 21)
block_at (suc (suc zero)) d va = some (d / 2 ^ 30 % 2 ^ 18 * 2 ^ 30 + va % 2 ^ 30)
block_at (suc (suc (suc l))) d va = none

-- The walk from a table, with the levels that are below it.
unfoldable pub walk : ℕ → Tables → ℕ → ℕ → Option ℕ
walk zero tables t va =
    let d = tables t (region 0 va % 512) in if d % 4 == 3 then some (masked d + va % 4096) else none
walk (suc l) tables t va =
    let d = tables t (region (suc l) va % 512) in
    let rest = walk l tables (masked d) va in
    if d % 4 == 3 then rest else if d % 4 == 1 then block_at (suc l) d va else none

-- From the root of the kernel's tables.
abbrev pub translate : {W : Type 0} → Mmu W → ℕ → Option ℕ
translate m va = walk 3 m.tables (virt_to_phys m.kernel_table) va

pub walk_page :
    (tables : Tables) (t va d : ℕ)
    → tables t (region 0 va % 512) ≡ d
    → d % 4 ≡ 3
    → walk 0 tables t va ≡ some (masked d + va % 4096)
unfolding walk
walk_page tables t va d e v = rw (e, v) refl

pub walk_table :
    (l : ℕ) (tables : Tables) (t va d : ℕ)
    → tables t (region (suc l) va % 512) ≡ d
    → d % 4 ≡ 3
    → walk (suc l) tables t va ≡ walk l tables (masked d) va
unfolding walk
walk_table l tables t va d e v = rw (e, v) refl

-- The same entry leads to the same result if what it refers to does.
pub walk_same_page :
    (tables tables' : Tables) (t va : ℕ)
    → tables' t (region 0 va % 512) ≡ tables t (region 0 va % 512)
    → walk 0 tables' t va ≡ walk 0 tables t va
unfolding walk
walk_same_page tables tables' t va e = rw e refl

pub walk_same :
    (l : ℕ) (tables tables' : Tables) (t va : ℕ)
    → tables' t (region (suc l) va % 512) ≡ tables t (region (suc l) va % 512)
    → (tables t (region (suc l) va % 512) % 4 ≡ 3
        → walk l tables' (masked (tables t (region (suc l) va % 512))) va
          ≡ walk l tables (masked (tables t (region (suc l) va % 512))) va)
    → walk (suc l) tables' t va ≡ walk (suc l) tables t va
unfolding walk
walk_same l tables tables' t va e below =
    elim (Bool-cases (tables t (region (suc l) va % 512) % 4 == 3)) [
      | inl v ↦ rw (e, v) (below (==→eq (tables t (region (suc l) va % 512) % 4) 3 v))
      | inr v ↦ rw (e, v) refl
    ]

-- Through an entry that is no descriptor there is nothing.
pub walk_invalid :
    (l : ℕ) (tables : Tables) (t va : ℕ)
    → tables t (region l va % 512) % 4 ≢ 3
    → tables t (region l va % 512) % 4 ≢ 1
    → walk l tables t va ≡ none
unfolding walk
walk_invalid zero tables t va ne3 ne1 = rw (ne→not_== (tables t (region 0 va % 512) % 4) 3 ne3) refl
walk_invalid (suc l) tables t va ne3 ne1 =
    rw
      (
        ne→not_== (tables t (region (suc l) va % 512) % 4) 3 ne3,
        ne→not_== (tables t (region (suc l) va % 512) % 4) 1 ne1,
      )
      refl
