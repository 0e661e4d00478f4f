-- ===== src/Arch/Mmu/IoRegion.antt =====
-- src/mm/mod.rs, `map_io_region`, on the page tables.
use kruspix.Base.{
  ℕ, zero, suc, ◌+◌, ◌-◌, ◌*◌, ◌/◌, ◌%◌, ◌^◌, ◌<◌, ◌≤◌, ◌≡◌, ◌≢◌, refl, ap, sym, ◌∙◌, Bool-cases,
  inl, inr, if◌then◌else◌, ◌==◌, leb, arith, subst, some, add64, ==→eq, not_==→ne,
}
use kruspix.Base.Outcome.{Outcome, ok, panic, ◌>>=◌, >>=-eq-ok, ok-injective}
use kruspix.Arch.Mmu.{Mmu, map_page}
use kruspix.Arch.Mmu.Walk.{translate}
use kruspix.Arch.Mmu.Step.{FrameSource, IsMmu}
use kruspix.Arch.Mmu.MapPage.{IsKernel, map_page-Maps}

abbrev pub io_peripherals_map_offset : ℕ
io_peripherals_map_offset = 18446691297151418368

abbrev pub io_peripherals_map_size : ℕ
io_peripherals_map_size = 17592186044416

module _ {W : Type 0} (alloc_frame : W → ℕ × W) where
  -- the loop with the pages that are left
  unfoldable pub map_pages : ℕ → ℕ → ℕ → Mmu W → Outcome (Mmu W)
  map_pages zero va pa m = ok m
  map_pages (suc n) va pa m =
      map_page alloc_frame va pa m >>= λ m'. map_pages n (add64 va 4096) (add64 pa 4096) m'

  unfoldable pub map_io_region : ℕ → ℕ → Mmu W → Outcome (ℕ × Mmu W)
  map_io_region pa size m =
      if leb (add64 (add64 io_peripherals_map_offset pa) size)
        (io_peripherals_map_offset + io_peripherals_map_size)
      then (let pa_aligned = pa / 4096 * 4096 in
          let size_adjusted = add64 size (pa - pa_aligned) in
          map_pages ((size_adjusted + 4095) / 4096) (add64 io_peripherals_map_offset pa_aligned)
            pa_aligned m
          >>= λ m'. ok (add64 io_peripherals_map_offset pa, m'))
      else panic

module _ {W : Type 0} {alloc_frame : W → ℕ × W} (source : FrameSource W alloc_frame) where
  -- `n` pages from `va` on are at those from `pa` on, and every other page of the kernel is where it was.
  pub record MapsAll (n va pa : ℕ) (m m' : Mmu W) : Type 0 where
    pub next : IsMmu source m'
    pub mapped : (a : ℕ) → va ≤ a → a < va + 4096 * n → translate m' a ≡ some (pa + (a - va))
    pub others :
        (a : ℕ) → IsKernel a → (va ≤ a → a < va + 4096 * n → ⊥) → translate m' a ≡ translate m a

  map_pages-MapsAll :
      (n va pa : ℕ) (m m' : Mmu W)
      → va % 4096 ≡ 0
      → 2 ^ 63 + 2 ^ 63 - 2 ^ 48 ≤ va
      → va + 4096 * n < 2 ^ 64
      → pa + 4096 * n ≤ 2 ^ 48
      → IsMmu source m
      → 3 * n ≤ source.left m.frames
      → map_pages alloc_frame n va pa m ≡ ok m'
      → MapsAll n va pa m m'
  unfolding map_pages
  map_pages-MapsAll zero va pa m m' whole above below small inv enough run =
      let same : m ≡ m' = ok-injective run in
      subst (MapsAll zero va pa m) same (record {
        next = inv;
        mapped = λ a le lt. absurd (omega (arith, le, lt));
        others = λ a k out. refl;
      })
  map_pages-MapsAll (suc n) va pa m m' whole above below small inv enough run =
      let (m1, p, q) =
        >>=-eq-ok (map_page alloc_frame va pa m)
          (λ m1. map_pages alloc_frame n (add64 va 4096) (add64 pa 4096) m1) run in
      let va' : add64 va 4096 ≡ va + 4096 = omega (arith, below) in
      let pa' : add64 pa 4096 ≡ pa + 4096 = omega (arith, small) in
      let q' : map_pages alloc_frame n (va + 4096) (pa + 4096) m1 ≡ ok m' =
        subst (λ v. map_pages alloc_frame n v (pa + 4096) m1 ≡ ok m') va'
          (subst (λ x. map_pages alloc_frame n (add64 va 4096) x m1 ≡ ok m') pa' q) in
      let first =
        map_page-Maps source va pa m m1 (omega (arith, below)) (omega (arith, small)) inv
          (omega (arith, enough)) p in
      let rest =
        map_pages-MapsAll n (va + 4096) (pa + 4096) m1 m' (omega (arith, whole))
          (omega (arith, above)) (omega (arith, below)) (omega (arith, small)) first.next
          (omega (arith, enough, first.fewer)) q' in
      record {
        next = rest.next;
        mapped = λ a le lt. elim (Bool-cases (a / 4096 == va / 4096)) [
          | inl e ↦
              let same = ==→eq (a / 4096) (va / 4096) e in
              rest.others a (omega (arith, above, le), omega (arith, lt, below))
                (λ le' lt'. omega (arith, same, le'))
              ∙ first.mapped a same
              ∙ ap some (omega (arith, same, whole))
          | inr e ↦
              let other = not_==→ne (a / 4096) (va / 4096) e in
              let behind : va + 4096 ≤ a = omega (arith, other, le, whole) in
              rest.mapped a behind (omega (arith, lt)) ∙ ap some (omega (arith, behind))
        ];
        others = λ a k out.
            let other : a / 4096 ≢ va / 4096 =
              λ e. out (omega (arith, e, whole)) (omega (arith, e, whole)) in
            rest.others a k (λ le lt. out (omega (arith, le)) (omega (arith, lt)))
            ∙ first.others a k other;
      }

  -- When map_io_region returns, for a region of devices below 2^44 and with 3 frames left for every page: it returns the address pa has in the region for I/O, every address of the size bytes from there on translates to its own in the region from pa on, and the tables are a tree in frames that are taken.
  pub map_io_region-Maps :
      (pa size : ℕ) (m : Mmu W) (r : ℕ × Mmu W)
      → pa < 2 ^ 44
      → size < 2 ^ 44
      → IsMmu source m
      → 3 * ((size + pa % 4096 + 4095) / 4096) ≤ source.left m.frames
      → map_io_region alloc_frame pa size m ≡ ok r
      → (r.0 ≡ io_peripherals_map_offset + pa)
        × ((k : ℕ) → k < size → translate r.1 (r.0 + k) ≡ some (pa + k))
        × IsMmu source r.1
  unfolding map_io_region
  map_io_region-Maps pa size m r small_pa small inv enough run =
      elim (Bool-cases (
        leb (add64 (add64 io_peripherals_map_offset pa) size)
          (io_peripherals_map_offset + io_peripherals_map_size))) [
            | inr e ↦ let run' = rw e at run in cc
            | inl e ↦
                let pages = (size + pa % 4096 + 4095) / 4096 in
                let pages' = (add64 size (pa - pa / 4096 * 4096) + 4095) / 4096 in
                let va = io_peripherals_map_offset + pa / 4096 * 4096 in
                let run' : (map_pages alloc_frame pages'
                        (add64 io_peripherals_map_offset (pa / 4096 * 4096)) (pa / 4096 * 4096) m
                      >>= λ m'. ok (add64 io_peripherals_map_offset pa, m'))
                    ≡ ok r =
                  rw e at run in
                let (m', p, q) =
                  >>=-eq-ok
                    (map_pages alloc_frame pages'
                      (add64 io_peripherals_map_offset (pa / 4096 * 4096)) (pa / 4096 * 4096) m)
                    (λ m'. ok (add64 io_peripherals_map_offset pa, m')) run' in
                let count : pages' ≡ pages = omega (arith, small) in
                let start : add64 io_peripherals_map_offset (pa / 4096 * 4096) ≡ va =
                  omega (arith, small_pa) in
                let p' : map_pages alloc_frame pages va (pa / 4096 * 4096) m ≡ ok m' =
                  subst (λ n. map_pages alloc_frame n va (pa / 4096 * 4096) m ≡ ok m') count
                    (subst (λ v. map_pages alloc_frame pages' v (pa / 4096 * 4096) m ≡ ok m') start
                      p) in
                let all =
                  map_pages-MapsAll pages va (pa / 4096 * 4096) m m' (omega arith) (omega arith)
                    (omega (arith, small_pa, small)) (omega (arith, small_pa, small)) inv enough
                    p' in
                let result : (add64 io_peripherals_map_offset pa, m') ≡ r = ok-injective q in
                let at : add64 io_peripherals_map_offset pa ≡ io_peripherals_map_offset + pa =
                  omega (arith, small_pa) in
                let result' : (io_peripherals_map_offset + pa, m') ≡ r =
                  ap (λ a. (a, m')) (sym at) ∙ result in
                subst
                  (λ s.
                    (s.0 ≡ io_peripherals_map_offset + pa)
                    × ((k : ℕ) → k < size → translate s.1 (s.0 + k) ≡ some (pa + k))
                    × IsMmu source s.1)
                  result'
                  (
                    refl,
                    (λ k lt.
                        all.mapped (io_peripherals_map_offset + pa + k) (omega arith)
                          (omega (arith, lt))
                        ∙ ap some (omega arith)),
                    all.next,
                  )
          ]
