-- ===== src/Mm/Region.antt =====
-- `region_diff` of src/mm/memory.rs: a memory region less a reserved one.
use kruspix.Base.{
  ℕ, ◌+◌, ◌^◌, ◌<◌, ◌≡◌, Bool, not, ◌&&◌, ◌||◌, arith, if◌then◌else◌, leb, ltb, Bool-cases, inl,
  inr, add64, sub64,
}

-- A start address and a size in bytes.
abbrev pub Region : Type 0
Region = ℕ × ℕ

-- The sums and differences are those of `usize` in a release build.
unfoldable pub region_diff : Region → Region → Region × Region
region_diff (mem_addr, mem_size) (rsv_addr, rsv_size) =
    let mem_end = add64 mem_addr mem_size in
    let rsv_end = add64 rsv_addr rsv_size in
    if leb rsv_end mem_addr || leb mem_end rsv_addr
    then ((mem_addr, mem_size), (0, 0))
    else if leb rsv_addr mem_addr && ltb rsv_end mem_end
    then ((rsv_end, sub64 mem_size (sub64 rsv_end mem_addr)), (0, 0))
    else if leb rsv_addr mem_addr
    then ((0, 0), (0, 0))
    else if leb mem_end rsv_end
    then ((mem_addr, sub64 rsv_addr mem_addr), (0, 0))
    else ((mem_addr, sub64 rsv_addr mem_addr), (rsv_end, sub64 mem_end rsv_end))

-- the region ends below the top of the address space
abbrev pub Fits : Region → Type 0
Fits (addr, size) = addr + size < 2 ^ 64

-- the address lies in the region
abbrev pub contains : Region → ℕ → Bool
contains (addr, size) a = leb addr a && ltb a (addr + size)

-- Where both regions end below the top of the address space, an address lies in one of the two parts
-- exactly if it lies in the memory region and not in the reserved one.
pub region_diff-contains :
    (mem rsv : Region) (a : ℕ)
    → Fits mem
    → Fits rsv
    → let (first, second) = region_diff mem rsv in
      (contains first a || contains second a) ≡ (contains mem a && not (contains rsv a))
unfolding region_diff
region_diff-contains (ma, ms) (ra, rs) a f g =
    let me : add64 ma ms ≡ ma + ms = omega arith in
    let re : add64 ra rs ≡ ra + rs = omega arith in
    rw (me, re)
      (elim (Bool-cases (leb (ra + rs) ma || leb (ma + ms) ra)) [
        | inl e ↦ rw e (ground arith)
        | inr e ↦ rw e (elim (Bool-cases (leb ra ma && ltb (ra + rs) (ma + ms))) [
          | inl e' ↦ rw e' (ground arith)
          | inr e' ↦ rw e' (elim (Bool-cases (leb ra ma)) [
            | inl e'' ↦ rw e'' (ground arith)
            | inr e'' ↦ rw e'' (elim (Bool-cases (leb (ma + ms) (ra + rs))) [
              | inl d ↦ rw d (ground arith)
              | inr d ↦ rw d (ground arith)
            ])
          ])
        ])
      ])

-- Both parts end below the top of the address space.
pub region_diff-Fits :
    (mem rsv : Region)
    → Fits mem
    → Fits rsv
    → let (first, second) = region_diff mem rsv in Fits first × Fits second
unfolding region_diff
region_diff-Fits (ma, ms) (ra, rs) f g = ground arith
