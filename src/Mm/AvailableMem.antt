-- ===== src/Mm/AvailableMem.antt =====
-- `calc_available_mem` of src/mm/memory.rs: the memory regions less the reserved ones.
-- The table `new_mem` is the list of the entries written so far; the array is that list with zeros
-- behind it. `sort_unstable_by` is a parameter: which of two equal regions comes first is open.
pub mod Cover
pub mod Carve
pub mod Pass
pub mod Regular
pub mod Loop
pub mod Ends
pub mod Shrink
pub mod Result
pub mod Vanish
mod Tests
use kruspix.Base.{
  ℕ, zero, suc, ◌+◌, ◌-◌, ◌≡◌, Bool, true, false, not, ◌&&◌, ◌||◌, List, [], ◌∷◌, ◌++◌,
  if◌then◌else◌, leb, ltb, ◌==◌, length, take, replicate,
}
use kruspix.Base.Outcome.{Outcome, ok, panic, out_of_fuel, ◌>>=◌, ◌>>◌, assert}
use kruspix.Mm.Region.{Region, region_diff}

abbrev pub max_regions : ℕ
max_regions = 32

abbrev pub is_used : Region → Bool
is_used (_, size) = not (size == 0)

-- `reserved_mem.iter().filter(|(_, size)| *size != 0).chain(iter::once(&kernel_region))`
unfoldable pub reserved_iter : List Region → Region → List Region
reserved_iter [] kernel = kernel ∷ []
reserved_iter (r ∷ rs) kernel =
    let rest = reserved_iter rs kernel in if is_used r then r ∷ rest else rest

-- `position(|(_, size)| *size == 0).unwrap_or(32)`
unfoldable pub first_free : List Region → ℕ
first_free [] = 0
first_free (r ∷ rs) = let rest = first_free rs in if is_used r then suc rest else 0

-- `new_mem[new_mem_index] = piece; new_mem_index += 1` where the piece is not empty.
unfoldable pub add_piece : Region → List Region → Outcome (List Region)
add_piece piece new_mem =
    if is_used piece
    then if ltb (length new_mem) max_regions then ok (new_mem ++ piece ∷ []) else panic
    else ok new_mem

-- The inner loop: one memory region against every reserved one.
unfoldable pub carve : List Region → Region → List Region → Outcome (Region × List Region)
carve [] mem new_mem = ok (mem, new_mem)
carve (rsv ∷ rsvs) mem new_mem =
    let (first, second) = region_diff mem rsv in
    add_piece second new_mem >>= λ new_mem'. carve rsvs first new_mem'

-- One region of the outer loop: an empty one is filtered out, `skip` of the others are passed over.
unfoldable pub visit : List Region → ℕ → Region → List Region → Outcome (ℕ × Region × List Region)
visit rsvs skip mem new_mem =
    if is_used mem
    then if 0 == skip
      then (carve rsvs mem new_mem >>= λ (mem', new_mem'). ok (0, mem', new_mem'))
      else ok (skip - 1, mem, new_mem)
    else ok (skip, mem, new_mem)

-- The outer loop over the memory regions.
unfoldable pub pass :
    List Region → ℕ → List Region → List Region → Outcome (List Region × List Region)
pass rsvs skip [] new_mem = ok ([], new_mem)
pass rsvs skip (m ∷ ms) new_mem = visit rsvs skip m new_mem >>= λ (skip', m', new_mem').
    pass rsvs skip' ms new_mem' >>= λ (ms', new_mem''). ok (m' ∷ ms', new_mem'')

-- `mem[mem_index..32].copy_from_slice(&new_mem[0..32 - mem_index])`
unfoldable pub append_pieces : List Region → List Region → ℕ → List Region
append_pieces mem new_mem index =
    take index mem
    ++ take (max_regions - index) (new_mem ++ replicate (max_regions - length new_mem) (0, 0))

-- The loop, with fuel for its rounds.
unfoldable pub calc_loop : List Region → ℕ → List Region → ℕ → ℕ → Outcome (List Region)
unfolding append_pieces
calc_loop rsvs zero mem skip index = out_of_fuel
calc_loop rsvs (suc fuel) mem skip index = pass rsvs skip mem [] >>= λ (mem', new_mem).
    let again =
      calc_loop rsvs fuel (append_pieces mem' new_mem index) index (index + length new_mem) in
    if (length new_mem == 0) || leb max_regions index then ok mem' else again

module _ (sort_by_size : List Region → List Region) where
  unfoldable pub calc_available_mem : List Region → List Region → Region → Outcome (List Region)
  calc_available_mem mem reserved kernel =
      calc_loop (reserved_iter reserved kernel) (suc max_regions) mem 0 (first_free mem) >>= λ out.
      ok (sort_by_size out)
