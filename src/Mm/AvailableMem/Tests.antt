-- ===== src/Mm/AvailableMem/Tests.antt =====
-- A board with 100 units of memory, and the theorems at it.
use kruspix.Base.{ℕ, ◌≡◌, ◌≢◌, ◌||◌, ◌&&◌, not, refl, true, List, [], ◌∷◌, arith, replicate}
use mathlib.Core.List.Perm
use kruspix.Base.Outcome.{ok, out_of_fuel}
use kruspix.Mm.Region.{Region, region_diff, contains, region_diff-contains}
use kruspix.Mm.AvailableMem.{
  reserved_iter, first_free, add_piece, carve, visit, pass, calc_loop, calc_available_mem,
}
use kruspix.Mm.AvailableMem.Cover.{covered}
use kruspix.Mm.AvailableMem.Regular.{regular, all_used}
use kruspix.Mm.AvailableMem.Result.{
  table, Regular, Sorts, calc_available_mem-Ends, calc_available_mem-covered,
  calc_available_mem-exact,
}

-- A sort that leaves the entries where they are.
abbrev keep : List Region → List Region
keep xs = xs

keep-Sorts : Sorts keep
keep-Sorts = record { perm = λ xs. Perm.refl xs }

abbrev board : List Region
board = (0, 100) ∷ []

abbrev reserved : List Region
reserved = (40, 10) ∷ (0, 4) ∷ []

abbrev kernel : Region
kernel = (60, 5)

abbrev left : List Region
left = (4, 36) ∷ (50, 10) ∷ (65, 35) ∷ replicate 29 (0, 0)

run_board : calc_available_mem keep (table board) reserved kernel ≡ ok left
unfolding calc_available_mem calc_loop pass visit carve add_piece region_diff reserved_iter
    first_free
run_board = refl

Regular-board : Regular board reserved kernel
unfolding regular all_used pass visit carve add_piece region_diff reserved_iter
Regular-board = refl

region_diff-contains_example :
    let (first, second) = region_diff (0, 100) (40, 10) in
    (contains first 7 || contains second 7) ≡ (contains (0, 100) 7 && not (contains (40, 10) 7))
region_diff-contains_example = region_diff-contains (0, 100) (40, 10) 7 (omega arith) (omega arith)

calc_available_mem-Ends_example :
    calc_available_mem keep (table board) reserved kernel ≢ out_of_fuel
calc_available_mem-Ends_example = calc_available_mem-Ends keep (table board) reserved kernel

calc_available_mem-covered_example : covered (table board) 70 ≡ true
unfolding covered
calc_available_mem-covered_example =
    calc_available_mem-covered keep (table board) reserved left kernel keep-Sorts (omega arith)
      (omega arith) (omega arith) run_board 70 refl

calc_available_mem-exact_example :
    (out : List Region) × (calc_available_mem keep (table board) reserved kernel ≡ ok out)
    × ((a : ℕ) → covered out a ≡ (covered board a && not (covered reserved a || contains kernel a)))
calc_available_mem-exact_example =
    calc_available_mem-exact keep board reserved kernel keep-Sorts (refl, tt) (omega arith)
      (omega arith) (omega arith) Regular-board
