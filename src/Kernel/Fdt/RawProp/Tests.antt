-- ===== src/Kernel/Fdt/RawProp/Tests.antt =====
-- A `reg` property: a bus address of two cells and a length of one.
use kruspix.Base.{ℕ, ◌≡◌, arith, List, [], ◌∷◌}
use kruspix.Base.Outcome.{ok}
use kruspix.Base.Text.{bytes}
use kruspix.Kernel.Fdt.RawProp.{value_as_prop_encoded_array_cells_pair_iter}
use kruspix.Kernel.Fdt.RawProp.Cells.{encode, AllFit, cells_pair_iter-encode}

abbrev reg : List (ℕ × ℕ)
reg = (4244635648, 4096) ∷ (17179869184, 16) ∷ []

reg-AllFit : AllFit 2 1 reg
unfolding AllFit
reg-AllFit = (omega arith, omega arith, (omega arith, omega arith, tt))

cells_pair_iter-encode_example :
    value_as_prop_encoded_array_cells_pair_iter 2 1
      (record { name = bytes "reg"; value = encode 2 1 reg })
    ≡ ok reg
cells_pair_iter-encode_example =
    cells_pair_iter-encode 2 1 (bytes "reg") reg (omega arith, omega arith)
      (omega arith, omega arith) reg-AllFit
