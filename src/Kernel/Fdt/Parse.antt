-- ===== src/Kernel/Fdt/Parse.antt =====
-- `parse_memory` of src/kernel/devicetree/fdt/mod.rs: the table of memory regions.
pub mod Regions
mod Tests
use kruspix.Base.{
  ℕ, zero, suc, ◌+◌, Bool, Option, none, some, List, [], ◌∷◌, if◌then◌else◌, leb, ltb, length, set,
  replicate,
}
use kruspix.Base.Outcome.{Outcome, ok, panic, out_of_fuel, ◌>>=◌}
use kruspix.Base.Text.{Bytes}
use kruspix.Kernel.Fdt.Memory.{Memory}
use kruspix.Kernel.Fdt.RawProp.{RawProp, value_as_prop_encoded_array_cells_pair_iter}
use kruspix.Kernel.Fdt.Block.{RawNode, NodeIter, Round, goes_on, found, ends, round}
use kruspix.Kernel.Fdt.Nodes.{
  is_memory, reg, is_standard, find_prop, node_iter, root_node, strings_block_address,
  parse_address_and_size_cells,
}

abbrev pub no_regions : List (ℕ × ℕ)
no_regions = replicate 32 (0, 0)

-- `result[memory_reg_index] = (address, size)`, which panics out of range
unfoldable pub store_at : List (ℕ × ℕ) → ℕ → ℕ × ℕ → Outcome (List (ℕ × ℕ))
store_at result memory_reg_index region =
    if ltb memory_reg_index (length result) then ok (set result memory_reg_index region) else panic

-- The loop over the pairs of a `reg` property.
unfoldable pub store_regions : List (ℕ × ℕ) → List (ℕ × ℕ) → ℕ → Outcome (List (ℕ × ℕ))
store_regions [] result memory_reg_index = ok result
store_regions (region ∷ regions) result memory_reg_index =
    store_at result memory_reg_index region >>= λ result'.
    let rest = store_regions regions result' (memory_reg_index + 1) in
    if leb (length result') (memory_reg_index + 1) then ok result' else rest

-- The properties of a memory node, and then those of the next one; the loop ends at the first `reg`.
unfoldable pub or_next_node : Outcome (Option RawProp) → Option RawProp → Outcome (Option RawProp)
or_next_node rest none = rest
or_next_node rest (some prop) = ok (some prop)

unfoldable pub reg_of_round :
    (RawNode → Outcome (Option RawProp))
    → (NodeIter → Outcome (Option RawProp))
    → Round
    → Outcome (Option RawProp)
reg_of_round props rest (goes_on it) = rest it
reg_of_round props rest (found node it) =
    let later = rest it in
    let here = props node >>= or_next_node later in if is_memory node then here else later
reg_of_round props rest ends = ok none

-- `root_node().unwrap()`
unfoldable pub unwrap : Option RawNode → Outcome RawNode
unwrap none = panic
unwrap (some node) = ok node

unfoldable pub regions_of : ℕ × ℕ → Option RawProp → Outcome (List (ℕ × ℕ))
regions_of (root_address_cells, root_size_cells) none = ok no_regions
regions_of (root_address_cells, root_size_cells) (some prop) =
    value_as_prop_encoded_array_cells_pair_iter root_address_cells root_size_cells prop
    >>= λ regions. store_regions regions no_regions 0

module _ (valid_utf8 : Bytes → Bool) (fuel : ℕ) (mem : Memory) (fdt : ℕ) where
  unfoldable pub reg_of_node : RawNode → Outcome (Option RawProp)
  reg_of_node node =
      find_prop valid_utf8 (is_standard reg) fuel (strings_block_address mem fdt) fuel mem
        node.props_ptr

  unfoldable pub reg_of_memory : ℕ → NodeIter → Outcome (Option RawProp)
  reg_of_memory zero it = out_of_fuel
  reg_of_memory (suc rounds) it =
      round valid_utf8 fuel mem it >>= reg_of_round reg_of_node (reg_of_memory rounds)

  unfoldable pub parse_memory : Outcome (List (ℕ × ℕ))
  parse_memory = do
    found_root ← root_node valid_utf8 fuel mem fdt
    root ← unwrap found_root
    cells ← parse_address_and_size_cells valid_utf8 fuel mem fdt root
    prop ← reg_of_memory fuel (node_iter mem fdt)
    regions_of cells prop
