-- ===== src/Kernel/Fdt/Nodes.antt =====
-- src/kernel/devicetree/fdt/mod.rs: the nodes of the tree by their names, and the standard properties of a
-- node. A search stops at the first match, so what lies behind it is not read.
pub mod Named
pub mod Find
pub mod Root
mod Tests
use kruspix.Base.{
  ℕ, zero, suc, ◌+◌, ◌-◌, ◌^◌, ◌≡◌, Bool, true, false, ◌&&◌, Option, none, some, List, [], ◌∷◌,
  if◌then◌else◌, ◌==◌,
}
use kruspix.Base.Outcome.{Outcome, ok, panic, out_of_fuel, ◌>>=◌}
use kruspix.Base.Text.{Bytes, bytes, eq_bytes}
use kruspix.Kernel.Fdt.Memory.{Memory}
use kruspix.Kernel.Fdt.Header.{structure_block_offset, strings_block_offset}
use kruspix.Kernel.Fdt.RawProp.{RawProp, value_as_u32}
use kruspix.Kernel.Fdt.Block.{
  RawNode, NodeIter, new_node_iter, Round, goes_on, found, ends, round, next_prop,
}

-- `self.name.split('@').next()`
unfoldable pub before_at : Bytes → Bytes
before_at [] = []
before_at (b ∷ bs) = if b == b'@' then [] else b ∷ before_at bs

abbrev pub node_name : RawNode → Bytes
node_name node = before_at node.name

abbrev pub is_root : RawNode → Bool
is_root node = eq_bytes (node_name node) []

abbrev pub is_aliases : RawNode → Bool
is_aliases node = eq_bytes (node_name node) (bytes "aliases")

abbrev pub is_memory : RawNode → Bool
is_memory node = eq_bytes (node_name node) (bytes "memory")

abbrev pub is_reserved_memory : RawNode → Bool
is_reserved_memory node = eq_bytes (node_name node) (bytes "reserved-memory")

abbrev pub is_chosen : RawNode → Bool
is_chosen node = eq_bytes (node_name node) (bytes "chosen")

abbrev pub is_cpus : RawNode → Bool
is_cpus node = eq_bytes (node_name node) (bytes "cpus")

abbrev pub isize_max : ℕ
isize_max = 2 ^ 63 - 1

abbrev pub strings_block_address : Memory → ℕ → ℕ
strings_block_address mem fdt = fdt + strings_block_offset mem fdt

abbrev pub node_iter : Memory → ℕ → NodeIter
node_iter mem fdt =
    new_node_iter (fdt + structure_block_offset mem fdt) (strings_block_address mem fdt) isize_max

abbrev pub child_iter : Memory → ℕ → RawNode → NodeIter
child_iter mem fdt node = new_node_iter node.children_ptr (strings_block_address mem fdt) 1

pub data StandardProperty : Type 0 where
  compatible model phandle status address_cells size_cells reg virtual_reg ranges : StandardProperty
  dma_ranges dma_coherent dma_noncoherent : StandardProperty

-- `==` of two, by their places
unfoldable pub place : StandardProperty → ℕ
place compatible = 0
place model = 1
place phandle = 2
place status = 3
place address_cells = 4
place size_cells = 5
place reg = 6
place virtual_reg = 7
place ranges = 8
place dma_ranges = 9
place dma_coherent = 10
place dma_noncoherent = 11

unfoldable pub into_str : StandardProperty → Bytes
into_str compatible = bytes "compatible"
into_str model = bytes "model"
into_str phandle = bytes "phandle"
into_str status = bytes "status"
into_str address_cells = bytes "#address-cells"
into_str size_cells = bytes "#size-cells"
into_str reg = bytes "reg"
into_str virtual_reg = bytes "virtual-reg"
into_str ranges = bytes "ranges"
into_str dma_ranges = bytes "dma-ranges"
into_str dma_coherent = bytes "dma-coherent"
into_str dma_noncoherent = bytes "dma-noncoherent"

-- the arms of `match value`, in their order
abbrev pub arms : List StandardProperty
arms =
    compatible ∷ model ∷ phandle ∷ status ∷ address_cells ∷ size_cells ∷ reg ∷ virtual_reg ∷ ranges
    ∷ dma_ranges ∷ dma_coherent ∷ dma_noncoherent ∷ []

unfoldable pub first_arm : List StandardProperty → Bytes → Option StandardProperty
first_arm [] value = none
first_arm (s ∷ ss) value =
    let rest = first_arm ss value in if eq_bytes value (into_str s) then some s else rest

unfoldable pub try_from : Bytes → Option StandardProperty
try_from value = first_arm arms value

-- `is_ok_and(|x| x == standard_prop)`
unfoldable pub is_ok_and_same : StandardProperty → Option StandardProperty → Bool
is_ok_and_same s none = false
is_ok_and_same s (some x) = place x == place s

unfoldable pub is_standard : StandardProperty → RawProp → Bool
is_standard s prop = is_ok_and_same s (try_from prop.name)

-- `iter.find(…)` over nodes, with fuel for the rounds
unfoldable pub stop_at_node :
    (RawNode → Bool) → (NodeIter → Outcome (Option RawNode)) → Round → Outcome (Option RawNode)
stop_at_node test rest (goes_on it) = rest it
stop_at_node test rest (found node it) =
    let more = rest it in if test node then ok (some node) else more
stop_at_node test rest ends = ok none

-- `iter.find(…)` over properties
unfoldable pub stop_at_prop :
    (RawProp → Bool)
    → (ℕ → Outcome (Option RawProp))
    → Option (RawProp × ℕ)
    → Outcome (Option RawProp)
stop_at_prop test rest none = ok none
stop_at_prop test rest (some (prop, p)) =
    let more = rest p in if test prop then ok (some prop) else more

-- `if let Some(prop) = … { prop.value_as_u32().unwrap() }`
unfoldable pub cell_or : ℕ → Option RawProp → Outcome ℕ
cell_or default none = ok default
cell_or default (some prop) = elim (value_as_u32 prop) [ none ↦ panic | some n ↦ ok n ]

module _ (valid_utf8 : Bytes → Bool) where
  unfoldable pub find_node : (RawNode → Bool) → ℕ → ℕ → Memory → NodeIter → Outcome (Option RawNode)
  find_node test zero fuel mem it = out_of_fuel
  find_node test (suc rounds) fuel mem it =
      round valid_utf8 fuel mem it >>= stop_at_node test (find_node test rounds fuel mem)

  unfoldable pub find_prop : (RawProp → Bool) → ℕ → ℕ → ℕ → Memory → ℕ → Outcome (Option RawProp)
  find_prop test zero strings fuel mem p = out_of_fuel
  find_prop test (suc rounds) strings fuel mem p =
      next_prop valid_utf8 strings fuel mem p
      >>= stop_at_prop test (find_prop test rounds strings fuel mem)

  -- The rest is of a blob at `fdt`, where `fuel` is for every loop.
  module _ (fuel : ℕ) (mem : Memory) (fdt : ℕ) where
    abbrev pub node_where : (RawNode → Bool) → Outcome (Option RawNode)
    node_where test = find_node test fuel fuel mem (node_iter mem fdt)

    abbrev pub root_node : Outcome (Option RawNode)
    root_node = node_where is_root

    abbrev pub aliases_node : Outcome (Option RawNode)
    aliases_node = node_where is_aliases

    abbrev pub reserved_memory_node : Outcome (Option RawNode)
    reserved_memory_node = node_where is_reserved_memory

    abbrev pub chosen_node : Outcome (Option RawNode)
    chosen_node = node_where is_chosen

    abbrev pub cpus_node : Outcome (Option RawNode)
    cpus_node = node_where is_cpus

    unfoldable pub parse_standard_prop : RawNode → StandardProperty → Outcome (Option RawProp)
    parse_standard_prop node s =
        find_prop (is_standard s) fuel (strings_block_address mem fdt) fuel mem node.props_ptr

    unfoldable pub parse_address_and_size_cells : RawNode → Outcome (ℕ × ℕ)
    parse_address_and_size_cells node = do
      address_prop ← parse_standard_prop node address_cells
      address_size ← cell_or 2 address_prop
      size_prop ← parse_standard_prop node size_cells
      size_size ← cell_or 1 size_prop
      ok (address_size, size_size)
