-- ===== src/Kernel/Fdt/Nodes/Tests.antt =====
-- A blob at 64: its header, the structure block behind it, and the strings block at 200.
use kruspix.Base.{
  ◌+◌, ◌<◌, ◌≡◌, refl, inl, inr, Bool, true, some, List, [], ◌∷◌, ◌++◌, map, arith, length,
  if◌then◌else◌, ltb,
}
use kruspix.Base.Outcome.{ok, ◌>>=◌}
use kruspix.Base.Text.{Bytes, bytes}
use kruspix.Kernel.Fdt.Memory.{Memory, load, holds, holds→At, word, cstr}
use kruspix.Kernel.Fdt.Header.{structure_block_offset}
use kruspix.Kernel.Fdt.RawProp.{RawProp}
use kruspix.Kernel.Fdt.Block.{
  RawNode, nodes, props, next_prop, next_prop_token, read_prop, more_props, slice,
}
use kruspix.Kernel.Fdt.Block.Pieces.{
  Filler, prop, pad_name, pad_value, encode, encode_piece, encode_filler, AreChars, IsPiece,
  ArePieces, Lies,
}
use kruspix.Kernel.Fdt.Block.Forest.{Forest, nil, node, nops, fillers, pieces, child_names}
use kruspix.Kernel.Fdt.Nodes.{
  strings_block_address, child_iter, root_node, parse_address_and_size_cells,
}
use kruspix.Kernel.Fdt.Nodes.Find.{first_where, parse_address_and_size_cells-props}
use kruspix.Kernel.Fdt.Nodes.Root.{root_node-Root}

abbrev children : Forest
children = node 0 (bytes "soc") [] nil 0 nil

abbrev root_props : List Filler
root_props = prop 0 (0 ∷ 0 ∷ 0 ∷ 1 ∷ []) ∷ []

abbrev header : Bytes
header = word 3490578157 ++ (word 400 ++ (word 40 ++ word 136))

abbrev mem : Memory
unfolding load encode encode_piece encode_filler pad_name pad_value nops fillers pieces
mem p =
    if ltb p 104
    then load 64 header p
    else if ltb p 200
    then load 104 (encode (pieces (node 0 [] root_props children 0 nil) [])) p
    else load 200 (bytes "#size-cells" ++ 0 ∷ []) p

ascii : Bytes → Bool
ascii bs = true

mem-holds : holds mem 104 (encode (pieces (node 0 [] root_props children 0 nil) [])) ≡ true
unfolding holds load encode encode_piece encode_filler pad_name pad_value nops fillers pieces mem
mem-holds = refl

offset : structure_block_offset mem 64 ≡ 40
unfolding load mem
offset = refl

tree-Lies : Lies mem (pieces (node 0 [] root_props children 0 nil) []) 104
tree-Lies = record {
  here = holds→At mem 104 (encode (pieces (node 0 [] root_props children 0 nil) [])) mem-holds;
  on_word = refl;
  positive = omega arith;
}

at_offset :
    Lies mem (pieces (node 0 [] root_props children 0 nil) []) (64 + structure_block_offset mem 64)
at_offset = rw offset tree-Lies

tree-ArePieces : ArePieces ascii (pieces (node 0 [] root_props children 0 nil) [])
unfolding ArePieces IsPiece AreChars nops fillers pieces ascii
tree-ArePieces = (
  (tt, omega arith, refl),
  (
    (omega arith, omega arith),
    (
      (
        (omega arith, omega arith, (omega arith, omega arith, (omega arith, omega arith, tt))),
        omega arith,
        refl,
      ),
      (tt, (tt, tt)),
    ),
  ),
)

tree-length : length (pieces (node 0 [] root_props children 0 nil) []) < 60
unfolding nops fillers pieces
tree-length = omega arith

root_node-Root_example :
    (root : RawNode) × (root_node ascii 60 mem 64 ≡ ok (some root))
    × (root.name ≡ [])
    × (cs : List RawNode) × (nodes ascii 60 60 mem (child_iter mem 64 root) ≡ ok cs)
    × (map (λ c. c.name) cs ≡ child_names children)
root_node-Root_example =
    root_node-Root ascii 60 mem 64 0 root_props children 0 tree-ArePieces at_offset tree-length
      (omega arith)

-- The root, whose properties begin at 112.
abbrev root : RawNode
root = record { name = []; props_ptr = 112; children_ptr = 132 }

abbrev size_prop : RawProp
size_prop = record { name = bytes "#size-cells"; value = 0 ∷ 0 ∷ 0 ∷ 1 ∷ [] }

root-props : props ascii (strings_block_address mem 64) 20 20 mem 112 ≡ ok (size_prop ∷ [])
unfolding props next_prop next_prop_token read_prop more_props slice cstr load mem ascii
root-props = refl

parse_address_and_size_cells-props_example :
    parse_address_and_size_cells ascii 20 mem 64 root ≡ (ok 2 >>= λ a. ok 1 >>= λ s. ok (a, s))
unfolding first_where
parse_address_and_size_cells-props_example =
    parse_address_and_size_cells-props ascii 20 mem 64 root (size_prop ∷ []) (ok 2) (ok 1)
      root-props (inl (refl, refl)) (inr (size_prop, refl, inl (1, omega arith, refl, refl)))
