-- ===== src/Kernel/Fdt/Parse/Tests.antt =====
-- A blob at 64 with a memory node of two regions.
use kruspix.Base.{ℕ, Bool, true, List, [], ◌∷◌, ◌++◌, if◌then◌else◌, ltb}
use kruspix.Base.Text.{Bytes, bytes}
use kruspix.Kernel.Fdt.Memory.{Memory, load, word}
use kruspix.Kernel.Fdt.RawProp.Cells.{cells}
use kruspix.Kernel.Fdt.RawProp.{RawProp}
use kruspix.Kernel.Fdt.Block.{RawNode}
use kruspix.Kernel.Fdt.Block
use kruspix.Kernel.Fdt.Block.Pieces.{prop, pad_name, pad_value, encode_piece, encode_filler}
use kruspix.Kernel.Fdt.Block.Pieces
use kruspix.Kernel.Fdt.Block.Forest.{nil, node, nops, fillers, pieces}
use kruspix.Kernel.Fdt.RawProp.Cells
use kruspix.Kernel.Fdt.Nodes

abbrev two_regions : List (ℕ × ℕ)
two_regions = (0, 1006632960) ∷ (1073741824, 4096) ∷ []

abbrev mem : Memory
unfolding load Pieces.encode encode_piece encode_filler pad_name pad_value nops fillers pieces
    Cells.encode cells
mem p =
    if ltb p 104
    then load 64 (word 3490578157 ++ (word 400 ++ (word 40 ++ word 236))) p
    else if ltb p 300
    then load 104
        (Pieces.encode (
          pieces
            (node 0 [] (prop 4 (0 ∷ 0 ∷ 0 ∷ 1 ∷ []) ∷ [])
              (node 0 (bytes "memory@0") (prop 0 (Cells.encode 2 1 two_regions) ∷ []) nil 0 nil) 0
              nil)
            []))
        p
    else load 300 ((bytes "reg" ++ 0 ∷ []) ++ (bytes "#size-cells" ++ 0 ∷ [])) p

ascii : Bytes → Bool
ascii bs = true

abbrev root : RawNode
root = record { name = []; props_ptr = 112; children_ptr = 128 }

abbrev memory : RawNode
memory = record { name = bytes "memory@0"; props_ptr = 144; children_ptr = 0 }

abbrev size_prop : RawProp
size_prop = record { name = bytes "#size-cells"; value = 0 ∷ 0 ∷ 0 ∷ 1 ∷ [] }

abbrev reg_prop : RawProp
reg_prop = record { name = bytes "reg"; value = Cells.encode 2 1 two_regions }
