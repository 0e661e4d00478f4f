-- ===== src/Kernel/Fdt/Block/Tests.antt =====
-- A small tree: the root with a property and two children, of which one has a child.
use kruspix.Base.{
  ℕ, ◌<◌, ◌≡◌, ◌≢◌, refl, Bool, true, ◌&&◌, inl, inr, Bool-cases, ltb, ◌==◌, ◌++◌, if◌then◌else◌,
  List, [], ◌∷◌, arith, length,
}
use kruspix.Base.Outcome.{ok}
use kruspix.Base.Text.{Bytes, bytes}
use kruspix.Kernel.Fdt.Memory.{Memory, load, holds, holds→At}
use kruspix.Kernel.Fdt.Block.{
  RawNode, BlockIter, entry, begin_node, next, props, nodes, new_node_iter,
}
use kruspix.Kernel.Fdt.Block.Pieces.{
  Filler, Piece, opening, closing, nop, prop, pad_name, pad_value, encode, encode_piece,
  encode_filler, AreChars, IsPiece, ArePieces, Lies,
}
use kruspix.Kernel.Fdt.Block.Forest.{
  Forest, nil, node, nops, fillers, pieces, families, child_names,
}
use kruspix.Kernel.Fdt.Block.Props.{named, AreNamed}
use kruspix.Kernel.Fdt.Block.NodeProps.{props-named}
use kruspix.Kernel.Fdt.Block.Family.{AreFamilies, nodes-families}

-- A property with a value of one cell.
abbrev one_cell : Bytes
one_cell = 0 ∷ 0 ∷ 0 ∷ 1 ∷ []

abbrev tree : Forest
tree =
    node 1 [] (prop 0 one_cell ∷ nop ∷ [])
      (node 0 (bytes "soc") (prop 15 (7 ∷ []) ∷ []) (node 0 (bytes "uart@7e201000") [] nil 1 nil) 0
        (node 2 (bytes "memory@0") [] nil 0 nil))
      0 nil

abbrev mem : Memory
unfolding load encode encode_piece encode_filler pad_name pad_value nops fillers pieces
mem = load 8 (encode (pieces tree []))

ascii : Bytes → Bool
ascii bs = true

mem-holds : holds mem 8 (encode (pieces tree [])) ≡ true
unfolding holds load encode encode_piece encode_filler pad_name pad_value nops fillers pieces
mem-holds = refl

are_chars : Bytes → Bool
are_chars [] = true
are_chars (b ∷ bs) = (ltb 0 b && ltb b 256) && are_chars bs

are_chars-AreChars : (bs : Bytes) → are_chars bs ≡ true → AreChars bs
unfolding are_chars AreChars
are_chars-AreChars [] h = tt
are_chars-AreChars (b ∷ bs) h = elim (Bool-cases (ltb 0 b && ltb b 256)) [
  | inl e ↦ (ground arith, ground arith, are_chars-AreChars bs (rw e at h))
  | inr e ↦ absurd (ground arith)
]

tree-ArePieces : ArePieces ascii (pieces tree [])
unfolding ArePieces IsPiece nops fillers pieces are_chars ascii
tree-ArePieces = (
  tt,
  (
    (are_chars-AreChars ([]) refl, omega arith, refl),
    (
      (omega arith, omega arith),
      (
        tt,
        (
          (are_chars-AreChars (bytes "soc") refl, omega arith, refl),
          (
            (omega arith, omega arith),
            (
              (are_chars-AreChars (bytes "uart@7e201000") refl, omega arith, refl),
              (
                tt,
                (
                  tt,
                  (
                    tt,
                    (
                      tt,
                      (
                        tt,
                        (
                          (are_chars-AreChars (bytes "memory@0") refl, omega arith, refl),
                          (tt, (tt, tt)),
                        ),
                      ),
                    ),
                  ),
                ),
              ),
            ),
          ),
        ),
      ),
    ),
  ),
)

tree-Lies : Lies mem (pieces tree []) 8
tree-Lies = record {
  here = holds→At mem 8 (encode (pieces tree [])) mem-holds;
  on_word = refl;
  positive = omega arith;
}

tree-length : length (pieces tree []) < 60
unfolding nops fillers pieces
tree-length = omega arith

nodes-families_example :
    (ns : List RawNode) × (nodes ascii 60 60 mem (new_node_iter 8 500 2) ≡ ok ns)
    × AreFamilies ascii 60 mem 500 (families 2 tree) ns
nodes-families_example =
    nodes-families ascii 60 mem 8 500 2 tree tree-ArePieces tree-Lies tree-length (omega arith)

-- At most two deep: the root, and its two children.
two_deep :
    families 2 tree
    ≡ ([], bytes "soc" ∷ bytes "memory@0" ∷ [])
      ∷ (bytes "soc", bytes "uart@7e201000" ∷ [])
      ∷ (bytes "memory@0", [])
      ∷ []
unfolding families child_names
two_deep = refl

-- The properties of a node, and the strings block at 200.
abbrev two_props : List Filler
two_props = nop ∷ prop 0 one_cell ∷ nop ∷ prop 12 (9 ∷ []) ∷ []

abbrev node_pieces : List Piece
unfolding fillers
node_pieces = opening (bytes "soc") ∷ fillers two_props (closing ∷ [])

abbrev props_mem : Memory
unfolding load encode encode_piece encode_filler pad_name pad_value fillers
props_mem p =
    if ltb p 200
    then load 8 (encode (node_pieces)) p
    else load 200 (bytes "#size-cells" ++ 0 ∷ bytes "reg" ++ 0 ∷ []) p

abbrev name_at : ℕ → Bytes
name_at o = if o == 0 then bytes "#size-cells" else bytes "reg"

props_mem-holds : holds props_mem 8 (encode (node_pieces)) ≡ true
unfolding holds load encode encode_piece encode_filler pad_name pad_value fillers
props_mem-holds = refl

first_name-holds : holds props_mem 200 (name_at 0 ++ 0 ∷ []) ≡ true
unfolding holds load props_mem
first_name-holds = refl

second_name-holds : holds props_mem 212 (name_at 12 ++ 0 ∷ []) ≡ true
unfolding holds load props_mem
second_name-holds = refl

two_props-AreNamed : AreNamed ascii 60 props_mem 200 name_at two_props
unfolding AreNamed ascii are_chars
two_props-AreNamed = (
  (
    omega arith,
    omega arith,
    are_chars-AreChars (name_at 0) refl,
    holds→At props_mem 200 (name_at 0 ++ 0 ∷ []) first_name-holds,
    omega arith,
    refl,
  ),
  (
    (
      omega arith,
      omega arith,
      are_chars-AreChars (name_at 12) refl,
      holds→At props_mem 212 (name_at 12 ++ 0 ∷ []) second_name-holds,
      omega arith,
      refl,
    ),
    tt,
  ),
)

two_props-Lies : Lies props_mem node_pieces 8
two_props-Lies = record {
  here = holds→At props_mem 8 (encode node_pieces) props_mem-holds;
  on_word = refl;
  positive = omega arith;
}

two_props-ArePieces : ArePieces ascii node_pieces
unfolding ArePieces IsPiece fillers are_chars ascii
two_props-ArePieces = (
  (are_chars-AreChars (bytes "soc") refl, omega arith, refl),
  (tt, ((omega arith, omega arith), (tt, ((omega arith, omega arith), (tt, tt))))),
)

two_props-some : named name_at two_props ≢ []
unfolding named
two_props-some e = cc

abbrev at_node : BlockIter
at_node = record { strings_block_addr = 200; token_be_ptr = 8; prev_token = 0; skip_props = true }

props-named_example :
    (node : RawNode) × (it : BlockIter) × (next ascii 60 props_mem at_node
      ≡ ok (entry (begin_node node), it))
    × (node.name ≡ bytes "soc")
    × (props ascii 200 60 60 props_mem node.props_ptr ≡ ok (named name_at two_props))
unfolding node_pieces
props-named_example =
    props-named ascii 60 props_mem 200 name_at (bytes "soc") two_props (closing ∷ []) at_node
      two_props-some refl refl two_props-ArePieces
      (record { lies = two_props-Lies; going = refl; skipping = refl }) two_props-AreNamed
      (unfold fillers in omega arith) (omega arith) (omega arith)
