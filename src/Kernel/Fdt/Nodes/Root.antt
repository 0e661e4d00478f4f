-- ===== src/Kernel/Fdt/Nodes/Root.antt =====
-- The root of a blob.
use kruspix.Base.{
  ℕ, ◌+◌, ◌<◌, ◌≤◌, ◌≡◌, refl, ap, ◌∙◌, Bool, true, some, List, [], ◌∷◌, ◌++◌, ◌-◌, map, length,
}
use kruspix.Base.Outcome.{ok}
use kruspix.Base.Text.{Bytes}
use kruspix.Kernel.Fdt.Memory.{Memory}
use kruspix.Kernel.Fdt.Header.{structure_block_offset}
use kruspix.Kernel.Fdt.Block.{RawNode, nodes}
use kruspix.Kernel.Fdt.Block.Pieces.{Filler, ArePieces, Lies}
use kruspix.Kernel.Fdt.Block.Forest.{Forest, nil, node, pieces, families, child_names}
use kruspix.Kernel.Fdt.Block.Family.{AreFamilies, IsFamily, nodes-families}
use kruspix.Kernel.Fdt.Nodes.{
  isize_max, strings_block_address, node_iter, child_iter, is_root, before_at, root_node,
}
use kruspix.Kernel.Fdt.Nodes.Find.{first_where, find_node-nodes}

first_where-is_root :
    (n : RawNode) (ns : List RawNode) → n.name ≡ [] → first_where is_root (n ∷ ns) ≡ some n
unfolding first_where before_at
first_where-is_root n ns e =
    let root : is_root n ≡ true =
      ap (λ (s : Bytes). is_root (record { name = s; props_ptr = 0; children_ptr = 0 })) e in
    rw root refl

head_of_families :
    (valid_utf8 : Bytes → Bool) (fuel : ℕ) (mem : Memory) (strings : ℕ) (name : Bytes)
    (kids : List Bytes) (ws : List (Bytes × List Bytes)) (ns : List RawNode)
    → AreFamilies valid_utf8 fuel mem strings ((name, kids) ∷ ws) ns
    → (n : RawNode) × (ms : List RawNode) × (ns ≡ n ∷ ms)
      × IsFamily valid_utf8 fuel mem strings name kids n
unfolding AreFamilies
head_of_families valid_utf8 fuel mem strings name kids ws [] h = absurd h
head_of_families valid_utf8 fuel mem strings name kids ws (n ∷ ns) (i, h) = (n, ns, refl, i)

-- Of a blob whose structure block is a tree with a root of no name, `root_node` finds a node without a name
-- whose child iterator gives the root's children in order. The fuel is for more rounds than the tree has tokens,
-- and for names of 51 bytes.
pub root_node-Root :
    (valid_utf8 : Bytes → Bool) (fuel : ℕ) (mem : Memory) (fdt before : ℕ) (inside : List Filler)
    (children : Forest) (after : ℕ)
    → ArePieces valid_utf8 (pieces (node before [] inside children after nil) [])
    → Lies mem
        (pieces (node before [] inside children after nil) [])
        (fdt + structure_block_offset mem fdt)
    → length (pieces (node before [] inside children after nil) []) < fuel
    → 52 ≤ fuel
    → (root : RawNode) × (root_node valid_utf8 fuel mem fdt ≡ ok (some root))
      × (root.name ≡ [])
      × (cs : List RawNode) × (nodes valid_utf8 fuel fuel mem (child_iter mem fdt root) ≡ ok cs)
      × (map (λ c. c.name) cs ≡ child_names children)
unfolding families
root_node-Root valid_utf8 fuel mem fdt before inside children after h l enough g =
    let root = node before [] inside children after nil in
    let (ns, e, fam) =
      nodes-families valid_utf8 fuel mem (fdt + structure_block_offset mem fdt)
        (strings_block_address mem fdt) isize_max root h l enough g in
    let below = families (isize_max - 1) children ++ families isize_max nil in
    let (n, ms, whole, family) =
      head_of_families valid_utf8 fuel mem (strings_block_address mem fdt) [] (child_names children)
        below ns fam in
    let found_it = find_node-nodes valid_utf8 is_root fuel fuel mem (node_iter mem fdt) ns e in
    (
      n,
      found_it ∙ ap ok (ap (first_where is_root) whole ∙ first_where-is_root n ms family.same_name),
      family.same_name,
      family.child_nodes,
      family.returns,
      family.same_children,
    )
