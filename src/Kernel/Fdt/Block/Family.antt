-- ===== src/Kernel/Fdt/Block/Family.antt =====
-- The nodes that an iteration over a tree gives, and those that an iteration over the children of each gives.
use kruspix.Base.{
  ℕ, zero, suc, ◌-◌, ◌<◌, ◌≤◌, ◌≡◌, refl, sym, ap, ap₂, ◌∙◌, Bool, false, inl, inr, List, [], ◌∷◌,
  map, ◌++◌, length, arith, ◌==◌, append-nil, subst, Bool-cases, ==→eq,
}
use kruspix.Base.Outcome.{ok}
use kruspix.Base.Text.{Bytes}
use kruspix.Kernel.Fdt.Memory.{Memory}
use kruspix.Kernel.Fdt.Block.{RawNode, new_node_iter, nodes, round, next, match_item, continue}
use kruspix.Kernel.Fdt.Block.Pieces.{
  Filler, nop, Piece, filler, opening, closing, token_of, ArePieces, Lies,
}
use kruspix.Kernel.Fdt.Block.Tokens.{drop_fillers, length-drop_fillers, ArePieces-drop_fillers}
use kruspix.Kernel.Fdt.Block.Entries.{IsNode}
use kruspix.Kernel.Fdt.Block.Walk.{walk, walk-drop_fillers, AreNodes, nodes-walk}
use kruspix.Kernel.Fdt.Block.Forest.{
  Forest, nil, node, nops, fillers, pieces, child_names, families, places, walk-fillers,
  walk-pieces, walk-end,
}

AreNodes-append :
    (mem : Memory) (ws vs : List (Bytes × List Piece)) (ns : List RawNode)
    → AreNodes mem (ws ++ vs) ns
    → (ls : List RawNode) × (rs : List RawNode) × (ns ≡ ls ++ rs)
      × AreNodes mem ws ls
      × AreNodes mem vs rs
unfolding AreNodes
AreNodes-append mem [] vs ns h = ([], ns, refl, tt, h)
AreNodes-append mem ((name, xs) ∷ ws) vs [] h = absurd h
AreNodes-append mem ((name, xs) ∷ ws) vs (n ∷ ns) (i, h) =
    let (ls, rs, e, l, r) = AreNodes-append mem ws vs ns h in
    (n ∷ ls, rs, ap (λ (ms : List RawNode). n ∷ ms) e, (i, l), r)

names-children :
    (mem : Memory) (f : Forest) (xs : List Piece) (ns : List RawNode)
    → AreNodes mem (places 1 f xs) ns
    → map (λ n. n.name) ns ≡ child_names f
unfolding places child_names AreNodes
names-children mem nil xs [] h = refl
names-children mem nil xs (n ∷ ns) h = absurd h
names-children mem (node b name inside children after siblings) xs [] h = absurd h
names-children mem (node b name inside children after siblings) xs (n ∷ ns) (i, h) =
    ap₂ (λ (m : Bytes) ms. m ∷ ms) i.same_name (names-children mem siblings xs ns h)

no_children :
    (m : ℕ) (xs : List Piece) → (token_of (drop_fillers xs) == 1) ≡ false → walk m 1 xs ≡ []
unfolding walk drop_fillers
no_children m [] h = refl
no_children m (filler f ∷ xs) h = no_children m xs h
no_children m (opening name ∷ xs) h = absurd (ground arith)
no_children m (closing ∷ xs) h = refl

AreNodes-names : (mem : Memory) (ws : List (Bytes × List Piece)) → ws ≡ [] → AreNodes mem ws []
unfolding AreNodes
AreNodes-names mem ws e = rw e tt

module _ (valid_utf8 : Bytes → Bool) (fuel : ℕ) (mem : Memory) (strings : ℕ) where
  -- The pieces are good ones, and the fuel is enough for them.
  abbrev Suits : List Piece → Type 0
  Suits xs = ArePieces valid_utf8 xs × (length xs < fuel)

  -- The node has the name, and the iteration over its children gives the names.
  pub record IsFamily (name : Bytes) (children : List Bytes) (n : RawNode) : Type 0 where
    pub same_name : n.name ≡ name
    pub child_nodes : List RawNode
    pub returns :
        nodes valid_utf8 fuel fuel mem (new_node_iter n.children_ptr strings 1) ≡ ok child_nodes
    pub same_children : map (λ c. c.name) child_nodes ≡ children

  unfoldable pub AreFamilies : List (Bytes × List Bytes) → List RawNode → Type 0
  AreFamilies [] [] = Unit {0}
  AreFamilies [] (n ∷ ns) = ⊥
  AreFamilies (w ∷ ws) [] = ⊥
  AreFamilies ((name, children) ∷ ws) (n ∷ ns) = IsFamily name children n × AreFamilies ws ns

  AreFamilies-append :
      (ws vs : List (Bytes × List Bytes)) (ls rs : List RawNode)
      → AreFamilies ws ls
      → AreFamilies vs rs
      → AreFamilies (ws ++ vs) (ls ++ rs)
  unfolding AreFamilies
  AreFamilies-append [] vs [] rs h k = k
  AreFamilies-append [] vs (n ∷ ls) rs h k = absurd h
  AreFamilies-append (w ∷ ws) vs [] rs h k = absurd h
  AreFamilies-append ((name, children) ∷ ws) vs (n ∷ ls) rs (i, h) k =
      (i, AreFamilies-append ws vs ls rs h k)

  Suits-rest : (x : Piece) (xs : List Piece) → Suits (x ∷ xs) → Suits xs
  unfolding ArePieces
  Suits-rest x xs ((h, hs), f) = (hs, omega arith)

  Suits-nops : (n : ℕ) (xs : List Piece) → Suits (nops n xs) → Suits xs
  unfolding nops
  Suits-nops zero xs h = h
  Suits-nops (suc n) xs h = Suits-nops n xs (Suits-rest (filler nop) (nops n xs) h)

  Suits-fillers : (fs : List Filler) (xs : List Piece) → Suits (fillers fs xs) → Suits xs
  unfolding fillers
  Suits-fillers [] xs h = h
  Suits-fillers (f ∷ fs) xs h = Suits-fillers fs xs (Suits-rest (filler f) (fillers fs xs) h)

  Suits-node :
      (before : ℕ) (name : Bytes) (inside : List Filler) (children : Forest) (after : ℕ)
      (siblings : Forest) (xs : List Piece)
      → Suits (pieces (node before name inside children after siblings) xs)
      → Suits (fillers inside (pieces children (nops after (closing ∷ pieces siblings xs))))
  unfolding pieces
  Suits-node before name inside children after siblings xs h =
      let tail = fillers inside (pieces children (nops after (closing ∷ pieces siblings xs))) in
      Suits-rest (opening name) tail (Suits-nops before (opening name ∷ tail) h)

  Suits-pieces : (f : Forest) (xs : List Piece) → Suits (pieces f xs) → Suits xs
  unfolding pieces
  Suits-pieces nil xs h = h
  Suits-pieces (node before name inside children after siblings) xs h =
      let end = nops after (closing ∷ pieces siblings xs) in
      let a = Suits-node before name inside children after siblings xs h in
      let b = Suits-pieces children end (Suits-fillers inside (pieces children end) a) in
      Suits-pieces siblings xs (
        Suits-rest closing (pieces siblings xs) (Suits-nops after (closing ∷ pieces siblings xs) b))

  walk-children :
      (inside : List Filler) (children : Forest) (after : ℕ) (xs : List Piece)
      → walk 1 1 (fillers inside (pieces children (nops after (closing ∷ xs))))
        ≡ places 1 children (nops after (closing ∷ xs))
  unfolding walk
  walk-children inside children after xs =
      let end = nops after (closing ∷ xs) in
      walk-fillers 1 0 inside (pieces children end)
      ∙ walk-pieces 1 0 children end
      ∙ ap (λ w. places 1 children end ++ w) (walk-end 1 0 after xs)
      ∙ append-nil (places 1 children end)

  nodes-null :
      (rounds n : ℕ)
      → 0 < rounds
      → nodes valid_utf8 rounds n mem (new_node_iter 0 strings 1) ≡ ok []
  unfolding nodes round next match_item continue
  nodes-null zero n h = absurd (omega arith)
  nodes-null (suc rounds) n h = refl

  -- The iteration over the children of a node gives them.
  IsFamily-node :
      (name : Bytes) (inside : List Filler) (children : Forest) (after : ℕ) (xs : List Piece)
      (n : RawNode)
      → 52 ≤ fuel
      → Suits (fillers inside (pieces children (nops after (closing ∷ xs))))
      → IsNode mem name (fillers inside (pieces children (nops after (closing ∷ xs)))) n
      → IsFamily name (child_names children) n
  IsFamily-node name inside children after xs n g (h, f) i =
      let behind = fillers inside (pieces children (nops after (closing ∷ xs))) in
      let end = nops after (closing ∷ xs) in
      elim (Bool-cases (token_of (drop_fillers behind) == 1)) [
        | inl b ↦
            let y =
              nodes-walk valid_utf8 fuel fuel mem (new_node_iter n.children_ptr strings 1)
                (drop_fillers behind) 1 (ArePieces-drop_fillers valid_utf8 behind h)
                (record {
                  lies = i.children (==→eq (token_of (drop_fillers behind)) 1 b);
                  going = refl;
                  skipping = refl;
                })
                refl (omega (arith, length-drop_fillers behind)) (omega arith) g in
            record {
              same_name = i.same_name;
              child_nodes = y.found_nodes;
              returns = y.returns;
              same_children = names-children mem children end y.found_nodes (
                  subst (λ w. AreNodes mem w y.found_nodes)
                    (walk-drop_fillers 1 0 behind ∙ walk-children inside children after xs)
                    y.are_nodes);
            }
        | inr b ↦ record {
          same_name = i.same_name;
          child_nodes = [];
          returns = rw (i.no_children b) (nodes-null fuel fuel (omega arith));
          same_children = names-children mem children end [] (
              AreNodes-names mem (places 1 children end)
                (sym (walk-children inside children after xs) ∙ no_children 1 behind b));
        }
      ]

  AreFamilies-places :
      (depth : ℕ) (f : Forest) (xs : List Piece) (ns : List RawNode)
      → 52 ≤ fuel
      → Suits (pieces f xs)
      → AreNodes mem (places depth f xs) ns
      → AreFamilies (families depth f) ns
  unfolding places families AreNodes AreFamilies
  AreFamilies-places zero f xs [] g s h = tt
  AreFamilies-places zero f xs (n ∷ ns) g s h = absurd h
  AreFamilies-places (suc depth) nil xs [] g s h = tt
  AreFamilies-places (suc depth) nil xs (n ∷ ns) g s h = absurd h
  AreFamilies-places (suc depth) (node b name inside children after siblings) xs [] g s h = absurd h
  AreFamilies-places (suc depth) (node b name inside children after siblings) xs (n ∷ ns) g s
        (i, h) =
      let end = nops after (closing ∷ pieces siblings xs) in
      let (ls, rs, e, l, r) =
        AreNodes-append mem (places depth children end) (places (suc depth) siblings xs) ns h in
      let behind = Suits-node b name inside children after siblings xs s in
      let in_children = Suits-fillers inside (pieces children end) behind in
      let in_siblings =
        Suits-rest closing (pieces siblings xs) (
          Suits-nops after (closing ∷ pieces siblings xs)
            (Suits-pieces children end in_children)) in
      (
        IsFamily-node name inside children after (pieces siblings xs) n g behind i,
        subst (AreFamilies (families depth children ++ families (suc depth) siblings)) (sym e) (
            AreFamilies-append (families depth children) (families (suc depth) siblings) ls rs
              (AreFamilies-places depth children end ls g in_children l)
              (AreFamilies-places (suc depth) siblings xs rs g in_siblings r)),
      )

-- The iterator over the nodes of a tree that lies at the pointer, with fuel for more rounds than the tree has
-- tokens and for names of 51 bytes, gives the nodes at most `max_depth` deep, each before its children, with
-- their names; and the iterator over the children of each of them gives these, in order.
pub nodes-families :
    (valid_utf8 : Bytes → Bool) (fuel : ℕ) (mem : Memory) (token_be_ptr strings max_depth : ℕ)
    (f : Forest)
    → ArePieces valid_utf8 (pieces f [])
    → Lies mem (pieces f []) token_be_ptr
    → length (pieces f []) < fuel
    → 52 ≤ fuel
    → (ns : List RawNode) × (nodes valid_utf8 fuel fuel mem
          (new_node_iter token_be_ptr strings max_depth)
        ≡ ok ns)
      × AreFamilies valid_utf8 fuel mem strings (families max_depth f) ns
unfolding walk
nodes-families valid_utf8 fuel mem p strings max_depth f h l enough g =
    let it = new_node_iter p strings max_depth in
    let y =
      nodes-walk valid_utf8 fuel fuel mem it (pieces f []) 1 h
        (record { lies = l; going = refl; skipping = refl }) refl enough (omega arith) g in
    let all : walk max_depth 1 (pieces f []) ≡ places max_depth f [] =
      walk-pieces max_depth 0 f []
      ∙ append-nil (places (max_depth - 0) f [])
      ∙ ap (λ k. places k f []) (omega arith) in
    (
      y.found_nodes,
      y.returns,
      AreFamilies-places valid_utf8 fuel mem strings max_depth f [] y.found_nodes g (h, enough)
          (subst (λ w. AreNodes mem w y.found_nodes) all y.are_nodes),
    )
