-- ===== src/Kernel/Fdt/Block/Walk.antt =====
-- The nodes that `NodeIter` gives, and the depth it is at.
use kruspix.Base.{
  ℕ, zero, suc, ◌+◌, ◌-◌, ◌<◌, ◌≤◌, ◌≡◌, refl, sym, ap, ◌∙◌, Bool, true, false, inl, inr, List, [],
  ◌∷◌, length, arith, ◌==◌, ltb, if◌then◌else◌, eq→==, subst, Bool-cases,
}
use kruspix.Base.Outcome.{Outcome, ok, ◌>>=◌}
use kruspix.Base.Text.{Bytes}
use kruspix.Kernel.Fdt.Memory.{Memory}
use kruspix.Kernel.Fdt.Block.{
  RawNode, Item, BlockIter, NodeIter, next, match_item, round, continue, nodes,
}
use kruspix.Kernel.Fdt.Block.Pieces.{Piece, nop, prop, filler, opening, closing, ArePieces}
use kruspix.Kernel.Fdt.Block.Tokens.{
  drop_nops, drop_fillers, length-drop_nops, length-drop_fillers, drop_fillers_idem,
  ArePieces-drop_nops, ArePieces-drop_fillers,
}
use kruspix.Kernel.Fdt.Block.Entries.{Stands, IsNode, GivesNode, Gives, next-Gives}

-- The nodes at most `max_depth` deep, each with what stands behind its name. The depth counts from 1 on.
unfoldable pub walk : ℕ → ℕ → List Piece → List (Bytes × List Piece)
walk max_depth zero xs = []
walk max_depth (suc depth) [] = []
walk max_depth (suc depth) (filler f ∷ xs) = walk max_depth (suc depth) xs
walk max_depth (suc depth) (opening name ∷ xs) =
    let rest = walk max_depth (suc (suc depth)) xs in
    if ltb (max_depth + 1) (suc (suc depth)) then rest else (name, xs) ∷ rest
walk max_depth (suc depth) (closing ∷ xs) = walk max_depth depth xs

unfoldable pub AreNodes : Memory → List (Bytes × List Piece) → List RawNode → Type 0
AreNodes mem [] [] = Unit {0}
AreNodes mem [] (n ∷ ns) = ⊥
AreNodes mem (x ∷ xs) [] = ⊥
AreNodes mem ((name, xs) ∷ rest) (n ∷ ns) = IsNode mem name xs n × AreNodes mem rest ns

pub walk-drop_fillers :
    (max_depth depth : ℕ) (xs : List Piece)
    → walk max_depth (suc depth) (drop_fillers xs) ≡ walk max_depth (suc depth) xs
unfolding walk drop_fillers
walk-drop_fillers m d (filler f ∷ xs) = walk-drop_fillers m d xs
walk-drop_fillers m d (opening name ∷ xs) = refl
walk-drop_fillers m d (closing ∷ xs) = refl
walk-drop_fillers m d [] = refl

walk-drop_nops :
    (max_depth depth : ℕ) (xs : List Piece)
    → walk max_depth depth (drop_nops xs) ≡ walk max_depth depth xs
unfolding walk drop_nops
walk-drop_nops m zero xs = refl
walk-drop_nops m (suc d) (filler nop ∷ xs) = walk-drop_nops m (suc d) xs
walk-drop_nops m (suc d) (filler (prop o v) ∷ xs) = refl
walk-drop_nops m (suc d) (opening name ∷ xs) = refl
walk-drop_nops m (suc d) (closing ∷ xs) = refl
walk-drop_nops m (suc d) [] = refl

-- All rounds give the nodes of the walk.
pub record Yields (mem : Memory) (ws : List (Bytes × List Piece)) (run : Outcome (List RawNode))
    : Type 0 where
  pub found_nodes : List RawNode
  pub returns : run ≡ ok found_nodes
  pub are_nodes : AreNodes mem ws found_nodes

Yields-[] : (mem : Memory) (run : Outcome (List RawNode)) → run ≡ ok [] → Yields mem [] run
unfolding AreNodes
Yields-[] mem run e = record { found_nodes = []; returns = e; are_nodes = tt }

Yields-∷ :
    (mem : Memory) (name : Bytes) (xs : List Piece) (ws : List (Bytes × List Piece))
    (node : RawNode) (run : Outcome (List RawNode))
    → IsNode mem name xs node
    → Yields mem ws run
    → Yields mem ((name, xs) ∷ ws) (run >>= λ ns. ok (node ∷ ns))
unfolding AreNodes
Yields-∷ mem name xs ws node run h y = record {
  found_nodes = node ∷ y.found_nodes;
  returns = rw y.returns refl;
  are_nodes = (h, y.are_nodes);
}

-- What is known of the rounds that are left.
abbrev LaterRounds : (Bytes → Bool) → Memory → ℕ → (NodeIter → Outcome (List RawNode)) → Type 0
LaterRounds valid_utf8 mem rounds rest =
    (it : NodeIter) (xs : List Piece) (depth : ℕ)
    → ArePieces valid_utf8 xs
    → Stands mem xs it.structure_block_iter
    → it.current_depth ≡ depth
    → length xs < rounds
    → Yields mem (walk it.max_depth depth xs) (rest it)

module _ (valid_utf8 : Bytes → Bool) where
  Yields-begin :
      (rounds : ℕ) (mem : Memory) (rest : NodeIter → Outcome (List RawNode)) (it : NodeIter)
      (depth : ℕ) (name : Bytes) (xs : List Piece) (run : Outcome (Item × BlockIter))
      → LaterRounds valid_utf8 mem rounds rest
      → it.current_depth ≡ suc depth
      → ArePieces valid_utf8 xs
      → length xs < rounds
      → GivesNode mem name xs run
      → Yields mem
          (walk it.max_depth (suc depth) (opening name ∷ xs))
          ((run >>= match_item it) >>= continue rest)
  unfolding walk match_item continue
  Yields-begin rounds mem rest it depth name xs run later e h r g =
      let it' = record it { structure_block_iter = g.it; current_depth = it.current_depth + 1 } in
      let ih =
        later it' (drop_nops xs) (suc (suc depth)) (ArePieces-drop_nops valid_utf8 xs h) g.stands
          (omega (arith, e)) (omega (arith, length-drop_nops xs)) in
      let y =
        subst (λ ws. Yields mem ws (rest it')) (walk-drop_nops it.max_depth (suc (suc depth)) xs)
          ih in
      let deeper : ltb (it.max_depth + 1) (it.current_depth + 1)
          ≡ ltb (it.max_depth + 1) (suc (suc depth)) =
        ap (ltb (it.max_depth + 1)) (omega (arith, e)) in
      elim (Bool-cases (ltb (it.max_depth + 1) (it.current_depth + 1))) [
        | inl b ↦ rw (g.returns, b, sym deeper ∙ b) y
        | inr b ↦
            rw (g.returns, b, sym deeper ∙ b)
              (Yields-∷ mem name xs (walk it.max_depth (suc (suc depth)) xs) g.node (rest it')
                g.is_node y)
      ]

  Yields-round :
      (rounds : ℕ) (mem : Memory) (rest : NodeIter → Outcome (List RawNode)) (it : NodeIter)
      (depth : ℕ) (ys : List Piece) (run : Outcome (Item × BlockIter))
      → LaterRounds valid_utf8 mem rounds rest
      → it.current_depth ≡ suc depth
      → ArePieces valid_utf8 ys
      → ys ≡ drop_fillers ys
      → length ys < suc rounds
      → Gives mem ys run
      → Yields mem (walk it.max_depth (suc depth) ys) ((run >>= match_item it) >>= continue rest)
  unfolding walk match_item continue Gives ArePieces drop_fillers
  Yields-round rounds mem rest it depth [] run later e h front r (block, inl s) =
      Yields-[] mem ((run >>= match_item it) >>= continue rest) (rw s refl)
  Yields-round rounds mem rest it depth [] run later e h front r (block, inr s) =
      Yields-[] mem ((run >>= match_item it) >>= continue rest) (rw s refl)
  Yields-round rounds mem rest it depth (filler f ∷ ys) run later e h front r g =
      absurd (omega (arith, ap length front, length-drop_fillers ys))
  Yields-round rounds mem rest it depth (opening name ∷ ys) run later e (h, hs) front r g =
      Yields-begin rounds mem rest it depth name ys run later e hs (omega arith) g
  Yields-round rounds mem rest it depth (closing ∷ ys) run later e (h, hs) front r g =
      let it' = record it { structure_block_iter = g.it; current_depth = it.current_depth - 1 } in
      rw g.returns (later it' ys depth hs g.stands (omega (arith, e)) (omega arith))

  pub nodes-walk :
      (rounds fuel : ℕ) (mem : Memory) (it : NodeIter) (xs : List Piece) (depth : ℕ)
      → ArePieces valid_utf8 xs
      → Stands mem xs it.structure_block_iter
      → it.current_depth ≡ depth
      → length xs < rounds
      → rounds ≤ fuel
      → 52 ≤ fuel
      → Yields mem (walk it.max_depth depth xs) (nodes valid_utf8 rounds fuel mem it)
  unfolding nodes round
  nodes-walk zero fuel mem it xs depth h st e r f g = absurd (omega arith)
  nodes-walk (suc rounds) fuel mem it xs zero h st e r f g =
      let z : (it.current_depth == 0) ≡ true = eq→== it.current_depth 0 e in
      unfold walk continue in Yields-[] mem (nodes valid_utf8 (suc rounds) fuel mem it) (rw z refl)
  nodes-walk (suc rounds) fuel mem it xs (suc depth) h st e r f g =
      let z : (it.current_depth == 0) ≡ false = ground arith in
      let ys = drop_fillers xs in
      let later : LaterRounds valid_utf8 mem rounds (nodes valid_utf8 rounds fuel mem) =
        (λ it' zs d hz sz ez rz. nodes-walk rounds fuel mem it' zs d hz sz ez rz (omega arith) g) in
      let y =
        Yields-round rounds mem (nodes valid_utf8 rounds fuel mem) it depth ys
          (next valid_utf8 fuel mem it.structure_block_iter) later e
          (ArePieces-drop_fillers valid_utf8 xs h) (sym (drop_fillers_idem xs))
          (omega (arith, length-drop_fillers xs))
          (next-Gives valid_utf8 fuel mem it.structure_block_iter xs h st (omega arith) g) in
      rw z (
        subst
          (λ ws. Yields mem ws (
            (next valid_utf8 fuel mem it.structure_block_iter >>= match_item it)
            >>= continue (nodes valid_utf8 rounds fuel mem)))
          (walk-drop_fillers it.max_depth depth xs) y)
