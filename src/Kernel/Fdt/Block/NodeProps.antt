-- ===== src/Kernel/Fdt/Block/NodeProps.antt =====
-- The properties of a node that the walk over the structure block gives, through the node's own pointer.
use kruspix.Base.{
  ℕ, ◌<◌, ◌≤◌, ◌≡◌, ◌≢◌, refl, ap, ◌∙◌, subst, Bool, false, List, [], ◌∷◌, length, ◌==◌, arith,
}
use kruspix.Base.Outcome.{ok}
use kruspix.Base.Text.{Bytes}
use kruspix.Kernel.Fdt.Memory.{Memory}
use kruspix.Kernel.Fdt.Block.{RawNode, BlockIter, entry, begin_node, next, props}
use kruspix.Kernel.Fdt.Block.Pieces.{Filler, nop, prop, Piece, opening, ArePieces, Lies, token_of}
use kruspix.Kernel.Fdt.Block.Tokens.{drop_nops, drop_fillers}
use kruspix.Kernel.Fdt.Block.Forest.{fillers}
use kruspix.Kernel.Fdt.Block.Entries.{Stands, Gives, GivesNode, next-Gives}
use kruspix.Kernel.Fdt.Block.Props.{named, AreNamed, props-fillers}

module _ (valid_utf8 : Bytes → Bool) (fuel : ℕ) (mem : Memory) (strings : ℕ)
    (name_at : ℕ → Bytes) where
  -- what is left from the first property on
  record FromFirst (fs : List Filler) (xs : List Piece) : Type 0 where
    left : List Filler
    pieces : drop_nops (fillers fs xs) ≡ fillers left xs
    first : token_of (fillers left xs) ≡ 3
    are_named : AreNamed valid_utf8 fuel mem strings name_at left
    same : named name_at left ≡ named name_at fs
    less : length left ≤ length fs

  first_prop :
      (fs : List Filler) (xs : List Piece)
      → AreNamed valid_utf8 fuel mem strings name_at fs
      → named name_at fs ≢ []
      → FromFirst fs xs
  unfolding AreNamed named drop_nops fillers
  first_prop [] xs n some_prop = absurd (some_prop refl)
  first_prop (nop ∷ fs) xs n some_prop =
      let f = first_prop fs xs n some_prop in
      record {
        left = f.left;
        pieces = f.pieces;
        first = f.first;
        are_named = f.are_named;
        same = f.same;
        less = omega (arith, f.less);
      }
  first_prop (prop o v ∷ fs) xs n some_prop = record {
    left = prop o v ∷ fs;
    pieces = refl;
    first = refl;
    are_named = n;
    same = refl;
    less = omega arith;
  }

  -- Where the walk stands at a node with at least one property behind its name, it gives the node, and the
  -- iterator over the node's properties, from the pointer that the node has for them, gives those that stand
  -- behind its name, with their names from the strings block and their values, in order, up to the end of the
  -- node or its first child. Fuel is for more rounds than there are pieces, and for the names.
  pub props-named :
      (name : Bytes) (fs : List Filler) (xs : List Piece) (it : BlockIter)
      → named name_at fs ≢ []
      → (token_of xs == 3) ≡ false
      → (token_of xs == 4) ≡ false
      → ArePieces valid_utf8 (opening name ∷ fillers fs xs)
      → Stands mem (opening name ∷ fillers fs xs) it
      → AreNamed valid_utf8 fuel mem strings name_at fs
      → length (opening name ∷ fillers fs xs) < fuel
      → length fs < fuel
      → 52 ≤ fuel
      → (node : RawNode) × (it' : BlockIter) × (next valid_utf8 fuel mem it
          ≡ ok (entry (begin_node node), it'))
        × (node.name ≡ name)
        × (props valid_utf8 strings fuel fuel mem node.props_ptr ≡ ok (named name_at fs))
  props-named name fs xs it some_prop h k are st n len f g =
      let given : GivesNode mem name (fillers fs xs) (next valid_utf8 fuel mem it) =
        unfold Gives drop_fillers in
        next-Gives valid_utf8 fuel mem it (opening name ∷ fillers fs xs) are st len g in
      let from = first_prop fs xs n some_prop in
      let lies : Lies mem (fillers from.left xs) given.node.props_ptr =
        subst (λ ys. Lies mem ys given.node.props_ptr) from.pieces
          (given.is_node.properties (ap token_of from.pieces ∙ from.first)) in
      (
        given.node,
        given.it,
        given.returns,
        given.is_node.same_name,
        props-fillers valid_utf8 fuel mem strings name_at from.left xs given.node.props_ptr h k
              from.are_named lies (omega (arith, from.less))
            ∙ ap ok from.same,
      )
