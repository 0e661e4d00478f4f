-- ===== src/Kernel/Fdt/Block/Entries.antt =====
-- What the iterator over the structure block gives, where it skips the properties.
use kruspix.Base.{
  ℕ, ◌+◌, ◌*◌, ◌<◌, ◌≤◌, ◌≡◌, refl, ap, Bool, true, false, ◌||◌, ◌⊎◌, inl, inr, List, [], ◌∷◌, ◌++◌,
  length, arith, ◌==◌, if◌then◌else◌, subst, Bool-cases, ne→not_==,
}
use kruspix.Base.Outcome.{Outcome, ok, ◌>>=◌}
use kruspix.Base.Text.{Bytes}
use kruspix.Kernel.Fdt.Memory.{Memory, At-word}
use kruspix.Kernel.Fdt.Block.{
  fdt_begin_node, fdt_prop, fdt_end, RawNode, Item, nothing, error, entry, begin_node, end_node,
  BlockIter, next_non_nop_token, next_non_nop_token_without_props, after_name, counted,
  at_begin_node, at_end, match_token, next,
}
use kruspix.Kernel.Fdt.Block.Pieces.{
  Piece, filler, opening, closing, pad_name, encode_piece, encode, IsPiece, ArePieces, Lies,
  token_of,
}
use kruspix.Kernel.Fdt.Block.Names.{more_words, more_words-le, name_parts-At, cstr-pad_name}
use kruspix.Kernel.Fdt.Block.Tokens.{
  drop_nops, drop_fillers, drop_fillers-drop_nops, length-drop_nops, length-drop_fillers,
  ArePieces-drop_fillers, ArePieces-drop_nops, Finds, next_non_nop_token-Finds, without_props-Finds,
}

-- The pieces `xs` lie where the iterator is.
pub record Stands (mem : Memory) (xs : List Piece) (it : BlockIter) : Type 0 where
  pub lies : Lies mem xs it.token_be_ptr
  pub going : (it.prev_token == fdt_end) ≡ false
  pub skipping : it.skip_props ≡ true

-- The node begins with `name`, and `xs` is what stands behind its name.
pub record IsNode (mem : Memory) (name : Bytes) (xs : List Piece) (node : RawNode) : Type 0 where
  pub same_name : node.name ≡ name
  pub children : (token_of (drop_fillers xs) ≡ 1) → Lies mem (drop_fillers xs) node.children_ptr
  pub no_children : (token_of (drop_fillers xs) == 1) ≡ false → node.children_ptr ≡ 0
  pub properties : (token_of (drop_nops xs) ≡ 3) → Lies mem (drop_nops xs) node.props_ptr

pub record GivesNode (mem : Memory) (name : Bytes) (xs : List Piece)
    (run : Outcome (Item × BlockIter)) : Type 0 where
  pub node : RawNode
  pub it : BlockIter
  pub returns : run ≡ ok (entry (begin_node node), it)
  pub stands : Stands mem (drop_nops xs) it
  pub is_node : IsNode mem name xs node

pub record GivesEnd (mem : Memory) (xs : List Piece) (run : Outcome (Item × BlockIter))
    : Type 0 where
  pub it : BlockIter
  pub returns : run ≡ ok (entry end_node, it)
  pub stands : Stands mem xs it

abbrev pub Stops : Outcome (Item × BlockIter) → Type 0
Stops run = (it : BlockIter) × ((run ≡ ok (nothing, it)) ⊎ (run ≡ ok (error, it)))

-- What `next` gives at pieces without fillers at the front.
unfoldable pub Gives : Memory → List Piece → Outcome (Item × BlockIter) → Type 0
Gives mem [] run = Stops run
Gives mem (filler f ∷ xs) run = Unit {0}
Gives mem (opening name ∷ xs) run = GivesNode mem name xs run
Gives mem (closing ∷ xs) run = GivesEnd mem xs run

module _ (valid_utf8 : Bytes → Bool) where
  is_node_lem :
      (mem : Memory) (name : Bytes) (xs : List Piece) (behind ptr : ℕ)
      → Lies mem (drop_nops xs) behind
      → Lies mem (drop_fillers xs) ptr
      → IsNode mem name xs (record {
        name = name;
        props_ptr = if token_of (drop_nops xs) == fdt_prop then behind else 0;
        children_ptr = if token_of (drop_fillers xs) == fdt_begin_node then ptr else 0;
      })
  is_node_lem mem name xs behind ptr b l = record {
    same_name = refl;
    children = λ e. rw e l;
    no_children = λ e. rw e refl;
    properties = λ e. rw e b;
  }

  Gives-after_name :
      (fuel : ℕ) (mem : Memory) (it : BlockIter) (name : Bytes) (xs : List Piece) (count : ℕ)
      → ArePieces valid_utf8 xs
      → Lies mem xs (it.token_be_ptr + 4 * (1 + count))
      → it.skip_props ≡ true
      → length xs < fuel
      → GivesNode mem name xs (after_name valid_utf8 fuel mem it name count)
  unfolding after_name
  Gives-after_name fuel mem it name xs count h l sk f =
      let a = next_non_nop_token-Finds fuel mem xs (it.token_be_ptr + 4 * (1 + count)) l f in
      let b =
        subst (λ ys. Finds mem ys (next_non_nop_token_without_props fuel mem a.ptr))
          (drop_fillers-drop_nops xs)
          (without_props-Finds valid_utf8 fuel mem (drop_nops xs) a.ptr
            (ArePieces-drop_nops valid_utf8 xs h) a.lies (omega (arith, length-drop_nops xs))) in
      rw (a.returns, b.returns)
        (record {
          node = record {
            name = name;
            props_ptr = if token_of (drop_nops xs) == fdt_prop then a.ptr else 0;
            children_ptr = if token_of (drop_fillers xs) == fdt_begin_node then b.ptr else 0;
          };
          it = record it { token_be_ptr = a.ptr; prev_token = fdt_begin_node };
          returns = refl;
          stands = record { lies = a.lies; going = refl; skipping = sk };
          is_node = is_node_lem mem name xs a.ptr b.ptr a.lies b.lies;
        })

  Gives-at_begin_node :
      (fuel : ℕ) (mem : Memory) (it : BlockIter) (name : Bytes) (xs : List Piece)
      → IsPiece valid_utf8 (opening name)
      → ArePieces valid_utf8 xs
      → Lies mem (opening name ∷ xs) it.token_be_ptr
      → it.skip_props ≡ true
      → length xs < fuel
      → 52 ≤ fuel
      → GivesNode mem name xs (at_begin_node valid_utf8 fuel mem it)
  unfolding at_begin_node counted IsPiece encode encode_piece
  Gives-at_begin_node fuel mem it name xs (chars, short, valid) hs l sk f g =
      let p = it.token_be_ptr in
      let at = (At-word mem p 1 (pad_name name ++ encode xs) (omega arith) l.here).1 in
      let s = cstr-pad_name fuel mem (p + 4) name (encode xs) chars at (omega arith) in
      let (parts, behind) =
        name_parts-At 13 1 mem p name (encode xs) chars at (omega (arith, more_words-le name)) in
      let l' : Lies mem xs (p + 4 * (1 + (1 + more_words name))) = record {
        here = behind;
        on_word = omega (arith, l.on_word);
        positive = omega arith;
      } in
      rw (s, valid, parts) (Gives-after_name fuel mem it name xs (1 + more_words name) hs l' sk f)

  Gives-match_token :
      (fuel : ℕ) (mem : Memory) (it : BlockIter) (xs : List Piece) (p : ℕ)
      → ArePieces valid_utf8 xs
      → Lies mem xs p
      → it.skip_props ≡ true
      → length xs < fuel
      → 52 ≤ fuel
      → Gives mem xs (match_token valid_utf8 fuel mem it (token_of xs, p))
  unfolding match_token at_end Gives ArePieces encode encode_piece
  Gives-match_token fuel mem it [] p h l sk f g =
      let e = (it.prev_token == fdt_begin_node) || (it.prev_token == fdt_prop) in
      let it' = record it { token_be_ptr = 0; prev_token = fdt_end } in
      elim (Bool-cases e) [ inl b ↦ (it', inr (rw b refl)) | inr b ↦ (it', inl (rw b refl)) ]
  Gives-match_token fuel mem it (filler x ∷ xs) p h l sk f g = tt
  Gives-match_token fuel mem it (opening name ∷ xs) p (h, hs) l sk f g =
      Gives-at_begin_node fuel mem (record it { token_be_ptr = p }) name xs h hs l sk (omega arith)
        g
  Gives-match_token fuel mem it (closing ∷ xs) p (h, hs) l sk f g = record {
    it = record it { token_be_ptr = p + 4; prev_token = 2 };
    returns = refl;
    stands = record {
      lies = record {
        here = (At-word mem p 2 (encode xs) (omega arith) l.here).1;
        on_word = omega (arith, l.on_word);
        positive = omega arith;
      };
      going = refl;
      skipping = sk;
    };
  }

  next-skips :
      (fuel : ℕ) (mem : Memory) (it : BlockIter)
      → (it.prev_token == fdt_end) ≡ false
      → (it.token_be_ptr == 0) ≡ false
      → it.skip_props ≡ true
      → next valid_utf8 fuel mem it ≡ (
          next_non_nop_token_without_props fuel mem it.token_be_ptr
          >>= match_token valid_utf8 fuel mem it)
  unfolding next
  next-skips fuel mem it going not_null skipping =
      rw (going, not_null)
        (ap
          (λ b.
            (if b
              then next_non_nop_token_without_props fuel mem it.token_be_ptr
              else next_non_nop_token fuel mem it.token_be_ptr)
            >>= match_token valid_utf8 fuel mem it)
          skipping)

  pub next-Gives :
      (fuel : ℕ) (mem : Memory) (it : BlockIter) (xs : List Piece)
      → ArePieces valid_utf8 xs
      → Stands mem xs it
      → length xs < fuel
      → 52 ≤ fuel
      → Gives mem (drop_fillers xs) (next valid_utf8 fuel mem it)
  next-Gives fuel mem it xs h st f g =
      let found = without_props-Finds valid_utf8 fuel mem xs it.token_be_ptr h st.lies f in
      let not_null : (it.token_be_ptr == 0) ≡ false =
        ne→not_== it.token_be_ptr 0 (λ e. omega (arith, e, st.lies.positive)) in
      rw (next-skips fuel mem it st.going not_null st.skipping, found.returns)
        (Gives-match_token fuel mem it (drop_fillers xs) found.ptr
          (ArePieces-drop_fillers valid_utf8 xs h) found.lies st.skipping
          (omega (arith, length-drop_fillers xs)) g)
