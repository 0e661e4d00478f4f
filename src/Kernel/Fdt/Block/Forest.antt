-- ===== src/Kernel/Fdt/Block/Forest.antt =====
-- A tree of nodes as pieces, and the walk over it.
use kruspix.Base.{
  ℕ, zero, suc, ◌+◌, ◌-◌, ◌≤◌, ◌≡◌, refl, sym, ap, ◌∙◌, true, false, inl, inr, List, [], ◌∷◌, ◌++◌,
  arith, ltb, append_assoc, Bool-cases, ltb→lt, not_ltb→le, if◌then◌else◌,
}
use kruspix.Base.Text.{Bytes}
use kruspix.Kernel.Fdt.Block.Pieces.{Filler, nop, Piece, filler, opening, closing}
use kruspix.Kernel.Fdt.Block.Walk.{walk}

-- A node with the NOPs before it, its name, the NOPs and properties behind the name, its children, the NOPs
-- before its end, and the nodes behind it.
pub data Forest : Type 0 where
  nil : Forest
  node :
      (before : ℕ) (name : Bytes) (inside : List Filler) (children : Forest) (after : ℕ)
      (siblings : Forest)
      → Forest

unfoldable pub nops : ℕ → List Piece → List Piece
nops zero xs = xs
nops (suc n) xs = filler nop ∷ nops n xs

unfoldable pub fillers : List Filler → List Piece → List Piece
fillers [] xs = xs
fillers (f ∷ fs) xs = filler f ∷ fillers fs xs

-- The pieces of the forest, and then `xs`.
unfoldable pub pieces : Forest → List Piece → List Piece
pieces nil xs = xs
pieces (node before name inside children after siblings) xs =
    nops before
      (opening name ∷ fillers inside (pieces children (nops after (closing ∷ pieces siblings xs))))

unfoldable pub child_names : Forest → List Bytes
child_names nil = []
child_names (node before name inside children after siblings) = name ∷ child_names siblings

-- The nodes at most `depth` deep, each before its children, with the names of these.
unfoldable pub families : ℕ → Forest → List (Bytes × List Bytes)
families zero f = []
families (suc depth) nil = []
families (suc depth) (node before name inside children after siblings) =
    (name, child_names children) ∷ (families depth children ++ families (suc depth) siblings)

-- The same nodes, with what stands behind the name; `xs` stands behind the forest.
unfoldable pub places : ℕ → Forest → List Piece → List (Bytes × List Piece)
places zero f xs = []
places (suc depth) nil xs = []
places (suc depth) (node before name inside children after siblings) xs =
    let end = nops after (closing ∷ pieces siblings xs) in
    (name, fillers inside (pieces children end))
    ∷ (places depth children end ++ places (suc depth) siblings xs)

walk-nops : (m d n : ℕ) (xs : List Piece) → walk m (suc d) (nops n xs) ≡ walk m (suc d) xs
unfolding walk nops
walk-nops m d zero xs = refl
walk-nops m d (suc n) xs = walk-nops m d n xs

pub walk-fillers :
    (m d : ℕ) (fs : List Filler) (xs : List Piece)
    → walk m (suc d) (fillers fs xs) ≡ walk m (suc d) xs
unfolding walk fillers
walk-fillers m d [] xs = refl
walk-fillers m d (f ∷ fs) xs = walk-fillers m d fs xs

places-zero : (k : ℕ) (f : Forest) (xs : List Piece) → k ≡ 0 → places k f xs ≡ []
unfolding places
places-zero k f xs e = rw e refl

walk-begin :
    (m d : ℕ) (name : Bytes) (xs : List Piece)
    → walk m (suc d) (opening name ∷ xs) ≡ (
        if ltb (m + 1) (suc (suc d))
        then walk m (suc (suc d)) xs
        else (name, xs) ∷ walk m (suc (suc d)) xs)
unfolding walk
walk-begin m d name xs = refl

walk-finish : (m d : ℕ) (xs : List Piece) → walk m (suc d) (closing ∷ xs) ≡ walk m d xs
unfolding walk
walk-finish m d xs = refl

places-nil : (k : ℕ) (xs : List Piece) → places k nil xs ≡ []
unfolding places
places-nil zero xs = refl
places-nil (suc k) xs = refl

places-node :
    (k rest before : ℕ) (name : Bytes) (inside : List Filler) (children : Forest) (after : ℕ)
    (siblings : Forest) (xs : List Piece)
    → k ≡ suc rest
    → places k (node before name inside children after siblings) xs
      ≡ (name, fillers inside (pieces children (nops after (closing ∷ pieces siblings xs))))
        ∷ (places rest children (nops after (closing ∷ pieces siblings xs)) ++ places k siblings xs)
unfolding places
places-node k rest before name inside children after siblings xs e = rw e refl

-- The walk to the end of a node's children.
pub walk-end : (m d n : ℕ) (xs : List Piece) → walk m (suc d) (nops n (closing ∷ xs)) ≡ walk m d xs
walk-end m d n xs = walk-nops m d n (closing ∷ xs) ∙ walk-finish m d xs

none_left : (m d e : ℕ) → d ≤ e → ltb (m + 1) (suc (suc d)) ≡ true → m - e ≡ 0
none_left m d e le b = omega (arith, ltb→lt (m + 1) (suc (suc d)) b)

one_left : (m d : ℕ) → ltb (m + 1) (suc (suc d)) ≡ false → m - d ≡ suc (m - suc d)
one_left m d b = omega (arith, not_ltb→le (m + 1) (suc (suc d)) b)

-- A walk from the depth before `d + 1` passes the places that are deep enough, and goes on behind the forest.
pub walk-pieces :
    (m d : ℕ) (f : Forest) (xs : List Piece)
    → walk m (suc d) (pieces f xs) ≡ places (m - d) f xs ++ walk m (suc d) xs
unfolding pieces
walk-pieces m d nil xs = ap (λ w. w ++ walk m (suc d) xs) (sym (places-nil (m - d) xs))
walk-pieces m d (node before name inside children after siblings) xs =
    let end = nops after (closing ∷ pieces siblings xs) in
    let inner : walk m (suc (suc d)) (fillers inside (pieces children end))
        ≡ places (m - suc d) children end ++ (places (m - d) siblings xs ++ walk m (suc d) xs) =
      walk-fillers m (suc d) inside (pieces children end)
      ∙ walk-pieces m (suc d) children end
      ∙ ap (λ w. places (m - suc d) children end ++ w)
          (walk-end m (suc d) after (pieces siblings xs) ∙ walk-pieces m d siblings xs) in
    walk-nops m d before (opening name ∷ fillers inside (pieces children end))
    ∙ walk-begin m d name (fillers inside (pieces children end))
    ∙ elim (Bool-cases (ltb (m + 1) (suc (suc d)))) [
      | inl b ↦ rw b (
          inner
          ∙ ap (λ w. w ++ (places (m - d) siblings xs ++ walk m (suc d) xs))
              (places-zero (m - suc d) children end (none_left m d (suc d) (omega arith) b))
          ∙ ap (λ w. w ++ walk m (suc d) xs)
              (places-zero (m - d) siblings xs (none_left m d d (omega arith) b)
                ∙ sym (
                    places-zero (m - d) (node before name inside children after siblings) xs
                      (none_left m d d (omega arith) b))))
      | inr b ↦ rw b (
          ap (λ w. (name, fillers inside (pieces children end)) ∷ w)
            (inner
              ∙ sym (
                  append_assoc (places (m - suc d) children end) (places (m - d) siblings xs)
                    (walk m (suc d) xs)))
          ∙ ap (λ w. w ++ walk m (suc d) xs)
              (sym (
                places-node (m - d) (m - suc d) before name inside children after siblings xs
                  (one_left m d b))))
    ]
