-- ===== src/Mm/HeapAllocator/Writes.antt =====
-- Writes into an allocation, and the steps that take a block from a list or put one on it.
use kruspix.Base.{
  ℕ, ◌+◌, ◌<◌, ◌≤◌, ◌≡◌, ◌≢◌, inl, inr, refl, sym, ap, ◌∙◌, true, false, Bool-cases, List, [], ◌∷◌,
  ◌++◌, append_assoc, ◌==◌, arith, subst, ==→eq, eq→==, ne→not_==, not_==→ne,
}
use kruspix.Base.Bits.{pow_pos}
use kruspix.Mm.HeapAllocator.{Layout, head_index, store}
use kruspix.Mm.HeapAllocator.Sizes.{IsLayout}
use kruspix.Mm.HeapAllocator.Distinct.{NotIn, NoDup, All, NotIn-right, NoDup-insert, NoDup-delete}
use kruspix.Mm.HeapAllocator.Inv.{
  Live, Owners, Block, Held, AllHeld, Chain, extent, class, is_large, starts, set_free, Inv,
  free_in_held,
}

pub Chain-store :
    (mem : ℕ → ℕ) (p v q : ℕ) (xs : List ℕ)
    → NotIn p xs
    → Chain mem q xs
    → Chain (store p v mem) q xs
unfolding Chain NotIn
Chain-store mem p v q [] n h = h
Chain-store mem p v q (x ∷ xs) (ne, n) (e, h) =
    let other : (x == p) ≡ false = ne→not_== x p (λ d. ne (sym d)) in
    (e, rw other (Chain-store mem p v (mem x) xs n h))

pub starts-append : (c : ℕ) (ps qs : Live) → starts c (ps ++ qs) ≡ starts c ps ++ starts c qs
unfolding starts
starts-append c [] qs = refl
starts-append c ((a, l) ∷ ps) qs = elim (Bool-cases (class l == c)) [
  | inl e ↦ rw e (ap (λ (xs : List ℕ). a ∷ xs) (starts-append c ps qs))
  | inr e ↦ rw e (starts-append c ps qs)
]

pub starts-in :
    (c a : ℕ) (l : Layout) (live : Live)
    → class l ≡ c
    → starts c ((a, l) ∷ live) ≡ a ∷ starts c live
unfolding starts
starts-in c a l live e = rw (eq→== (class l) c e) refl

pub starts-out :
    (c a : ℕ) (l : Layout) (live : Live) → class l ≢ c → starts c ((a, l) ∷ live) ≡ starts c live
unfolding starts
starts-out c a l live e = rw (ne→not_== (class l) c e) refl

pub starts-middle :
    (c a : ℕ) (l : Layout) (ps qs : Live)
    → class l ≡ c
    → starts c (ps ++ (a, l) ∷ qs) ≡ starts c ps ++ a ∷ starts c qs
starts-middle c a l ps qs e =
    starts-append c ps ((a, l) ∷ qs) ∙ ap (λ xs. starts c ps ++ xs) (starts-in c a l qs e)

pub starts-without :
    (c a : ℕ) (l : Layout) (ps qs : Live)
    → class l ≢ c
    → starts c (ps ++ (a, l) ∷ qs) ≡ starts c (ps ++ qs)
starts-without c a l ps qs e =
    starts-append c ps ((a, l) ∷ qs)
    ∙ ap (λ xs. starts c ps ++ xs) (starts-out c a l qs e)
    ∙ sym (starts-append c ps qs)

pub AllHeld-middle :
    (owner : Owners) (pages a : ℕ) (l : Layout) (ps qs : Live)
    → AllHeld owner pages (ps ++ (a, l) ∷ qs)
    → Held owner pages a l × AllHeld owner pages (ps ++ qs)
unfolding AllHeld
AllHeld-middle owner pages a l [] qs h = h
AllHeld-middle owner pages a l ((b, m) ∷ ps) qs (k, h) =
    let (x, rest) = AllHeld-middle owner pages a l ps qs h in (x, (k, rest))

NotIn-middle_self : (a : ℕ) (xs ys : List ℕ) → NotIn a (xs ++ a ∷ ys) → ⊥
unfolding NotIn
NotIn-middle_self a [] ys (n, h) = n refl
NotIn-middle_self a (x ∷ xs) ys (n, h) = NotIn-middle_self a xs ys h

-- A place in an allocation is no free block.
not_free :
    (owner : Owners) (pages i a w : ℕ) (l : Layout) (ps qs : Live) (free : List ℕ)
    → i < 9
    → Held owner pages a l
    → a ≤ w
    → w < a + extent l
    → All (Block owner pages i) free
    → NoDup (free ++ starts i (ps ++ (a, l) ∷ qs))
    → NotIn w free
unfolding NotIn NoDup All
not_free owner pages i a w l ps qs [] lt h le u all d = tt
not_free owner pages i a w l ps qs (b ∷ free) lt h le u (k, all) (n, d) = (
  (λ (e : w ≡ b).
      let (c, same) =
        free_in_held owner pages a b i l lt h k (omega (arith, e, le)) (omega (arith, e, u)) in
      let here = NotIn-right b free (starts i (ps ++ (a, l) ∷ qs)) n in
      NotIn-middle_self b (starts i ps) (starts i qs) (
        subst (λ x. NotIn b (starts i ps ++ x ∷ starts i qs)) same
          (subst (NotIn b) (starts-middle i a l ps qs c) here))),
  not_free owner pages i a w l ps qs free lt h le u all d,
)

extent_pos : (l : Layout) → is_large l ≡ false → 0 < extent l
unfolding extent
extent_pos l e = rw e (pow_pos (head_index l + 4))

module _ (heads mem : ℕ → ℕ) (size a : ℕ) (l : Layout) (ps qs : Live)
    (inv : Inv heads mem size (ps ++ (a, l) ∷ qs)) where
  -- the allocation and the others
  abbrev both : Held inv.owner inv.pages a l × AllHeld inv.owner inv.pages (ps ++ qs)
  both = AllHeld-middle inv.owner inv.pages a l ps qs inv.held

  chains_kept :
      (w v i : ℕ)
      → a ≤ w
      → w < a + extent l
      → i < 9
      → NotIn w (inv.free i) × Chain (store w v mem) (heads i) (inv.free i)
  chains_kept w v i le u lt =
      let n =
        not_free inv.owner inv.pages i a w l ps qs (inv.free i) lt both.0 le u
          (inv.free_blocks i lt) (inv.distinct i lt) in
      (n, Chain-store mem w v (heads i) (inv.free i) n (inv.chain i lt))

  -- A write into an allocation leaves the lists as they are.
  pub Inv-store :
      (w v : ℕ) → a ≤ w → w < a + extent l → Inv heads (store w v mem) size (ps ++ (a, l) ∷ qs)
  Inv-store w v le u = record {
    owner = inv.owner;
    pages = inv.pages;
    free = inv.free;
    whole = inv.whole;
    bounded = inv.bounded;
    chain = λ i lt. (chains_kept w v i le u lt).1;
    free_blocks = inv.free_blocks;
    held = inv.held;
    distinct = inv.distinct;
    distinct_pages = inv.distinct_pages;
  }

  -- The allocation among those of its class.
  without :
      (c : ℕ) (xs : List ℕ)
      → class l ≡ c
      → NoDup (xs ++ starts c (ps ++ (a, l) ∷ qs))
      → NotIn a (xs ++ starts c (ps ++ qs)) × NoDup (xs ++ starts c (ps ++ qs))
  without c xs e d =
      let d' : NoDup ((xs ++ starts c ps) ++ a ∷ starts c qs) =
        subst NoDup
          (ap (λ ys. xs ++ ys) (starts-middle c a l ps qs e)
            ∙ sym (append_assoc xs (starts c ps) (a ∷ starts c qs)))
          d in
      let whole : (xs ++ starts c ps) ++ starts c qs ≡ xs ++ starts c (ps ++ qs) =
        append_assoc xs (starts c ps) (starts c qs)
        ∙ ap (λ ys. xs ++ ys) (sym (starts-append c ps qs)) in
      let (n, k) = NoDup-delete a (xs ++ starts c ps) (starts c qs) d' in
      (subst (NotIn a) whole n, subst NoDup whole k)

  -- Whole pages are given up.
  pub Inv-forget : is_large l ≡ true → Inv heads mem size (ps ++ qs)
  Inv-forget e = record {
    owner = inv.owner;
    pages = inv.pages;
    free = inv.free;
    whole = inv.whole;
    bounded = inv.bounded;
    chain = inv.chain;
    free_blocks = inv.free_blocks;
    held = both.1;
    distinct = λ i lt.
        subst (λ xs. NoDup (inv.free i ++ xs))
          (starts-without i a l ps qs
            (λ d. let nine : class l ≡ 9 = rw e refl in omega (arith, lt, sym nine ∙ d)))
          (inv.distinct i lt);
    distinct_pages = (without 9 [] (rw e refl) inv.distinct_pages).1;
  }

  -- A block is put on its list.
  pub Inv-push :
      (i : ℕ)
      → i < 9
      → is_large l ≡ false
      → head_index l ≡ i
      → Inv (store i a heads) (store a (heads i) mem) size (ps ++ qs)
  unfolding Chain All NoDup
  Inv-push i lt small e =
      let c : class l ≡ i = rw small e in
      let (fresh, apart) = without i (inv.free i) c (inv.distinct i lt) in
      let pos : a < a + extent l = omega (arith, extent_pos l small) in
      let blk = subst (λ n. Block inv.owner inv.pages n a) e (both.0.block small) in
      record {
        owner = inv.owner;
        pages = inv.pages;
        free = set_free i (a ∷ inv.free i) inv.free;
        whole = inv.whole;
        bounded = inv.bounded;
        chain = λ j lt'. (elim (Bool-cases (j == i)) [
          | inl d ↦
              let (n, k) = chains_kept a (heads i) i (omega arith) pos lt in
              let self : (a == a) ≡ true = eq→== a a refl in rw d (refl, rw self k)
          | inr d ↦ rw d ((chains_kept a (heads i) j (omega arith) pos lt').1)
        ]);
        free_blocks = λ j lt'. (elim (Bool-cases (j == i)) [
          | inl d ↦ rw d (
              subst (λ n. All (Block inv.owner inv.pages n) (a ∷ inv.free i)) (sym (==→eq j i d))
                (blk, inv.free_blocks i lt))
          | inr d ↦ rw d (inv.free_blocks j lt')
        ]);
        held = both.1;
        distinct = λ j lt'. (elim (Bool-cases (j == i)) [
          | inl d ↦ rw d (
              subst (λ n. NoDup ((a ∷ inv.free i) ++ starts n (ps ++ qs))) (sym (==→eq j i d))
                (fresh, apart))
          | inr d ↦ rw d (
              subst (λ xs. NoDup (inv.free j ++ xs))
                (starts-without j a l ps qs (λ k. not_==→ne j i d (sym k ∙ c)))
                (inv.distinct j lt'))
        ]);
        distinct_pages =
            subst NoDup (starts-without 9 a l ps qs (λ k. omega (arith, lt, sym c ∙ k)))
              inv.distinct_pages;
      }

-- The first block of a list that has one.
record Taken (owner : Owners) (pages i p : ℕ) (mem : ℕ → ℕ) (others : List ℕ) : Type 0 where
  rest : List ℕ
  block : Block owner pages i p
  blocks : All (Block owner pages i) rest
  chain : Chain mem (mem p) rest
  fresh : NotIn p (rest ++ others)
  apart : NoDup (rest ++ others)

taken :
    (free : List ℕ) (p : ℕ) (mem : ℕ → ℕ) (owner : Owners) (pages i : ℕ) (others : List ℕ)
    → p ≢ 0
    → Chain mem p free
    → All (Block owner pages i) free
    → NoDup (free ++ others)
    → Taken owner pages i p mem others
unfolding Chain All NoDup
taken [] p mem owner pages i others ne c b d = absurd (ne c)
taken (x ∷ free) p mem owner pages i others ne (e, c) (b, bs) (n, d) = record {
  rest = free;
  block = subst (Block owner pages i) (sym e) b;
  blocks = bs;
  chain = subst (λ y. Chain mem (mem y) free) (sym e) c;
  fresh = subst (λ y. NotIn y (free ++ others)) (sym e) n;
  apart = d;
}

-- A block is taken from its list.
pub Inv-take_head :
    (heads mem : ℕ → ℕ) (size i : ℕ) (l : Layout) (live : Live)
    → i < 9
    → IsLayout l
    → is_large l ≡ false
    → head_index l ≡ i
    → heads i ≢ 0
    → Inv heads mem size live
    → Inv (store i (mem (heads i)) heads) mem size ((heads i, l) ∷ live)
unfolding AllHeld
Inv-take_head heads mem size i l live lt h small e ne inv =
    let c : class l ≡ i = rw small e in
    let top =
      taken (inv.free i) (heads i) mem inv.owner inv.pages i (starts i live) ne (inv.chain i lt)
        (inv.free_blocks i lt) (inv.distinct i lt) in
    record {
      owner = inv.owner;
      pages = inv.pages;
      free = set_free i top.rest inv.free;
      whole = inv.whole;
      bounded = inv.bounded;
      chain = λ j lt'. (elim (Bool-cases (j == i)) [
        | inl d ↦ rw d top.chain
        | inr d ↦ rw d (inv.chain j lt')
      ]);
      free_blocks = λ j lt'. (elim (Bool-cases (j == i)) [
        | inl d ↦
            rw d (
              subst (λ n. All (Block inv.owner inv.pages n) top.rest) (sym (==→eq j i d))
                top.blocks)
        | inr d ↦ rw d (inv.free_blocks j lt')
      ]);
      held = (
        record {
          layout = h;
          block = λ k. subst (λ n. Block inv.owner inv.pages n (heads i)) (sym e) top.block;
          whole_pages = λ k. absurd (ground arith);
        },
        inv.held,
      );
      distinct = λ j lt'. (elim (Bool-cases (j == i)) [
        | inl d ↦ rw d (
            subst (λ n. NoDup (top.rest ++ starts n ((heads i, l) ∷ live))) (sym (==→eq j i d))
              (subst (λ xs. NoDup (top.rest ++ xs)) (sym (starts-in i (heads i) l live c))
                (NoDup-insert (heads i) top.rest (starts i live) top.fresh top.apart)))
        | inr d ↦ rw d (
            subst (λ xs. NoDup (inv.free j ++ xs))
              (sym (starts-out j (heads i) l live (λ k. not_==→ne j i d (sym k ∙ c))))
              (inv.distinct j lt'))
      ]);
      distinct_pages =
          subst NoDup (sym (starts-out 9 (heads i) l live (λ k. omega (arith, lt, sym c ∙ k))))
            inv.distinct_pages;
    }
