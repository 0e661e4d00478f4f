-- ===== src/Common/RingArray/Drain.antt =====
-- `drain`: what it writes to the destination, what it leaves, and where it panics.
use kruspix.Base.{
  ℕ, zero, suc, ◌+◌, ◌-◌, ◌<◌, ◌≤◌, ◌≡◌, refl, sym, ap, ◌∙◌, inl, inr, Bool, true, false, none,
  some, List, [], ◌++◌, append-nil, append_assoc, arith, if◌then◌else◌, ltb, ◌==◌, length, take,
  drop, min, ne→not_==, Bool-cases, lt→ltb, le→not_ltb, length-drop, take-length, drop-drop,
  take-append_left_all, drop-append_right,
}
use kruspix.Common.RingArray.{RingArray, clear, copy_from_slice, drain, len}
use kruspix.Common.RingArray.Contents.{contents, IsValid, len-contents}

module _ {ℓ} {A : Type ℓ} where
  copy_first :
      (dst src : List A) (from part : ℕ)
      → copy_from_slice dst 0 src from part ≡ take part (drop from src) ++ drop part dst
  unfolding copy_from_slice
  copy_first dst src from part = let e : 0 + part ≡ part = omega arith in rw e

  -- The second copy follows a first one that ended at `at`.
  copy_second :
      (xs rest src : List A) (at part : ℕ)
      → length xs ≡ at
      → copy_from_slice (xs ++ rest) at src 0 part ≡ xs ++ (take part src ++ drop part rest)
  unfolding copy_from_slice
  copy_second xs rest src at part e =
      let d : at + part - length xs ≡ part = omega arith in
      rw (take-append_left_all at xs rest e, drop-append_right (at + part) xs rest (omega arith), d)

module _ {ℓ} {A : Type ℓ} (N : ℕ) where
  two_copies :
      (b : List A) (i : ℕ) (dst : List A)
      → length b ≡ N
      → i < N
      → N ≤ length dst
      → let dst' = copy_from_slice dst 0 b i (N - i) in
        (if ltb (N - i) N then copy_from_slice dst' (N - i) b 0 (N - (N - i)) else dst')
        ≡ (drop i b ++ take i b) ++ drop N dst
  two_copies b i dst size h room =
      let tail : take (N - i) (drop i b) ≡ drop i b =
        take-length (N - i) (drop i b) (omega (arith, length-drop i b)) in
      let first : copy_from_slice dst 0 b i (N - i) ≡ drop i b ++ drop (N - i) dst =
        copy_first dst b i (N - i) ∙ ap (λ xs. xs ++ drop (N - i) dst) tail in
      rw first (split i h)
    where
      split :
          (i : ℕ)
          → i < N
          → (if ltb (N - i) N
              then copy_from_slice (drop i b ++ drop (N - i) dst) (N - i) b 0 (N - (N - i))
              else drop i b ++ drop (N - i) dst)
            ≡ (drop i b ++ take i b) ++ drop N dst
      split zero h =
          rw (le→not_ltb (N - 0) N (omega arith), append-nil)
            (ap (λ k. b ++ drop k dst) (omega arith))
      split (suc k) h =
          let back : N - (N - suc k) ≡ suc k = omega arith in
          let sum : N - suc k + suc k ≡ N = omega arith in
          rw
            (
              lt→ltb (N - suc k) N (omega arith),
              back,
              copy_second (drop (suc k) b) (drop (N - suc k) dst) b (N - suc k) (suc k)
                  (length-drop (suc k) b ∙ omega arith),
              drop-drop,
              sum,
            )
            (sym (append_assoc (drop (suc k) b) (take (suc k) b) (drop N dst)))

  drain-parts :
      (f : Bool) (b : List A) (i : ℕ) (dst : List A)
      → length b ≡ N
      → i < N
      → let r : RingArray A = record { buffer = b; index = i; full = f } in
        len N r ≤ length dst
        → drain N r dst ≡ some (len N r, contents r ++ drop (len N r) dst, clear N r)
  unfolding drain
  drain-parts true b i dst size h room =
      let m : min N (length dst) ≡ N = omega arith in
      let p : min (N - i) N ≡ N - i = omega arith in
      rw (
        le→not_ltb (length dst) N room,
        ne→not_== (length dst) 0 (omega arith),
        m,
        p,
        two_copies b i dst size h room,
      )
  drain-parts false b zero dst size h room = elim (Bool-cases (length dst == 0)) [
    | inl e ↦ rw (le→not_ltb (length dst) 0 room, e)
    | inr e ↦ rw (le→not_ltb (length dst) 0 room, e)
  ]
  drain-parts false b (suc i) dst size h room =
      let m : min (suc i) (length dst) ≡ suc i = omega arith in
      let p : min (N - 0) (suc i) ≡ suc i = omega arith in
      rw (
        le→not_ltb (length dst) (suc i) room,
        ne→not_== (length dst) 0 (omega arith),
        ne→not_== (suc i) 0 (omega arith),
        m,
        p,
        le→not_ltb (suc i) (suc i) (omega arith),
        copy_first dst b 0 (suc i),
      )

  -- With room in `dst` for all the items of a valid array, `drain` writes them to its front, oldest
  -- first, leaves the rest of `dst` alone, returns their number, and empties the array.
  pub drain_lem :
      (r : RingArray A) (dst : List A)
      → IsValid N r
      → len N r ≤ length dst
      → (drain N r dst ≡ some (length (contents r), contents r ++ drop (len N r) dst, clear N r))
        × (contents (clear N r) ≡ [])
  unfolding clear
  drain_lem r dst v room =
      let n = len-contents N r v in
      (
        drain-parts r.full r.buffer r.index dst v.size v.in_range room
            ∙ ap (λ k. some (k, contents r ++ drop (len N r) dst, clear N r)) n,
        refl,
      )

  -- With less room than items, the assertion of `drain` fails.
  pub drain-none : (r : RingArray A) (dst : List A) → length dst < len N r → drain N r dst ≡ none
  unfolding drain
  drain-none r dst h = rw (lt→ltb (length dst) (len N r) h)
