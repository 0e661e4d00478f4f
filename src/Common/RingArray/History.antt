-- ===== src/Common/RingArray/History.antt =====
-- What a ring array holds after any sequence of pushes, and what its iterator visits.
use kruspix.Base.{
  ℕ, zero, suc, ◌+◌, ◌-◌, ◌%◌, ◌<◌, ◌≤◌, ◌≡◌, refl, sym, ap, ◌∙◌, Bool, true, false, some, List, [],
  ◌∷◌, ◌++◌, append-nil, append_assoc, arith, length, get_elem?, take, drop, min, ne→not_==,
  get_elem?-split, take-append_left, take-length, length-take, length-drop, length-append,
  drop-append, drop-drop,
}
use kruspix.Common.RingArray.{RingArray, new, push, iter, next, collect, len}
use kruspix.Common.RingArray.Contents.{
  contents, last, mod_bound, step_round, IsValid, new-IsValid, push-IsValid, push-contents,
  len-contents, length-contents,
}

module _ {ℓ} {A : Type ℓ} (N : ℕ) where
  unfoldable pub push_all : RingArray A → List A → RingArray A
  push_all r [] = r
  push_all r (x ∷ xs) = push_all (push N r x) xs

  pub push_all-IsValid : (xs : List A) (r : RingArray A) → IsValid N r → IsValid N (push_all r xs)
  unfolding push_all
  push_all-IsValid [] r v = v
  push_all-IsValid (x ∷ xs) r v = push_all-IsValid xs (push N r x) (push-IsValid N r x v)

  -- Only the newest `N` items of a prefix matter to the newest `N` of the whole.
  last-last-append : (ys xs : List A) → last N (last N ys ++ xs) ≡ last N (ys ++ xs)
  last-last-append ys xs =
      let d = length ys - N in
      let total : length (drop d ys ++ xs) + d ≡ length (ys ++ xs) =
        omega (arith, length-append (drop d ys) xs, length-append ys xs, length-drop d ys) in
      let e : d + (length (drop d ys ++ xs) - N) ≡ length (ys ++ xs) - N =
        omega (arith, total, length-append (drop d ys) xs, length-drop d ys) in
      let s : drop d (ys ++ xs) ≡ drop d ys ++ xs = drop-append d ys xs (omega arith) in
      ap (drop (length (drop d ys ++ xs) - N)) (sym s)
      ∙ drop-drop (length (drop d ys ++ xs) - N) d (ys ++ xs)
      ∙ ap (λ k. drop k (ys ++ xs)) e

  pub push_all-contents :
      (xs : List A) (r : RingArray A)
      → IsValid N r
      → contents (push_all r xs) ≡ last N (contents r ++ xs)
  unfolding push_all
  push_all-contents [] r v =
      let e : length (contents r ++ []) - N ≡ 0 =
        rw append-nil (omega (arith, length-contents N r v)) in
      rw e (sym (append-nil (contents r)))
  push_all-contents (x ∷ xs) r v =
      push_all-contents xs (push N r x) (push-IsValid N r x v)
      ∙ ap (λ ys. last N (ys ++ xs)) (push-contents N r x v)
      ∙ last-last-append (contents r ++ x ∷ []) xs
      ∙ ap (last N) (append_assoc (contents r) (x ∷ []) xs)

  -- After any sequence of pushes into a new array of a capacity that is not 0, what it holds is the
  -- newest `N` items of the sequence, oldest first, and its length is the smaller of the two.
  pub push_all-new :
      (fill : A) (xs : List A)
      → 0 < N
      → (contents (push_all (new N fill) xs) ≡ last N xs)
        × (len N (push_all (new N fill) xs) ≡ min (length xs) N)
  unfolding new
  push_all-new fill xs h =
      let v = new-IsValid N fill h in
      let held = push_all-contents xs (new N fill) v in
      (
        held,
        len-contents N (push_all (new N fill) xs) (push_all-IsValid xs (new N fill) v)
            ∙ ap length held
            ∙ length-drop (length xs - N) xs
            ∙ omega arith,
      )

  next-some :
      (b : List A) (pos count : ℕ) (x : A)
      → get_elem? b pos ≡ some x
      → next N (record { buffer = b; pos = pos; count = suc count })
        ≡ some (x, record { buffer = b; pos = (pos + 1) % N; count = count })
  unfolding next
  next-some b pos count x e =
      let one : suc count - 1 ≡ count = omega arith in
      rw (ne→not_== (suc count) 0 (omega arith), e, one)

  -- The iterator from `pos` visits the buffer from there on, going round at its end.
  collect-take :
      (b : List A) (fuel pos count : ℕ)
      → length b ≡ N
      → pos < N
      → count ≤ N
      → count ≤ fuel
      → collect N fuel (record { buffer = b; pos = pos; count = count })
        ≡ take count (drop pos b ++ take pos b)
  unfolding collect
  collect-take b zero pos zero size h le enough = refl
  collect-take b zero pos (suc count) size h le enough = absurd (omega arith)
  collect-take b (suc fuel) pos zero size h le enough = none-left
    where
      none-left : collect N (suc fuel) (record { buffer = b; pos = pos; count = 0 }) ≡ []
      none-left = unfold next in refl
  collect-take b (suc fuel) pos (suc count) size h le enough =
      let (x, e, d, t) = get_elem?-split b pos (omega arith) in
      let fits : count ≤ length (drop (suc pos) b ++ take pos b) = omega (
        arith,
        length-append (drop (suc pos) b) (take pos b),
        length-drop (suc pos) b,
        length-take pos b,
      ) in
      let rest =
        collect-take b fuel ((pos + 1) % N) count size (mod_bound N (pos + 1) (omega arith))
          (omega arith) (omega arith) in
      rw (next-some b pos count x e, collect, d)
        (ap (◌∷◌ x) (
          rest
          ∙ ap (take count) (
              step_round N b pos size h
              ∙ ap (◌++◌ (drop (suc pos) b)) t
              ∙ sym (append_assoc (drop (suc pos) b) (take pos b) (x ∷ [])))
          ∙ take-append_left count (drop (suc pos) b ++ take pos b) (x ∷ []) fits))

  iter-parts :
      (f : Bool) (b : List A) (i fuel : ℕ)
      → length b ≡ N
      → i < N
      → let r : RingArray A = record { buffer = b; index = i; full = f } in
        len N r ≤ fuel → collect N fuel (iter N r) ≡ contents r
  unfolding iter len
  iter-parts true b i fuel size h enough =
      collect-take b fuel i N size h (omega arith) enough
      ∙ take-length N (drop i b ++ take i b)
          (omega (arith, length-append (drop i b) (take i b), length-drop i b, length-take i b))
  iter-parts false b i fuel size h enough =
      collect-take b fuel 0 i size (omega arith) (omega arith) enough ∙ ap (take i) (append-nil b)

  -- Iterating over a valid array, with fuel for as many rounds as it has items, visits each once, oldest
  -- first.
  pub iter-contents :
      (r : RingArray A) (fuel : ℕ)
      → IsValid N r
      → len N r ≤ fuel
      → collect N fuel (iter N r) ≡ contents r
  iter-contents r fuel v = iter-parts r.full r.buffer r.index fuel v.size v.in_range
