-- ===== src/Common/RingArray/Contents.antt =====
-- What a ring array holds, oldest item first, and what `push` and `clear` do to it.
use kruspix.Base.{
  ℕ, suc, ◌+◌, ◌-◌, ◌%◌, ◌<◌, ◌≤◌, ◌≡◌, refl, sym, ap, ◌∙◌, inl, inr, Bool, true, false, List, [],
  ◌∷◌, ◌++◌, append-nil, append_assoc, arith, if◌then◌else◌, Bool-cases, ne→not_==, length, set,
  take, drop, length-set, length-take, length-drop, length-append, length-replicate, take-length,
  drop-length, take-suc-set, drop-suc-set, drop-drop, drop-append,
}
use native.Mathlib.Nat.{mod-eq_of_lt, mod_self}
use native.Mathlib.Decide.{dec_lt}
use kruspix.Common.RingArray.{RingArray, new, push, clear, len}

module _ {ℓ} {A : Type ℓ} where
  -- the items, oldest first
  abbrev pub contents : RingArray A → List A
  contents r = (if r.full then drop r.index r.buffer else []) ++ take r.index r.buffer

  -- the newest `n` items of a list
  abbrev pub last : ℕ → List A → List A
  last n xs = drop (length xs - n) xs

pub mod_bound : (N n : ℕ) → 0 < N → n % N < N
mod_bound N n h = grind arith

wraps : (n N : ℕ) → n ≡ N → n % N ≡ 0
wraps n N e = rw e (mod_self N)

module _ {ℓ} {A : Type ℓ} (N : ℕ) where
  pub record IsValid (r : RingArray A) : Type ℓ where
    pub size : length r.buffer ≡ N
    pub in_range : r.index < N

  pub new-IsValid : (v : A) → 0 < N → IsValid (new N v)
  unfolding new
  new-IsValid v h = record { size = length-replicate N v; in_range = h }

  pub push-IsValid : (r : RingArray A) (x : A) → IsValid r → IsValid (push N r x)
  unfolding push
  push-IsValid r x v = record {
    size = length-set r.buffer r.index x ∙ v.size;
    in_range = mod_bound N (r.index + 1) (let h = v.in_range in omega arith);
  }

  pub clear-IsValid : (r : RingArray A) → IsValid r → IsValid (clear N r)
  unfolding clear
  clear-IsValid r v = record { size = v.size; in_range = let h = v.in_range in omega arith }

  pub len-contents : (r : RingArray A) → IsValid r → len N r ≡ length (contents r)
  unfolding len
  len-contents r v = elim (Bool-cases r.full) [
    | inl e ↦ rw e (
        omega (
          arith,
          length-append (drop r.index r.buffer) (take r.index r.buffer),
          length-drop r.index r.buffer,
          length-take r.index r.buffer,
        ))
    | inr e ↦ rw e (omega (arith, length-take r.index r.buffer))
  ]

  -- One step round the ring, in a buffer that is full.
  pub step_round :
      (c : List A) (i : ℕ)
      → length c ≡ N
      → i < N
      → drop ((i + 1) % N) c ++ take ((i + 1) % N) c ≡ drop (suc i) c ++ take (suc i) c
  step_round c i size h = elim (dec_lt (i + 1) N) [
    | yes lt ↦ let e : (i + 1) % N ≡ suc i = mod-eq_of_lt lt ∙ omega arith in rw e
    | no ge ↦
        let e : (i + 1) % N ≡ 0 = wraps (i + 1) N (omega arith) in
        rw (e, drop-length (suc i) c (omega arith), take-length (suc i) c (omega arith))
          (append-nil c)
  ]

  pub length-contents : (r : RingArray A) → IsValid r → length (contents r) ≤ N
  unfolding len
  length-contents r v = elim (Bool-cases r.full) [
    | inl e ↦ omega (arith, len-contents r v, ap (λ b. if b then N else r.index) e)
    | inr e ↦ omega (arith, len-contents r v, ap (λ b. if b then N else r.index) e)
  ]

  -- The items of a full buffer, with one more at the end, and the oldest dropped.
  shifted :
      (b : List A) (i : ℕ) (x : A)
      → length b ≡ N
      → i < N
      → last N ((drop i b ++ take i b) ++ x ∷ []) ≡ drop (suc i) b ++ (take i b ++ x ∷ [])
  shifted b i x size h =
      let n : length ((drop i b ++ take i b) ++ x ∷ []) - N ≡ 1 = omega (
        arith,
        length-append (drop i b ++ take i b) (x ∷ []),
        length-append (drop i b) (take i b),
        length-drop i b,
        length-take i b,
      ) in
      let s : i + 1 ≡ suc i = omega arith in
      rw (
        n,
        append_assoc,
        drop-append 1 (drop i b) (take i b ++ x ∷ []) (omega (arith, length-drop i b)),
        drop-drop,
        s,
      )

  short : (xs : List A) → length xs ≤ N → last N xs ≡ xs
  short xs h = let e : length xs - N ≡ 0 = omega arith in rw e

  push-full :
      (b : List A) (i : ℕ) (x : A)
      → length b ≡ N
      → i < N
      → contents (push N (record { buffer = b; index = i; full = true }) x)
        ≡ last N ((drop i b ++ take i b) ++ x ∷ [])
  unfolding push
  push-full b i x size h =
      step_round (set b i x) i (length-set b i x ∙ size) h
      ∙ (rw (drop-suc-set, take-suc-set b i x (omega arith)) (sym (shifted b i x size h)))

  push-part :
      (b : List A) (i : ℕ) (x : A)
      → length b ≡ N
      → i < N
      → contents (push N (record { buffer = b; index = i; full = false }) x)
        ≡ last N (take i b ++ x ∷ [])
  unfolding push
  push-part b i x size h =
      let fits : length (take i b ++ x ∷ []) ≤ N =
        omega (arith, length-append (take i b) (x ∷ []), length-take i b) in
      elim (dec_lt (i + 1) N) [
        | yes lt ↦
            let e : (i + 1) % N ≡ suc i = mod-eq_of_lt lt ∙ omega arith in
            rw (e, ne→not_== (suc i) 0 (omega arith), short (take i b ++ x ∷ []) fits)
              (take-suc-set b i x (omega arith))
        | no ge ↦
            let e : (i + 1) % N ≡ 0 = wraps (i + 1) N (omega arith) in
            rw (e, short (take i b ++ x ∷ []) fits)
              (append-nil (set b i x)
                ∙ sym (take-length (suc i) (set b i x) (omega (arith, length-set b i x)))
                ∙ take-suc-set b i x (omega arith))
      ]

  push-parts :
      (f : Bool) (b : List A) (i : ℕ) (x : A)
      → length b ≡ N
      → i < N
      → let r : RingArray A = record { buffer = b; index = i; full = f } in
        contents (push N r x) ≡ last N (contents r ++ x ∷ [])
  push-parts true = push-full
  push-parts false = push-part

  -- A push to a valid array appends its item to what the array holds, oldest first, and drops the oldest
  -- if that are more than `N`.
  pub push-contents :
      (r : RingArray A) (x : A) → IsValid r → contents (push N r x) ≡ last N (contents r ++ x ∷ [])
  push-contents r x v = push-parts r.full r.buffer r.index x v.size v.in_range

  pub contents-clear : (r : RingArray A) → contents (clear N r) ≡ []
  unfolding clear
  contents-clear r = refl
