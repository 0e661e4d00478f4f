-- ===== src/Mm/FrameAllocator/Search.antt =====
-- The search of `alloc_frame` for a free frame.
use kruspix.Base.{
  ℕ, zero, suc, ◌+◌, ◌*◌, ◌/◌, ◌%◌, ◌^◌, ◌<◌, ◌≤◌, ◌≡◌, ◌≢◌, ◌⊎◌, refl, ◌∙◌, ap, true, false, inl,
  inr, arith, leb, ◌==◌, Bool-cases, ==→eq, not_==→ne, leb→le,
}
use kruspix.Base.Bits.{
  bit, set_bit, trailing_ones, trailing_ones-le, bit-below_ones, bit-at_ones, all_ones, bit-mask,
}
use native.Mathlib.Decide.{dec_lt, ℕ_discrete}
use kruspix.Mm.FrameAllocator.{FrameAllocator, Bitmap, write, word_max, alloc_loop}
use kruspix.Mm.FrameAllocator.Frames.{taken}

-- The word at the index of a frame.
taken-bit :
    (bitmap : Bitmap) (index n : ℕ) → n / 64 ≡ index → taken bitmap n ≡ bit (bitmap index) (n % 64)
unfolding taken
taken-bit bitmap index n e = ap (λ i. bit (bitmap i) (n % 64)) e

full_word :
    (bitmap : Bitmap) (index n : ℕ)
    → n / 64 ≡ index
    → bitmap index ≡ word_max
    → taken bitmap n ≡ true
full_word bitmap index n e full =
    taken-bit bitmap index n e ∙ ap (λ w. bit w (n % 64)) full ∙ bit-mask 64 (n % 64) ∙ ground arith

ones_word :
    (bitmap : Bitmap) (index n : ℕ)
    → n / 64 ≡ index
    → n < index * 64 + trailing_ones 64 (bitmap index)
    → taken bitmap n ≡ true
ones_word bitmap index n e h =
    taken-bit bitmap index n e ∙ bit-below_ones 64 (bitmap index) (n % 64) (omega arith)

-- The words are words.
abbrev pub Words : Bitmap → Type 0
Words bitmap = (i : ℕ) → bitmap i < 2 ^ 64

-- The search from word `index` on has found no frame.
abbrev NoneFree : FrameAllocator → Bitmap → ℕ → ℕ → Type 0
NoneFree f bitmap index rounds =
    (n : ℕ)
    → index * 64 ≤ n
    → n < (index + rounds) * 64
    → n < f.total_frames
    → taken bitmap n ≡ true

-- It has found the first free frame `n`.
abbrev FirstFree : FrameAllocator → Bitmap → ℕ → ℕ → Type 0
FirstFree f bitmap index n =
    (n < f.total_frames)
    × (taken bitmap n ≡ false)
    × ((m : ℕ) → index * 64 ≤ m → m < n → taken bitmap m ≡ true)

abbrev pub Found : FrameAllocator → Bitmap → ℕ → ℕ → ℕ × Bitmap → Type 0
Found f bitmap index rounds r =
    ((r ≡ (0, bitmap)) × NoneFree f bitmap index rounds)
    ⊎ ((i k : ℕ) × (k < 64)
        × (r ≡ (f.start + (i * 64 + k) * f.frame_size, write i (set_bit (bitmap i) k) bitmap))
        × FirstFree f bitmap index (i * 64 + k))

not_full : (w : ℕ) → w < 2 ^ 64 → w ≢ word_max → trailing_ones 64 w < 64
not_full w h ne = elim (dec_lt (trailing_ones 64 w) 64) [
  | yes lt ↦ lt
  | no ge ↦
      let e : trailing_ones 64 w ≡ 64 = omega (arith, trailing_ones-le 64 w) in
      absurd (ne (omega (arith, all_ones 64 w h e)))
]

-- A word of ones is passed over.
pass_full :
    (f : FrameAllocator) (bitmap : Bitmap) (index rounds : ℕ) (r : ℕ × Bitmap)
    → bitmap index ≡ word_max
    → Found f bitmap (index + 1) rounds r
    → Found f bitmap index (suc rounds) r
pass_full f bitmap index rounds r full (inl (e, none_free)) = inl (
  e,
  λ n lo hi small. elim (ℕ_discrete (n / 64) index) [
    | yes same ↦ full_word bitmap index n same full
    | no other ↦ none_free n (omega arith) (omega arith) small
  ],
)
pass_full f bitmap index rounds r full (inr (i, k, h, e, (small, free, first))) = inr (
  i,
  k,
  h,
  e,
  (
    small,
    free,
    λ m lo hi. elim (ℕ_discrete (m / 64) index) [
      | yes same ↦ full_word bitmap index m same full
      | no other ↦ first m (omega arith) hi
    ],
  ),
)

first_bit :
    (bitmap : Bitmap) (index t : ℕ)
    → t < 64
    → t ≡ trailing_ones 64 (bitmap index)
    → taken bitmap (index * 64 + t) ≡ false
first_bit bitmap index t h e =
    let low : (index * 64 + t) % 64 ≡ t = omega arith in
    taken-bit bitmap index (index * 64 + t) (omega arith)
    ∙ ap (bit (bitmap index)) (low ∙ e)
    ∙ bit-at_ones 64 (bitmap index) (omega arith)

pub alloc_loop-Found :
    (rounds index : ℕ) (f : FrameAllocator) (bitmap : Bitmap)
    → Words bitmap
    → Found f bitmap index rounds (alloc_loop rounds index f bitmap)
unfolding alloc_loop
alloc_loop-Found zero index f bitmap words = inl (refl, λ n lo hi t. absurd (omega arith))
alloc_loop-Found (suc rounds) index f bitmap words =
    let later = alloc_loop-Found rounds (index + 1) f bitmap words in
    let t = trailing_ones 64 (bitmap index) in
    elim (Bool-cases (bitmap index == word_max)) [
      | inl full ↦ rw full (pass_full f bitmap index rounds _ (==→eq _ _ full) later)
      | inr free ↦
          let t_lt = not_full (bitmap index) (words index) (not_==→ne _ _ free) in
          rw free (elim (Bool-cases (leb f.total_frames (index * 64 + t))) [
            | inl out ↦ rw out (
                inl (
                  refl,
                  λ n lo hi small.
                      ones_word bitmap index n (omega (arith, leb→le _ _ out))
                        (omega (arith, leb→le _ _ out)),
                ))
            | inr here ↦ rw here (
                inr (
                  index,
                  t,
                  t_lt,
                  refl,
                  (
                    ground arith,
                    first_bit bitmap index t t_lt refl,
                    λ m lo hi. ones_word bitmap index m (omega arith) hi,
                  ),
                ))
          ])
    ]
