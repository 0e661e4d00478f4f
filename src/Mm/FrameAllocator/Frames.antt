-- ===== src/Mm/FrameAllocator/Frames.antt =====
-- The frames that a bitmap marks as taken.
use kruspix.Base.{
  ℕ, zero, suc, ◌+◌, ◌*◌, ◌/◌, ◌%◌, ◌<◌, ◌≡◌, ap, Bool, true, false, arith, if◌then◌else◌, ltb,
  ◌==◌,
}
use kruspix.Base.Bits.{bit, set_bit, clear_bit, bit-set_bit, bit-clear_bit}
use kruspix.Mm.FrameAllocator.{Bitmap, write, fill}

-- frame `n` is bit `n % 64` of word `n / 64`
unfoldable pub taken : Bitmap → ℕ → Bool
taken bitmap n = bit (bitmap (n / 64)) (n % 64)

-- A frame is given by its word and its bit.
same_frame : (i k n : ℕ) → k < 64 → n / 64 ≡ i → n % 64 ≡ k → n ≡ i * 64 + k
same_frame i k n h p q = omega arith

pub taken-set :
    (bitmap : Bitmap) (i k n : ℕ)
    → k < 64
    → taken (write i (set_bit (bitmap i) k) bitmap) n
      ≡ (if n == i * 64 + k then true else taken bitmap n)
unfolding taken
taken-set bitmap i k n h =
    ground (
      arith,
      bit-set_bit (bitmap i) k (n % 64),
      same_frame i k n,
      ap (λ j. bit (bitmap j) (n % 64)),
    )

pub taken-clear :
    (bitmap : Bitmap) (m n : ℕ)
    → taken (write (m / 64) (clear_bit (bitmap (m / 64)) (m % 64)) bitmap) n
      ≡ (if n == m then false else taken bitmap n)
unfolding taken
taken-clear bitmap m n = ground (
  arith,
  bit-clear_bit (bitmap (m / 64)) (m % 64) (n % 64),
  same_frame (m / 64) (m % 64) n,
  ap (λ j. bit (bitmap j) (n % 64)),
)

pub fill_lem :
    (n value : ℕ) (bitmap : Bitmap) (i : ℕ)
    → fill n value bitmap i ≡ (if ltb i n then value else bitmap i)
unfolding fill
fill_lem zero value bitmap i = ground arith
fill_lem (suc n) value bitmap i = ground (arith, fill_lem n value bitmap i)
