-- ===== src/Mm/FrameAllocator/Alloc.antt =====
-- `alloc_frame` and `dealloc_frame` against the set of frames that are taken.
use kruspix.Base.{
  ℕ, ◌+◌, ◌*◌, ◌/◌, ◌%◌, ◌^◌, ◌<◌, ◌≤◌, ◌≡◌, ◌⊎◌, ◌∙◌, ap, true, false, inl, inr, arith,
  if◌then◌else◌, ◌==◌, sub64,
}
use kruspix.Base.Bits.{set_bit-lt, clear_bit-le}
use native.Mathlib.Decide.{dec_lt}
use native.Mathlib.Nat.{mul-div_left}
use kruspix.Mm.FrameAllocator.{FrameAllocator, Bitmap, alloc_frame, dealloc_frame}
use kruspix.Mm.FrameAllocator.Frames.{taken, taken-set, taken-clear}
use kruspix.Mm.FrameAllocator.Search.{Words, Found, alloc_loop-Found}

-- What an allocator and its bitmap satisfy: the bitmap has a bit for each frame, and the frames that
-- hold the bitmap are taken.
pub record IsValid (f : FrameAllocator) (bitmap : Bitmap) : Type 0 where
  pub words : Words bitmap
  pub size : 0 < f.frame_size
  pub room : f.total_frames ≤ f.bitmap_frames * f.frame_size / 8 * 64
  pub in_space : f.start + f.total_frames * f.frame_size < 2 ^ 64
  pub reserved : (n : ℕ) → n < f.bitmap_frames → taken bitmap n ≡ true

-- What `alloc_frame` promises: the address of the first free frame, which alone becomes taken, and
-- which holds no part of the bitmap; or null and no change, if no frame is free.
abbrev pub Allocates : FrameAllocator → Bitmap → ℕ × Bitmap → Type 0
Allocates f bitmap (ptr, bitmap') =
    ((ptr ≡ 0)
      × ((n : ℕ) → n < f.total_frames → taken bitmap n ≡ true)
      × ((n : ℕ) → taken bitmap' n ≡ taken bitmap n))
    ⊎ ((n : ℕ) × (ptr ≡ f.start + n * f.frame_size)
        × (f.bitmap_frames ≤ n)
        × (n < f.total_frames)
        × (taken bitmap n ≡ false)
        × ((m : ℕ) → m < n → taken bitmap m ≡ true)
        × ((m : ℕ) → taken bitmap' m ≡ (if m == n then true else taken bitmap m)))

behind_bitmap :
    (f : FrameAllocator) (bitmap : Bitmap) (n : ℕ)
    → IsValid f bitmap
    → taken bitmap n ≡ false
    → f.bitmap_frames ≤ n
behind_bitmap f bitmap n v free = elim (dec_lt n f.bitmap_frames) [
  | yes lt ↦ let t = v.reserved n lt in cc
  | no ge ↦ omega arith
]

Found-Allocates :
    (f : FrameAllocator) (bitmap : Bitmap) (rounds : ℕ) (r : ℕ × Bitmap)
    → IsValid f bitmap
    → f.total_frames ≤ rounds * 64
    → Found f bitmap 0 rounds r
    → Allocates f bitmap r
Found-Allocates f bitmap rounds r v room (inl (e, none_free)) = inl (
  ap (λ (p : ℕ × Bitmap). p.0) e,
  (λ n h. none_free n (omega arith) (omega arith) h),
  λ n. ap (λ (p : ℕ × Bitmap). taken p.1 n) e,
)
Found-Allocates f bitmap rounds r v room (inr (i, k, h, e, (small, free, first))) = inr (
  i * 64 + k,
  ap (λ (p : ℕ × Bitmap). p.0) e,
  behind_bitmap f bitmap (i * 64 + k) v free,
  small,
  free,
  (λ m lt. first m (omega arith) lt),
  λ m. ap (λ (p : ℕ × Bitmap). taken p.1 m) e ∙ taken-set bitmap i k m h,
)

-- In a valid allocator `alloc_frame` returns the address of the first free frame and takes that frame only,
-- or, if every frame is taken, returns null and changes none.
pub alloc_frame-Allocates :
    (f : FrameAllocator) (bitmap : Bitmap)
    → IsValid f bitmap
    → Allocates f bitmap (alloc_frame f bitmap)
unfolding alloc_frame
alloc_frame-Allocates f bitmap v =
    let rounds = f.bitmap_frames * f.frame_size / 8 in
    Found-Allocates f bitmap rounds _ v v.room (alloc_loop-Found rounds 0 f bitmap v.words)

-- In a valid allocator, giving back a frame of those it manages by its address makes that frame free, and
-- changes no other.
pub dealloc_frame-taken :
    (f : FrameAllocator) (bitmap : Bitmap) (n m : ℕ)
    → IsValid f bitmap
    → n < f.total_frames
    → taken (dealloc_frame f (f.start + n * f.frame_size) bitmap) m
      ≡ (if m == n then false else taken bitmap m)
unfolding dealloc_frame
dealloc_frame-taken f bitmap n m v h =
    let below : n * f.frame_size ≤ f.total_frames * f.frame_size = grind arith in
    let offset : sub64 (f.start + n * f.frame_size) f.start ≡ n * f.frame_size =
      (let s = v.in_space in omega arith) in
    let e = ap (λ x. x / f.frame_size) offset ∙ mul-div_left n v.size in
    rw e (taken-clear bitmap n m)

alloc-Words :
    (f : FrameAllocator) (bitmap : Bitmap) (rounds : ℕ) (r : ℕ × Bitmap)
    → Words bitmap
    → Found f bitmap 0 rounds r
    → Words r.1
alloc-Words f bitmap rounds r w (inl (e, _)) i = rw e (w i)
alloc-Words f bitmap rounds r w (inr (j, k, h, e, _)) i =
    rw e (ground (arith, w i, set_bit-lt 64 (bitmap j) k (w j) h))

-- An allocation, with or without a frame left, keeps a valid allocator valid.
pub alloc_frame-IsValid :
    (f : FrameAllocator) (bitmap : Bitmap) → IsValid f bitmap → IsValid f (alloc_frame f bitmap).1
alloc_frame-IsValid f bitmap v = record {
  words =
      unfold alloc_frame in
      alloc-Words f bitmap _ _ v.words
        (alloc_loop-Found (f.bitmap_frames * f.frame_size / 8) 0 f bitmap v.words);
  size = v.size;
  room = v.room;
  in_space = v.in_space;
  reserved = λ n h. kept (alloc_frame-Allocates f bitmap v) n (v.reserved n h);
}
  where
    kept :
        Allocates f bitmap (alloc_frame f bitmap)
        → (n : ℕ) → taken bitmap n ≡ true
        → taken (alloc_frame f bitmap).1 n ≡ true
    kept (inl (_, _, same)) n t = same n ∙ t
    kept (inr (m, _, _, _, _, _, set)) n t = ground (arith, set n)

-- Giving back a frame that holds no part of the bitmap keeps a valid allocator valid.
pub dealloc_frame-IsValid :
    (f : FrameAllocator) (bitmap : Bitmap) (n : ℕ)
    → IsValid f bitmap
    → f.bitmap_frames ≤ n
    → n < f.total_frames
    → IsValid f (dealloc_frame f (f.start + n * f.frame_size) bitmap)
dealloc_frame-IsValid f bitmap n v lo h = record {
  words = λ i.
      unfold dealloc_frame in
      ground (
        arith,
        v.words i,
        clear_bit-le (bitmap (sub64 (f.start + n * f.frame_size) f.start / f.frame_size / 64))
            (sub64 (f.start + n * f.frame_size) f.start / f.frame_size % 64),
      );
  size = v.size;
  room = v.room;
  in_space = v.in_space;
  reserved = λ m lt. ground (arith, dealloc_frame-taken f bitmap n m v h, v.reserved m lt);
}
