-- ===== src/Mm/FrameAllocator.antt =====
-- `BitMapFrameAllocator` of src/mm/frame_allocator.rs. The bitmap lies at the start of the region that
-- it manages: here it is a function from the index of a 64-bit word to the word. A null pointer is 0.
pub mod Frames
pub mod Search
pub mod Alloc
pub mod New
mod Tests
use kruspix.Base.{
  ℕ, zero, suc, ◌+◌, ◌-◌, ◌*◌, ◌/◌, ◌%◌, ◌^◌, ◌≡◌, Bool, true, false, ◌&&◌, if◌then◌else◌, ltb, leb,
  ◌==◌, add64, sub64,
}
use kruspix.Base.Outcome.{Outcome, ok, panic, ◌>>=◌, ◌>>◌, assert}
use kruspix.Base.Bits.{set_bit, clear_bit, trailing_ones}

pub record FrameAllocator : Type 0 where
  pub frame_size : ℕ
  pub total_frames : ℕ
  pub bitmap_frames : ℕ
  pub start : ℕ

abbrev pub Bitmap : Type 0
Bitmap = ℕ → ℕ

-- A write to word `index`.
abbrev pub write : ℕ → ℕ → Bitmap → Bitmap
write index value bitmap i = if i == index then value else bitmap i

abbrev pub word_max : ℕ
word_max = 2 ^ 64 - 1

-- `x.next_multiple_of(m)`, for a sum below the top of the address space
abbrev pub next_multiple_of : ℕ → ℕ → ℕ
next_multiple_of x m = (x + m - 1) / m * m

-- `is_power_of_two`, with fuel for the bits
unfoldable pub is_power_of_two : ℕ → ℕ → Bool
is_power_of_two zero x = false
is_power_of_two (suc fuel) x =
    let half = is_power_of_two fuel (x / 2) in
    if x == 1 then true else if x % 2 == 1 then false else half

-- `for i in 0..n { start.add(i).write_volatile(value) }`
unfoldable pub fill : ℕ → ℕ → Bitmap → Bitmap
fill zero value bitmap = bitmap
fill (suc n) value bitmap = write n value (fill n value bitmap)

-- The frames that lie in `start..start + size` and the first address of them.
unfoldable pub aligned : ℕ → ℕ → ℕ → ℕ × ℕ
aligned start size frame_size =
    let start_aligned = next_multiple_of start frame_size in
    let end = add64 start size in
    let end_aligned = next_multiple_of end frame_size in
    (
      start_aligned,
      sub64 (if ltb end end_aligned then end_aligned - frame_size else end_aligned) start_aligned,
    )

-- The bitmap of a new allocator: the frames that hold the bitmap are taken.
unfoldable pub init_bitmap : ℕ → ℕ → Bitmap → Bitmap
init_bitmap bitmap_frames frame_size bitmap =
    let zeroed = fill (bitmap_frames * frame_size / 8) 0 bitmap in
    let usize_to_mask = bitmap_frames / 64 in
    let remainder_bits = bitmap_frames % 64 in
    let masked = if ltb 0 usize_to_mask then fill usize_to_mask word_max zeroed else zeroed in
    if ltb 0 remainder_bits then write usize_to_mask (2 ^ remainder_bits - 1) masked else masked

unfoldable pub new : ℕ → ℕ → ℕ → Bitmap → Outcome (FrameAllocator × Bitmap)
new start size frame_size bitmap = do
  assert (is_power_of_two 64 frame_size)
  assert (frame_size % 8 == 0)
  assert (ltb (10 * frame_size % 2 ^ 64) size)
  let (start_aligned, size_aligned) = aligned start size frame_size
  let total_frames = size_aligned / frame_size
  let bitmap_frames = ((total_frames + 7) / 8 + frame_size - 1) / frame_size
  ok (
    record {
      frame_size = frame_size;
      total_frames = total_frames;
      bitmap_frames = bitmap_frames;
      start = start_aligned;
    },
    init_bitmap bitmap_frames frame_size bitmap,
  )

-- The loop of `alloc_frame`, with the rounds that are left. It returns the pointer and the bitmap.
unfoldable pub alloc_loop : ℕ → ℕ → FrameAllocator → Bitmap → ℕ × Bitmap
alloc_loop zero index f bitmap = (0, bitmap)
alloc_loop (suc rounds) index f bitmap =
    let next = alloc_loop rounds (index + 1) f bitmap in
    let chunk = bitmap index in
    let chunk_index = trailing_ones 64 chunk in
    let frame_index = index * 64 + chunk_index in
    if chunk == word_max
    then next
    else if leb f.total_frames frame_index
    then (0, bitmap)
    else (f.start + frame_index * f.frame_size, write index (set_bit chunk chunk_index) bitmap)

-- `bitmap_size` words, from index 0
unfoldable pub alloc_frame : FrameAllocator → Bitmap → ℕ × Bitmap
alloc_frame f bitmap = alloc_loop (f.bitmap_frames * f.frame_size / 8) 0 f bitmap

unfoldable pub dealloc_frame : FrameAllocator → ℕ → Bitmap → Bitmap
dealloc_frame f ptr bitmap =
    let frame_index = sub64 ptr f.start / f.frame_size in
    let index = frame_index / 64 in
    let chunk_index = frame_index % 64 in write index (clear_bit (bitmap index) chunk_index) bitmap
